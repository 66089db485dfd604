-- ===== src/NameCheck/Checked.antt =====
-- `convert_item_apis` of error_reporter.rs and `check_names` of name_check.rs, as whole runs.
use mathlib.Core.List.Memᴰ
use autocxx.Prelude.{
  ◌≤◌, ◌≡◌, ◌≢◌, refl, sym, subst, ap, ◌∙◌, Bool, List, [], ◌∷◌, Option, none, some, map, lookup,
  Text, list_eq, nat_eq, Distinct, Memᴰ, arith, Option-cases, inl, inr, ◌⊎◌,
}
use autocxx.Names.{QualifiedName, name_eq, Syn}
use autocxx.Api.{Api, api_name, name_info}
use autocxx.Api.Errors.{ConvertErrorFromCpp}
use autocxx.ApiVec.{ApiVec, ApiVec_new}
use autocxx.ApiVec.Collect.{extend-Distinct}
use autocxx.BridgeTypeNames.{Naming, declares_bridge_type, fixed_bridge_names}
use autocxx.BridgeTypeNames.Allocate.{IdentGrammar, NameLexes}
use autocxx.DepthFirst.Ranked.{Memᴰ-map-inv}
use autocxx.BridgeTypeNames.Run.{BridgeTypeNames_new-IsBridgeNaming}
use autocxx.NameCheck.{
  Refusal, Found, names_found, bridge_name, api_or_error, convert_items, convert_item_apis,
  name_error, bridge_error, clash_error, check_names,
}
use autocxx.NameCheck.Spelled.{spelled, AllLex, name_error_total, spelled-name}
use autocxx.NameCheck.Clashes.{named_once, count_named, names_found-length}

module _ (built_in : QualifiedName → Bool) where
  -- A note of an error, in place of an API.
  abbrev pub IsNote : Api → Type 0
  IsNote a = (x : Api) × (e : ConvertErrorFromCpp) × (a ≡ api_or_error built_in x (some e))

  api_name-api_or_error :
      (a : Api) (r : Refusal) → api_name (api_or_error built_in a r) ≡ api_name a
  unfolding api_or_error api_name name_info
  api_name-api_or_error a none = refl
  api_name-api_or_error a (some e) = refl

  IsNote-bridge_name :
      (names : List (QualifiedName × Text)) (a : Api) → IsNote a → bridge_name names a ≡ none
  unfolding bridge_name api_or_error declares_bridge_type fixed_bridge_names
  IsNote-bridge_name names a (x, e, same) = rw same refl

  module _ (fun : Api → Option Refusal) where
    pub record IsConverted (before after : List Api) : Type 0 where
      pub named : map api_name after ≡ map api_name before
      pub kept : (a : Api) → Memᴰ a after → (Memᴰ a before × (fun a ≡ some none)) ⊎ IsNote a

    convert_items-IsConverted :
        (apis : List Api)
        → ((a : Api) → Memᴰ a apis → fun a ≢ none)
        → (out : List Api) × (convert_items built_in fun apis ≡ some out) × IsConverted apis out
    unfolding convert_items
    convert_items-IsConverted [] total =
        ([], refl, record { named = refl; kept = λ a m. absurd (Memᴰ.not-nil m) })
    convert_items-IsConverted (x ∷ apis) total =
        let (rest, e, ok) = convert_items-IsConverted apis (λ a m. total a (Memᴰ.tail m)) in
        elim (Option-cases (fun x)) [
          | inl panic ↦ absurd (total x (Memᴰ.head refl) panic)
          | inr (r, f) ↦ (
            api_or_error built_in x r ∷ rest,
            rw (f, convert_items) (rw (e, convert_items) refl),
            record {
              named = rw (api_name-api_or_error x r, ok.named) refl;
              kept = λ a m. elim (Memᴰ.cases_cons m) [
                | inl here ↦ first_kept r f a here
                | inr later ↦ elim (ok.kept a later) [
                  | inl (k, fine) ↦ inl (Memᴰ.tail k, fine)
                  | inr note ↦ inr note
                ]
              ];
            },
          )
        ]
      where
        first_kept :
            (r : Refusal)
            → fun x ≡ some r
            → (a : Api) → a ≡ api_or_error built_in x r
            → (Memᴰ a (x ∷ apis) × (fun a ≡ some none)) ⊎ IsNote a
        first_kept none f a here = inl (Memᴰ.head here, ap fun here ∙ f)
        first_kept (some e) f a here = inr (x, e, here)

    pub convert_item_apis-IsConverted :
        (v : ApiVec)
        → ((a : Api) → Memᴰ a v.apis → fun a ≢ none)
        → Distinct (map api_name v.apis)
        → (out : ApiVec) × (convert_item_apis built_in fun v ≡ some out)
          × IsConverted v.apis out.apis
    unfolding convert_item_apis
    convert_item_apis-IsConverted v total d =
        let (out, e, ok) = convert_items-IsConverted v.apis total in
        (
          record { apis = out; names = map api_name out },
          rw (e, convert_item_apis)
              (extend-Distinct built_in ApiVec_new out (subst Distinct (sym ok.named) d)),
          ok,
        )

bridge_error_total :
    (naming : Naming) (found : Found) (api : Api) → bridge_error naming found api ≢ none
unfolding bridge_error
bridge_error_total naming found api = ground arith

-- An API that passes shares its bridge name with no other.
passes-once :
    (naming : Naming) (apis : List Api) (a : Api) (x : Text)
    → bridge_error naming (names_found naming.names [] apis) a ≡ some none
    → bridge_name naming.names a ≡ some x
    → count_named naming.names x apis ≤ 1
unfolding bridge_error clash_error
passes-once naming apis a x fine e = elim (Option-cases (lookup (api_name a) naming.unnameable)) [
  | inr (why, refused) ↦ ground arith
  | inl nameable ↦ ground (arith, names_found-length naming.names x [] apis)
]

-- What the check of names comes to.
pub record IsChecked (built_in : QualifiedName → Bool) (syn : Syn) (before after : List Api)
    (names : List (QualifiedName × Text)) : Type 0 where
  pub named : map api_name after ≡ map api_name before
  pub checked :
      (a : Api)
      → Memᴰ a after
      → (Memᴰ a before × (name_error syn a ≡ some none)) ⊎ IsNote built_in a
  pub unique :
      (a b : Api) (x : Text)
      → Memᴰ a after
      → Memᴰ b after
      → bridge_name names a ≡ some x
      → bridge_name names b ≡ some x
      → a ≡ b

-- On a list whose names are distinct the check returns, where its names, the C++ names among them,
-- are made of identifiers or reserved words, and the names that the bridge makes up of identifiers
-- are identifiers. Each API stays as it was, and then its names pass the checks, or a note of an
-- error stands in its place under its name. No two of the APIs that are left go by one name in the
-- bridge.
pub check_names-IsChecked :
    (built_in : QualifiedName → Bool) (syn : Syn) (grammar : IdentGrammar syn) (v : ApiVec)
    → Distinct (map api_name v.apis)
    → ((a : Api) → Memᴰ a v.apis → AllLex syn (spelled a))
    → (results : ApiVec) × (names : List (QualifiedName × Text)) × (check_names built_in syn v
        ≡ some (results, names))
      × IsChecked built_in syn v.apis results.apis names
unfolding check_names
check_names-IsChecked built_in syn grammar v d lex =
    let (mid, e₁, ok₁) =
      convert_item_apis-IsConverted built_in (name_error syn) v
        (λ a m. name_error_total syn a (lex a m)) d in
    let (naming, e₂, _) = BridgeTypeNames_new-IsBridgeNaming syn grammar mid.apis (λ a m declares.
      let (b, k, same) =
        Memᴰ-map-inv api_name (api_name a) v.apis
          (subst (Memᴰ (api_name a)) ok₁.named (Memᴰ.map api_name m)) in
      subst (NameLexes syn) same (spelled-name syn b (lex b k))) in
    let found = names_found naming.names [] mid.apis in
    let (results, e₃, ok₂) =
      convert_item_apis-IsConverted built_in (bridge_error naming found) mid
        (λ a m. bridge_error_total naming found a) (subst Distinct (sym ok₁.named) d) in
    let passed : (a : Api) (x : Text)
        → Memᴰ a results.apis
        → bridge_name naming.names a ≡ some x
        → Memᴰ a mid.apis × (bridge_error naming found a ≡ some none) =
      λ a x m e. elim (ok₂.kept a m) [
        | inl kept ↦ kept
        | inr note ↦ cc (IsNote-bridge_name built_in naming.names a note)
      ] in
    (
      results,
      naming.names,
      rw (e₁, check_names) (rw (e₂, check_names) (rw (e₃, check_names) refl)),
      record {
        named = ok₂.named ∙ ok₁.named;
        checked = λ a m. elim (ok₂.kept a m) [ inl (k, _) ↦ ok₁.kept a k | inr note ↦ inr note ];
        unique = λ a b x m k e f.
            let (there, fine) = passed a x m e in
            named_once naming.names x mid.apis a b (passes-once naming mid.apis a x fine e) there
              (passed b x k f).0 e f;
      },
    )
