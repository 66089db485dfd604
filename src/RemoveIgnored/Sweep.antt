-- ===== src/RemoveIgnored/Sweep.antt =====
-- What one pass of remove_ignored.rs makes of one API.
use mathlib.Core.List.Memᴰ
use autocxx.Prelude.{
  ◌≡◌, refl, subst, ap, Bool, true, false, ◌||◌, ◌&&◌, List, [], ◌∷◌, none, some, filter, contains,
  contains_iff, contains-to_set, lookup, lookup-insert, is_some, arith, Bool-cases, Option-cases,
  List-cases, inl, inr, ◌⊎◌, Memᴰ,
}
use autocxx.Names.{QualifiedName, name_eq, name_beq_iff}
use autocxx.Api.{Api, ignored_item, api_name, name_info, api_deps}
use autocxx.Api.Errors.{ConvertErrorFromCpp, ignored_dependent, unknown_dependent_type}
use autocxx.RemoveIgnored.{
  is_ignored, Reasons, first_missing, Settled, create_ignore_item, ignored_dependents, give_up,
  settle_dependents, settle,
}

abbrev pub has : Reasons → QualifiedName → Bool
has reasons n = is_some (lookup n reasons)

-- Every ignored item is among the reasons.
abbrev pub Covers : Reasons → Api → Type 0
Covers reasons api = is_ignored api ≡ true → has reasons (api_name api) ≡ true

pub ignored_no_deps : (api : Api) → is_ignored api ≡ true → api_deps api ≡ []
unfolding is_ignored api_deps
ignored_no_deps (ignored_item _ _ _) h = refl
ignored_no_deps _ h = cc

first_missing-known :
    (known : QualifiedName → Bool) (deps : List QualifiedName)
    → first_missing known deps ≡ none
    → (dep : QualifiedName) → Memᴰ dep deps
    → known dep ≡ true
unfolding first_missing
first_missing-known known [] e dep m = absurd (Memᴰ.not-nil m)
first_missing-known known (d ∷ deps) e dep m = elim (Memᴰ.cases_cons m) [
  | inl here ↦ rw here (ground arith)
  | inr later ↦ first_missing-known known deps (ground arith) dep later
]

contains-filter :
    (p : QualifiedName → Bool) (xs : List QualifiedName) (a : QualifiedName)
    → contains (filter p xs) a ≡ (contains xs a && p a)
contains-filter p [] a = refl
contains-filter p (x ∷ xs) a = ground (arith, contains-filter p xs a, name_beq_iff x a)

module _ (built_in is_known_type : QualifiedName → Bool) (valid : List QualifiedName) where
  -- No dependency is an ignored item, and each is a known type.
  abbrev pub IsSound : Reasons → Api → Type 0
  IsSound reasons api =
      (dep : QualifiedName)
      → Memᴰ dep (api_deps api)
      → (has reasons dep ≡ false) × ((contains valid dep || is_known_type dep) ≡ true)

  pub record IsKept (reasons : Reasons) (api : Api) (s : Settled) : Type 0 where
    pub same : s.api ≡ api
    pub reasons_same : s.reasons ≡ reasons
    pub quiet : s.again ≡ false
    pub sound : IsSound reasons api

  pub record IsDropped (reasons : Reasons) (api : Api) (s : Settled) : Type 0 where
    pub ignored : is_ignored s.api ≡ true
    pub live : is_ignored api ≡ false
    pub named : name_info s.api ≡ name_info api
    pub loud : s.again ≡ true
    pub added :
        (n : QualifiedName) → has s.reasons n ≡ (name_eq.beq (api_name api) n || has reasons n)

  give_up-IsDropped :
      (reasons : Reasons) (api : Api) (reason err : ConvertErrorFromCpp)
      → is_ignored api ≡ false
      → IsDropped reasons api (give_up built_in is_known_type reasons api reason err)
  unfolding give_up create_ignore_item is_ignored name_info
  give_up-IsDropped reasons api reason err live = record {
    ignored = refl;
    live = live;
    named = refl;
    loud = refl;
    added = λ n. ground (arith, lookup-insert (api_name api) n reason reasons);
  }

  dependents_lem :
      (reasons : Reasons) (api : Api) (dep : QualifiedName)
      → contains (ignored_dependents built_in is_known_type reasons api) dep
        ≡ (contains (api_deps api) dep && has reasons dep)
  unfolding ignored_dependents
  dependents_lem reasons api dep = ground (
    arith,
    contains-to_set [] (filter (has reasons) (api_deps api)) dep,
    contains-filter (has reasons) (api_deps api) dep,
  )

  depends-live :
      (api : Api) (dep : QualifiedName) → Memᴰ dep (api_deps api) → is_ignored api ≡ false
  depends-live api dep m = elim (Bool-cases (is_ignored api)) [
    | inl ignored ↦ absurd (Memᴰ.not-nil (subst (Memᴰ dep) (ignored_no_deps api ignored) m))
    | inr live ↦ live
  ]

  first_missing-mem :
      (known : QualifiedName → Bool) (deps : List QualifiedName) (dep : QualifiedName)
      → first_missing known deps ≡ some dep
      → Memᴰ dep deps
  unfolding first_missing
  first_missing-mem known [] dep e = cc
  first_missing-mem known (d ∷ deps) dep e = elim (Bool-cases (known d)) [
    | inl fine ↦ Memᴰ.tail (first_missing-mem known deps dep (ground arith))
    | inr missing ↦ Memᴰ.head (ground arith)
  ]

  module _ (reasons : Reasons) (api : Api) where
    unignored :
        ignored_dependents built_in is_known_type reasons api ≡ []
        → (s : Settled) × (settle built_in is_known_type valid reasons api ≡ some s)
          × (IsKept reasons api s ⊎ IsDropped reasons api s)
    unfolding settle settle_dependents
    unignored free =
        let known : QualifiedName → Bool = λ dep. contains valid dep || is_known_type dep in
        elim (Option-cases (first_missing known (api_deps api))) [
          | inl fine ↦ (
            record { api = api; reasons = reasons; again = false },
            rw (free, settle_dependents, fine) refl,
            inl (record {
              same = refl;
              reasons_same = refl;
              quiet = refl;
              sound = λ dep m. (
                ground (
                  arith,
                  dependents_lem reasons api dep,
                  contains_iff (api_deps api) dep,
                  ap (λ l. contains l dep) free,
                ),
                first_missing-known known (api_deps api) fine dep m,
              );
            }),
          )
          | inr (dep, missing) ↦
              let live =
                depends-live api dep (first_missing-mem known (api_deps api) dep missing) in
              (
                give_up built_in is_known_type reasons api (unknown_dependent_type dep)
                    (unknown_dependent_type dep),
                rw (free, settle_dependents, missing) refl,
                inr (
                    give_up-IsDropped reasons api (unknown_dependent_type dep)
                      (unknown_dependent_type dep) live),
              )
        ]

  -- An API stays as it is and is sound, or it was live and becomes a stub of the same name.
  pub settle-cases :
      (reasons : Reasons) (api : Api)
      → (s : Settled) × (settle built_in is_known_type valid reasons api ≡ some s)
        × (IsKept reasons api s ⊎ IsDropped reasons api s)
  unfolding settle
  settle-cases reasons api =
      elim (List-cases (ignored_dependents built_in is_known_type reasons api)) [
        | inl free ↦ unignored reasons api free
        | inr (culprit, more, e) ↦
            let there : contains (culprit ∷ more) culprit ≡ true =
              ground (arith, name_beq_iff culprit culprit) in
            let both = dependents_lem reasons api culprit in
            elim (Option-cases (lookup culprit reasons)) [
              | inl absent ↦ ground (arith, both, there, ap (λ l. contains l culprit) e)
              | inr (reason, found) ↦
                  let err = ignored_dependent (culprit ∷ more) culprit reason in
                  let m : Memᴰ culprit (api_deps api) =
                    (contains_iff (api_deps api) culprit).0
                      (ground (arith, both, there, ap (λ l. contains l culprit) e)) in
                  (
                    give_up built_in is_known_type reasons api reason err,
                    rw (e, settle_dependents, found) refl,
                    inr (give_up-IsDropped reasons api reason err (depends-live api culprit m)),
                  )
            ]
      ]
