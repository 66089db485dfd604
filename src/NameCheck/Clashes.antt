-- ===== src/NameCheck/Clashes.antt =====
-- The bookkeeping of name_check.rs: which items share a bridge name, and what a conversion keeps.
use mathlib.Core.List.Memᴰ
use autocxx.Prelude.{
  ℕ, suc, ◌+◌, ◌≤◌, ◌<◌, ◌≡◌, refl, sym, ap, ◌∙◌, Bool, List, [], ◌∷◌, ◌++◌, Option, none, some,
  length, length-append, lookup-insert, arith, if◌then◌else◌, ◌==◌, Text, list_eq, nat_eq,
  list_beq_iff, option_beq, option_eq, option_beq_iff, Memᴰ, inl, inr,
}
use autocxx.Names.{QualifiedName, name_eq, display}
use autocxx.Api.{Api, api_name}
use autocxx.NameCheck.{Found, symbols_for, note_name, names_found, bridge_name}

-- How many APIs go by a name in the bridge.
module _ (names : List (QualifiedName × Text)) (x : Text) where
  goes_by : Api → Bool
  goes_by api = bridge_name names api == some x

  pub count_named : List Api → ℕ
  unfolding goes_by
  count_named [] = 0
  count_named (api ∷ apis) = if goes_by api then suc (count_named apis) else count_named apis

  note_name-length :
      (found : Found) (chosen : Option Text) (q : QualifiedName)
      → length (symbols_for x (note_name found chosen q)) ≡ (
          if option_beq chosen (some x)
          then suc (length (symbols_for x found))
          else length (symbols_for x found))
  unfolding note_name
  note_name-length found none q = refl
  note_name-length found (some y) q = ground (
    arith,
    lookup-insert y x (symbols_for y found ++ display q ∷ []) found,
    length-append (symbols_for x found) (display q ∷ []),
    list_beq_iff y x,
  )

  pub names_found-length :
      (found : Found) (apis : List Api)
      → length (symbols_for x (names_found names found apis))
        ≡ length (symbols_for x found) + count_named apis
  unfolding names_found count_named goes_by
  names_found-length found [] = omega arith
  names_found-length found (api ∷ apis) = ground (
    arith,
    names_found-length (note_name found (bridge_name names api) (api_name api)) apis,
    note_name-length found (bridge_name names api) (api_name api),
  )

  count_named-mem :
      (apis : List Api) (a : Api)
      → Memᴰ a apis
      → bridge_name names a ≡ some x
      → 0 < count_named apis
  unfolding count_named goes_by
  count_named-mem [] a m e = absurd (Memᴰ.not-nil m)
  count_named-mem (y ∷ apis) a m e = elim (Memᴰ.cases_cons m) [
    | inl here ↦
        let this : bridge_name names y ≡ some x = ap (bridge_name names) (sym here) ∙ e in
        ground (arith, this, option_beq_iff (bridge_name names y) (some x))
    | inr later ↦ ground (arith, count_named-mem apis a later e)
  ]

  -- A name that one API at most goes by tells the APIs apart.
  pub named_once :
      (apis : List Api) (a b : Api)
      → count_named apis ≤ 1
      → Memᴰ a apis
      → Memᴰ b apis
      → bridge_name names a ≡ some x
      → bridge_name names b ≡ some x
      → a ≡ b
  unfolding count_named goes_by
  named_once [] a b one m k e f = absurd (Memᴰ.not-nil m)
  named_once (y ∷ apis) a b one m k e f = elim (Memᴰ.cases_cons m) [
    | inl here ↦ elim (Memᴰ.cases_cons k) [
      | inl too ↦ here ∙ sym too
      | inr later ↦
          let this : bridge_name names y ≡ some x = ap (bridge_name names) (sym here) ∙ e in
          ground (
            arith,
            this,
            option_beq_iff (bridge_name names y) (some x),
            count_named-mem apis b later f,
          )
    ]
    | inr later ↦ elim (Memᴰ.cases_cons k) [
      | inl here ↦
          let this : bridge_name names y ≡ some x = ap (bridge_name names) (sym here) ∙ f in
          ground (
            arith,
            this,
            option_beq_iff (bridge_name names y) (some x),
            count_named-mem apis a later e,
          )
      | inr too ↦ named_once apis a b (ground arith) later too e f
    ]
  ]
