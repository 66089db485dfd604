-- ===== src/ApiVec/Stubs.antt =====
-- Filing, moving and taking out the stubs of displaced functions of apivec.rs.
use mathlib.Core.List.Memᴰ
use autocxx.Prelude.{
  ℕ, zero, suc, ◌+◌, ◌<◌, ◌≡◌, ◌≢◌, refl, sym, subst, ap, ◌∙◌, true, false, ◌&&◌, List, [], ◌∷◌,
  ◌++◌, none, some, map, contains, set_remove, set_remove-absent, length, arith, ◌==◌, Bool-cases,
  inl, inr, Memᴰ, Distinct, All, Text, decimal_injective, append_cancel_left, free_candidate,
  Option-cases, contains-set_remove, contains-set_insert, All-mem, Distinct-set_remove,
}
use autocxx.Names.{QualifiedName, name_eq, name_beq_iff}
use autocxx.Api.{Api, api_name, name_info, new_from_qualified_name}
use autocxx.Api.Errors.{new_for_displaced_item}
use autocxx.ApiVec.{
  ApiVec, is_displaced_function, displaced_function_name, insert_api, already_contains, take_stub,
  take_displaced_function, numbered, free_name_from, first_free_name, displaced_stub,
  record_displaced_function, refile_displaced_function, displaced_suffix, displaced_name_in,
}
use autocxx.ApiVec.Names.{IsFiled, IsValid, insert_api-IsValid}

item_of : QualifiedName → Text
item_of n = n.item

numbered_injective : (base : QualifiedName) (m n : ℕ) → numbered base m ≡ numbered base n → m ≡ n
unfolding item_of
numbered_injective base m n h = decimal_injective m n (append_cancel_left base.item (ap item_of h))

free_name_from-finds :
    (v : ApiVec) (base : QualifiedName) (fuel counter k : ℕ)
    → k < fuel
    → contains v.names (numbered base (counter + k)) ≡ false
    → free_name_from fuel v base counter ≢ none
unfolding free_name_from already_contains
free_name_from-finds v base zero counter k lt free = absurd (omega arith)
free_name_from-finds v base (suc fuel) counter zero lt free = ground arith
free_name_from-finds v base (suc fuel) counter (suc k) lt free =
    let ih = free_name_from-finds v base fuel (counter + 1) k (omega arith) (ground arith) in
    ground (arith, ih)

-- A free name is found within the fuel.
first_free_name_total : (v : ApiVec) (base : QualifiedName) → first_free_name v base ≢ none
unfolding first_free_name
first_free_name_total v base =
    let (k, within, free) = free_candidate (numbered base) (numbered_injective base) v.names 1 in
    let found = free_name_from-finds v base (suc (length v.names)) 1 k (omega arith) free in
    ground (arith, found)

free_name_from_free :
    (v : ApiVec) (base : QualifiedName) (fuel counter : ℕ) (n : QualifiedName)
    → free_name_from fuel v base counter ≡ some n
    → contains v.names n ≡ false
unfolding free_name_from already_contains
free_name_from_free v base zero counter n e = cc
free_name_from_free v base (suc fuel) counter n e =
    ground (arith, free_name_from_free v base fuel (counter + 1) n)

first_free_name_free :
    (v : ApiVec) (base n : QualifiedName)
    → first_free_name v base ≡ some n
    → contains v.names n ≡ false
unfolding first_free_name already_contains
first_free_name_free v base n e =
    ground (arith, free_name_from_free v base (suc (length v.names)) 1 n)

pub insert_keeps :
    (v : ApiVec) (api : Api) (n : QualifiedName)
    → contains v.names n ≡ true
    → contains (insert_api v api).names n ≡ true
unfolding insert_api
insert_keeps v api n h = ground (arith, contains-set_insert (api_name api) v.names n)

module _ (lookup : Text) (filed : QualifiedName) where
  stub_is_new :
      (names : List QualifiedName)
      → contains names filed ≡ false
      → contains names (api_name (displaced_stub lookup filed)) ≡ false
  unfolding api_name name_info new_from_qualified_name
  stub_is_new names h = h

  stub-IsFiled : IsFiled (displaced_stub lookup filed)
  unfolding displaced_function_name displaced_name_in new_for_displaced_item
  stub-IsFiled h = λ e. cc

-- Filing a stub succeeds and keeps the list valid, all APIs and all names.
pub record_displaced_function-IsValid :
    (v : ApiVec) (hidden : QualifiedName)
    → IsValid v
    → (v' : ApiVec) × (record_displaced_function v hidden ≡ some v')
      × IsValid v'
      × ((n : QualifiedName) → contains v.names n ≡ true → contains v'.names n ≡ true)
unfolding record_displaced_function
record_displaced_function-IsValid v hidden valid =
    let base = record hidden { item = hidden.item ++ displaced_suffix } in
    elim (Option-cases (first_free_name v base)) [
      | inl stuck ↦ absurd (first_free_name_total v base stuck)
      | inr (filed, e) ↦ (
        insert_api v (displaced_stub hidden.item filed),
        rw (e, record_displaced_function) refl,
        insert_api-IsValid v valid (displaced_stub hidden.item filed)
            (stub_is_new hidden.item filed v.names (first_free_name_free v base filed e))
            (stub-IsFiled hidden.item filed),
        insert_keeps v (displaced_stub hidden.item filed),
      )
    ]

-- Filing a stub of one that is there to be filed.
pub refile_displaced_function-IsValid :
    (v : ApiVec) (stub : Api)
    → IsValid v
    → displaced_function_name stub ≢ none
    → (v' : ApiVec) × (refile_displaced_function v stub ≡ some v')
      × IsValid v'
      × ((n : QualifiedName) → contains v.names n ≡ true → contains v'.names n ≡ true)
unfolding refile_displaced_function
refile_displaced_function-IsValid v stub valid ok =
    elim (Option-cases (displaced_function_name stub)) [
      | inl absent ↦ absurd (ok absent)
      | inr (name, e) ↦
          let (v', filed, valid', kept) =
            record_displaced_function-IsValid v (record (api_name stub) { item = name }) valid in
          (v', rw (e, refile_displaced_function) filed, valid', kept)
    ]

record IsTaken (name : QualifiedName) (apis : List Api) (stub : Api) (rest : List Api)
    : Type 0 where
  named : api_name stub ≡ name
  displaced : is_displaced_function stub ≡ true
  there : Memᴰ stub apis
  names_left : set_remove name (map api_name apis) ≡ map api_name rest
  filed_left : All IsFiled apis → All IsFiled rest

take_stub-IsTaken :
    (name : QualifiedName) (apis : List Api) (stub : Api) (rest : List Api)
    → Distinct (map api_name apis)
    → take_stub name apis ≡ some (stub, rest)
    → IsTaken name apis stub rest
unfolding take_stub
take_stub-IsTaken name [] stub rest d e = cc
take_stub-IsTaken name (x ∷ apis) stub rest d e =
    elim (Bool-cases (api_name x == name && is_displaced_function x)) [
      | inl this ↦
          let same : x ≡ stub = ground arith in
          let left : apis ≡ rest = ground arith in
          let named : api_name x ≡ name = ground (arith, name_beq_iff (api_name x) name) in
          let gone = set_remove-absent (api_name x) (map api_name apis) d.0 in
          record {
            named = rw (← same) named;
            displaced = rw (← same) (ground arith);
            there = Memᴰ.head (sym same);
            names_left = rw (← left) (ground (arith, gone, named, name_beq_iff (api_name x) name));
            filed_left = λ h. rw (← left) h.1;
          }
      | inr other ↦ elim (Option-cases (take_stub name apis)) [
        | inl absent ↦ ground arith
        | inr ((s, r), found) ↦
            let ih = take_stub-IsTaken name apis s r d.1 found in
            let same : s ≡ stub = ground arith in
            let left : x ∷ r ≡ rest = ground arith in
            let differs : api_name x ≢ name = λ clash. d.0 (
              subst (λ n. Memᴰ n (map api_name apis)) (ih.named ∙ sym clash)
                (Memᴰ.map api_name ih.there)) in
            record {
              named = rw (← same) ih.named;
              displaced = rw (← same) ih.displaced;
              there = rw (← same) (Memᴰ.tail ih.there);
              names_left =
                  rw (← left)
                    (ground (arith, ih.names_left, name_beq_iff (api_name x) name, differs));
              filed_left = λ h. rw (← left) (h.0, ih.filed_left h.1);
            }
      ]
    ]

-- Taking out the stub of a name leaves a valid list in which that name is free.
pub take_displaced_function-IsValid :
    (v : ApiVec) (name : QualifiedName) (stub : Api) (v' : ApiVec)
    → IsValid v
    → take_displaced_function v name ≡ some (stub, v')
    → IsValid v'
      × (contains v'.names name ≡ false)
      × (displaced_function_name stub ≢ none)
      × ((n : QualifiedName) → n ≢ name → contains v.names n ≡ true → contains v'.names n ≡ true)
unfolding take_displaced_function
take_displaced_function-IsValid v name stub v' valid e =
    elim (Option-cases (take_stub name v.apis)) [
      | inl absent ↦ ground arith
      | inr ((s, rest), found) ↦
          let distinct : Distinct (map api_name v.apis) = rw valid.indexed at valid.distinct in
          let t = take_stub-IsTaken name v.apis s rest distinct found in
          let same : s ≡ stub = ground arith in
          let left : record { apis = rest; names = set_remove (api_name s) v.names } ≡ v' =
            ground arith in
          let names : v'.names ≡ set_remove name v.names = cc (t.named) in
          let apis : v'.apis ≡ rest = cc in
          (
            record {
              indexed =
                  rw (names, apis)
                    (subst (λ l. set_remove name l ≡ map api_name rest) (sym valid.indexed)
                      t.names_left);
              distinct = rw names (Distinct-set_remove name v.names valid.distinct);
              filed = rw apis (t.filed_left valid.filed);
            },
            rw names
                (ground (arith, contains-set_remove name v.names name, name_beq_iff name name)),
            rw (← same) (All-mem IsFiled v.apis valid.filed t.there t.displaced),
            λ n other h.
                rw names
                  (ground (arith, contains-set_remove name v.names n, name_beq_iff name n, other)),
          )
    ]
