-- ===== src/ApiVec/Names.antt =====
-- The invariant of the list of apivec.rs, with `insert` and `retain`.
use mathlib.Core.List.Memᴰ
use autocxx.Prelude.{
  ◌≡◌, ◌≢◌, refl, ap, Bool, true, false, not, List, [], ◌∷◌, ◌++◌, none, map, filter, contains,
  set_insert, to_set-Distinct, arith, ◌==◌, Bool-cases, inl, inr, Memᴰ, Distinct, Distinct-snoc,
  All, not_mem_of_contains,
}
use autocxx.Names.{QualifiedName, name_eq, name_beq_iff}
use autocxx.Api.{Api, api_name}
use autocxx.ApiVec.{ApiVec, is_displaced_function, displaced_function_name, insert_api, retain}

-- A stub of a displaced function says which function it stands for.
abbrev pub IsFiled : Api → Type 0
IsFiled api = is_displaced_function api ≡ true → displaced_function_name api ≢ none

-- The set of names lists the names of the APIs, and no name stands twice.
pub record IsValid (v : ApiVec) : Type 0 where
  pub indexed : v.names ≡ map api_name v.apis
  pub distinct : Distinct v.names
  pub filed : All IsFiled v.apis

pub map-snoc :
    (apis : List Api) (api : Api)
    → map api_name (apis ++ api ∷ []) ≡ map api_name apis ++ api_name api ∷ []
map-snoc [] api = refl
map-snoc (x ∷ apis) api = ap (λ l. api_name x ∷ l) (map-snoc apis api)

All-snoc :
    (apis : List Api) (api : Api) → All IsFiled apis → IsFiled api → All IsFiled (apis ++ api ∷ [])
All-snoc [] api h k = (k, tt)
All-snoc (x ∷ apis) api h k = (h.0, All-snoc apis api h.1 k)

module _ (v : ApiVec) (valid : IsValid v) where
  open valid use {indexed, distinct, filed}

  pub insert_api-IsValid :
      (api : Api)
      → contains v.names (api_name api) ≡ false
      → IsFiled api
      → IsValid (insert_api v api)
  unfolding insert_api
  insert_api-IsValid api new ok =
      let inserted : set_insert (api_name api) v.names ≡ v.names ++ api_name api ∷ [] =
        ground arith in
      record {
        indexed = rw (inserted, map-snoc, indexed);
        distinct = rw inserted (
            Distinct-snoc v.names (api_name api) distinct
              (not_mem_of_contains v.names (api_name api) new));
        filed = All-snoc v.apis api filed ok;
      }

Memᴰ-map-filter :
    (p : Api → Bool) (apis : List Api) (n : QualifiedName)
    → Memᴰ n (map api_name (filter p apis))
    → Memᴰ n (map api_name apis)
Memᴰ-map-filter p [] n m = m
Memᴰ-map-filter p (x ∷ apis) n m = elim (Bool-cases (p x)) [
  | inl kept ↦ elim (Memᴰ.cases_cons (rw kept at m)) [
    | inl e ↦ Memᴰ.head e
    | inr later ↦ Memᴰ.tail (Memᴰ-map-filter p apis n later)
  ]
  | inr gone ↦ Memᴰ.tail (Memᴰ-map-filter p apis n (rw gone at m))
]

Distinct-filter :
    (p : Api → Bool) (apis : List Api)
    → Distinct (map api_name apis)
    → Distinct (map api_name (filter p apis))
Distinct-filter p [] d = tt
Distinct-filter p (x ∷ apis) d = elim (Bool-cases (p x)) [
  | inl kept ↦
      rw kept (λ m. d.0 (Memᴰ-map-filter p apis (api_name x) m), Distinct-filter p apis d.1)
  | inr gone ↦ rw gone (Distinct-filter p apis d.1)
]

All-filter : (p : Api → Bool) (apis : List Api) → All IsFiled apis → All IsFiled (filter p apis)
All-filter p [] h = tt
All-filter p (x ∷ apis) h = elim (Bool-cases (p x)) [
  | inl kept ↦ rw kept (h.0, All-filter p apis h.1)
  | inr gone ↦ rw gone (All-filter p apis h.1)
]

pub retain-IsValid : (v : ApiVec) (f : Api → Bool) → IsValid v → IsValid (retain f v)
unfolding retain
retain-IsValid v f valid =
    let d = Distinct-filter f v.apis (rw valid.indexed at valid.distinct) in
    let names = to_set-Distinct [] (map api_name (filter f v.apis)) d in
    record { indexed = names; distinct = rw names d; filed = All-filter f v.apis valid.filed }

filter-removes :
    (n : QualifiedName) (apis : List Api)
    → contains (map api_name (filter (λ stored. not (api_name stored == n)) apis)) n ≡ false
filter-removes n [] = refl
filter-removes n (x ∷ apis) = ground (arith, filter-removes n apis, name_beq_iff (api_name x) n)

-- Dropping every API of a name frees the name.
pub retain_frees :
    (v : ApiVec) (n : QualifiedName)
    → IsValid v
    → contains (retain (λ stored. not (api_name stored == n)) v).names n ≡ false
unfolding retain
retain_frees v n valid =
    let kept = retain-IsValid v (λ stored. not (api_name stored == n)) valid in
    rw kept.indexed (filter-removes n v.apis)
