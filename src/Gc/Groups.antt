-- ===== src/Gc/Groups.antt =====
-- The first loop of gc.rs: the APIs by name.
use mathlib.Core.List.Memᴰ
use mathlib.Core.List.Permᴰ
use autocxx.Prelude.{
  ◌≡◌, refl, ap, Bool, not, List, [], ◌∷◌, ◌++◌, append_assoc, none, some, map, filter, lookup,
  insert, remove, Distinct, Distinct-perm, arith, ◌==◌, Bool-cases, inl, inr, ◌⊎◌, Memᴰ, append-nil,
}
use autocxx.Names.{QualifiedName, name_eq, name_beq_iff}
use autocxx.Api.{Api, api_name}
use autocxx.ApiVec.{ApiVec, ApiVec_new}
use autocxx.ApiVec.Collect.{push-new}
use autocxx.Gc.{ByName, group_by_name}

abbrev pub single : Api → ApiVec
single a = record { apis = a ∷ []; names = api_name a ∷ [] }

abbrev pub entries : List Api → ByName
entries apis = map (λ a. (api_name a, single a)) apis

lookup-absent :
    (n : QualifiedName) (apis : List Api)
    → (¬ Memᴰ n (map api_name apis))
    → lookup n (entries apis) ≡ none
lookup-absent n [] new = refl
lookup-absent n (x ∷ apis) new =
    let ih = lookup-absent n apis (λ m. new (Memᴰ.tail m)) in
    ground (arith, ih, name_beq_iff (api_name x) n, λ (e : n ≡ api_name x). new (Memᴰ.head e))

insert-absent :
    (a : Api) (apis : List Api)
    → (¬ Memᴰ (api_name a) (map api_name apis))
    → insert (api_name a) (single a) (entries apis) ≡ entries (apis ++ a ∷ [])
insert-absent a [] new = refl
insert-absent a (x ∷ apis) new =
    let ih = insert-absent a apis (λ m. new (Memᴰ.tail m)) in
    ground (
      arith,
      ih,
      name_beq_iff (api_name x) (api_name a),
      λ (e : api_name a ≡ api_name x). new (Memᴰ.head e),
    )

map-append : (xs ys : List Api) → map api_name (xs ++ ys) ≡ map api_name xs ++ map api_name ys
map-append [] ys = refl
map-append (x ∷ xs) ys = ap (λ l. api_name x ∷ l) (map-append xs ys)

pub group_by_name-entries :
    (built_in : QualifiedName → Bool) (first apis : List Api)
    → Distinct (map api_name (first ++ apis))
    → group_by_name built_in (entries first) apis ≡ some (entries (first ++ apis))
unfolding group_by_name
group_by_name-entries built_in first [] d = rw append-nil refl
group_by_name-entries built_in first (x ∷ apis) d =
    let new : ¬ Memᴰ (api_name x) (map api_name first) = λ m.
      (Distinct-perm (Permᴰ.middle (api_name x) (map api_name first) (map api_name apis))
          (rw (map-append first (x ∷ apis)) at d)).0
        (Memᴰ.append_left (map api_name apis) m) in
    let ih =
      group_by_name-entries built_in (first ++ x ∷ []) apis
        (rw (append_assoc first (x ∷ []) apis) d) in
    rw (lookup-absent (api_name x) first new, group_by_name)
      (rw (push-new built_in ApiVec_new x Memᴰ.not-nil, insert-absent x first new, group_by_name)
        (rw (← append_assoc first (x ∷ []) apis) ih))

pub lookup-entries :
    (n : QualifiedName) (apis : List Api)
    → ((lookup n (entries apis) ≡ none) × (¬ Memᴰ n (map api_name apis)))
      ⊎ ((a : Api) × (lookup n (entries apis) ≡ some (single a)) × Memᴰ a apis × (api_name a ≡ n))
lookup-entries n [] = inl (refl, Memᴰ.not-nil)
lookup-entries n (x ∷ apis) = elim (Bool-cases (api_name x == n)) [
  | inl this ↦ inr (x, rw this refl, Memᴰ.head refl, (name_beq_iff (api_name x) n).0 this)
  | inr other ↦ elim (lookup-entries n apis) [
    | inl (absent, new) ↦ inl (
      rw other absent,
      λ m. elim (Memᴰ.cases_cons m) [
        | inl e ↦ ground (arith, name_beq_iff (api_name x) n)
        | inr later ↦ new later
      ],
    )
    | inr (a, found, m, e) ↦ inr (a, rw other found, Memᴰ.tail m, e)
  ]
]

abbrev pub without : QualifiedName → List Api → List Api
without n apis = filter (λ a. not (api_name a == n)) apis

pub remove-entries :
    (n : QualifiedName) (apis : List Api) → remove n (entries apis) ≡ entries (without n apis)
remove-entries n [] = refl
remove-entries n (x ∷ apis) = ground (arith, remove-entries n apis)
