-- ===== src/ByValue/Positions.antt =====
-- The positions that `structs_in_dependency_order` has for the structs.
use mathlib.Core.List.Memᴰ
use autocxx.Prelude.{
  ℕ, zero, suc, ◌+◌, ◌<◌, ◌≡◌, ◌↔◌, refl, sym, ap, ◌∙◌, subst, List, [], ◌∷◌, some, map, length,
  lookup, insert, lookup-insert, some_injective, arith, Bool-cases, Option-cases, inl, inr, Memᴰ,
  Distinct,
}
use autocxx.Names.{QualifiedName, name_eq}
use autocxx.DepthFirst.Ranked.{Memᴰ-map-inv}
use autocxx.ByValue.Data.{ItemStruct, FieldDependency}
use autocxx.ByValue.Fields.{get_field_dependencies}
use autocxx.ByValue.Order.{positions_from, dependencies_in, struct_at, dependencies_at, structs_at}

-- Every position of a struct is one of its list.
Below : ℕ → List (QualifiedName × ℕ) → Type 0
Below bound positions = (k : QualifiedName) (v : ℕ) → lookup k positions ≡ some v → v < bound

positions_from-Below :
    (n : ℕ) (positions : List (QualifiedName × ℕ)) (structs : List ItemStruct)
    → Below n positions
    → Below (n + length structs) (positions_from n positions structs)
unfolding positions_from Below
positions_from-Below n positions [] below = λ k v e. omega (arith, below k v e)
positions_from-Below n positions (def ∷ structs) below =
    let next : Below (suc n) (insert def.name n positions) = λ k v e.
      let found = sym (lookup-insert def.name k n positions) ∙ e in
      elim (Bool-cases (name_eq.beq def.name k)) [
        | inl same ↦ let here : n ≡ v = some_injective (rw same at found) in omega (arith, here)
        | inr other ↦ let lt = below k v (rw other at found) in omega (arith, lt)
      ] in
    let ih = positions_from-Below (suc n) (insert def.name n positions) structs next in
    λ k v e. omega (arith, ih k v e)

dependencies_in-Below :
    (bound : ℕ) (positions : List (QualifiedName × ℕ)) (fields : List FieldDependency)
    → Below bound positions
    → (d : ℕ) → Memᴰ d (dependencies_in positions fields)
    → d < bound
unfolding dependencies_in Below
dependencies_in-Below bound positions [] below d m = absurd (Memᴰ.not-nil m)
dependencies_in-Below bound positions (field ∷ fields) below d m =
    elim (Option-cases (lookup field.ty positions)) [
      | inl unknown ↦
          dependencies_in-Below bound positions fields below d (rw (unknown, dependencies_in) at m)
      | inr (v, known) ↦ elim (Memᴰ.cases_cons (rw (known, dependencies_in) at m)) [
        | inl same ↦ rw same (below field.ty v known)
        | inr later ↦ dependencies_in-Below bound positions fields below d later
      ]
    ]

pub dependencies_at-in_range :
    (structs : List ItemStruct) (p d : ℕ) → Memᴰ d (dependencies_at structs p) → d < length structs
unfolding dependencies_at Below
dependencies_at-in_range structs p d m = elim (Option-cases (struct_at structs p)) [
  | inl none_there ↦ absurd (Memᴰ.not-nil (rw (none_there, dependencies_at) at m))
  | inr (def, there) ↦
      let below : Below (0 + length structs) (positions_from 0 [] structs) =
        positions_from-Below 0 [] structs (λ k v e. cc) in
      let lt =
        dependencies_in-Below (0 + length structs) (positions_from 0 [] structs)
          (get_field_dependencies def.fields) below d (rw (there, dependencies_at) at m) in
      omega (arith, lt)
]

pub struct_at-within :
    (structs : List ItemStruct) (p : ℕ) (def : ItemStruct)
    → struct_at structs p ≡ some def
    → Memᴰ def structs
struct_at-within [] p def e = cc
struct_at-within (x ∷ structs) zero def e = Memᴰ.head (sym (some_injective e))
struct_at-within (x ∷ structs) (suc p) def e = Memᴰ.tail (struct_at-within structs p def e)

pub struct_at-exists :
    (structs : List ItemStruct) (def : ItemStruct)
    → Memᴰ def structs
    → (p : ℕ) × (p < length structs) × (struct_at structs p ≡ some def)
struct_at-exists [] def m = absurd (Memᴰ.not-nil m)
struct_at-exists (x ∷ structs) def m = elim (Memᴰ.cases_cons m) [
  | inl same ↦ (0, omega arith, ap some (sym same))
  | inr later ↦ let (p, lt, e) = struct_at-exists structs def later in (suc p, omega (arith, lt), e)
]

-- Where the names differ, so do the structs at different positions.
struct_at-name :
    (structs : List ItemStruct)
    → Distinct (map (λ d. ItemStruct.name d) structs)
    → (p q : ℕ) (x y : ItemStruct) → struct_at structs p ≡ some x
    → struct_at structs q ≡ some y
    → x.name ≡ y.name
    → p ≡ q
struct_at-name [] distinct p q x y e f same = cc
struct_at-name (def ∷ structs) distinct zero zero x y e f same = refl
struct_at-name (def ∷ structs) distinct zero (suc q) x y e f same = absurd (
    distinct.0 (
      subst (λ n. Memᴰ n (map (λ d. ItemStruct.name d) structs))
        (sym (ap (λ d. ItemStruct.name d) (some_injective e) ∙ same))
        (Memᴰ.map (λ d. ItemStruct.name d) (struct_at-within structs q y f))))
struct_at-name (def ∷ structs) distinct (suc p) zero x y e f same = absurd (
    distinct.0 (
      subst (λ n. Memᴰ n (map (λ d. ItemStruct.name d) structs))
        (same ∙ sym (ap (λ d. ItemStruct.name d) (some_injective f)))
        (Memᴰ.map (λ d. ItemStruct.name d) (struct_at-within structs p x e))))
struct_at-name (def ∷ structs) distinct (suc p) (suc q) x y e f same =
    ap suc (struct_at-name structs distinct.1 p q x y e f same)

pub Memᴰ-structs_at :
    (structs : List ItemStruct) (order : List ℕ) (def : ItemStruct)
    → Memᴰ def (structs_at structs order)
      ↔ ((p : ℕ) × Memᴰ p order × (struct_at structs p ≡ some def))
unfolding structs_at
Memᴰ-structs_at structs [] def = (λ m. absurd (Memᴰ.not-nil m), λ h. absurd (Memᴰ.not-nil h.1))
Memᴰ-structs_at structs (q ∷ order) def =
    let ih = Memᴰ-structs_at structs order def in
    elim (Option-cases (struct_at structs q)) [
      | inl nothing ↦ (
        λ m. let (p, there, e) = ih.0 (rw (nothing, structs_at) at m) in (p, Memᴰ.tail there, e),
        λ (p, there, e).
            rw (nothing, structs_at)
              (elim (Memᴰ.cases_cons there) [
                | inl same ↦ cc (sym nothing ∙ subst (λ x. struct_at structs x ≡ some def) same e)
                | inr later ↦ ih.1 (p, later, e)
              ]),
      )
      | inr (x, found) ↦ (
        λ m. elim (Memᴰ.cases_cons (rw (found, structs_at) at m)) [
          | inl same ↦ (q, Memᴰ.head refl, found ∙ ap some (sym same))
          | inr later ↦ let (p, there, e) = ih.0 later in (p, Memᴰ.tail there, e)
        ],
        λ (p, there, e).
            rw (found, structs_at)
              (elim (Memᴰ.cases_cons there) [
                | inl same ↦ Memᴰ.head (
                    some_injective
                      (sym (subst (λ x. struct_at structs x ≡ some def) same e) ∙ found))
                | inr later ↦ Memᴰ.tail (ih.1 (p, later, e))
              ]),
      )
    ]

pub structs_at-Distinct :
    (structs : List ItemStruct) (order : List ℕ)
    → Distinct (map (λ d. ItemStruct.name d) structs)
    → Distinct order
    → Distinct (map (λ d. ItemStruct.name d) (structs_at structs order))
unfolding structs_at
structs_at-Distinct structs [] names distinct = tt
structs_at-Distinct structs (q ∷ order) names distinct =
    let ih = structs_at-Distinct structs order names distinct.1 in
    elim (Option-cases (struct_at structs q)) [
      | inl nothing ↦ rw (nothing, structs_at) ih
      | inr (x, found) ↦
          rw (found, structs_at)
            (
              λ m.
                  let (y, there, same) =
                    Memᴰ-map-inv (λ d. ItemStruct.name d) x.name (structs_at structs order) m in
                  let (p, listed, e) = (Memᴰ-structs_at structs order y).0 there in
                  let one = struct_at-name structs names p q y x e found same in
                  distinct.0 (subst (λ r. Memᴰ r order) one listed),
              ih,
            )
    ]
