-- ===== src/ByValue/Lookups.antt =====
-- The positions that `structs_in_dependency_order` looks up by the names of types.
use mathlib.Core.List.Memᴰ
use autocxx.Prelude.{
  ℕ, suc, ◌+◌, ◌≡◌, ◌≢◌, ◌⊎◌, refl, sym, ap, ◌∙◌, subst, List, [], ◌∷◌, none, some, map, insert,
  lookup, lookup-insert, arith, Bool-cases, Option-cases, inl, inr, Memᴰ, some_injective,
}
use autocxx.Names.{QualifiedName, name_eq, name_beq_iff}
use autocxx.ByValue.Data.{ItemStruct, FieldDependency}
use autocxx.ByValue.Order.{positions_from, dependencies_in, struct_at}

-- A position that a name has is that of a struct of the name.
pub positions_from_sound :
    (n : ℕ) (positions : List (QualifiedName × ℕ)) (structs : List ItemStruct) (k : QualifiedName)
    (v : ℕ)
    → lookup k (positions_from n positions structs) ≡ some v
    → (lookup k positions ≡ some v)
      ⊎ ((i : ℕ) × (def : ItemStruct) × (v ≡ n + i)
          × (struct_at structs i ≡ some def)
          × (def.name ≡ k))
unfolding positions_from
positions_from_sound n positions [] k v e = inl e
positions_from_sound n positions (def ∷ structs) k v e =
    elim (positions_from_sound (suc n) (insert def.name n positions) structs k v e) [
      | inr (i, other, at, there, same) ↦ inr (suc i, other, omega (arith, at), there, same)
      | inl found ↦
          let held = sym (lookup-insert def.name k n positions) ∙ found in
          elim (Bool-cases (name_eq.beq def.name k)) [
            | inl this ↦ inr (
              0,
              def,
              omega (arith, some_injective (rw this at held)),
              refl,
              (name_beq_iff def.name k).0 this,
            )
            | inr other ↦ inl (rw other at held)
          ]
    ]

pub positions_from-kept :
    (n : ℕ) (positions : List (QualifiedName × ℕ)) (structs : List ItemStruct) (k : QualifiedName)
    → lookup k positions ≢ none
    → lookup k (positions_from n positions structs) ≢ none
unfolding positions_from
positions_from-kept n positions [] k held = held
positions_from-kept n positions (def ∷ structs) k held =
    positions_from-kept (suc n) (insert def.name n positions) structs k (λ e.
      let absent = sym (lookup-insert def.name k n positions) ∙ e in
      elim (Bool-cases (name_eq.beq def.name k)) [
        | inl this ↦ cc (rw this at absent)
        | inr other ↦ held (rw other at absent)
      ])

pub positions_from_complete :
    (n : ℕ) (positions : List (QualifiedName × ℕ)) (structs : List ItemStruct) (k : QualifiedName)
    → Memᴰ k (map (λ d. ItemStruct.name d) structs)
    → lookup k (positions_from n positions structs) ≢ none
unfolding positions_from
positions_from_complete n positions [] k m = absurd (Memᴰ.not-nil m)
positions_from_complete n positions (def ∷ structs) k m = elim (Memᴰ.cases_cons m) [
  | inl same ↦ positions_from-kept (suc n) (insert def.name n positions) structs k (λ e. cc (
      rw ((name_beq_iff def.name k).1 (sym same)) at
        (sym (lookup-insert def.name k n positions) ∙ e)))
  | inr later ↦ positions_from_complete (suc n) (insert def.name n positions) structs k later
]

pub Memᴰ-dependencies_in :
    (positions : List (QualifiedName × ℕ)) (fields : List FieldDependency) (v : ℕ)
    (ty : QualifiedName)
    → Memᴰ ty (map (λ f. FieldDependency.ty f) fields)
    → lookup ty positions ≡ some v
    → Memᴰ v (dependencies_in positions fields)
unfolding dependencies_in
Memᴰ-dependencies_in positions [] v ty m e = absurd (Memᴰ.not-nil m)
Memᴰ-dependencies_in positions (f ∷ fields) v ty m e = elim (Option-cases (lookup f.ty positions)) [
  | inl absent ↦ elim (Memᴰ.cases_cons m) [
    | inl same ↦ cc (sym absent ∙ subst (λ x. lookup x positions ≡ some v) same e)
    | inr later ↦ rw (absent, dependencies_in) (Memᴰ-dependencies_in positions fields v ty later e)
  ]
  | inr (u, held) ↦ elim (Memᴰ.cases_cons m) [
    | inl same ↦
        rw (held, dependencies_in)
          (Memᴰ.head
            (some_injective (sym (subst (λ x. lookup x positions ≡ some v) same e) ∙ held)))
    | inr later ↦
        rw (held, dependencies_in) (Memᴰ.tail (Memᴰ-dependencies_in positions fields v ty later e))
  ]
]

pub dependencies_in-held :
    (positions : List (QualifiedName × ℕ)) (fields : List FieldDependency) (v : ℕ)
    → Memᴰ v (dependencies_in positions fields)
    → (ty : QualifiedName) × Memᴰ ty (map (λ f. FieldDependency.ty f) fields)
      × (lookup ty positions ≡ some v)
unfolding dependencies_in
dependencies_in-held positions [] v m = absurd (Memᴰ.not-nil m)
dependencies_in-held positions (f ∷ fields) v m = elim (Option-cases (lookup f.ty positions)) [
  | inl absent ↦
      let (ty, k, e) =
        dependencies_in-held positions fields v (rw (absent, dependencies_in) at m) in
      (ty, Memᴰ.tail k, e)
  | inr (u, held) ↦ elim (Memᴰ.cases_cons (rw (held, dependencies_in) at m)) [
    | inl same ↦ (f.ty, Memᴰ.head refl, held ∙ ap some (sym same))
    | inr later ↦
        let (ty, k, e) = dependencies_in-held positions fields v later in (ty, Memᴰ.tail k, e)
  ]
]
