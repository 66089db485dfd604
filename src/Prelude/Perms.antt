-- ===== src/Prelude/Perms.antt =====
-- What a rearrangement of a list keeps, and when collecting into a set changes nothing.
use Prim.Native.Nat.{suc}
use mathlib.Core.Path.{◌≡◌, refl, ap, ◌∙◌}
use mathlib.Core.Logic.{inl, inr}
use mathlib.Core.List.{List, [], ◌∷◌, ◌++◌, Memᴰ, Permᴰ, append-nil, append_assoc}
use mathlib.Core.List.Memᴰ
use mathlib.Core.List.Permᴰ
use native.Mathlib.Omega.{arith}
use autocxx.Prelude.Tests.{Bool-cases}
use autocxx.Prelude.Keys.{Eq}
use autocxx.Prelude.Lists.{
  length, Distinct, Memᴰ-cons, set_remove, set_insert, to_set, contains_iff, contains-set_remove,
}

module _ {ℓ} {A : Type ℓ} where
  pub Memᴰ-perm : (a : A) {xs ys : List A} → Permᴰ xs ys → Memᴰ a xs → Memᴰ a ys
  Memᴰ-perm a Permᴰ.nil m = m
  Memᴰ-perm a (Permᴰ.cons {a = x} {b = y} {l₁ = xs} {l₂ = ys} e p) m =
      ground (arith, Memᴰ-cons a x xs, Memᴰ-cons a y ys, Memᴰ-perm a p)
  Memᴰ-perm a (Permᴰ.swap {a = x} {b = y} {a' = x'} {b' = y'} {l = l} e f) m =
      ground
        (arith, Memᴰ-cons a x (y ∷ l), Memᴰ-cons a y l, Memᴰ-cons a x' (y' ∷ l), Memᴰ-cons a y' l)
  Memᴰ-perm a (Permᴰ.trans p q) m = Memᴰ-perm a q (Memᴰ-perm a p m)

  pub length-perm : {xs ys : List A} → Permᴰ xs ys → length xs ≡ length ys
  length-perm Permᴰ.nil = refl
  length-perm (Permᴰ.cons e p) = ap suc (length-perm p)
  length-perm (Permᴰ.swap e f) = refl
  length-perm (Permᴰ.trans p q) = length-perm p ∙ length-perm q

  pub Distinct-perm : {xs ys : List A} → Permᴰ xs ys → Distinct xs → Distinct ys
  Distinct-perm Permᴰ.nil d = d
  Distinct-perm (Permᴰ.cons {a = x} {b = y} {l₂ = ys} e p) d =
      (λ m. d.0 (Memᴰ-perm x (Permᴰ.symm p) (ground arith)), Distinct-perm p d.1)
  Distinct-perm (Permᴰ.swap {a = x} {b = y} {a' = x'} {b' = y'} {l = l} e f) d = (
    λ m. ground (arith, d.0, d.1.0, Memᴰ-cons x' y' l, Memᴰ-cons x y l),
    (λ m. ground (arith, d.0, Memᴰ-cons x y l), d.1.1),
  )
  Distinct-perm (Permᴰ.trans p q) d = Distinct-perm q (Distinct-perm p d)

  pub Distinct-snoc : (xs : List A) (a : A) → Distinct xs → (¬ Memᴰ a xs) → Distinct (xs ++ a ∷ [])
  Distinct-snoc xs a d new =
      Distinct-perm
        (Permᴰ.symm (Permᴰ.trans (Permᴰ.middle a xs []) (Permᴰ.cons refl (Permᴰ.append-nil xs))))
        (new, d)

module _ {ℓ} {A : Type ℓ} ⦃e : Eq A⦄ where
  pub set_remove-absent : (a : A) (xs : List A) → (¬ Memᴰ a xs) → set_remove a xs ≡ xs
  set_remove-absent a [] new = refl
  set_remove-absent a (x ∷ xs) new =
      let ih = set_remove-absent a xs (λ m. new (Memᴰ.tail m)) in
      ground (arith, ih, e.beq_iff x a, λ (s : a ≡ x). new (Memᴰ.head s))

  -- Collecting distinct elements keeps them all, in their order.
  pub to_set-Distinct : (acc xs : List A) → Distinct (acc ++ xs) → to_set acc xs ≡ acc ++ xs
  to_set-Distinct acc [] d = rw append-nil
  to_set-Distinct acc (x ∷ xs) d =
      let new : ¬ Memᴰ x acc =
        λ m. (Distinct-perm (Permᴰ.middle x acc xs) d).0 (Memᴰ.append_left xs m) in
      let inserted : set_insert x acc ≡ acc ++ x ∷ [] = ground (arith, contains_iff acc x, new) in
      let ih = to_set-Distinct (acc ++ x ∷ []) xs (rw (append_assoc acc (x ∷ []) xs) d) in
      rw inserted (ih ∙ append_assoc acc (x ∷ []) xs)

  pub Distinct-set_remove : (a : A) (xs : List A) → Distinct xs → Distinct (set_remove a xs)
  Distinct-set_remove a [] d = tt
  Distinct-set_remove a (x ∷ xs) d =
      let ih = Distinct-set_remove a xs d.1 in
      elim (Bool-cases (e.beq x a)) [
        | inl drop ↦ rw drop ih
        | inr stays ↦ rw stays (
          λ m.
              let there = (contains_iff (set_remove a xs) x).1 m in
              d.0 ((contains_iff xs x).0 (ground (arith, there, contains-set_remove a xs x))),
          ih,
        )
      ]
