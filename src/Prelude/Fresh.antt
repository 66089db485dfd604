-- ===== src/Prelude/Fresh.antt =====
-- Why a search through numbered candidates ends: a finite set cannot hold them all.
use Prim.Native.Nat.{ℕ, zero, suc, ◌+◌, ◌≤◌, ◌<◌}
use mathlib.Core.Path.{◌≡◌, refl}
use mathlib.Core.Logic.{inl, inr}
use mathlib.Core.Bool.{true, false}
use mathlib.Core.List.{List, [], ◌∷◌}
use native.Mathlib.Omega.{arith}
use autocxx.Prelude.Tests.{Bool-cases}
use autocxx.Prelude.Keys.{Eq}
use autocxx.Prelude.Lists.{length, contains, set_remove, contains-set_remove}

module _ {ℓ} {A : Type ℓ} ⦃e : Eq A⦄ where
  length-set_remove_le : (a : A) (xs : List A) → length (set_remove a xs) ≤ length xs
  length-set_remove_le a [] = omega arith
  length-set_remove_le a (x ∷ xs) = ground (arith, length-set_remove_le a xs)

  length-set_remove_lt :
      (a : A) (xs : List A) → contains xs a ≡ true → length (set_remove a xs) < length xs
  length-set_remove_lt a [] h = cc
  length-set_remove_lt a (x ∷ xs) h =
      ground (arith, length-set_remove_lt a xs, length-set_remove_le a xs)

  module _ (candidate : ℕ → A) (distinct : (m n : ℕ) → candidate m ≡ candidate n → m ≡ n) where
    free_candidate_within :
        (bound : ℕ) (taken : List A) (n : ℕ)
        → length taken ≤ bound
        → (k : ℕ) × (k ≤ bound) × (contains taken (candidate (n + k)) ≡ false)
    free_candidate_within zero [] n h = (0, omega arith, refl)
    free_candidate_within zero (x ∷ xs) n h = absurd (omega arith)
    free_candidate_within (suc bound) taken n h = elim (Bool-cases (contains taken (candidate n))) [
      | inl held ↦
          let (k, within, free) =
            free_candidate_within bound (set_remove (candidate n) taken) (n + 1)
              (omega (arith, length-set_remove_lt (candidate n) taken held)) in
          (
            suc k,
            omega arith,
            ground (
              arith,
              contains-set_remove (candidate n) taken (candidate (n + 1 + k)),
              e.beq_iff (candidate n) (candidate (n + 1 + k)),
              distinct n (n + 1 + k),
            ),
          )
      | inr free ↦ (0, omega arith, ground arith)
    ]

    -- From any start, one of the next `length taken + 1` candidates is free.
    pub free_candidate :
        (taken : List A) (n : ℕ)
        → (k : ℕ) × (k ≤ length taken) × (contains taken (candidate (n + k)) ≡ false)
    free_candidate taken n = free_candidate_within (length taken) taken n (omega arith)
