-- ===== src/ByValue/Room.antt =====
-- What a round of the walk of `structs_in_dependency_order` does to the stack and to the rounds
-- that are left.
use autocxx.Prelude.{
  ℕ, zero, suc, ◌+◌, ◌<◌, ◌≤◌, ◌≡◌, refl, ap, subst, Bool, true, false, List, [], ◌∷◌, length,
  insert, lookup-insert, if◌then◌else◌, nat_eq, nat_beq, nat_beq_iff, arith, Bool-cases, inl, inr,
  Memᴰ,
}
use autocxx.ByValue.Order.{
  Progress, unseen, under_way, ordered, progress_at, is_unseen, push_unseen, round_bound,
}

pub is_unseen-unseen : (s : Progress) → is_unseen s ≡ true → s ≡ unseen
is_unseen-unseen unseen e = refl
is_unseen-unseen under_way e = cc
is_unseen-unseen ordered e = cc

pub progress_at-insert :
    (p q : ℕ) (s : Progress) (progress : List (ℕ × Progress))
    → progress_at (insert p s progress) q ≡ (if nat_beq p q then s else progress_at progress q)
progress_at-insert p q s progress = elim (Bool-cases (nat_beq p q)) [
  | inl same ↦ rw (lookup-insert p q s progress, same) refl
  | inr differ ↦ rw (lookup-insert p q s progress, differ) refl
]

-- The positions that are to be come back to.
abbrev pub ups : List (ℕ × Bool) → List ℕ
ups [] = []
ups ((p, true) ∷ stack) = p ∷ ups stack
ups ((p, false) ∷ stack) = ups stack

pub ups-push_unseen :
    (progress : List (ℕ × Progress)) (dependencies : List ℕ) (stack : List (ℕ × Bool))
    → ups (push_unseen progress dependencies stack) ≡ ups stack
unfolding push_unseen
ups-push_unseen progress [] stack = refl
ups-push_unseen progress (d ∷ dependencies) stack =
    elim (Bool-cases (is_unseen (progress_at progress d))) [
      | inl new ↦ rw (new, push_unseen) (ups-push_unseen progress dependencies ((d, false) ∷ stack))
      | inr old ↦ rw (old, push_unseen) (ups-push_unseen progress dependencies stack)
    ]

pub length-push_unseen :
    (progress : List (ℕ × Progress)) (dependencies : List ℕ) (stack : List (ℕ × Bool))
    → length (push_unseen progress dependencies stack) ≤ length dependencies + length stack
unfolding push_unseen
length-push_unseen progress [] stack = omega arith
length-push_unseen progress (d ∷ dependencies) stack =
    elim (Bool-cases (is_unseen (progress_at progress d))) [
      | inl new ↦
          rw (new, push_unseen)
            (omega (arith, length-push_unseen progress dependencies ((d, false) ∷ stack)))
      | inr old ↦
          rw (old, push_unseen) (omega (arith, length-push_unseen progress dependencies stack))
    ]

-- Every position on the stack is one of the `n`.
abbrev pub Within : ℕ → List (ℕ × Bool) → Type 0
Within n [] = Unit
Within n ((p, _) ∷ stack) = (p < n) × Within n stack

pub Within-push_unseen :
    (n : ℕ) (progress : List (ℕ × Progress)) (dependencies : List ℕ) (stack : List (ℕ × Bool))
    → ((d : ℕ) → Memᴰ d dependencies → d < n)
    → Within n stack
    → Within n (push_unseen progress dependencies stack)
unfolding push_unseen
Within-push_unseen n progress [] stack small within = within
Within-push_unseen n progress (d ∷ dependencies) stack small within =
    let later = λ (e : ℕ) (m : Memᴰ e dependencies). small e (Memᴰ.tail m) in
    elim (Bool-cases (is_unseen (progress_at progress d))) [
      | inl new ↦
          rw (new, push_unseen)
            (Within-push_unseen n progress dependencies ((d, false) ∷ stack) later
              (small d (Memᴰ.head refl), within))
      | inr old ↦
          rw (old, push_unseen) (Within-push_unseen n progress dependencies stack later within)
    ]

module _ (dependencies : ℕ → List ℕ) where
  -- The rounds that the positions up to `n` can still cost.
  abbrev pub room : List (ℕ × Progress) → ℕ → ℕ
  room progress zero = 0
  room progress (suc n) =
      (if is_unseen (progress_at progress n) then suc (length (dependencies n)) else 0)
      + room progress n

  pub room-nothing : (n : ℕ) → room [] n ≡ round_bound dependencies n
  unfolding round_bound
  room-nothing zero = refl
  room-nothing (suc n) = omega (arith, room-nothing n)

  room-beyond :
      (progress : List (ℕ × Progress)) (p : ℕ) (s : Progress) (n : ℕ)
      → n ≤ p
      → room (insert p s progress) n ≡ room progress n
  room-beyond progress p s zero le = refl
  room-beyond progress p s (suc n) le =
      let ih = room-beyond progress p s n (omega arith) in
      let other : nat_beq p n ≡ false = ground (arith, nat_beq_iff p n) in
      rw (progress_at-insert p n s progress, other) (omega (arith, ih))

  -- Going to a position gives up its room.
  pub room-visit :
      (progress : List (ℕ × Progress)) (p : ℕ) (s : Progress) (n : ℕ)
      → p < n
      → is_unseen (progress_at progress p) ≡ true
      → is_unseen s ≡ false
      → room (insert p s progress) n + suc (length (dependencies p)) ≡ room progress n
  room-visit progress p s zero lt new seen = absurd (omega arith)
  room-visit progress p s (suc n) lt new seen = elim (Bool-cases (nat_beq p n)) [
    | inl same ↦
        let e = (nat_beq_iff p n).0 same in
        let here : is_unseen (progress_at progress n) ≡ true =
          subst (λ x. is_unseen (progress_at progress x) ≡ true) e new in
        rw (progress_at-insert p n s progress, same, seen, here)
          (omega (
            arith,
            room-beyond progress p s n (omega (arith, e)),
            ap (λ x. length (dependencies x)) e,
          ))
    | inr other ↦
        let ih = room-visit progress p s n (ground (arith, nat_beq_iff p n)) new seen in
        rw (progress_at-insert p n s progress, other) (omega (arith, ih))
  ]

  pub room-seen_le :
      (progress : List (ℕ × Progress)) (p : ℕ) (s : Progress) (n : ℕ)
      → is_unseen s ≡ false
      → room (insert p s progress) n ≤ room progress n
  room-seen_le progress p s zero seen = omega arith
  room-seen_le progress p s (suc n) seen =
      let ih = room-seen_le progress p s n seen in
      ground (arith, ih, progress_at-insert p n s progress)
