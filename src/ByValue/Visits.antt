-- ===== src/ByValue/Visits.antt =====
-- What holds of the walk of `structs_in_dependency_order`, and one round of it.
use mathlib.Core.List.Memᴰ
use autocxx.Prelude.{
  ℕ, ◌+◌, ◌<◌, ◌≤◌, ◌≡◌, ◌≢◌, ◌↔◌, refl, Bool, true, false, List, [], ◌∷◌, length, insert, nat_eq,
  nat_beq_iff, arith, Bool-cases, inl, inr, Memᴰ, Memᴰ-cons, Memᴰ-append, Distinct, Distinct-snoc,
}
use autocxx.ByValue.Order.{
  Progress, unseen, under_way, ordered, Walk, progress_at, is_unseen, visit_position,
}
use autocxx.ByValue.Room.{
  is_unseen-unseen, progress_at-insert, ups, ups-push_unseen, length-push_unseen, Within,
  Within-push_unseen, room, room-visit, room-seen_le,
}

pub first_injective :
    {p q : ℕ} {b c : Bool} {xs ys : List (ℕ × Bool)} → (p, b) ∷ xs ≡ (q, c) ∷ ys → p ≡ q
first_injective e = cc

Memᴰ-nil : (q : ℕ) → ¬ Memᴰ q []
Memᴰ-nil q m = Memᴰ.not-nil m

module _ (dependencies : ℕ → List ℕ) (n : ℕ)
    (in_range : (p d : ℕ) → Memᴰ d (dependencies p) → d < n) where
  -- The walk so far, over `n` positions.
  pub record Inv (w : Walk) : Type 0 where
    pub within : Within n w.stack
    pub coming_back : (p : ℕ) → Memᴰ p (ups w.stack) ↔ (progress_at w.progress p ≡ under_way)
    pub once : Distinct (ups w.stack)
    pub done : (p : ℕ) → Memᴰ p w.order ↔ (progress_at w.progress p ≡ ordered)
    pub distinct : Distinct w.order
    pub small : (p : ℕ) → Memᴰ p w.order → p < n

  Inv-back :
      (w : Walk) (p : ℕ) (stack : List (ℕ × Bool))
      → w.stack ≡ (p, true) ∷ stack
      → Inv w
      → Inv (visit_position dependencies (record w { stack = stack }) p true)
  unfolding visit_position
  Inv-back w p stack shape inv =
      let coming = λ (q : ℕ). rw shape at inv.coming_back q in
      let once = rw shape at inv.once in
      let set = λ (q : ℕ). progress_at-insert p q ordered w.progress in
      let under : progress_at w.progress p ≡ under_way = (coming p).0 (Memᴰ.head refl) in
      let new : ¬ Memᴰ p w.order = λ m. cc ((inv.done p).0 m) in
      record {
        within = (rw shape at inv.within).1;
        coming_back = λ q.
            ground (arith, coming q, Memᴰ-cons q p (ups stack), once.0, set q, nat_beq_iff p q);
        once = once.1;
        done = λ q. ground (
          arith,
          inv.done q,
          Memᴰ-append q w.order (p ∷ []),
          Memᴰ-cons q p [],
          Memᴰ-nil q,
          set q,
          nat_beq_iff p q,
        );
        distinct = Distinct-snoc w.order p inv.distinct new;
        small = λ q m. elim ((Memᴰ-append q w.order (p ∷ [])).0 m) [
          | inl old ↦ inv.small q old
          | inr this ↦ elim ((Memᴰ-cons q p []).0 this) [
            | inl same ↦ rw same (rw shape at inv.within).0
            | inr nothing ↦ absurd (Memᴰ.not-nil nothing)
          ]
        ];
      }

  Inv-down :
      (w : Walk) (p : ℕ) (stack : List (ℕ × Bool))
      → w.stack ≡ (p, false) ∷ stack
      → Inv w
      → Inv (visit_position dependencies (record w { stack = stack }) p false)
  unfolding visit_position
  Inv-down w p stack shape inv =
      let within = rw shape at inv.within in
      let coming = λ (q : ℕ). rw shape at inv.coming_back q in
      let once = rw shape at inv.once in
      elim (Bool-cases (is_unseen (progress_at w.progress p))) [
        | inr seen ↦ rw seen (record {
          within = within.1;
          coming_back = coming;
          once = once;
          done = inv.done;
          distinct = inv.distinct;
          small = inv.small;
        })
        | inl new ↦
            let progress = insert p under_way w.progress in
            let set = λ (q : ℕ). progress_at-insert p q under_way w.progress in
            let fresh : progress_at w.progress p ≡ unseen =
              is_unseen-unseen (progress_at w.progress p) new in
            let same_ups = ups-push_unseen progress (dependencies p) ((p, true) ∷ stack) in
            rw new (record {
              within =
                  Within-push_unseen n progress (dependencies p) ((p, true) ∷ stack) (in_range p)
                    (within.0, within.1);
              coming_back = λ q.
                  rw same_ups
                    (ground (arith, coming q, Memᴰ-cons q p (ups stack), set q, nat_beq_iff p q));
              once = rw same_ups (λ m. cc ((coming p).0 m), once);
              done = λ q. ground (arith, inv.done q, set q, nat_beq_iff p q);
              distinct = inv.distinct;
              small = inv.small;
            })
      ]

  -- What a walk comes to.
  pub record Walked (w w' : Walk) : Type 0 where
    pub inv : Inv w'
    pub emptied : w'.stack ≡ []
    pub fewer : room dependencies w'.progress n ≤ room dependencies w.progress n
    pub kept : (q : ℕ) → progress_at w.progress q ≢ unseen → progress_at w'.progress q ≢ unseen

  -- What a round does, from the walk `w` with `stack` left.
  pub record Round (w w' : Walk) (stack : List (ℕ × Bool)) (p : ℕ) : Type 0 where
    pub less :
        length w'.stack + room dependencies w'.progress n
        ≤ length stack + room dependencies w.progress n
    pub fewer : room dependencies w'.progress n ≤ room dependencies w.progress n
    pub kept : (q : ℕ) → progress_at w.progress q ≢ unseen → progress_at w'.progress q ≢ unseen
    pub seen : progress_at w'.progress p ≢ unseen

  insert-kept :
      (p : ℕ) (s : Progress) (progress : List (ℕ × Progress)) (q : ℕ)
      → s ≢ unseen
      → progress_at progress q ≢ unseen
      → progress_at (insert p s progress) q ≢ unseen
  insert-kept p s progress q settled before =
      ground (arith, progress_at-insert p q s progress, settled, before)

  pub visit_position-Round :
      (w : Walk) (stack : List (ℕ × Bool)) (p : ℕ) (b : Bool)
      → p < n
      → Round w (visit_position dependencies (record w { stack = stack }) p b) stack p
  unfolding visit_position
  visit_position-Round w stack p true lt =
      let fewer = room-seen_le dependencies w.progress p ordered n refl in
      record {
        less = omega (arith, fewer);
        fewer = fewer;
        kept = λ q. insert-kept p ordered w.progress q (λ e. cc);
        seen = ground (arith, progress_at-insert p p ordered w.progress, nat_beq_iff p p);
      }
  visit_position-Round w stack p false lt =
      elim (Bool-cases (is_unseen (progress_at w.progress p))) [
        | inr seen ↦ rw seen (record {
          less = omega arith;
          fewer = omega arith;
          kept = λ q before. before;
          seen = λ e. cc;
        })
        | inl new ↦
            let spent = room-visit dependencies w.progress p under_way n lt new refl in
            let pushed =
              length-push_unseen (insert p under_way w.progress) (dependencies p)
                ((p, true) ∷ stack) in
            rw new (record {
              less = omega (arith, spent, pushed);
              fewer = omega (arith, spent);
              kept = λ q. insert-kept p under_way w.progress q (λ e. cc);
              seen = ground (arith, progress_at-insert p p under_way w.progress, nat_beq_iff p p);
            })
      ]

  pub visit_position-Inv :
      (w : Walk) (stack : List (ℕ × Bool)) (p : ℕ) (b : Bool)
      → w.stack ≡ (p, b) ∷ stack
      → Inv w
      → Inv (visit_position dependencies (record w { stack = stack }) p b)
  visit_position-Inv w stack p true shape inv = Inv-back w p stack shape inv
  visit_position-Inv w stack p false shape inv = Inv-down w p stack shape inv
