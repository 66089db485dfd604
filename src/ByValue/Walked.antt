-- ===== src/ByValue/Walked.antt =====
-- The walk of `structs_in_dependency_order`: it ends, and gives each position once.
use mathlib.Core.List.Memᴰ
use autocxx.Prelude.{
  ℕ, zero, suc, ◌+◌, ◌<◌, ◌≤◌, ◌≡◌, ◌≢◌, refl, sym, ap, subst, Bool, false, List, [], ◌∷◌, some,
  length, if◌then◌else◌, nat_eq, nat_beq, nat_beq_iff, arith, Bool-cases, inl, inr, Memᴰ,
}
use autocxx.ByValue.Order.{unseen, Walk, progress_at, is_unseen, visit_position, walk_from}
use autocxx.ByValue.Room.{room}
use autocxx.ByValue.Visits.{first_injective, Inv, Walked, visit_position-Round, visit_position-Inv}

module _ (dependencies : ℕ → List ℕ) (n : ℕ)
    (in_range : (p d : ℕ) → Memᴰ d (dependencies p) → d < n) where
  walk_from-done :
      (fuel : ℕ) (w : Walk) → w.stack ≡ [] → walk_from dependencies (suc fuel) w ≡ some w
  unfolding walk_from
  walk_from-done fuel w shape = ground (arith, shape)

  walk_from-cons :
      (fuel : ℕ) (w w' : Walk) (p : ℕ) (b : Bool) (stack : List (ℕ × Bool))
      → w.stack ≡ (p, b) ∷ stack
      → walk_from dependencies fuel (visit_position dependencies (record w { stack = stack }) p b)
        ≡ some w'
      → walk_from dependencies (suc fuel) w ≡ some w'
  unfolding walk_from
  walk_from-cons fuel w w' p b stack shape e = rw (shape, walk_from) e

  -- The inner loop, to its end.
  walk_from-Walked :
      (fuel : ℕ) (w : Walk)
      → Inv dependencies n in_range w
      → length w.stack + room dependencies w.progress n < fuel
      → (stack : List (ℕ × Bool)) → w.stack ≡ stack
      → (w' : Walk) × (walk_from dependencies fuel w ≡ some w')
        × Walked dependencies n in_range w w'
        × ((p : ℕ) (b : Bool) (rest : List (ℕ × Bool))
            → stack ≡ (p, b) ∷ rest
            → progress_at w'.progress p ≢ unseen)
  unfolding walk_from
  walk_from-Walked zero w inv lt stack shape = absurd (omega arith)
  walk_from-Walked (suc fuel) w inv lt [] shape = (
    w,
    walk_from-done fuel w shape,
    record { inv = inv; emptied = shape; fewer = omega arith; kept = λ q before. before },
    λ p b rest e. cc,
  )
  walk_from-Walked (suc fuel) w inv lt ((p, b) ∷ stack) shape =
      let w1 = visit_position dependencies (record w { stack = stack }) p b in
      let round =
        visit_position-Round dependencies n in_range w stack p b (rw shape at inv.within).0 in
      let (w', walked, end, roots) =
        walk_from-Walked fuel w1 (visit_position-Inv dependencies n in_range w stack p b shape inv)
          (omega (arith, round.less, lt, ap length shape)) w1.stack refl in
      (
        w',
        walk_from-cons fuel w w' p b stack shape walked,
        record {
          inv = end.inv;
          emptied = end.emptied;
          fewer = omega (arith, end.fewer, round.fewer);
          kept = λ q before. end.kept q (round.kept q before);
        },
        λ q c rest e.
            subst (λ x. progress_at w'.progress x ≢ unseen) (first_injective e)
              (end.kept p round.seen),
      )

  pub Inv-root :
      (w : Walk) (root : ℕ)
      → root < n
      → Inv dependencies n in_range w
      → Inv dependencies n in_range (record w { stack = (root, false) ∷ w.stack })
  Inv-root w root lt inv = record {
    within = (lt, inv.within);
    coming_back = inv.coming_back;
    once = inv.once;
    done = inv.done;
    distinct = inv.distinct;
    small = inv.small;
  }

  pub Inv-start : Inv dependencies n in_range (record { order = []; progress = []; stack = [] })
  Inv-start = record {
    within = tt;
    coming_back = λ p. (λ m. absurd (Memᴰ.not-nil m), λ e. cc);
    once = tt;
    done = λ p. (λ m. absurd (Memᴰ.not-nil m), λ e. cc);
    distinct = tt;
    small = λ p m. absurd (Memᴰ.not-nil m);
  }

  -- A walk between two roots, with those before `root` behind it.
  pub record Between (root : ℕ) (w : Walk) : Type 0 where
    pub inv : Inv dependencies n in_range w
    pub emptied : w.stack ≡ []
    pub behind : (q : ℕ) → q < root → progress_at w.progress q ≢ unseen

  pub walk_root-Between :
      (bound root : ℕ) (w : Walk)
      → root < n
      → room dependencies w.progress n ≤ bound
      → Between root w
      → (w' : Walk) × ((if is_unseen (progress_at w.progress root)
            then walk_from dependencies
                (suc (suc bound))
                (record w { stack = (root, false) ∷ w.stack })
            else some w)
          ≡ some w')
        × Between (suc root) w'
        × (room dependencies w'.progress n ≤ bound)
  walk_root-Between bound root w lt enough b =
      elim (Bool-cases (is_unseen (progress_at w.progress root))) [
        | inr seen ↦ (
          w,
          rw seen refl,
          record {
            inv = b.inv;
            emptied = b.emptied;
            behind = λ q below e. ground (arith, b.behind q, seen);
          },
          enough,
        )
        | inl new ↦
            let (w', walked, end, roots) =
              walk_from-Walked (suc (suc bound)) (record w { stack = (root, false) ∷ w.stack })
                (Inv-root w root lt b.inv) (omega (arith, enough, ap length b.emptied))
                ((root, false) ∷ w.stack) refl in
            (
              w',
              rw new walked,
              record {
                inv = end.inv;
                emptied = end.emptied;
                behind = λ q below. elim (Bool-cases (nat_beq q root)) [
                  | inl same ↦
                      subst (λ x. progress_at w'.progress x ≢ unseen)
                        (sym ((nat_beq_iff q root).0 same)) (roots root false w.stack refl)
                  | inr other ↦ end.kept q (b.behind q (ground (arith, nat_beq_iff q root)))
                ];
              },
              omega (arith, enough, end.fewer),
            )
      ]
