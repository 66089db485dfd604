-- ===== src/ByValue/Behind.antt =====
-- `structs_in_dependency_order` lists a struct after the structs that it holds.
use mathlib.Core.List.Memᴰ
use autocxx.Prelude.{
  ℕ, zero, suc, ◌<◌, ◌≡◌, ◌⊎◌, refl, ap, subst, Bool, true, false, List, [], ◌∷◌, ◌++◌, some,
  insert, nat_beq, nat_beq_iff, nat_eq, arith, Bool-cases, inl, inr, Memᴰ, some_injective,
}
use autocxx.ByValue.Order.{
  Progress, unseen, under_way, ordered, Walk, progress_at, is_unseen, visit_position, walk_from,
}
use autocxx.ByValue.Room.{progress_at-insert}
use autocxx.ByValue.Visits.{Inv, visit_position-Inv}
use autocxx.ByValue.Covers.{Cover, Cover-settled, Cover-lower, Cover-widen, Cover-up, Cover-push}

module _ (dependencies : ℕ → List ℕ) where
  -- Each position stands behind its dependencies.
  abbrev pub IsBehind : (seen order : List ℕ) → Type 0
  IsBehind seen [] = Unit
  IsBehind seen (p ∷ order) =
      ((d : ℕ) → Memᴰ d (dependencies p) → Memᴰ d seen) × IsBehind (p ∷ seen) order

  IsBehind-snoc :
      (seen order : List ℕ) (p : ℕ)
      → IsBehind seen order
      → ((d : ℕ) → Memᴰ d (dependencies p) → Memᴰ d order ⊎ Memᴰ d seen)
      → IsBehind seen (order ++ p ∷ [])
  IsBehind-snoc seen [] p b deps =
      (λ d m. elim (deps d m) [ inl o ↦ absurd (Memᴰ.not-nil o) | inr k ↦ k ], tt)
  IsBehind-snoc seen (q ∷ order) p b deps = (
    b.0,
    IsBehind-snoc (q ∷ seen) order p b.1 (λ d m. elim (deps d m) [
      | inr k ↦ inr (Memᴰ.tail k)
      | inl o ↦ elim (Memᴰ.cases_cons o) [ inl e ↦ inr (Memᴰ.head e) | inr l ↦ inl l ]
    ]),
  )

  module _ (n : ℕ) (in_range : (p d : ℕ) → Memᴰ d (dependencies p) → d < n) (rank : ℕ → ℕ)
      (ranked : (p d : ℕ) → Memᴰ d (dependencies p) → rank d < rank p) where
    abbrev pub IsCovered : Walk → Type 0
    IsCovered w = Cover dependencies rank ranked w.order [] w.stack × IsBehind [] w.order

    back-IsCovered :
        (w : Walk) (p : ℕ) (stack : List (ℕ × Bool))
        → Cover dependencies rank ranked w.order [] ((p, true) ∷ stack)
        → IsBehind [] w.order
        → IsCovered (visit_position dependencies (record w { stack = stack }) p true)
    unfolding visit_position
    back-IsCovered w p stack (lower, deps, c) b = (
      Cover-settled dependencies rank ranked w.order (w.order ++ p ∷ []) (p ∷ []) [] stack
          (λ a m. Memᴰ.append_left (p ∷ []) m) (λ a m. absurd (Memᴰ.not-nil m))
          (λ a m. inl (Memᴰ.append_right w.order m)) c,
      IsBehind-snoc [] w.order p b deps,
    )

    -- Going down from `p`, with what is pushed above it.
    down-Cover :
        (w : Walk) (p : ℕ) (stack : List (ℕ × Bool)) (above : List ℕ)
        → Inv dependencies n in_range (record w { stack = (p, false) ∷ stack })
        → Cover dependencies rank ranked w.order (p ∷ []) stack
        → ((d : ℕ)
            → Memᴰ d (dependencies p)
            → is_unseen (progress_at (insert p under_way w.progress) d) ≡ true
            → Memᴰ d above)
        → ((a : ℕ) → Memᴰ a above → Memᴰ a [] ⊎ Memᴰ a (dependencies p))
        → Cover dependencies rank ranked w.order above ((p, true) ∷ stack)
    down-Cover w p stack above inv c has from =
        let dep : (a : ℕ) → Memᴰ a above → Memᴰ a (dependencies p) =
          λ a m. elim (from a m) [ inl nothing ↦ absurd (Memᴰ.not-nil nothing) | inr d ↦ d ] in
        (
          λ a m. ranked p a (dep a m),
          λ d m. at d m (progress_at w.progress d) refl,
          Cover-widen dependencies rank ranked w.order (p ∷ []) (p ∷ above) stack
              (λ a m. elim (Memᴰ.cases_cons m) [
                | inl e ↦ Memᴰ.head e
                | inr l ↦ absurd (Memᴰ.not-nil l)
              ])
              (λ a m. (
                p,
                Memᴰ.head refl,
                elim (Memᴰ.cases_cons m) [
                  | inl e ↦ omega (arith, ap rank e)
                  | inr l ↦ omega (arith, ranked p a (dep a l))
                ],
              ))
              c,
        )
      where
        at :
            (d : ℕ)
            → Memᴰ d (dependencies p)
            → (s : Progress) → progress_at w.progress d ≡ s
            → Memᴰ d w.order ⊎ Memᴰ d above
        at d m ordered e = inl ((inv.done d).1 e)
        at d m under_way e = absurd (
            omega (
              arith,
              ranked p d m,
              Cover-lower dependencies rank ranked w.order (p ∷ []) stack d p c
                  ((inv.coming_back d).1 e) (Memᴰ.head refl),
            ))
        at d m unseen e = elim (Bool-cases (nat_beq p d)) [
          | inl same ↦ absurd (omega (arith, ranked p d m, ap rank ((nat_beq_iff p d).0 same)))
          | inr other ↦
              inr (has d m (rw (progress_at-insert p d under_way w.progress, other, e) refl))
        ]

    down-IsCovered :
        (w : Walk) (p : ℕ) (stack : List (ℕ × Bool))
        → Inv dependencies n in_range (record w { stack = (p, false) ∷ stack })
        → Cover dependencies rank ranked w.order (p ∷ []) stack
        → IsBehind [] w.order
        → (s : Progress) → progress_at w.progress p ≡ s
        → IsCovered (visit_position dependencies (record w { stack = stack }) p false)
    unfolding visit_position
    down-IsCovered w p stack inv c b ordered e = rw e (
      Cover-settled dependencies rank ranked w.order w.order (p ∷ []) [] stack (λ a m. m)
          (λ a m. absurd (Memᴰ.not-nil m))
          (λ a m. elim (Memᴰ.cases_cons m) [
            | inl same ↦ inl (rw same ((inv.done p).1 e))
            | inr l ↦ absurd (Memᴰ.not-nil l)
          ])
          c,
      b,
    )
    down-IsCovered w p stack inv c b under_way e = rw e (
      Cover-up dependencies rank ranked w.order (p ∷ []) [] stack p ((inv.coming_back p).1 e)
          (λ a m. absurd (Memᴰ.not-nil m))
          (λ a m. elim (Memᴰ.cases_cons m) [ inl same ↦ inl same | inr l ↦ inr l ]) c,
      b,
    )
    down-IsCovered w p stack inv c b unseen e = rw e (
      Cover-push dependencies rank ranked w.order [] (dependencies p)
          (insert p under_way w.progress) ((p, true) ∷ stack)
          (λ above more has from. down-Cover w p stack above inv c has from),
      b,
    )

    visit_position-IsCovered :
        (w : Walk) (stack : List (ℕ × Bool)) (p : ℕ) (b : Bool)
        → Inv dependencies n in_range (record w { stack = (p, b) ∷ stack })
        → Cover dependencies rank ranked w.order [] ((p, b) ∷ stack)
        → IsBehind [] w.order
        → IsCovered (visit_position dependencies (record w { stack = stack }) p b)
    visit_position-IsCovered w stack p true inv c b = back-IsCovered w p stack c b
    visit_position-IsCovered w stack p false inv c b =
        down-IsCovered w p stack inv c b (progress_at w.progress p) refl

    pub walk_from-IsCovered :
        (fuel : ℕ) (order : List ℕ) (progress : List (ℕ × Progress)) (stack : List (ℕ × Bool))
        (w' : Walk)
        → Inv dependencies n in_range (record { order = order; progress = progress; stack = stack })
        → IsCovered (record { order = order; progress = progress; stack = stack })
        → walk_from dependencies fuel (record { order = order; progress = progress; stack = stack })
          ≡ some w'
        → IsCovered w'
    unfolding walk_from
    walk_from-IsCovered zero order progress stack w' inv c e = cc
    walk_from-IsCovered (suc fuel) order progress [] w' inv c e =
        subst IsCovered (some_injective e) c
    walk_from-IsCovered (suc fuel) order progress ((p, b) ∷ stack) w' inv c e =
        let w : Walk = record { order = order; progress = progress; stack = (p, b) ∷ stack } in
        let w1 = visit_position dependencies (record w { stack = stack }) p b in
        walk_from-IsCovered fuel w1.order w1.progress w1.stack w'
          (visit_position-Inv dependencies n in_range w stack p b refl inv)
          (visit_position-IsCovered w stack p b inv c.0 c.1) e
