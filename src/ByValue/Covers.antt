-- ===== src/ByValue/Covers.antt =====
-- Why `structs_in_dependency_order` comes to a struct after the structs that it holds.
use mathlib.Core.List.Memᴰ
use autocxx.Prelude.{
  ℕ, ◌<◌, ◌≤◌, ◌≡◌, ◌⊎◌, refl, sym, ap, ◌∙◌, Bool, true, false, List, [], ◌∷◌, nat_eq, arith,
  Bool-cases, inl, inr, Memᴰ,
}
use autocxx.ByValue.Order.{Progress, progress_at, is_unseen, push_unseen}
use autocxx.ByValue.Room.{ups}

module _ (dependencies : ℕ → List ℕ) (rank : ℕ → ℕ)
    (ranked : (p d : ℕ) → Memᴰ d (dependencies p) → rank d < rank p) where
  -- Each position that is to be come back to outranks what is above it, and has each of its
  -- dependencies above it or behind it.
  abbrev pub Cover : (order above : List ℕ) → List (ℕ × Bool) → Type 0
  Cover order above [] = Unit
  Cover order above ((p, false) ∷ stack) = Cover order (p ∷ above) stack
  Cover order above ((p, true) ∷ stack) =
      ((a : ℕ) → Memᴰ a above → rank a < rank p)
      × ((d : ℕ) → Memᴰ d (dependencies p) → Memᴰ d order ⊎ Memᴰ d above)
      × Cover order (p ∷ above) stack

  abbrev Within : List ℕ → List ℕ → Type 0
  Within above above' = (a : ℕ) → Memᴰ a above → Memᴰ a above'

  Within-cons :
      (p : ℕ) (above above' : List ℕ) → Within above above' → Within (p ∷ above) (p ∷ above')
  Within-cons p above above' h a m = elim (Memᴰ.cases_cons m) [
    | inl e ↦ Memᴰ.head e
    | inr l ↦ Memᴰ.tail (h a l)
  ]

  -- What is behind need not be above.
  pub Cover-settled :
      (order order' above above' : List ℕ) (stack : List (ℕ × Bool))
      → Within order order'
      → Within above' above
      → ((a : ℕ) → Memᴰ a above → Memᴰ a order' ⊎ Memᴰ a above')
      → Cover order above stack
      → Cover order' above' stack
  Cover-settled order order' above above' [] more less settle c = tt
  Cover-settled order order' above above' ((p, false) ∷ stack) more less settle c =
      Cover-settled order order' (p ∷ above) (p ∷ above') stack more
        (Within-cons p above' above less) (settle-cons p) c
    where
      settle-cons : (p : ℕ) (a : ℕ) → Memᴰ a (p ∷ above) → Memᴰ a order' ⊎ Memᴰ a (p ∷ above')
      settle-cons p a m = elim (Memᴰ.cases_cons m) [
        | inl e ↦ inr (Memᴰ.head e)
        | inr l ↦ elim (settle a l) [ inl o ↦ inl o | inr k ↦ inr (Memᴰ.tail k) ]
      ]
  Cover-settled order order' above above' ((p, true) ∷ stack) more less settle (lower, deps, c) = (
    λ a m. lower a (less a m),
    λ d m. elim (deps d m) [ inl o ↦ inl (more d o) | inr k ↦ settle d k ],
    Cover-settled order order' (p ∷ above) (p ∷ above') stack more (Within-cons p above' above less)
        (settle-cons p) c,
  )
    where
      settle-cons : (p : ℕ) (a : ℕ) → Memᴰ a (p ∷ above) → Memᴰ a order' ⊎ Memᴰ a (p ∷ above')
      settle-cons p a m = elim (Memᴰ.cases_cons m) [
        | inl e ↦ inr (Memᴰ.head e)
        | inr l ↦ elim (settle a l) [ inl o ↦ inl o | inr k ↦ inr (Memᴰ.tail k) ]
      ]

  -- What is above a position that is to be come back to has a lower rank.
  pub Cover-lower :
      (order above : List ℕ) (stack : List (ℕ × Bool)) (p a : ℕ)
      → Cover order above stack
      → Memᴰ p (ups stack)
      → Memᴰ a above
      → rank a < rank p
  Cover-lower order above [] p a c there m = absurd (Memᴰ.not-nil there)
  Cover-lower order above ((q, false) ∷ stack) p a c there m =
      Cover-lower order (q ∷ above) stack p a c there (Memᴰ.tail m)
  Cover-lower order above ((q, true) ∷ stack) p a (lower, deps, c) there m =
      elim (Memᴰ.cases_cons there) [
        | inl same ↦ rw same (lower a m)
        | inr later ↦ Cover-lower order (q ∷ above) stack p a c later (Memᴰ.tail m)
      ]

  -- More above, of no higher rank.
  pub Cover-widen :
      (order above above' : List ℕ) (stack : List (ℕ × Bool))
      → Within above above'
      → ((a : ℕ) → Memᴰ a above' → (b : ℕ) × Memᴰ b above × (rank a ≤ rank b))
      → Cover order above stack
      → Cover order above' stack
  Cover-widen order above above' [] more low c = tt
  Cover-widen order above above' ((q, false) ∷ stack) more low c =
      Cover-widen order (q ∷ above) (q ∷ above') stack (Within-cons q above above' more)
        (low-cons q) c
    where
      low-cons : (q a : ℕ) → Memᴰ a (q ∷ above') → (b : ℕ) × Memᴰ b (q ∷ above) × (rank a ≤ rank b)
      low-cons q a m = elim (Memᴰ.cases_cons m) [
        | inl e ↦ (q, Memᴰ.head refl, omega (arith, ap rank e))
        | inr l ↦ let (b, k, le) = low a l in (b, Memᴰ.tail k, le)
      ]
  Cover-widen order above above' ((q, true) ∷ stack) more low (lower, deps, c) = (
    λ a m. let (b, k, le) = low a m in omega (arith, le, lower b k),
    λ d m. elim (deps d m) [ inl o ↦ inl o | inr k ↦ inr (more d k) ],
    Cover-widen order (q ∷ above) (q ∷ above') stack (Within-cons q above above' more) (low-cons q)
        c,
  )
    where
      low-cons : (q a : ℕ) → Memᴰ a (q ∷ above') → (b : ℕ) × Memᴰ b (q ∷ above) × (rank a ≤ rank b)
      low-cons q a m = elim (Memᴰ.cases_cons m) [
        | inl e ↦ (q, Memᴰ.head refl, omega (arith, ap rank e))
        | inr l ↦ let (b, k, le) = low a l in (b, Memᴰ.tail k, le)
      ]

  -- A position that is come back to further down need not be above.
  pub Cover-up :
      (order above above' : List ℕ) (stack : List (ℕ × Bool)) (p : ℕ)
      → Memᴰ p (ups stack)
      → Within above' above
      → ((a : ℕ) → Memᴰ a above → (a ≡ p) ⊎ Memᴰ a above')
      → Cover order above stack
      → Cover order above' stack
  Cover-up order above above' [] p there less settle c = tt
  Cover-up order above above' ((q, false) ∷ stack) p there less settle c =
      Cover-up order (q ∷ above) (q ∷ above') stack p there (Within-cons q above' above less)
        (λ a m. elim (Memᴰ.cases_cons m) [
          | inl e ↦ inr (Memᴰ.head e)
          | inr l ↦ elim (settle a l) [ inl e ↦ inl e | inr k ↦ inr (Memᴰ.tail k) ]
        ])
        c
  Cover-up order above above' ((q, true) ∷ stack) p there less settle (lower, deps, c) = (
    λ a m. lower a (less a m),
    λ d m. elim (deps d m) [
      | inl o ↦ inl o
      | inr k ↦ elim (settle d k) [
        | inr k' ↦ inr k'
        | inl e ↦ elim (Memᴰ.cases_cons there) [
          | inl same ↦ absurd (omega (arith, lower d k, ap rank e, ap rank same))
          | inr later ↦ absurd (
              omega (
                arith,
                ranked q d m,
                ap rank e,
                Cover-lower order (q ∷ above) stack p q c later (Memᴰ.head refl),
              ))
        ]
      ]
    ],
    elim (Memᴰ.cases_cons there) [
      | inl same ↦
          Cover-settled order order (q ∷ above) (q ∷ above') stack (λ a m. m)
            (Within-cons q above' above less)
            (λ a m. elim (Memᴰ.cases_cons m) [
              | inl e ↦ inr (Memᴰ.head e)
              | inr l ↦ elim (settle a l) [
                | inl e ↦ inr (Memᴰ.head (e ∙ same))
                | inr k ↦ inr (Memᴰ.tail k)
              ]
            ])
            c
      | inr later ↦
          Cover-up order (q ∷ above) (q ∷ above') stack p later (Within-cons q above' above less)
            (λ a m. elim (Memᴰ.cases_cons m) [
              | inl e ↦ inr (Memᴰ.head e)
              | inr l ↦ elim (settle a l) [ inl e ↦ inl e | inr k ↦ inr (Memᴰ.tail k) ]
            ])
            c
    ],
  )

  -- Dependencies that are pushed come to be above.
  pub Cover-push :
      (order above ds : List ℕ) (progress : List (ℕ × Progress)) (stack : List (ℕ × Bool))
      → ((above' : List ℕ)
          → Within above above'
          → ((d : ℕ) → Memᴰ d ds → is_unseen (progress_at progress d) ≡ true → Memᴰ d above')
          → ((a : ℕ) → Memᴰ a above' → Memᴰ a above ⊎ Memᴰ a ds)
          → Cover order above' stack)
      → Cover order above (push_unseen progress ds stack)
  unfolding push_unseen
  Cover-push order above [] progress stack k =
      k above (λ a m. m) (λ d m. absurd (Memᴰ.not-nil m)) (λ a m. inl m)
  Cover-push order above (d ∷ ds) progress stack k =
      elim (Bool-cases (is_unseen (progress_at progress d))) [
        | inl new ↦
            rw (new, push_unseen)
              (Cover-push order above ds progress ((d, false) ∷ stack) (λ above' more has from.
                k (d ∷ above') (λ a m. Memᴰ.tail (more a m))
                  (λ e m is_new. elim (Memᴰ.cases_cons m) [
                    | inl same ↦ Memᴰ.head same
                    | inr later ↦ Memᴰ.tail (has e later is_new)
                  ])
                  (λ a m. elim (Memᴰ.cases_cons m) [
                    | inl same ↦ inr (Memᴰ.head same)
                    | inr later ↦ elim (from a later) [ inl x ↦ inl x | inr y ↦ inr (Memᴰ.tail y) ]
                  ])))
        | inr old ↦
            rw (old, push_unseen)
              (Cover-push order above ds progress stack (λ above' more has from.
                k above' more
                  (λ e m is_new. elim (Memᴰ.cases_cons m) [
                    | inl same ↦
                        cc (
                          sym old
                          ∙ sym (ap (λ x. is_unseen (progress_at progress x)) same)
                          ∙ is_new)
                    | inr later ↦ has e later is_new
                  ])
                  (λ a m. elim (from a m) [ inl x ↦ inl x | inr y ↦ inr (Memᴰ.tail y) ])))
      ]
