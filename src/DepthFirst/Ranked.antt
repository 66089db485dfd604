-- ===== src/DepthFirst/Ranked.antt =====
-- Facts about lists of named items: distinct names, and an item of least rank.
use autocxx.Prelude.{
  ℕ, ◌≤◌, ◌≡◌, ◌≢◌, refl, sym, ap, Bool, true, List, [], ◌∷◌, ◌++◌, some, map, any, arith,
  Bool-cases, inl, inr, Memᴰ, All, leb,
}
use mathlib.Core.List.Memᴰ
use autocxx.Names.{QualifiedName}

pub any-true {ℓ} :
    {A : Type ℓ} (p : A → Bool) (ds : List A) → any p ds ≡ true → (d : A) × Memᴰ d ds × (p d ≡ true)
any-true p [] e = cc
any-true p (c ∷ ds) e = elim (Bool-cases (p c)) [
  | inl now ↦ (c, Memᴰ.head refl, now)
  | inr later ↦ let (d, m, holds) = any-true p ds (ground arith) in (d, Memᴰ.tail m, holds)
]

module _ {ℓ} {A : Type ℓ} (name : A → QualifiedName) where
  pub All-ne :
      (n : QualifiedName) (xs ys : List A)
      → ¬ Memᴰ n (map name (xs ++ ys))
      → All (λ x. some (name x) ≢ some n) xs
  All-ne n [] ys absent = tt
  All-ne n (x ∷ xs) ys absent =
      (λ e. absent (Memᴰ.head (cc)), All-ne n xs ys (λ m. absent (Memᴰ.tail m)))

  pub Memᴰ-map-inv :
      (n : QualifiedName) (xs : List A) → Memᴰ n (map name xs) → (x : A) × Memᴰ x xs × (name x ≡ n)
  Memᴰ-map-inv n [] m = absurd (Memᴰ.not-nil m)
  Memᴰ-map-inv n (x ∷ xs) m = elim (Memᴰ.cases_cons m) [
    | inl e ↦ (x, Memᴰ.head refl, sym e)
    | inr later ↦ let (y, k, e) = Memᴰ-map-inv n xs later in (y, Memᴰ.tail k, e)
  ]

  module _ (rank : QualifiedName → ℕ) where
    pub record IsLeast (queue : List A) (m : A) : Type ℓ where
      pub there : Memᴰ m queue
      pub least : (y : A) → Memᴰ y queue → rank (name m) ≤ rank (name y)

    pub IsLeast-item : (x : A) (queue : List A) → (m : A) × IsLeast (x ∷ queue) m
    IsLeast-item x [] = (
      x,
      record {
        there = Memᴰ.head refl;
        least = λ y k. omega (arith, ap (λ z. rank (name z)) (Memᴰ.eq_of_singleton k));
      },
    )
    IsLeast-item x (y ∷ queue) =
        let (m, l) = IsLeast-item y queue in
        elim (Bool-cases (leb (rank (name x)) (rank (name m)))) [
          | inl below ↦ (
            x,
            record {
              there = Memᴰ.head refl;
              least = λ z k. elim (Memᴰ.cases_cons k) [
                | inl e ↦ omega (arith, ap (λ w. rank (name w)) e)
                | inr later ↦ ground (arith, l.least z later)
              ];
            },
          )
          | inr above ↦ (
            m,
            record {
              there = Memᴰ.tail l.there;
              least = λ z k. elim (Memᴰ.cases_cons k) [
                | inl e ↦ ground (arith, ap (λ w. rank (name w)) e)
                | inr later ↦ l.least z later
              ];
            },
          )
        ]
