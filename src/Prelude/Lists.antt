-- ===== src/Prelude/Lists.antt =====
-- Lists as sequences and as the insertion-ordered sets (`IndexSet`, `HashSet`) of the program.
use Prim.Native.Nat.{ℕ, suc, ◌+◌}
use mathlib.Core.Path.{◌≡◌, refl, sym, subst}
use mathlib.Core.Logic.{◌↔◌, ◌⊎◌, inl, inr, ⊎_elim}
use mathlib.Core.Bool.{Bool, true, false, ◌||◌, ◌&&◌, not}
use mathlib.Core.List.{List, [], ◌∷◌, ◌++◌, Memᴰ}
use mathlib.Core.List.Memᴰ
use mathlib.Core.Option.{some}
use native.Mathlib.Omega.{arith}
use autocxx.Prelude.Tests.{if◌then◌else◌}
use autocxx.Prelude.Keys.{Eq}

module _ {ℓ} {A : Type ℓ} where
  abbrev pub length : List A → ℕ
  length [] = 0
  length (x ∷ xs) = suc (length xs)

  abbrev pub any : (A → Bool) → List A → Bool
  any p [] = false
  any p (x ∷ xs) = p x || any p xs

  abbrev pub all : (A → Bool) → List A → Bool
  all p [] = true
  all p (x ∷ xs) = p x && all p xs

  abbrev pub filter : (A → Bool) → List A → List A
  filter p [] = []
  filter p (x ∷ xs) = if p x then x ∷ filter p xs else filter p xs

  pub length-append : (xs ys : List A) → length (xs ++ ys) ≡ length xs + length ys
  length-append [] ys = omega arith
  length-append (x ∷ xs) ys = omega (arith, length-append xs ys)

  pub Memᴰ-cons : (a x : A) (xs : List A) → Memᴰ a (x ∷ xs) ↔ ((a ≡ x) ⊎ Memᴰ a xs)
  Memᴰ-cons a x xs = (Memᴰ.cases_cons, ⊎_elim Memᴰ.head Memᴰ.tail)

  pub Memᴰ-append : (a : A) (xs ys : List A) → Memᴰ a (xs ++ ys) ↔ (Memᴰ a xs ⊎ Memᴰ a ys)
  Memᴰ-append a xs ys = (Memᴰ.append_cases xs, ⊎_elim (Memᴰ.append_left ys) (Memᴰ.append_right xs))

module _ {ℓ} {A : Type ℓ} ⦃e : Eq A⦄ where
  abbrev pub contains : List A → A → Bool
  contains [] a = false
  contains (x ∷ xs) a = e.beq x a || contains xs a

  -- `set.insert(a)`: the new element goes last.
  abbrev pub set_insert : A → List A → List A
  set_insert a xs = if contains xs a then xs else xs ++ a ∷ []

  -- `set.remove(&a)`
  abbrev pub set_remove : A → List A → List A
  set_remove a [] = []
  set_remove a (x ∷ xs) = if e.beq x a then set_remove a xs else x ∷ set_remove a xs

  -- `iter.collect()` into a set
  abbrev pub to_set : List A → List A → List A
  to_set acc [] = acc
  to_set acc (x ∷ xs) = to_set (set_insert x acc) xs

  pub contains-append :
      (xs ys : List A) (a : A) → contains (xs ++ ys) a ≡ (contains xs a || contains ys a)
  contains-append [] ys a = refl
  contains-append (x ∷ xs) ys a = ground (arith, contains-append xs ys a)

  pub contains-set_insert :
      (b : A) (xs : List A) (a : A) → contains (set_insert b xs) a ≡ (e.beq b a || contains xs a)
  contains-set_insert b xs a = ground (arith, contains-append xs (b ∷ []) a, e.beq_iff b a)

  pub contains-set_remove :
      (b : A) (xs : List A) (a : A)
      → contains (set_remove b xs) a ≡ (if e.beq b a then false else contains xs a)
  contains-set_remove b [] a = ground arith
  contains-set_remove b (x ∷ xs) a =
      ground (arith, contains-set_remove b xs a, e.beq_iff b a, e.beq_iff x a, e.beq_iff x b)

  pub contains-to_set :
      (acc xs : List A) (a : A) → contains (to_set acc xs) a ≡ (contains acc a || contains xs a)
  contains-to_set acc [] a = ground arith
  contains-to_set acc (x ∷ xs) a =
      ground (arith, contains-to_set (set_insert x acc) xs a, contains-set_insert x acc a)

  pub contains_iff : (xs : List A) (a : A) → (contains xs a ≡ true) ↔ Memᴰ a xs
  contains_iff [] a = (λ h. cc, λ m. absurd (Memᴰ.not-nil m))
  contains_iff (x ∷ xs) a = ground (arith, contains_iff xs a, e.beq_iff x a, Memᴰ-cons a x xs)

-- No element stands twice.
abbrev pub Distinct {ℓ} : {A : Type ℓ} → List A → Type ℓ
Distinct [] = Unit
Distinct (x ∷ xs) = (¬ Memᴰ x xs) × Distinct xs

abbrev pub All {ℓ κ} : {A : Type ℓ} → (A → Type κ) → List A → Type κ
All P [] = Unit
All P (x ∷ xs) = P x × All P xs

pub cons_injective {ℓ} : {A : Type ℓ} {x y : A} {xs ys : List A} → x ∷ xs ≡ y ∷ ys → xs ≡ ys
cons_injective h = cc

pub append_cancel_left {ℓ} :
    {A : Type ℓ} (xs : List A) {ys zs : List A} → xs ++ ys ≡ xs ++ zs → ys ≡ zs
append_cancel_left [] h = h
append_cancel_left (x ∷ xs) h = append_cancel_left xs (cons_injective h)

pub not_mem_of_contains {ℓ} :
    {A : Type ℓ} ⦃e : Eq A⦄ (xs : List A) (a : A) → contains xs a ≡ false → ¬ Memᴰ a xs
not_mem_of_contains xs a h m = cc ((contains_iff xs a).1 m)

pub some_injective {ℓ} : {A : Type ℓ} {x y : A} → some x ≡ some y → x ≡ y
some_injective h = cc

pub All-mem {ℓ κ} :
    {A : Type ℓ} (P : A → Type κ) (xs : List A) → All P xs → {a : A} → Memᴰ a xs → P a
All-mem P [] holds m = absurd (Memᴰ.not-nil m)
All-mem P (x ∷ xs) holds m = elim (Memᴰ.cases_cons m) [
  | inl e ↦ subst P (sym e) holds.0
  | inr later ↦ All-mem P xs holds.1 later
]

pub all_holds {ℓ} :
    {A : Type ℓ} (p : A → Bool) (xs : List A) → all p xs ≡ true → (a : A) → Memᴰ a xs → p a ≡ true
all_holds p [] h a m = absurd (Memᴰ.not-nil m)
all_holds p (x ∷ xs) h a m = elim (Memᴰ.cases_cons m) [
  | inl e ↦ rw e (ground arith)
  | inr later ↦ all_holds p xs (ground arith) a later
]

-- A test for `Distinct`.
module _ {ℓ} {A : Type ℓ} ⦃e : Eq A⦄ where
  abbrev pub distinct_test : List A → Bool
  distinct_test [] = true
  distinct_test (x ∷ xs) = not (contains xs x) && distinct_test xs

  pub Distinct-of_test : (xs : List A) → distinct_test xs ≡ true → Distinct xs
  Distinct-of_test [] h = tt
  Distinct-of_test (x ∷ xs) h =
      (not_mem_of_contains xs x (ground arith), Distinct-of_test xs (ground arith))

pub all_iff {ℓ} :
    {A : Type ℓ} (p : A → Bool) (xs : List A) → (all p xs ≡ true) ↔ All (λ x. p x ≡ true) xs
all_iff p [] = (λ h. tt, λ h. refl)
all_iff p (x ∷ xs) = let ih = all_iff p xs in ground (arith, ih)
