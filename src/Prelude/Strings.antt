-- ===== src/Prelude/Strings.antt =====
-- Texts as lists of code points, the `str` functions that the program calls, and `format!("{n}")`.
use Prim.Native.Nat.{ℕ, zero, suc, ◌+◌, ◌-◌, ◌*◌, ◌/◌, ◌%◌, ◌<◌}
use Prim.Native.Char.{code}
use Prim.Native.String.{String}
use mathlib.Core.Path.{◌≡◌, refl, sym, ap, ◌∙◌}
use mathlib.Core.Logic.{inl, inr, ◌≢◌}
use mathlib.Core.Bool.{Bool, true, false, ◌&&◌, ◌||◌}
use mathlib.Core.List.{List, [], ◌∷◌, ◌++◌}
use mathlib.Core.Option.{Option, none, some}
use native.Mathlib.Omega.{arith}
use autocxx.Prelude.Tests.{ltb, leb, nat_beq, if◌then◌else◌, Bool-cases}
use autocxx.Prelude.Lists.{all}

abbrev pub Text : Type 0
Text = List ℕ

-- A text literal.
abbrev pub codes : String → Text
codes String.[] = []
codes (String.◌∷◌ c s) = code c ∷ codes s

abbrev pub starts_with : Text → Text → Bool
starts_with s [] = true
starts_with [] (p ∷ ps) = false
starts_with (c ∷ s) (p ∷ ps) = nat_beq c p && starts_with s ps

-- `s.strip_prefix(p)`
abbrev pub strip_prefix : (p s : Text) → Option Text
strip_prefix [] s = some s
strip_prefix (d ∷ p) [] = none
strip_prefix (d ∷ p) (c ∷ s) = if nat_beq d c then strip_prefix p s else none

-- `s.contains(p)`
abbrev pub contains_text : Text → Text → Bool
contains_text [] p = starts_with [] p
contains_text (c ∷ s) p = starts_with (c ∷ s) p || contains_text s p

-- `segments.join(sep)`
abbrev pub join : Text → List Text → Text
join sep [] = []
join sep (s ∷ []) = s
join sep (s ∷ t ∷ rest) = s ++ (sep ++ join sep (t ∷ rest))

abbrev pub is_digit : ℕ → Bool
is_digit c = leb b'0' c && leb c b'9'

-- The decimal digits of a number, on fuel: `suc n` is enough for `n`.
decimal_from : ℕ → ℕ → Text
decimal_from zero n = []
decimal_from (suc fuel) n =
    let rest = decimal_from fuel (n / 10) ++ (b'0' + n % 10) ∷ [] in
    if ltb n 10 then (b'0' + n) ∷ [] else rest

unfoldable pub decimal : ℕ → Text
unfolding decimal_from
decimal n = decimal_from (suc n) n

-- The number that digits denote.
value_from : ℕ → Text → ℕ
value_from acc [] = acc
value_from acc (c ∷ s) = value_from (acc * 10 + (c - b'0')) s

value_from-append :
    (acc : ℕ) (s : Text) (c : ℕ) → value_from acc (s ++ c ∷ []) ≡ value_from acc s * 10 + (c - b'0')
unfolding value_from
value_from-append acc [] c = refl
value_from-append acc (d ∷ s) c = value_from-append (acc * 10 + (d - b'0')) s c

value_from-decimal_from : (f n : ℕ) → n < f → value_from 0 (decimal_from f n) ≡ n
unfolding decimal_from value_from
value_from-decimal_from zero n h = elim h [ ]
value_from-decimal_from (suc f) n h = elim (Bool-cases (ltb n 10)) [
  | inl small ↦ rw small (omega arith)
  | inr large ↦ rw large (
      rw (value_from-append 0 (decimal_from f (n / 10)) (b'0' + n % 10))
        (omega (arith, value_from-decimal_from f (n / 10) (ground arith))))
]

pub decimal_injective : (m n : ℕ) → decimal m ≡ decimal n → m ≡ n
unfolding decimal
decimal_injective m n h =
    sym (value_from-decimal_from (suc m) m (omega arith))
    ∙ ap (value_from 0) h
    ∙ value_from-decimal_from (suc n) n (omega arith)

pub all-append :
    (p : ℕ → Bool) (s t : Text) → all p s ≡ true → all p t ≡ true → all p (s ++ t) ≡ true
all-append p [] t hs ht = ht
all-append p (c ∷ s) t hs ht = ground (arith, all-append p s t)

decimal_from-digits : (f n : ℕ) → all is_digit (decimal_from f n) ≡ true
unfolding decimal_from
decimal_from-digits zero n = refl
decimal_from-digits (suc f) n = elim (Bool-cases (ltb n 10)) [
  | inl small ↦ rw small (ground arith)
  | inr large ↦ rw large (
      all-append is_digit (decimal_from f (n / 10)) ((b'0' + n % 10) ∷ [])
        (decimal_from-digits f (n / 10)) (ground arith))
]

pub decimal-digits : (n : ℕ) → all is_digit (decimal n) ≡ true
unfolding decimal
decimal-digits n = decimal_from-digits (suc n) n

decimal_125 : decimal 125 ≡ codes "125"
unfolding decimal
decimal_125 = refl

pub decimal-nonempty : (n : ℕ) → decimal n ≢ []
unfolding decimal decimal_from
decimal-nonempty n e = elim (Bool-cases (ltb n 10)) [
  | inl small ↦ cc (rw small at e)
  | inr large ↦ snoc-nonempty (decimal_from n (n / 10)) (b'0' + n % 10) (rw large at e)
]
  where
    snoc-nonempty : (s : Text) (c : ℕ) → s ++ c ∷ [] ≢ []
    snoc-nonempty [] c h = cc
    snoc-nonempty (d ∷ s) c h = cc
