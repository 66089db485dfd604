-- ===== src/BridgeNameTracker/Numbers.antt =====
-- The number at the end of a bridge name of bridge_name_tracker.rs, read off again.
use autocxx.Prelude.{
  ℕ, ◌≡◌, ◌≢◌, refl, sym, subst, ap, ◌∙◌, Bool, true, false, ◌&&◌, [], ◌∷◌, ◌++◌, append_assoc,
  length, length-append, arith, if◌then◌else◌, Text, codes, all, is_digit, decimal, decimal-digits,
  decimal_injective, append_cancel_left, cons_injective, append-nil, decimal-nonempty,
}

abbrev pub numbered : Text → ℕ → Text
numbered key n = key ++ (codes "_autocxx" ++ decimal n)

append_cancel_right : (xs ys t : Text) → xs ++ t ≡ ys ++ t → xs ≡ ys
append_cancel_right [] [] t e = refl
append_cancel_right [] (y ∷ ys) t e = absurd (omega (arith, ap length e, length-append ys t))
append_cancel_right (x ∷ xs) [] t e = absurd (omega (arith, ap length e, length-append xs t))
append_cancel_right (x ∷ xs) (y ∷ ys) t e =
    let ih = append_cancel_right xs ys t (cons_injective e) in cc

abbrev is_nil : Text → Bool
is_nil [] = true
is_nil (_ ∷ _) = false

-- The text without the digits at its end.
unfoldable pub undigited : Text → Text
undigited [] = []
undigited (c ∷ s) = let rest = undigited s in if is_nil rest && is_digit c then [] else c ∷ rest

undigited-digits : (d : Text) → all is_digit d ≡ true → undigited d ≡ []
unfolding undigited
undigited-digits [] h = refl
undigited-digits (c ∷ d) h = let ih = undigited-digits d (ground arith) in ground (arith, ih)

undigited-append : (s d : Text) → all is_digit d ≡ true → undigited (s ++ d) ≡ undigited s
unfolding undigited
undigited-append [] d h = undigited-digits d h
undigited-append (c ∷ s) d h = rw (undigited-append s d h) refl

undigited-key : (key : Text) → undigited (key ++ codes "_autocxx") ≡ key ++ codes "_autocxx"
unfolding undigited
undigited-key [] = refl
undigited-key (c ∷ []) = refl
undigited-key (c ∷ d ∷ key) = rw (undigited-key (d ∷ key)) refl

-- A numbered name tells its key and its number.
pub numbered_injective : (j k : Text) (m n : ℕ) → numbered j m ≡ numbered k n → (j ≡ k) × (m ≡ n)
numbered_injective j k m n e =
    let keys : j ++ codes "_autocxx" ≡ k ++ codes "_autocxx" =
      sym (undigited-key j)
      ∙ sym (undigited-append (j ++ codes "_autocxx") (decimal m) (decimal-digits m))
      ∙ ap undigited (
          append_assoc j (codes "_autocxx") (decimal m)
          ∙ e
          ∙ sym (append_assoc k (codes "_autocxx") (decimal n)))
      ∙ undigited-append (k ++ codes "_autocxx") (decimal n) (decimal-digits n)
      ∙ undigited-key k in
    let same = append_cancel_right j k (codes "_autocxx") keys in
    (
      same,
      decimal_injective m n (
          append_cancel_left (codes "_autocxx") (
            append_cancel_left k
              (subst (λ l. l ++ (codes "_autocxx" ++ decimal m) ≡ numbered k n) same e))),
    )

-- A name that does not end in a digit is not a numbered one.
pub undigited-plain : (key : Text) → undigited key ≡ key → (k : Text) (n : ℕ) → key ≢ numbered k n
undigited-plain key h k n e =
    let stem = k ++ codes "_autocxx" in
    let whole : key ≡ stem ++ decimal n = e ∙ sym (append_assoc k (codes "_autocxx") (decimal n)) in
    let cut : undigited key ≡ stem =
      ap undigited whole ∙ undigited-append stem (decimal n) (decimal-digits n) ∙ undigited-key k in
    let both : stem ++ decimal n ≡ stem ++ [] = sym whole ∙ sym h ∙ cut ∙ sym (append-nil stem) in
    decimal-nonempty n (append_cancel_left stem both)
