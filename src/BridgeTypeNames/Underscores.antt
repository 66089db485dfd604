-- ===== src/BridgeTypeNames/Underscores.antt =====
-- `collapse_underscore_runs` of bridge_type_names.rs, and the numbered candidates made by it.
use autocxx.Prelude.{
  ℕ, ◌≡◌, refl, sym, ap, ◌∙◌, Bool, true, false, [], ◌∷◌, ◌++◌, append_assoc, arith, if◌then◌else◌,
  nat_beq, Text, codes, all, contains_text, starts_with, is_digit, decimal, decimal-digits,
  decimal_injective, append_cancel_left, Bool-cases, inl, inr,
}
use autocxx.BridgeTypeNames.{collapse_after, collapse_underscore_runs, candidate}

collapse_after-single :
    (after : Bool) (s : Text)
    → (contains_text (collapse_after after s) (codes "__") ≡ false)
      × (after ≡ true → starts_with (collapse_after after s) (codes "_") ≡ false)
unfolding collapse_after
collapse_after-single after [] = (refl, λ h. refl)
collapse_after-single after (c ∷ s) =
    let (single, bare) = collapse_after-single (nat_beq c b'_') s in
    (ground (arith, single, bare), ground (arith, single, bare))

collapse_after-plain :
    (after : Bool) (s : Text)
    → contains_text s (codes "__") ≡ false
    → (after ≡ true → starts_with s (codes "_") ≡ false)
    → collapse_after after s ≡ s
unfolding collapse_after
collapse_after-plain after [] h k = refl
collapse_after-plain after (c ∷ s) h k =
    let ih = collapse_after-plain (nat_beq c b'_') s (ground arith) (ground arith) in
    ground (arith, ih, k)

ends : Bool → Text → Bool
ends after [] = after
ends after (c ∷ s) = ends (nat_beq c b'_') s

collapse_after-append :
    (after : Bool) (s t : Text)
    → collapse_after after (s ++ t) ≡ collapse_after after s ++ collapse_after (ends after s) t
unfolding collapse_after ends
collapse_after-append after [] t = refl
collapse_after-append after (c ∷ s) t =
    let ih = collapse_after-append (nat_beq c b'_') s t in ground (arith, ih)

-- A run of two underscores or more, after a text, comes to what one underscore comes to.
collapse_after-run :
    (after : Bool) (behind : Text)
    → collapse_after after (codes "__" ++ behind) ≡ collapse_after after (codes "_" ++ behind)
unfolding collapse_after
collapse_after-run true behind = refl
collapse_after-run false behind = refl

-- Collapsing leaves no two underscores side by side, leaves a text that has none alone, and does
-- not see whether one underscore or two stand between two texts. So every run is reduced to one.
pub collapse_underscore_runs_lem :
    (id before behind : Text)
    → (contains_text (collapse_underscore_runs id) (codes "__") ≡ false)
      × (contains_text id (codes "__") ≡ false → collapse_underscore_runs id ≡ id)
      × (collapse_underscore_runs (before ++ (codes "__" ++ behind))
          ≡ collapse_underscore_runs (before ++ (codes "_" ++ behind)))
unfolding collapse_underscore_runs
collapse_underscore_runs_lem id before behind = (
  (collapse_after-single false id).0,
  λ h. collapse_after-plain false id h (λ e. cc),
  collapse_after-append false before (codes "__" ++ behind)
      ∙ ap (λ s. collapse_after false before ++ s) (collapse_after-run (ends false before) behind)
      ∙ sym (collapse_after-append false before (codes "_" ++ behind)),
)

collapse_after-digits :
    (after : Bool) (s : Text) → all is_digit s ≡ true → collapse_after after s ≡ s
unfolding collapse_after
collapse_after-digits after [] h = refl
collapse_after-digits after (c ∷ s) h =
    let ih = collapse_after-digits (nat_beq c b'_') s (ground arith) in ground (arith, ih)

-- What a stem comes to, before the number.
numbered_stem : Text → Text
unfolding collapse_after ends
numbered_stem stem =
    collapse_after false stem ++ (if ends false stem then codes "autocxx" else codes "_autocxx")

candidate-number :
    (stem : Text) (counter : ℕ) → candidate stem counter ≡ numbered_stem stem ++ decimal counter
unfolding candidate collapse_underscore_runs numbered_stem
candidate-number stem counter =
    collapse_after-append false stem (codes "_autocxx" ++ decimal counter)
    ∙ elim (Bool-cases (ends false stem)) [
      | inl run ↦ rw run (with_suffix true)
      | inr none ↦ rw none (with_suffix false)
    ]
  where
    with_suffix :
        (after : Bool)
        → collapse_after false stem ++ collapse_after after (codes "_autocxx" ++ decimal counter)
          ≡ (collapse_after false stem ++ (if after then codes "autocxx" else codes "_autocxx"))
            ++ decimal counter
    with_suffix true =
        rw (collapse_after-digits false (decimal counter) (decimal-digits counter))
          (sym (append_assoc (collapse_after false stem) (codes "autocxx") (decimal counter)))
    with_suffix false =
        rw (collapse_after-digits false (decimal counter) (decimal-digits counter))
          (sym (append_assoc (collapse_after false stem) (codes "_autocxx") (decimal counter)))

pub candidate_injective : (stem : Text) (m n : ℕ) → candidate stem m ≡ candidate stem n → m ≡ n
candidate_injective stem m n e = decimal_injective m n (
    append_cancel_left (numbered_stem stem)
      (sym (candidate-number stem m) ∙ e ∙ candidate-number stem n))
