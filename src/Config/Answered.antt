-- ===== src/Config/Answered.antt =====
-- `DirectiveList` over a conversion, in which it is asked about many names.
use autocxx.Prelude.{
  Bool, false, not, ◌||◌, ◌≡◌, refl, ◌∙◌, List, [], ◌∷◌, map, any, filter, Text, arith,
}
use autocxx.Config.{
  DirectiveList, iter, set_matched, matches_from, matches, clear_matches, unmatched,
}

matches_from_lem :
    (f : Text → Bool) (b : Bool) (list : DirectiveList)
    → matches_from f b list ≡ (b || any f (iter list), map (set_matched f) list)
unfolding matches_from
matches_from_lem f b [] = ground arith
matches_from_lem f b (r ∷ rs) = rw (matches_from_lem f (f r.text || b) rs) (ground arith)

-- The list after it has been asked each of the questions in turn.
abbrev pub asked : List (Text → Bool) → DirectiveList → DirectiveList
asked [] list = list
asked (f ∷ fs) list = asked fs (matches f list).1

-- Whether one of the questions is answered by a request.
abbrev pub answers : List (Text → Bool) → Text → Bool
answers fs text = any (λ f. f text) fs

-- The requests that are left unmatched, where the questions are still to come.
abbrev left : List (Text → Bool) → DirectiveList → List Text
left fs list = map (λ r. r.text) (filter (λ r. not (r.matched || answers fs r.text)) list)

left-set_matched :
    (f : Text → Bool) (fs : List (Text → Bool)) (list : DirectiveList)
    → left fs (map (set_matched f) list) ≡ left (f ∷ fs) list
left-set_matched f fs [] = refl
left-set_matched f fs (r ∷ rs) = ground (arith, left-set_matched f fs rs)

unmatched-asked :
    (fs : List (Text → Bool)) (list : DirectiveList) → unmatched (asked fs list) ≡ left fs list
unfolding unmatched matches
unmatched-asked [] [] = refl
unmatched-asked [] (r ∷ rs) = ground (arith, unmatched-asked [] rs)
unmatched-asked (f ∷ fs) list =
    rw (matches_from_lem f false list)
      (unmatched-asked fs (map (set_matched f) list) ∙ left-set_matched f fs list)

left-clear_matches :
    (fs : List (Text → Bool)) (list : DirectiveList)
    → left fs (clear_matches list) ≡ filter (λ t. not (answers fs t)) (iter list)
unfolding clear_matches
left-clear_matches fs [] = refl
left-clear_matches fs (r ∷ rs) = ground (arith, left-clear_matches fs rs)

-- Once the list is cleared and then asked any questions, the unmatched requests are those, in their
-- order, that none of the questions matches. In particular a question marks every request that it
-- matches, and not the first one only.
pub unmatched-answers :
    (fs : List (Text → Bool)) (list : DirectiveList)
    → unmatched (asked fs (clear_matches list)) ≡ filter (λ t. not (answers fs t)) (iter list)
unmatched-answers fs list = unmatched-asked fs (clear_matches list) ∙ left-clear_matches fs list
