-- ===== src/Names/Total.antt =====
-- `new_from_cpp_name` of types.rs never gets to its `unreachable!`.
use autocxx.Prelude.{
  ℕ, ◌≢◌, refl, List, [], ◌∷◌, none, arith, if◌then◌else◌, ◌==◌, Text, list_eq, nat_eq,
}
use autocxx.Names.{
  Namespace, Namespace_new, push, cons_head, new_from_cpp_name, new_from_cpp_segments, split_colons,
}

cons_head-nonempty : (c : ℕ) (l : List Text) → cons_head c l ≢ []
cons_head-nonempty c [] = λ e. cc
cons_head-nonempty c (x ∷ l) = λ e. cc

split_colons-nonempty : (s : Text) → split_colons s ≢ []
unfolding split_colons
split_colons-nonempty [] = λ e. cc
split_colons-nonempty (c ∷ []) = λ e. cc
split_colons-nonempty (c ∷ d ∷ rest) =
    λ e. ground (arith, cons_head-nonempty c (split_colons (d ∷ rest)))

new_from_cpp_segments_total :
    (ns : Namespace) (segs : List Text) → segs ≢ [] → new_from_cpp_segments ns segs ≢ none
unfolding new_from_cpp_segments
new_from_cpp_segments_total ns [] some_left = λ e. some_left refl
new_from_cpp_segments_total ns (seg ∷ []) some_left = λ e. cc
new_from_cpp_segments_total ns (seg ∷ next ∷ rest) some_left =
    new_from_cpp_segments_total (if seg == [] then ns else push ns seg) (next ∷ rest) (λ e. cc)

pub new_from_cpp_name_total : (id : Text) → new_from_cpp_name id ≢ none
unfolding new_from_cpp_name
new_from_cpp_name_total id =
    new_from_cpp_segments_total Namespace_new (split_colons id) (split_colons-nonempty id)
