-- ===== src/Names/Tests.antt =====
-- Small inputs of engine/src/types.rs, and the witness.
use autocxx.Prelude.{◌≡◌, refl, none, some, true, not, contains_text, [], ◌∷◌, codes}
use autocxx.Names.Defs.{QualifiedName, new_from_cpp_name, from_type_path, display}
use autocxx.Names.RoundTrip.{new_from_cpp_name-display}
use autocxx.Names.Idents.{Syn, validate_ident_ok_for_cxx, err, too_many_underscores}

abbrev anna : QualifiedName
anna = record { namespace = codes "a" ∷ codes "b" ∷ []; item = codes "Anna" }

new_from_cpp_name-anna : new_from_cpp_name (codes "a::b::Anna") ≡ some anna
unfolding new_from_cpp_name
new_from_cpp_name-anna = refl

new_from_cpp_name_leading : new_from_cpp_name (codes "::a::::b::Anna") ≡ some anna
unfolding new_from_cpp_name
new_from_cpp_name_leading = refl

from_type_path_root :
    from_type_path (codes "root" ∷ codes "a" ∷ codes "b" ∷ codes "Anna" ∷ []) ≡ some anna
unfolding from_type_path
from_type_path_root = refl

-- Texts that hold no parenthesis are taken for identifiers.
abbrev bare : Syn
bare = record { lexes = λ t. not (contains_text t (codes "(")); parses = λ _. true }

validate_dunder : validate_ident_ok_for_cxx bare (codes "a__b") ≡ some (err too_many_underscores)
unfolding validate_ident_ok_for_cxx
validate_dunder = refl

-- `make_ident` panics.
validate_operator : validate_ident_ok_for_cxx bare (codes "operator()") ≡ none
unfolding validate_ident_ok_for_cxx
validate_operator = refl

new_from_cpp_name-display_example : new_from_cpp_name (display anna) ≡ some anna
new_from_cpp_name-display_example = new_from_cpp_name-display anna refl refl
