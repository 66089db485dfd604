-- ===== src/NameCheck/Tests.antt =====
-- Small inputs of name_check.rs, and the witness.
use autocxx.Prelude.{
  all, all_holds, ◌≡◌, refl, List, [], ◌∷◌, Text, codes, none, some, false, map, Distinct,
  Distinct-of_test, list_eq, nat_eq,
}
use autocxx.Names.{QualifiedName, name_eq, display, segment_iter}
use autocxx.Api.{Api, ApiName, const, function, rust_type, FnKind, api_name, name_info}
use autocxx.ApiVec.{ApiVec}
use autocxx.BridgeTypeNames.{declares_bridge_type, fixed_bridge_names}
use autocxx.BridgeTypeNames.Tests.{is_word, words, words-IdentGrammar}
use autocxx.NameCheck.{check_names, names_found, note_name, bridge_name, symbols_for}
use autocxx.NameCheck.Spelled.{spelled}
use autocxx.NameCheck.Checked.{IsChecked, check_names-IsChecked}

abbrev info : Text → Text → ApiName
info namespace item = record {
  name = record { namespace = namespace ∷ []; item = item };
  cpp_name = none;
}

abbrev fn_named : Text → Text → Text → Api
fn_named namespace item bridge =
    function (info namespace item) item
      (record { cxxbridge_name = bridge; rust_name = item; kind = FnKind.function; deps = [] })

-- A function and a Rust type that both go by `Bob` in the bridge, and a constant.
abbrev clashing : List Api
clashing =
    fn_named (codes "a") (codes "bob") (codes "Bob")
    ∷ rust_type (info (codes "b") (codes "Bob"))
    ∷ const (info (codes "c") (codes "Bob"))
    ∷ []

abbrev before : ApiVec
before = record { apis = clashing; names = map (λ (a : Api). api_name a) clashing }

both_named :
    symbols_for (codes "Bob") (names_found [] [] clashing) ≡ codes "a::bob" ∷ codes "b::Bob" ∷ []
unfolding names_found note_name bridge_name declares_bridge_type fixed_bridge_names api_name
    name_info display
both_named = refl

before-Distinct : Distinct (map api_name before.apis)
unfolding api_name name_info
before-Distinct = Distinct-of_test (map api_name before.apis) refl

check_names-IsChecked_example :
    (results : ApiVec) × (names : List (QualifiedName × Text)) × (check_names
        (λ _. false)
        words
        before
      ≡ some (results, names))
    × IsChecked (λ _. false) words before.apis results.apis names
unfolding api_name name_info segment_iter
check_names-IsChecked_example =
    check_names-IsChecked (λ _. false) words words-IdentGrammar before before-Distinct
      (λ a m.
        all_holds (all is_word) (spelled a)
          (all_holds (λ x. all (all is_word) (spelled x)) clashing refl a m))
