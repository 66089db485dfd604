-- ===== src/RemoveIgnored/Tests.antt =====
-- Small inputs of remove_ignored.rs, and the witnesses.
use mathlib.Core.Option
use autocxx.Prelude.{
  ◌≡◌, refl, [], ◌∷◌, Text, codes, none, some, true, false, map, Distinct, Distinct-of_test, to_set,
}
use autocxx.Names.{QualifiedName, name_eq}
use autocxx.Api.{
  Api, ApiName, struct, enum, ignored_item, TypeKind, api_name, name_info, api_deps, valid_types,
}
use autocxx.Api.Errors.{ConvertErrorFromCpp}
use autocxx.ApiVec.{ApiVec}
use autocxx.RemoveIgnored.{
  filter_apis_by_ignored_dependents, is_ignored, sweep, first_missing, ignored_dependents,
  reasons_of, types_of,
}
use autocxx.RemoveIgnored.Sound.{filter_apis-IsFiltered, IsFiltered}

abbrev name : Text → QualifiedName
name item = record { namespace = []; item = item }

abbrev info : Text → ApiName
info item = record { name = name item; cpp_name = none }

abbrev holds : Text → Text → Api
holds item field = struct (info item) (record {
  kind = TypeKind.pod;
  bases = [];
  field_deps = name field ∷ [];
  constructor_and_allocator_deps = [];
})

-- `Outer` holds a `Middle` that holds an ignored item; `Fine` holds an enum, `Lost` nothing known.
abbrev before : ApiVec
before = record {
  apis =
      holds (codes "Outer") (codes "Middle")
      ∷ holds (codes "Middle") (codes "Gone")
      ∷ ignored_item (info (codes "Gone")) (ConvertErrorFromCpp.other (codes "")) none
      ∷ holds (codes "Fine") (codes "Colour")
      ∷ enum (info (codes "Colour"))
      ∷ holds (codes "Lost") (codes "Nowhere")
      ∷ [];
  names =
      name (codes "Outer")
      ∷ name (codes "Middle")
      ∷ name (codes "Gone")
      ∷ name (codes "Fine")
      ∷ name (codes "Colour")
      ∷ name (codes "Lost")
      ∷ [];
}

-- The first pass leaves `Outer`: its dependency is ignored only after it.
first_pass :
    Option.map
      (λ r. map is_ignored r.apis)
      (sweep
        (λ _. false)
        (λ _. false)
        (types_of before.apis)
        (reasons_of [] before.apis)
        before.apis)
    ≡ some (false ∷ true ∷ true ∷ false ∷ false ∷ true ∷ [])
unfolding sweep is_ignored api_name name_info api_deps reasons_of types_of first_missing valid_types
    ignored_dependents
first_pass = refl

before-Distinct : Distinct (map api_name before.apis)
unfolding api_name
before-Distinct = Distinct-of_test (map api_name before.apis) refl

filter_apis-IsFiltered_example :
    (v' : ApiVec) × (filter_apis_by_ignored_dependents (λ _. false) (λ _. false) before ≡ some v')
    × IsFiltered (λ _. false) (λ _. false) (to_set [] (types_of before.apis)) before.apis v'.apis
    × (v'.names ≡ map api_name v'.apis)
filter_apis-IsFiltered_example =
    filter_apis-IsFiltered (λ _. false) (λ _. false) before before-Distinct
