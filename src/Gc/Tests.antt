-- ===== src/Gc/Tests.antt =====
-- Small inputs of gc.rs, and the witnesses.
use autocxx.Prelude.{
  ◌≡◌, refl, [], ◌∷◌, Text, codes, none, some, false, map, Distinct, Distinct-of_test, ◌==◌, Bool,
}
use autocxx.Names.{QualifiedName, name_eq}
use autocxx.Api.{Api, ApiName, struct, enum, TypeKind, api_name}
use autocxx.ApiVec.{ApiVec}
use autocxx.Gc.{Marking, visit, filter_apis_by_following_edges_from_allowlist}
use autocxx.Gc.Output.{IsOutput, filter_apis_by_following_edges-IsOutput}

abbrev name : Text → QualifiedName
name item = record { namespace = []; item = item }

abbrev info : Text → ApiName
info item = record { name = name item; cpp_name = none }

abbrev holds : Text → Text → Api
holds item field = struct (info item) (record {
  kind = TypeKind.pod;
  bases = [];
  field_deps = name field ∷ [];
  constructor_and_allocator_deps = [];
})

abbrev before : ApiVec
before = record {
  apis =
      enum (info (codes "Unused"))
      ∷ holds (codes "Outer") (codes "Middle")
      ∷ holds (codes "Middle") (codes "Outer")
      ∷ [];
  names = name (codes "Unused") ∷ name (codes "Outer") ∷ name (codes "Middle") ∷ [];
}

abbrev is_outer : Api → Bool
is_outer api = api_name api == name (codes "Outer")

before-Distinct : Distinct (map api_name before.apis)
unfolding api_name
before-Distinct = Distinct-of_test (map api_name before.apis) refl

filter_apis_by_following_edges-IsOutput_example :
    (out : ApiVec) × (filter_apis_by_following_edges_from_allowlist (λ _. false) is_outer before
      ≡ some out)
    × IsOutput is_outer before.apis out
filter_apis_by_following_edges-IsOutput_example =
    filter_apis_by_following_edges-IsOutput (λ _. false) is_outer before before-Distinct

-- A name that has been visited is passed over.
visit_again :
    (m : Marking)
    → visit (λ _. false) (name (codes "Outer")) (record m { done = name (codes "Outer") ∷ [] })
      ≡ some (record m { done = name (codes "Outer") ∷ [] })
unfolding visit
visit_again m = refl
