-- ===== src/ApiVec/Tests.antt =====
-- Small inputs of apivec.rs, and the witnesses.
use mathlib.Core.Option
use autocxx.Prelude.{
  ◌≡◌, refl, [], ◌∷◌, Text, codes, none, some, true, false, map, Distinct, Distinct-of_test,
  contains, Memᴰ,
}
use autocxx.ApiVec.Names.{IsFiled, IsValid}
use autocxx.ApiVec.Push.{push-IsValid}
use autocxx.ApiVec.Collect.{from_iter-IsValid, from_iter-Distinct}
use autocxx.Names.{QualifiedName, name_eq}
use autocxx.Api.{
  Api, ApiName, enum, function, FnKind, api_name, discard_duplicates, new_from_qualified_name,
}
use autocxx.ApiVec.{
  ApiVec, from_iter, push, is_unshadowable_type, is_function, is_displaced_function,
  already_contains, displaced_function_name, insert_api, take_displaced_function, retain,
  settle_hidden, record_displaced_function, refile_displaced_function, first_free_name,
  free_name_from, contains_function, contains_unshadowable_type,
}

abbrev root : Text → ApiName
root item = record { name = record { namespace = []; item = item }; cpp_name = none }

abbrev stat_type : Api
stat_type = enum (root (codes "stat"))

abbrev stat_function : Api
stat_function = function (root (codes "stat")) (codes "stat") (record {
  cxxbridge_name = codes "stat";
  rust_name = codes "stat";
  kind = FnKind.function;
  deps = [];
})

program : Unit {0}
unfolding from_iter push api_name discard_duplicates new_from_qualified_name is_unshadowable_type
    is_function is_displaced_function already_contains displaced_function_name insert_api
    take_displaced_function retain settle_hidden record_displaced_function refile_displaced_function
    first_free_name free_name_from contains_function contains_unshadowable_type
program = tt

-- Whichever of the two comes first, the type has the name and the function leaves a stub.
type_then_function :
    Option.map (λ v. map api_name v.apis) (from_iter (λ _. false) (stat_type ∷ stat_function ∷ []))
    ≡ some ((root (codes "stat")).name ∷ (root (codes "stat_autocxx_hidden")).name ∷ [])
unfolding program
type_then_function = refl

function_then_type :
    Option.map (λ v. map api_name v.apis) (from_iter (λ _. false) (stat_function ∷ stat_type ∷ []))
    ≡ some ((root (codes "stat")).name ∷ (root (codes "stat_autocxx_hidden")).name ∷ [])
unfolding program
function_then_type = refl

plain : (api : Api) → is_displaced_function api ≡ false → IsFiled api
plain api h e = cc

stat_type-plain : IsFiled stat_type
unfolding is_displaced_function
stat_type-plain = plain stat_type refl

stat_function-plain : IsFiled stat_function
unfolding is_displaced_function
stat_function-plain = plain stat_function refl

one_type : IsValid (record { apis = stat_type ∷ []; names = (root (codes "stat")).name ∷ [] })
unfolding api_name
one_type = record {
  indexed = refl;
  distinct = Distinct-of_test ((root (codes "stat")).name ∷ []) refl;
  filed = (stat_type-plain, tt);
}

push-IsValid_example :
    (v' : ApiVec) × (push
        (λ _. false)
        (record { apis = stat_type ∷ []; names = (root (codes "stat")).name ∷ [] })
        stat_function
      ≡ some v')
    × IsValid v'
    × (contains v'.names (api_name stat_function) ≡ true)
    × ((n : QualifiedName)
        → contains ((root (codes "stat")).name ∷ []) n ≡ true
        → contains v'.names n ≡ true)
push-IsValid_example =
    push-IsValid (λ _. false)
      (record { apis = stat_type ∷ []; names = (root (codes "stat")).name ∷ [] }) stat_function
      one_type stat_function-plain

from_iter-IsValid_example :
    (v : ApiVec) × (from_iter (λ _. false) (stat_function ∷ stat_type ∷ []) ≡ some v)
    × IsValid v
    × ((api : Api)
        → Memᴰ api (stat_function ∷ stat_type ∷ [])
        → contains v.names (api_name api) ≡ true)
from_iter-IsValid_example =
    from_iter-IsValid (λ _. false) (stat_function ∷ stat_type ∷ [])
      (stat_function-plain, (stat_type-plain, tt))

abbrev lstat_function : Api
lstat_function = function (root (codes "lstat")) (codes "lstat") (record {
  cxxbridge_name = codes "lstat";
  rust_name = codes "lstat";
  kind = FnKind.function;
  deps = [];
})

two-Distinct : Distinct (map api_name (stat_type ∷ lstat_function ∷ []))
unfolding api_name
two-Distinct = Distinct-of_test (map api_name (stat_type ∷ lstat_function ∷ [])) refl

from_iter-Distinct_example :
    from_iter (λ _. false) (stat_type ∷ lstat_function ∷ [])
    ≡ some (record {
      apis = stat_type ∷ lstat_function ∷ [];
      names = api_name stat_type ∷ api_name lstat_function ∷ [];
    })
from_iter-Distinct_example =
    from_iter-Distinct (λ _. false) (stat_type ∷ lstat_function ∷ []) two-Distinct
