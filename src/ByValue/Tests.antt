-- ===== src/ByValue/Tests.antt =====
-- Small structs for byvalue_checker.rs, and the witnesses.
use autocxx.Prelude.{
  ◌≡◌, ◌≢◌, ◌↔◌, ◌⊎◌, refl, true, false, List, [], ◌∷◌, none, some, map, Memᴰ, Distinct,
  Distinct-of_test, Text, codes, ℕ, all, all_holds, ltb, ltb→lt, ◌==◌, if◌then◌else◌,
}
use autocxx.Names.{QualifiedName, name_eq}
use autocxx.ByValue.Data.{safe_to_be_pod, is_pod, is_alias, path, ItemStruct, ByValueChecker}
use autocxx.ByValue.Fields.{get_field_dependencies, has_vtable}
use autocxx.ByValue.Ingest.{Results, struct_state}
use autocxx.ByValue.Order.{structs_in_dependency_order}
use autocxx.ByValue.Requests.{ok, out_of_fuel, satisfy_requests, is_pod_type}
use autocxx.ByValue.Checker.{TypedefApi, struct, Surroundings, new_from_apis, structs_of}
use autocxx.ByValue.Rounds.{satisfy_requests_total}
use autocxx.ByValue.Needs.{Needed}
use autocxx.ByValue.Needed.{satisfy_requests-Needed}
use autocxx.ByValue.Listed.{structs_in_dependency_order-all}
use autocxx.DepthFirst.Ordered.{IsOrdered}
use autocxx.DepthFirst.Complete.{Ranked}
use autocxx.ByValue.InOrder.{struct_items, struct_deps, structs_in_dependency_order-IsOrdered}
use autocxx.ByValue.Held.{FieldsAreFine}
use autocxx.ByValue.Safe.{struct_state-safe}
use autocxx.ByValue.Built.{Prepared, IsRefused, HasRequests, new_from_apis-HasRequests}

abbrev name : Text → QualifiedName
name item = record { namespace = []; item = item }

abbrev int : QualifiedName
int = name (codes "i32")

abbrev holding : Text → QualifiedName → ItemStruct
holding item ty = record {
  name = name item;
  ident = item;
  fields = record { ident = some (codes "f"); ty = path ty } ∷ [];
}

-- `Outer` holds `Inner` and stands before it.
abbrev outer_and_inner : List ItemStruct
outer_and_inner = holding (codes "Outer") (name (codes "Inner")) ∷ holding (codes "Inner") int ∷ []

inner_comes_first :
    structs_in_dependency_order outer_and_inner
    ≡ some (holding (codes "Inner") int ∷ holding (codes "Outer") (name (codes "Inner")) ∷ [])
unfolding structs_in_dependency_order
inner_comes_first = refl

names_Distinct : Distinct (map (λ d. ItemStruct.name d) outer_and_inner)
names_Distinct = Distinct-of_test (map (λ d. ItemStruct.name d) outer_and_inner) refl

structs_in_dependency_order-all_example :
    (out : List ItemStruct) × (structs_in_dependency_order outer_and_inner ≡ some out)
    × Distinct (map (λ d. ItemStruct.name d) out)
    × ((def : ItemStruct) → Memᴰ def out ↔ Memᴰ def outer_and_inner)
structs_in_dependency_order-all_example =
    structs_in_dependency_order-all outer_and_inner names_Distinct

abbrev rank : QualifiedName → ℕ
rank n = if n == name (codes "Outer") then 2 else if n == name (codes "Inner") then 1 else 0

outer_and_inner-Ranked : Ranked struct_items rank outer_and_inner
unfolding get_field_dependencies
outer_and_inner-Ranked x m d dep listed = ltb→lt (rank d) (rank x.name) (
    all_holds (λ n. ltb (rank n) (rank x.name)) (struct_deps x)
      (all_holds (λ s. all (λ n. ltb (rank n) (rank (ItemStruct.name s))) (struct_deps s))
        outer_and_inner refl x m)
      d dep)

structs_in_dependency_order-IsOrdered_example :
    (out : List ItemStruct) × (structs_in_dependency_order outer_and_inner ≡ some out)
    × IsOrdered struct_items (map (λ d. ItemStruct.name d) outer_and_inner) [] out
structs_in_dependency_order-IsOrdered_example =
    structs_in_dependency_order-IsOrdered outer_and_inner rank outer_and_inner-Ranked

-- `Inner`, and an alias for it.
abbrev before : Results
before =
    (int, record { state = is_pod; dependent_structs = [] })
    ∷ (name (codes "Inner"), record { state = safe_to_be_pod; dependent_structs = int ∷ [] })
    ∷ (
      name (codes "Alias"),
      record { state = is_alias (name (codes "Inner")); dependent_structs = [] },
    )
    ∷ []

abbrev after : Results
after =
    (int, record { state = is_pod; dependent_structs = [] })
    ∷ (name (codes "Inner"), record { state = is_pod; dependent_structs = int ∷ [] })
    ∷ (name (codes "Alias"), record { state = is_pod; dependent_structs = [] })
    ∷ []

abbrev known : ByValueChecker
known = record {
  results = before;
  virtually_inherited = [];
  has_bases = [];
  volatile_bitfields = [];
}

alias_is_satisfied : satisfy_requests known (name (codes "Alias") ∷ []) ≡ ok after
unfolding satisfy_requests
alias_is_satisfied = refl

satisfy_requests-Needed_example :
    (is_pod_type (record known { results = after }) (name (codes "Inner")) ≡ true) ↔ (
      (is_pod_type known (name (codes "Inner")) ≡ true)
      ⊎ Needed before (name (codes "Alias") ∷ []) (name (codes "Inner")))
satisfy_requests-Needed_example =
    satisfy_requests-Needed known (name (codes "Alias") ∷ []) after alias_is_satisfied
      (name (codes "Inner"))

satisfy_requests_total_example : satisfy_requests known (name (codes "Alias") ∷ []) ≢ out_of_fuel
satisfy_requests_total_example = satisfy_requests_total known (name (codes "Alias") ∷ [])

struct_state-safe_example :
    (struct_state known (holding (codes "Outer") (name (codes "Inner"))) ≡ safe_to_be_pod) ↔ (
      (false ≡ false)
      × (false ≡ false)
      × (has_vtable (holding (codes "Outer") (name (codes "Inner"))) ≡ false)
      × FieldsAreFine before (holding (codes "Outer") (name (codes "Inner"))).fields
      × (false ≡ false))
struct_state-safe_example = struct_state-safe known (holding (codes "Outer") (name (codes "Inner")))

abbrev apis : List TypedefApi
apis =
    struct (record { name = name (codes "Outer"); cpp_name = none }) (codes "Outer")
      (holding (codes "Outer") (name (codes "Inner"))).fields
    ∷ struct (record { name = name (codes "Inner"); cpp_name = none }) (codes "Inner")
        (holding (codes "Inner") int).fields
    ∷ []

abbrev surroundings : Surroundings
surroundings = record {
  special_cpp_name = λ _. none;
  pod_safe_types = (int, true) ∷ [];
  consider_substitution = λ _. none;
  blocklist = [];
  pod_requests = codes "Outer" ∷ [];
  types_inheriting_virtually = [];
  types_with_bases = [];
  has_volatile_bitfield = λ _. false;
}

apis-Distinct : Distinct (map (λ d. ItemStruct.name d) (structs_of apis))
unfolding structs_of
apis-Distinct = names_Distinct

new_from_apis-HasRequests_example :
    (c : ByValueChecker) × (names : List QualifiedName) × Prepared surroundings apis c names
    × (HasRequests surroundings apis c names (new_from_apis surroundings apis)
        ⊎ IsRefused surroundings apis c names (new_from_apis surroundings apis))
new_from_apis-HasRequests_example = new_from_apis-HasRequests surroundings apis apis-Distinct
