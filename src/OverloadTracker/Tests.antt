-- ===== src/OverloadTracker/Tests.antt =====
-- The unit tests of overload_tracker.rs, and the witnesses.
use mathlib.Core.Option
use autocxx.Prelude.{
  ◌≡◌, ◌≢◌, refl, none, some, [], ◌∷◌, codes, decimal, Distinct, contains, false, list_eq, nat_eq,
  Option, Text,
}
use autocxx.OverloadTracker.{
  OverloadTracker, OverloadTracker_default, reserve, find_suffix, name_all, Request, get_name,
  reserved_of,
}
use autocxx.OverloadTracker.Unique.{
  name_all_total, name_all-Distinct, get_name_avoids_reserved, get_name_other_scope,
}

abbrev fun : Prim.Native.String.String → Request
fun name = record { type_name = none; found_name = codes name; original_name = some (codes name) }

abbrev method : Prim.Native.String.String → Prim.Native.String.String → Request
method ty name = record {
  type_name = some (codes ty);
  found_name = codes name;
  original_name = some (codes name);
}

-- `test_by_method`
by_method :
    name_all OverloadTracker_default
      (method "Ty1" "bob" ∷ method "Ty1" "bob" ∷ method "Ty2" "bob" ∷ fun "bob" ∷ [])
    ≡ some (
        (some (codes "Ty1"), codes "bob")
        ∷ (some (codes "Ty1"), codes "bob1")
        ∷ (some (codes "Ty2"), codes "bob")
        ∷ (none, codes "bob")
        ∷ [])
unfolding name_all find_suffix decimal
by_method = refl

-- `test_suffix_avoids_reserved_real_name`
abbrev reserving : OverloadTracker
reserving =
    reserve (reserve OverloadTracker_default (some (codes "Ty")) (codes "bob")) (some (codes "Ty"))
      (codes "bob2")

avoids_reserved :
    name_all reserving
      (method "Ty" "bob" ∷ method "Ty" "bob" ∷ method "Ty" "bob" ∷ method "Ty" "bob2" ∷ [])
    ≡ some (
        (some (codes "Ty"), codes "bob")
        ∷ (some (codes "Ty"), codes "bob1")
        ∷ (some (codes "Ty"), codes "bob3")
        ∷ (some (codes "Ty"), codes "bob2")
        ∷ [])
unfolding name_all reserve find_suffix decimal
avoids_reserved = refl

name_all_total_example : name_all reserving (method "Ty" "bob" ∷ fun "bob" ∷ []) ≢ none
name_all_total_example = name_all_total reserving (method "Ty" "bob" ∷ fun "bob" ∷ [])

name_all-Distinct_example : Distinct {A = Option Text × Text} (
    (some (codes "Ty"), codes "bob")
    ∷ (some (codes "Ty"), codes "bob1")
    ∷ (some (codes "Ty"), codes "bob3")
    ∷ (some (codes "Ty"), codes "bob2")
    ∷ [])
name_all-Distinct_example =
    name_all-Distinct reserving
      (method "Ty" "bob" ∷ method "Ty" "bob" ∷ method "Ty" "bob" ∷ method "Ty" "bob2" ∷ [])
      ((some (codes "Ty"), codes "bob")
        ∷ (some (codes "Ty"), codes "bob1")
        ∷ (some (codes "Ty"), codes "bob3")
        ∷ (some (codes "Ty"), codes "bob2")
        ∷ [])
      avoids_reserved

-- After two requests for `bob`, a third skips the reserved `bob2`.
abbrev twice : OverloadTracker
twice = record reserving {
  method_names_by_type =
      (
        codes "Ty",
        record {
          offsets = (codes "bob", 2) ∷ [];
          assigned = codes "bob" ∷ codes "bob1" ∷ [];
          declarations = (codes "bob", 2) ∷ [];
        },
      )
      ∷ [];
}

abbrev thrice : OverloadTracker
thrice = record reserving {
  method_names_by_type =
      (
        codes "Ty",
        record {
          offsets = (codes "bob", 3) ∷ [];
          assigned = codes "bob" ∷ codes "bob1" ∷ codes "bob3" ∷ [];
          declarations = (codes "bob", 3) ∷ [];
        },
      )
      ∷ [];
}

third_bob :
    get_name twice (some (codes "Ty")) (codes "bob") (some (codes "bob"))
    ≡ some ((codes "bob3", some 2), thrice)
unfolding get_name find_suffix decimal reserve
third_bob = refl

bob3_differs : codes "bob3" ≢ codes "bob"
bob3_differs = λ e. cc

get_name_avoids_reserved_example :
    contains (reserved_of twice (some (codes "Ty"))) (codes "bob3") ≡ false
get_name_avoids_reserved_example =
    get_name_avoids_reserved twice (some (codes "Ty")) (codes "bob") (some (codes "bob"))
      (codes "bob3", some 2) thrice third_bob bob3_differs

scopes_differ : some (codes "Ty") ≢ none
scopes_differ = λ e. cc

get_name_other_scope_example :
    Option.map (λ r. r.0) (get_name thrice none (codes "bob") none)
    ≡ Option.map (λ r. r.0) (get_name twice none (codes "bob") none)
get_name_other_scope_example =
    get_name_other_scope twice (some (codes "Ty")) none (codes "bob") (some (codes "bob"))
      (codes "bob3", some 2) thrice (codes "bob") none scopes_differ third_bob
