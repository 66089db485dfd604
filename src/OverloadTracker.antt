-- ===== src/OverloadTracker.antt =====
-- engine/src/conversion/analysis/fun/overload_tracker.rs: Rust names for C++ overloads.
pub mod Unique
pub mod Tests
use autocxx.Prelude.{
  ℕ, zero, suc, ◌+◌, ◌≡◌, Bool, true, false, ◌&&◌, not, List, [], ◌∷◌, ◌++◌, Option, none, some,
  nat_eq, list_eq, Text, decimal, lookup, insert, or_default, contains, set_insert, length,
  if◌then◌else◌, nat_beq,
}

abbrev pub Offsets : Type 0
Offsets = List (Text × ℕ)

-- The names of one scope: a type's methods, or the free functions of a namespace.
pub record ScopeNames : Type 0 where
  pub offsets : Offsets
  pub assigned : List Text
  pub declarations : Offsets

abbrev pub ScopeNames_default : ScopeNames
ScopeNames_default = record { offsets = []; assigned = []; declarations = [] }

pub record OverloadTracker : Type 0 where
  pub fn_names : ScopeNames
  pub method_names_by_type : List (Text × ScopeNames)
  pub reserved_fn_names : List Text
  pub reserved_method_names_by_type : List (Text × List Text)

abbrev pub OverloadTracker_default : OverloadTracker
OverloadTracker_default = record {
  fn_names = ScopeNames_default;
  method_names_by_type = [];
  reserved_fn_names = [];
  reserved_method_names_by_type = [];
}

pub reserve : OverloadTracker → Option Text → Text → OverloadTracker
reserve t (some type_name) name = record t {
  reserved_method_names_by_type =
      insert type_name
        (set_insert name (or_default [] (lookup type_name t.reserved_method_names_by_type)))
        t.reserved_method_names_by_type;
}
reserve t none name = record t { reserved_fn_names = set_insert name t.reserved_fn_names }

-- The scope that a request falls in, and the names reserved there.
pub scope_of : OverloadTracker → Option Text → ScopeNames
scope_of t (some type_name) =
    or_default ScopeNames_default (lookup type_name t.method_names_by_type)
scope_of t none = t.fn_names

pub reserved_of : OverloadTracker → Option Text → List Text
reserved_of t (some type_name) = or_default [] (lookup type_name t.reserved_method_names_by_type)
reserved_of t none = t.reserved_fn_names

pub with_scope : OverloadTracker → Option Text → ScopeNames → OverloadTracker
with_scope t (some type_name) s = record t {
  method_names_by_type = insert type_name s t.method_names_by_type;
}
with_scope t none s = record t { fn_names = s }

-- The number that stands at `k`, from 0, and the counters with one more there.
abbrev pub count_at : Text → Offsets → ℕ
count_at k m = or_default 0 (lookup k m)

abbrev pub bump_at : Text → Offsets → Offsets
bump_at k m = insert k (count_at k m + 1) m

-- The `loop` over numbered candidates, on fuel.
pub find_suffix : ℕ → List Text → List Text → Text → ℕ → Option Text
find_suffix zero reserved assigned name n = none
find_suffix (suc fuel) reserved assigned name n =
    let rest = find_suffix fuel reserved assigned name (n + 1) in
    if not (contains reserved (name ++ decimal n)) && not (contains assigned (name ++ decimal n))
    then some (name ++ decimal n)
    else rest

-- `original_name.map(..)`: the ordinal, and the declaration counters after it.
pub declaration_ordinal : Option Text → Offsets → Option ℕ × Offsets
declaration_ordinal none m = (none, m)
declaration_ordinal (some original) m = (some (count_at original m), bump_at original m)

abbrev pub max1 : ℕ → ℕ
max1 zero = 1
max1 (suc n) = suc n

-- `get_name` within its scope. `none` means that the fuel of the search ran out.
pub name_in_scope :
    List Text → ScopeNames → Text → Option Text → Option ((Text × Option ℕ) × ScopeNames)
unfolding declaration_ordinal
name_in_scope reserved scope name original =
    let (ordinal, declarations) = declaration_ordinal original scope.declarations in
    let this_offset = count_at name scope.offsets in
    let offsets = bump_at name scope.offsets in
    if nat_beq this_offset 0 && not (contains scope.assigned name)
    then some (
      (name, none),
      record {
        offsets = offsets;
        assigned = set_insert name scope.assigned;
        declarations = declarations;
      },
    )
    else elim (find_suffix (suc (length (reserved ++ scope.assigned))) reserved scope.assigned name
        (max1 this_offset)) [
          | none ↦ none
          | some candidate ↦ some (
            (candidate, ordinal),
            record {
              offsets = offsets;
              assigned = set_insert candidate scope.assigned;
              declarations = declarations;
            },
          )
        ]

pub get_name :
    OverloadTracker
    → Option Text
    → Text
    → Option Text
    → Option ((Text × Option ℕ) × OverloadTracker)
unfolding name_in_scope scope_of reserved_of with_scope
get_name t type_name name original =
    elim (name_in_scope (reserved_of t type_name) (scope_of t type_name) name original) [
      | none ↦ none
      | some (answer, s) ↦ some (answer, with_scope t type_name s)
    ]

pub get_function_real_name :
    OverloadTracker → Text → Option Text → Option ((Text × Option ℕ) × OverloadTracker)
unfolding get_name
get_function_real_name t found_name original = get_name t none found_name original

pub get_method_real_name :
    OverloadTracker → Text → Text → Option Text → Option ((Text × Option ℕ) × OverloadTracker)
unfolding get_name
get_method_real_name t type_name found_name original =
    get_name t (some type_name) found_name original

pub record Request : Type 0 where
  pub type_name : Option Text
  pub found_name : Text
  pub original_name : Option Text

-- A whole run: each request in turn, with its scope and the name that it got.
pub name_all : OverloadTracker → List Request → Option (List (Option Text × Text))
unfolding get_name
name_all t [] = some []
name_all t (r ∷ rs) = elim (get_name t r.type_name r.found_name r.original_name) [
  | none ↦ none
  | some ((name, _), t') ↦ elim (name_all t' rs) [
    | none ↦ none
    | some names ↦ some ((r.type_name, name) ∷ names)
  ]
]
