-- ===== src/BridgeTypeNames.antt =====
-- engine/src/conversion/analysis/bridge_type_names.rs: the names of types in the flat cxx bridge.
pub mod Underscores
pub mod Allocate
pub mod Run
pub mod Tests
use autocxx.Prelude.{
  ℕ, zero, suc, ◌+◌, Bool, true, false, ◌&&◌, List, [], ◌∷◌, ◌++◌, Option, none, some, contains,
  to_set, length, lookup, insert, or_default, if◌then◌else◌, nat_beq, Text, codes, decimal, join,
  list_eq, nat_eq,
}
use autocxx.Names.{
  QualifiedName, name_eq, InvalidIdentError, Syn, Validity, ok, err, validate_ident_ok_for_cxx,
}
use autocxx.Api.{
  Api, FnAnalysis, forward_declaration, opaque_typedef, concrete_type, string_constructor, enum,
  struct, ctype, rust_type, rust_fn, rust_subclass_fn, subclass, extern_cpp_type, api_name, holder,
  cpp,
}

abbrev pub cxx_reserved_names : List Text
cxx_reserved_names =
    codes "Box"
    ∷ codes "UniquePtr"
    ∷ codes "SharedPtr"
    ∷ codes "WeakPtr"
    ∷ codes "Vec"
    ∷ codes "CxxVector"
    ∷ codes "str"
    ∷ codes "bool"
    ∷ codes "c_char"
    ∷ codes "u8"
    ∷ codes "u16"
    ∷ codes "u32"
    ∷ codes "u64"
    ∷ codes "usize"
    ∷ codes "i8"
    ∷ codes "i16"
    ∷ codes "i32"
    ∷ codes "i64"
    ∷ codes "isize"
    ∷ codes "f32"
    ∷ codes "f64"
    ∷ codes "CxxString"
    ∷ codes "String"
    ∷ []

unfoldable pub declares_bridge_type : Api → Bool
declares_bridge_type (struct _ _) = true
declares_bridge_type (enum _) = true
declares_bridge_type (forward_declaration _) = true
declares_bridge_type (opaque_typedef _) = true
declares_bridge_type (concrete_type _ _ _) = true
declares_bridge_type (extern_cpp_type _ _) = true
declares_bridge_type _ = false

unfoldable pub fixed_bridge_names : Api → List Text
unfolding api_name holder cpp
fixed_bridge_names (Api.function _ _ analysis) = analysis.cxxbridge_name ∷ []
fixed_bridge_names (ctype n _) = n.name.item ∷ []
fixed_bridge_names (rust_type n) = n.name.item ∷ []
fixed_bridge_names (rust_fn n _) = n.name.item ∷ []
fixed_bridge_names (rust_subclass_fn n _ _) = n.name.item ∷ []
fixed_bridge_names (string_constructor n) = n.name.item ∷ []
fixed_bridge_names (subclass n _) = n.name.name.item ∷ holder n ∷ (cpp n).item ∷ []
fixed_bridge_names _ = []

-- The loop over the characters; `after` is whether what is out ends in an underscore.
pub collapse_after : Bool → Text → Text
collapse_after after [] = []
collapse_after after (c ∷ s) =
    let rest = collapse_after (nat_beq c b'_') s in
    if nat_beq c b'_' && after then rest else c ∷ rest

pub collapse_underscore_runs : Text → Text
unfolding collapse_after
collapse_underscore_runs id = collapse_after false id

abbrev pub qualified_name : QualifiedName → Text
qualified_name name = join (codes "_") (name.namespace ++ name.item ∷ [])

pub candidate : Text → ℕ → Text
candidate stem counter = collapse_underscore_runs (stem ++ (codes "_autocxx" ++ decimal counter))

-- The chosen name, with the names that are taken then; or why there is none.
pub data Allocation : Type 0 where
  allocated : (chosen : Text) (taken : List Text) → Allocation
  refused : (why : InvalidIdentError) → Allocation

pub record Naming : Type 0 where
  pub taken : List Text
  pub names : List (QualifiedName × Text)
  pub unnameable : List (QualifiedName × InvalidIdentError)

pub all_fixed_names : List Api → List Text
all_fixed_names [] = []
all_fixed_names (api ∷ apis) = fixed_bridge_names api ++ all_fixed_names apis

-- A result is `none` where `make_ident` panics.
module _ (syn : Syn) where
  -- The loop over `1..`, on fuel.
  pub number_from : ℕ → Text → List Text → ℕ → Option Allocation
  number_from zero stem taken counter = none
  number_from (suc fuel) stem taken counter =
      let rest = number_from fuel stem taken (counter + 1) in
      elim (validate_ident_ok_for_cxx syn (candidate stem counter)) [
        | none ↦ none
        | some (err e) ↦ some (refused e)
        | some ok ↦
            if contains taken (candidate stem counter)
            then rest
            else some (allocated (candidate stem counter) (taken ++ candidate stem counter ∷ []))
      ]

  pub numbered_name : Text → List Text → Option Allocation
  unfolding number_from
  numbered_name stem taken = number_from (suc (length taken)) stem taken 1

  pub allocate : QualifiedName → List Text → Option Allocation
  unfolding numbered_name
  allocate name taken =
      let preferred = name.item in
      let qualified = collapse_underscore_runs (qualified_name name) in
      if contains taken preferred
      then elim (validate_ident_ok_for_cxx syn qualified) [
        | none ↦ none
        | some ok ↦
            if contains taken qualified
            then numbered_name qualified taken
            else some (allocated qualified (taken ++ qualified ∷ []))
        | some (err _) ↦ numbered_name preferred taken
      ]
      else some (allocated preferred (taken ++ preferred ∷ []))

  pub name_type : Naming → Api → Option Naming
  unfolding allocate
  name_type s api =
      if declares_bridge_type api
      then elim (allocate (api_name api) s.taken) [
        | none ↦ none
        | some (allocated chosen taken) ↦
            if syn.lexes chosen
            then some (record s { taken = taken; names = insert (api_name api) chosen s.names })
            else none
        | some (refused e) ↦ some (record s { unnameable = insert (api_name api) e s.unnameable })
      ]
      else some s

  pub name_types : Naming → List Api → Option Naming
  unfolding name_type
  name_types s [] = some s
  name_types s (api ∷ apis) = elim (name_type s api) [ none ↦ none | some s' ↦ name_types s' apis ]

  -- `BridgeTypeNames::new`
  pub BridgeTypeNames_new : List Api → Option Naming
  unfolding name_types all_fixed_names
  BridgeTypeNames_new apis =
      name_types
        (record {
          taken = to_set [] (cxx_reserved_names ++ all_fixed_names apis);
          names = [];
          unnameable = [];
        })
        apis

-- `BridgeTypeNames::get`; an ident is its text.
pub bridge_name_of : List (QualifiedName × Text) → QualifiedName → Text
bridge_name_of names name = or_default name.item (lookup name names)
