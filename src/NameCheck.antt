-- ===== src/NameCheck.antt =====
-- engine/src/conversion/analysis/name_check.rs: the last checks of names, with `convert_item_apis`
-- of engine/src/conversion/error_reporter.rs.

mod Clashes
pub mod Spelled
pub mod Checked
pub mod Tests
use autocxx.Prelude.{
  ◌+◌, Bool, true, false, List, [], ◌∷◌, ◌++◌, Option, none, some, length, lookup, insert,
  or_default, if◌then◌else◌, ltb, Text, list_eq, nat_eq,
}
use autocxx.Names.{
  QualifiedName, name_eq, InvalidIdentError, Syn, Validity, ok, err, validate_ident_ok_for_cxx,
  segment_iter, new_from_cpp_name, display,
}
use autocxx.Api.{
  Api, ApiName, typedef, forward_declaration, opaque_typedef, const, static, enum, struct, subclass,
  ignored_item, api_name, name_info,
}
use autocxx.Api.Errors.{ConvertErrorFromCpp, invalid_ident, duplicate_cxx_bridge_name, new_for_item}
use autocxx.ApiVec.{ApiVec, ApiVec_new, extend}
use autocxx.BridgeTypeNames.{
  Naming, BridgeTypeNames_new, bridge_name_of, declares_bridge_type, fixed_bridge_names,
}

-- What a check answers: `some e` where it refuses the API.
abbrev pub Refusal : Type 0
Refusal = Option ConvertErrorFromCpp

-- A check is `none` where `make_ident` panics.
module _ (syn : Syn) where
  pub validate_all_segments_ok_for_cxx : List Text → Option Refusal
  validate_all_segments_ok_for_cxx [] = some none
  validate_all_segments_ok_for_cxx (seg ∷ items) = elim (validate_ident_ok_for_cxx syn seg) [
    | none ↦ none
    | some (err e) ↦ some (some (invalid_ident e))
    | some ok ↦ validate_all_segments_ok_for_cxx items
  ]

  -- One check and then another.
  abbrev pub and_then : Option Refusal → Option Refusal → Option Refusal
  and_then none r = none
  and_then (some none) r = r
  and_then (some (some e)) r = some (some e)

  -- The C++ name, where there is one.
  pub cpp_name_error : Option Text → Option Refusal
  unfolding validate_all_segments_ok_for_cxx
  cpp_name_error none = some none
  cpp_name_error (some cpp_name) = elim (new_from_cpp_name cpp_name) [
    | none ↦ none
    | some q ↦ validate_all_segments_ok_for_cxx (segment_iter q)
  ]

  abbrev pub item_name_error : ApiName → Option Refusal
  item_name_error n =
      and_then (validate_all_segments_ok_for_cxx (segment_iter n.name)) (cpp_name_error n.cpp_name)

  -- The first closure of `check_names`.
  pub name_error : Api → Option Refusal
  unfolding cpp_name_error
  name_error (typedef n _ _) = item_name_error n
  name_error (forward_declaration n) = item_name_error n
  name_error (opaque_typedef n) = item_name_error n
  name_error (const n) = item_name_error n
  name_error (static n _) = item_name_error n
  name_error (enum n) = item_name_error n
  name_error (struct n _) = item_name_error n
  name_error (subclass n superclass) =
      and_then (validate_all_segments_ok_for_cxx (segment_iter n.name.name))
        (validate_all_segments_ok_for_cxx (segment_iter superclass))
  name_error (Api.function n _ _) = validate_all_segments_ok_for_cxx (segment_iter n.name)
  name_error _ = some none

pub bridge_name : List (QualifiedName × Text) → Api → Option Text
bridge_name names api =
    if declares_bridge_type api
    then some (bridge_name_of names (api_name api))
    else elim (fixed_bridge_names api) [ [] ↦ none | name ∷ more ↦ some name ]

abbrev pub Found : Type 0
Found = List (Text × List Text)

abbrev pub symbols_for : Text → Found → List Text
symbols_for name found = or_default [] (lookup name found)

-- The loop that fills `names_found`.
pub note_name : Found → Option Text → QualifiedName → Found
note_name found none q = found
note_name found (some name) q = insert name (symbols_for name found ++ display q ∷ []) found

pub names_found : List (QualifiedName × Text) → Found → List Api → Found
unfolding note_name bridge_name
names_found names found [] = found
names_found names found (api ∷ apis) =
    names_found names (note_name found (bridge_name names api) (api_name api)) apis

pub clash_error : Found → Option Text → Refusal
clash_error found none = none
clash_error found (some name) =
    if ltb 1 (length (symbols_for name found))
    then some (duplicate_cxx_bridge_name (symbols_for name found))
    else none

-- The second closure of `check_names`.
pub bridge_error : Naming → Found → Api → Option Refusal
unfolding clash_error
bridge_error naming found api = elim (lookup (api_name api) naming.unnameable) [
  | some e ↦ some (some (invalid_ident e))
  | none ↦ some (clash_error found (bridge_name naming.names api))
]

-- `built_in` is `known_types().conflicts_with_built_in_type`.
module _ (built_in : QualifiedName → Bool) where
  pub api_or_error : Api → Refusal → Api
  api_or_error api none = api
  api_or_error api (some e) =
      ignored_item (name_info api) e (some (new_for_item built_in (api_name api).item))

  pub convert_items : (Api → Option Refusal) → List Api → Option (List Api)
  unfolding api_or_error
  convert_items fun [] = some []
  convert_items fun (api ∷ apis) = elim (fun api) [
    | none ↦ none
    | some r ↦ elim (convert_items fun apis) [
      | none ↦ none
      | some rest ↦ some (api_or_error api r ∷ rest)
    ]
  ]

  pub convert_item_apis : (Api → Option Refusal) → ApiVec → Option ApiVec
  unfolding convert_items
  convert_item_apis fun v = elim (convert_items fun v.apis) [
    | none ↦ none
    | some apis ↦ extend built_in ApiVec_new apis
  ]

  pub check_names : Syn → ApiVec → Option (ApiVec × List (QualifiedName × Text))
  unfolding convert_item_apis names_found
  check_names syn v = elim (convert_item_apis (name_error syn) v) [
    | none ↦ none
    | some intermediate ↦ elim (BridgeTypeNames_new syn intermediate.apis) [
      | none ↦ none
      | some naming ↦
          elim (convert_item_apis
            (bridge_error naming (names_found naming.names [] intermediate.apis)) intermediate) [
              | none ↦ none
              | some results ↦ some (results, naming.names)
            ]
    ]
  ]
