-- ===== src/Api/Errors.antt =====
-- The errors and error contexts of engine/src/conversion/convert_error.rs that the modelled
-- analyses make.
use autocxx.Prelude.{List, Text, Option, none, some, ◌++◌, codes, Bool, if◌then◌else◌, []}
use autocxx.Names.{QualifiedName, InvalidIdentError}

-- Every error that no modelled analysis makes or looks at is `other`.
pub data ConvertErrorFromCpp : Type 0 where
  ignored_dependent :
      (deps : List QualifiedName) (culprit : QualifiedName) (reason : ConvertErrorFromCpp)
      → ConvertErrorFromCpp
  unknown_dependent_type : QualifiedName → ConvertErrorFromCpp
  duplicate_items_found_in_parsing : ConvertErrorFromCpp
  function_hidden_by_type : ConvertErrorFromCpp
  invalid_ident : InvalidIdentError → ConvertErrorFromCpp
  duplicate_cxx_bridge_name : List Text → ConvertErrorFromCpp
  defaulted_but_deleted assignment_operator : ConvertErrorFromCpp
  other : Text → ConvertErrorFromCpp

pub data ErrorContext : Type 0 where
  item : (id : Text) → ErrorContext
  sanitized_item : (lookup display : Text) → ErrorContext
  method : (self_ty method : Text) → ErrorContext

-- `built_in` is `known_types().conflicts_with_built_in_type`.
module _ (built_in : QualifiedName → Bool) where
  sanitize_error_ident : Text → Option Text
  sanitize_error_ident id =
      if built_in (record { namespace = []; item = id })
      then some (id ++ codes "_autocxx_error")
      else none

  unfoldable pub new_for_item : Text → ErrorContext
  unfolding sanitize_error_ident
  new_for_item id = elim (sanitize_error_ident id) [
    | none ↦ item id
    | some display ↦ sanitized_item id display
  ]

  unfoldable pub new_for_method : Text → Text → ErrorContext
  unfolding sanitize_error_ident
  new_for_method self_ty name = elim (sanitize_error_ident self_ty) [
    | none ↦ elim (sanitize_error_ident name) [
      | none ↦ method self_ty name
      | some display ↦ method self_ty display
    ]
    | some _ ↦ sanitized_item self_ty (self_ty ++ (codes "_" ++ name))
  ]

unfoldable pub new_for_displaced_item : Text → Text → ErrorContext
new_for_displaced_item lookup display = sanitized_item lookup display
