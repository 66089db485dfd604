-- ===== src/ByValue/Data.antt =====
-- The data of byvalue_checker.rs, with the parts of a `syn` struct that it looks at.
use autocxx.Prelude.{Bool, List, Option, Text}
use autocxx.Names.{QualifiedName}

pub data PodState : Type 0 where
  unsafe_to_be_pod : Text → PodState
  safe_to_be_pod is_pod : PodState
  is_alias : QualifiedName → PodState

pub record StructDetails : Type 0 where
  pub state : PodState
  pub dependent_structs : List QualifiedName

pub record FieldDependency : Type 0 where
  pub field : Option Text
  pub ty : QualifiedName

-- The type of a field under its layout markers and arrays: what type_helpers.rs says of the path
-- that it is, or that it is no path.
pub data FieldType : Type 0 where
  bitfield function_pointer : FieldType
  opaque_path : (is_array : Bool) → QualifiedName → FieldType
  path : QualifiedName → FieldType
  pointer other : FieldType

pub record Field : Type 0 where
  pub ident : Option Text
  pub ty : FieldType

-- A struct of bindgen's, with the name of the API that holds it and the ident of its own.
pub record ItemStruct : Type 0 where
  pub name : QualifiedName
  pub ident : Text
  pub fields : List Field

pub record ByValueChecker : Type 0 where
  pub results : List (QualifiedName × StructDetails)
  pub virtually_inherited : List QualifiedName
  pub has_bases : List QualifiedName
  pub volatile_bitfields : List QualifiedName
