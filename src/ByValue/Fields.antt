-- ===== src/ByValue/Fields.antt =====
-- What byvalue_checker.rs reads off the fields of a struct.
use autocxx.Prelude.{
  Bool, true, false, ◌&&◌, ◌||◌, List, [], ◌∷◌, ◌++◌, Option, none, some, all, any, contains, Text,
  codes, starts_with, strip_prefix, is_digit, if◌then◌else◌, nat_eq, list_eq, ◌==◌,
}
use autocxx.Names.{QualifiedName, name_eq, display}
use autocxx.ByValue.Data.{FieldDependency, FieldType, opaque_path, path, Field, ItemStruct}

abbrev is_ident : Text → Option Text → Bool
is_ident text none = false
is_ident text (some ident) = ident == text

abbrev pub is_padding : Option Text → Bool
is_padding none = false
is_padding (some ident) = starts_with ident (codes "__bindgen_padding_")

-- The type that a field depends on, if any.
unfoldable pub dependency_of : FieldType → Option QualifiedName
dependency_of (path ty) = some ty
dependency_of (opaque_path false ty) = some ty
dependency_of _ = none

unfoldable pub get_field_dependencies : List Field → List FieldDependency
unfolding dependency_of
get_field_dependencies [] = []
get_field_dependencies (f ∷ fields) =
    let rest = get_field_dependencies fields in
    if is_padding f.ident then rest else elim (dependency_of f.ty) [
      | none ↦ rest
      | some ty ↦ record { field = f.ident; ty = ty } ∷ rest
    ]

unfoldable pub has_vtable : ItemStruct → Bool
has_vtable def = any (λ f. is_ident (codes "vtable_") (Field.ident f)) def.fields

unfoldable pub bases_are_opaque_bytes : ItemStruct → Bool
bases_are_opaque_bytes def =
    any (λ f. is_ident (codes "__bindgen_bases") (Field.ident f)) def.fields

names_a_base : Text → Bool
names_a_base field = field == codes "_base" || elim (strip_prefix (codes "_base_") field) [
  | none ↦ false
  | some [] ↦ false
  | some (c ∷ n) ↦ all is_digit (c ∷ n)
]

marker_detail : Text → Option Text
marker_detail item =
    if item == codes "__bindgen_marker_Opaque"
    then some (
        codes
          "of a type autocxx could not name - a class template instantiation, usually - so bindgen wrote it as a blob of bytes of the right size and alignment instead. A blob is not a type Rust can hold by value")
    else if item == codes "__bindgen_marker_Reference"
        || item == codes "__bindgen_marker_RValueReference"
    then some (
        codes
          "a C++ reference, which autocxx has no POD field type for: bindgen writes a raw pointer, and a public Rust field of one would let safe code point the reference wherever it liked")
    else if starts_with item (codes "__bindgen_")
    then some (
        codes
          "of a kind bindgen could only write under a marker of its own, which autocxx has no Rust type for")
    else none

marker_subject : (is_base : Bool) → Option Text → Text
marker_subject true field = codes "one of its base classes is"
marker_subject false (some field) = codes "its member `" ++ (field ++ codes "` is")
marker_subject false none = codes "one of its members is"

abbrev is_base_field : (has_bases : List QualifiedName) → QualifiedName → Option Text → Bool
is_base_field has_bases tyname none = false
is_base_field has_bases tyname (some field) = contains has_bases tyname && names_a_base field

pub marker_field_reason :
    (tyname : QualifiedName) → FieldDependency → (has_bases : List QualifiedName) → Option Text
unfolding marker_detail marker_subject names_a_base display
marker_field_reason tyname dependency has_bases = elim (marker_detail dependency.ty.item) [
  | none ↦ none
  | some detail ↦ some (
      codes "Type "
      ++ (display tyname
          ++ (codes " could not be POD because "
              ++ (marker_subject (is_base_field has_bases tyname dependency.field) dependency.field
                  ++ (codes " "
                      ++ (detail
                          ++ (codes ". `generate!` still binds "
                              ++ (display tyname
                                  ++ codes "; only holding it by value is out."))))))))
]
