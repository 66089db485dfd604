-- ===== src/SpecialMembers/Fields.antt =====
-- The bases and fields of a class in `find_constructors_present`: what each of them can do.
use autocxx.Prelude.{
  Bool, true, false, ◌&&◌, ◌||◌, not, List, [], ◌∷◌, ◌++◌, Option, none, some, contains, Text,
  codes, if◌then◌else◌, or_default, lookup,
}
use autocxx.Names.{QualifiedName, name_eq, to_cpp_name}
use autocxx.Api.{ApiName}
use autocxx.SpecialMembers.Found.{SpecialMemberFound, not_present, implicit, explicit, public}
use autocxx.SpecialMembers.Data.{
  ItemsFound, WhyNoConstructors_default, FieldInfo, FieldTypeKind, regular, pointer, reference,
  rvalue_reference, mutable_reference, subclass_holder, KnownTypes, KnownTypeConstructorDetails,
}
use autocxx.SpecialMembers.Rules.{Dependencies}

-- `Option::unwrap_or` and a public member, where there is one.
abbrev exists_public_if : Bool → SpecialMemberFound
exists_public_if there = if there then explicit public else not_present

unfoldable pub known_type_items_found : KnownTypeConstructorDetails → ItemsFound
known_type_items_found d = record {
  default_constructor = explicit public;
  destructor = explicit public;
  const_copy_constructor = exists_public_if d.has_const_copy_constructor;
  non_const_copy_constructor = not_present;
  move_constructor = exists_public_if d.has_move_constructor;
  const_move_constructor = none;
  destructor_is_trivial = d.destructor_is_trivial;
  name = none;
  why_no_constructors = WhyNoConstructors_default;
}

-- An enum, and a reference: copied and moved, never made from nothing.
unfoldable pub without_default_items : ApiName → ItemsFound
without_default_items class_name = record {
  default_constructor = not_present;
  destructor = implicit;
  const_copy_constructor = implicit;
  non_const_copy_constructor = not_present;
  move_constructor = implicit;
  const_move_constructor = none;
  destructor_is_trivial = true;
  name = some class_name;
  why_no_constructors = WhyNoConstructors_default;
}

unfoldable pub pointer_items : ApiName → ItemsFound
unfolding without_default_items
pointer_items class_name = record (without_default_items class_name) {
  default_constructor = implicit;
}

-- The answers so far, by class.
abbrev pub AllItems : Type 0
AllItems = List (QualifiedName × ItemsFound)

module _ (k : KnownTypes) where
  unfoldable pub describe_base : QualifiedName → Text
  describe_base base = codes "base class `" ++ (to_cpp_name (k.special_cpp_name) base ++ codes "`")

  abbrev field_qualifier : FieldInfo → Text
  field_qualifier field =
      if field.is_const
      then if field.is_volatile then codes "`const volatile` " else codes "`const` "
      else if field.is_volatile
      then codes "`volatile` "
      else []

  unfoldable pub describe_field : FieldInfo → Text
  describe_field field = elim (field.name) [
    | some name ↦ elim (field.type_name) [
      | some ty ↦
          field_qualifier field
          ++ (codes "field `"
              ++ (name
                  ++ (codes "` of type `" ++ (to_cpp_name (k.special_cpp_name) ty ++ codes "`"))))
      | none ↦ field_qualifier field ++ (codes "field `" ++ (name ++ codes "`"))
    ]
    | none ↦ elim (field.type_name) [
      | some ty ↦
          field_qualifier field
          ++ (codes "field of type `" ++ (to_cpp_name (k.special_cpp_name) ty ++ codes "`"))
      | none ↦ codes "a " ++ (field_qualifier field ++ codes "field")
    ]
  ]

  -- `get_items_found`
  unfoldable pub get_items_found :
      (enums : List QualifiedName) → ApiName → AllItems → QualifiedName → Option ItemsFound
  unfolding known_type_items_found without_default_items
  get_items_found enums class_name all_items_found qn =
      if contains enums qn
      then some (without_default_items class_name)
      else elim (k.get_constructor_details qn) [
        | some details ↦ some (known_type_items_found details)
        | none ↦ lookup qn all_items_found
      ]

  -- Bases up to the first that is not understood.
  unfoldable pub bases_items_found :
      (get : QualifiedName → Option ItemsFound) → List QualifiedName → Dependencies
  unfolding describe_base
  bases_items_found get [] = []
  bases_items_found get (base ∷ bases) = elim (get base) [
    | none ↦ []
    | some items ↦ (describe_base base, items) ∷ bases_items_found get bases
  ]

  -- What the type of a field can do.
  unfoldable pub type_items_found :
      (get : QualifiedName → Option ItemsFound)
      → ApiName
      → FieldInfo
      → FieldTypeKind
      → Option ItemsFound
  unfolding pointer_items without_default_items
  type_items_found get class_name field pointer = some (pointer_items class_name)
  type_items_found get class_name field reference = some (without_default_items class_name)
  type_items_found get class_name field mutable_reference = some (without_default_items class_name)
  type_items_found get class_name field rvalue_reference = some (without_default_items class_name)
  type_items_found get class_name field _ = elim (field.type_name) [
    | none ↦ none
    | some ty ↦ get ty
  ]

  abbrev pub with_initializer : FieldInfo → ItemsFound → ItemsFound
  with_initializer field i =
      if field.has_default_initializer then record i { default_constructor = implicit } else i

  abbrev pub with_const : FieldInfo → ItemsFound → ItemsFound
  with_const field i =
      if field.is_const
      then record i {
        move_constructor = or_default i.const_copy_constructor i.const_move_constructor;
        non_const_copy_constructor = not_present;
      }
      else i

  abbrev pub held_by_value : FieldTypeKind → Bool
  held_by_value regular = true
  held_by_value (subclass_holder _) = true
  held_by_value _ = false

  -- `ty.is_some_and(..)`
  abbrev pub named_and : (QualifiedName → Bool) → Option QualifiedName → Bool
  named_and p none = false
  named_and p (some ty) = p ty

  unfoldable pub volatile_member_of_class_type : (enums : List QualifiedName) → FieldInfo → Bool
  volatile_member_of_class_type enums field =
      field.is_volatile
      && (held_by_value field.type_kind
          && (field.holds_std_array
              || not (
                  named_and (λ ty. contains enums ty || k.copyable_from_volatile ty)
                    field.type_name)))

  unfoldable pub with_volatile :
      (enums const_volatile_copy_constructors : List QualifiedName)
      → FieldInfo
      → ItemsFound
      → ItemsFound
  unfolding volatile_member_of_class_type
  with_volatile enums const_volatile_copy_constructors field i =
      if volatile_member_of_class_type enums field
      then record i {
        const_copy_constructor =
            if field.holds_std_array
              || not (named_and (contains const_volatile_copy_constructors) field.type_name)
            then not_present
            else i.const_copy_constructor;
        non_const_copy_constructor = not_present;
        move_constructor = not_present;
      }
      else i

  -- Answer for the field rather than for its type.
  unfoldable pub fields_items_found :
      (enums const_volatile_copy_constructors : List QualifiedName)
      → (get : QualifiedName → Option ItemsFound) → ApiName
      → List FieldInfo
      → Dependencies
  unfolding with_volatile type_items_found describe_field
  fields_items_found enums cv get class_name [] = []
  fields_items_found enums cv get class_name (field ∷ fields) =
      let rest = fields_items_found enums cv get class_name fields in
      elim (type_items_found get class_name field field.type_kind) [
        | none ↦ rest
        | some i ↦
            (
              describe_field field,
              with_volatile enums cv field (with_const field (with_initializer field i)),
            )
            ∷ rest
      ]

  -- `name_of`
  abbrev quoted : QualifiedName → Text
  quoted qn = codes "`" ++ (to_cpp_name (k.special_cpp_name) qn ++ codes "`")

  unfoldable pub unknown_bases :
      (get : QualifiedName → Option ItemsFound) → List QualifiedName → List Text
  unknown_bases get [] = []
  unknown_bases get (base ∷ bases) = elim (get base) [
    | none ↦ quoted base ∷ unknown_bases get bases
    | some _ ↦ unknown_bases get bases
  ]

  unfoldable pub unknown_field : (get : QualifiedName → Option ItemsFound) → FieldInfo → Option Text
  unfolding describe_field
  unknown_field get field =
      if held_by_value field.type_kind
      then elim (field.type_name) [
        | none ↦ some (describe_field field)
        | some ty ↦ elim (get ty) [ none ↦ some (quoted ty) | some _ ↦ none ]
      ]
      else none

  unfoldable pub unknown_fields :
      (get : QualifiedName → Option ItemsFound) → List FieldInfo → List Text
  unfolding unknown_field
  unknown_fields get [] = []
  unknown_fields get (field ∷ fields) = elim (unknown_field get field) [
    | none ↦ unknown_fields get fields
    | some text ↦ text ∷ unknown_fields get fields
  ]

  unfoldable pub unknown_dependencies :
      (get_base get : QualifiedName → Option ItemsFound)
      → List QualifiedName
      → List FieldInfo
      → List Text
  unfolding unknown_bases unknown_fields
  unknown_dependencies get_base get bases fields =
      unknown_bases get_base bases ++ unknown_fields get fields
