-- ===== src/SpecialMembers/Structs.antt =====
-- One class in `find_constructors_present`: its special members from its declarations, its bases
-- and its fields.
use autocxx.Prelude.{
  Bool, true, false, ◌&&◌, ◌||◌, not, List, [], ◌∷◌, Option, none, some, contains, length, lookup,
  if◌then◌else◌, nat_beq, Text,
}
use autocxx.Names.{QualifiedName, name_eq}
use autocxx.Api.{TypeKind}
use autocxx.SpecialMembers.Found.{
  SpecialMemberFound, not_present, implicit, explicit, public, WhyNoSpecialMember,
  dependencies_not_understood, declared_opaque, reference_field, const_field, ExplicitFound,
  user_defined, defaulted, deleted, multiple,
}
use autocxx.SpecialMembers.Data.{
  ItemsFound, ExplicitKind, ExplicitType, explicit_type_eq, FieldInfo, FieldTypeKind, reference,
  rvalue_reference, mutable_reference, DataMember, StructInfo,
}
use autocxx.SpecialMembers.Rules.{
  Dependencies, default_constructor_rule, destructor_rule, copy_constructor_rule,
  move_constructor_rule, trivial_destructor_rule,
}

abbrev pub Explicits : Type 0
Explicits = List (ExplicitType × ExplicitFound)

pub record ExplicitItems : Type 0 where
  pub explicits : Explicits
  pub unknown_types : List QualifiedName
  pub const_move_constructors : List QualifiedName
  pub const_volatile_copy_constructors : List QualifiedName

-- `find_explicit`
abbrev pub find_explicit : Explicits → QualifiedName → ExplicitKind → Option ExplicitFound
find_explicit explicits name kind = lookup (record { ty = name; kind = kind }) explicits

abbrev is_reference_kind : FieldTypeKind → Bool
is_reference_kind reference = true
is_reference_kind mutable_reference = true
is_reference_kind rvalue_reference = true
is_reference_kind _ = false

-- The first reference field that nothing initializes.
unfoldable pub first_reference_field : List FieldInfo → Option WhyNoSpecialMember
first_reference_field [] = none
first_reference_field (field ∷ fields) =
    if not field.has_default_initializer && is_reference_kind field.type_kind
    then some (reference_field field.name)
    else first_reference_field fields

const_bitfield : List DataMember → Option WhyNoSpecialMember
const_bitfield [] = none
const_bitfield (b ∷ bitfields) =
    if b.is_const && not b.has_default_member_initializer
    then some (const_field b.name)
    else const_bitfield bitfields

-- The first `const` field, or else bitfield, that nothing initializes.
unfoldable pub first_const_field : List FieldInfo → List DataMember → Option WhyNoSpecialMember
unfolding const_bitfield
first_const_field [] bitfields = const_bitfield bitfields
first_const_field (field ∷ fields) bitfields =
    if field.is_const && not field.has_default_initializer
    then some (const_field field.name)
    else first_const_field fields bitfields

-- A member of a class that is not understood.
unfoldable pub is_explicit : Option ExplicitFound → SpecialMemberFound
is_explicit (some (user_defined visibility)) = explicit visibility
is_explicit _ = not_present

-- And its destructor.
unfoldable pub optimistic_destructor : Option ExplicitFound → SpecialMemberFound
optimistic_destructor none = implicit
optimistic_destructor (some multiple) = explicit public
optimistic_destructor (some deleted) = not_present
optimistic_destructor (some (user_defined visibility)) = explicit visibility
optimistic_destructor (some (defaulted visibility)) = explicit visibility

-- `why`
abbrev pub why_missing : WhyNoSpecialMember → SpecialMemberFound → Option WhyNoSpecialMember
why_missing reason not_present = some reason
why_missing reason _ = none

abbrev pub and_option :
    Option WhyNoSpecialMember → Option WhyNoSpecialMember → Option WhyNoSpecialMember
and_option none b = none
and_option (some _) b = b

abbrev pub is_opaque : TypeKind → Bool
is_opaque TypeKind.opaque = true
is_opaque _ = false

unfoldable pub explicits_only :
    (e : ExplicitItems) → StructInfo → (unknown : List Text) → ItemsFound
unfolding is_explicit optimistic_destructor
explicits_only e s unknown =
    let declared =
      λ (kind : ExplicitKind). is_explicit (find_explicit e.explicits s.name.name kind) in
    let reason =
      if is_opaque s.kind then declared_opaque else dependencies_not_understood unknown in
    record {
      default_constructor = declared ExplicitKind.default_constructor;
      destructor =
          optimistic_destructor (find_explicit e.explicits s.name.name ExplicitKind.destructor);
      const_copy_constructor = declared ExplicitKind.const_copy_constructor;
      non_const_copy_constructor = declared ExplicitKind.non_const_copy_constructor;
      move_constructor = declared ExplicitKind.move_constructor;
      const_move_constructor =
          if contains e.const_move_constructors s.name.name
          then some (declared ExplicitKind.move_constructor)
          else none;
      destructor_is_trivial = false;
      name = some s.name;
      why_no_constructors = record {
        default_constructor = why_missing reason (declared ExplicitKind.default_constructor);
        copy_constructor =
            and_option (why_missing reason (declared ExplicitKind.const_copy_constructor))
              (why_missing reason (declared ExplicitKind.non_const_copy_constructor));
        move_constructor = why_missing reason (declared ExplicitKind.move_constructor);
      };
    }

unfoldable pub by_the_rules :
    (e : ExplicitItems) → StructInfo → (bases fields : Dependencies) → ItemsFound
unfolding default_constructor_rule destructor_rule copy_constructor_rule move_constructor_rule
    trivial_destructor_rule first_reference_field first_const_field
by_the_rules e s bases fields =
    let explicits = find_explicit e.explicits s.name.name in
    let (default_constructor, why_no_default_constructor) =
      default_constructor_rule explicits bases fields s.has_rvalue_reference_fields
        (first_reference_field s.field_info) (first_const_field s.field_info s.bitfields) in
    let copy = copy_constructor_rule explicits bases fields s.has_rvalue_reference_fields in
    let (move_constructor, why_no_move_constructor) =
      move_constructor_rule explicits bases fields in
    record {
      default_constructor = default_constructor;
      destructor = destructor_rule explicits bases fields;
      const_copy_constructor = copy.from_const;
      non_const_copy_constructor = copy.from_non_const;
      move_constructor = move_constructor;
      const_move_constructor =
          if contains e.const_move_constructors s.name.name then some move_constructor else none;
      destructor_is_trivial = trivial_destructor_rule explicits bases fields;
      name = some s.name;
      why_no_constructors = record {
        default_constructor = why_no_default_constructor;
        copy_constructor = copy.why;
        move_constructor = why_no_move_constructor;
      };
    }

-- Whether all of the class is understood.
unfoldable pub is_understood :
    (e : ExplicitItems) → StructInfo → (bases fields : Dependencies) → Bool
is_understood e s bases fields = not (
    is_opaque s.kind
    || (s.has_unnamed_base
        || (not (nat_beq (length bases) (length s.bases))
            || (not (nat_beq (length fields) (length s.field_info))
                || contains e.unknown_types s.name.name))))

unfoldable pub struct_items :
    (e : ExplicitItems)
    → StructInfo
    → (bases fields : Dependencies) → (unknown : List Text) → ItemsFound
unfolding is_understood explicits_only by_the_rules
struct_items e s bases fields unknown =
    if is_understood e s bases fields
    then by_the_rules e s bases fields
    else explicits_only e s unknown
