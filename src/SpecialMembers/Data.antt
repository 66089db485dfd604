-- ===== src/SpecialMembers/Data.antt =====
-- The data of implicit_constructors.rs, and the parts of the APIs before function analysis and of
-- known_types.rs that it reads.
use autocxx.Prelude.{
  ℕ, Bool, true, ◌&&◌, ◌≡◌, ◌↔◌, refl, sym, ap, ◌∙◌, List, Option, none, Text, nat_beq, nat_beq_iff,
  if◌then◌else◌, Eq, ◌==◌, arith,
}
use autocxx.Names.{QualifiedName, name_eq, name_beq_iff}
use autocxx.Api.{ApiName, TypeKind}
use autocxx.SpecialMembers.Found.{SpecialMemberFound, WhyNoSpecialMember}

pub record WhyNoConstructors : Type 0 where
  pub default_constructor : Option WhyNoSpecialMember
  pub copy_constructor : Option WhyNoSpecialMember
  pub move_constructor : Option WhyNoSpecialMember

abbrev pub WhyNoConstructors_default : WhyNoConstructors
WhyNoConstructors_default = record {
  default_constructor = none;
  copy_constructor = none;
  move_constructor = none;
}

pub record ItemsFound : Type 0 where
  pub default_constructor : SpecialMemberFound
  pub destructor : SpecialMemberFound
  pub const_copy_constructor : SpecialMemberFound
  pub non_const_copy_constructor : SpecialMemberFound
  pub move_constructor : SpecialMemberFound
  pub const_move_constructor : Option SpecialMemberFound
  pub destructor_is_trivial : Bool
  pub name : Option ApiName
  pub why_no_constructors : WhyNoConstructors

pub data ExplicitKind : Type 0 where
  default_constructor const_copy_constructor non_const_copy_constructor move_constructor :
      ExplicitKind
  other_constructor destructor const_copy_assignment_operator : ExplicitKind
  non_const_copy_assignment_operator move_assignment_operator : ExplicitKind

kind_code : ExplicitKind → ℕ
kind_code ExplicitKind.default_constructor = 0
kind_code ExplicitKind.const_copy_constructor = 1
kind_code ExplicitKind.non_const_copy_constructor = 2
kind_code ExplicitKind.move_constructor = 3
kind_code ExplicitKind.other_constructor = 4
kind_code ExplicitKind.destructor = 5
kind_code ExplicitKind.const_copy_assignment_operator = 6
kind_code ExplicitKind.non_const_copy_assignment_operator = 7
kind_code ExplicitKind.move_assignment_operator = 8

unfoldable pub kind_beq : ExplicitKind → ExplicitKind → Bool
unfolding kind_code
kind_beq j k = nat_beq (kind_code j) (kind_code k)

kind_of : ℕ → ExplicitKind
kind_of n =
    if nat_beq n 0
    then ExplicitKind.default_constructor
    else if nat_beq n 1
    then ExplicitKind.const_copy_constructor
    else if nat_beq n 2
    then ExplicitKind.non_const_copy_constructor
    else if nat_beq n 3
    then ExplicitKind.move_constructor
    else if nat_beq n 4
    then ExplicitKind.other_constructor
    else if nat_beq n 5
    then ExplicitKind.destructor
    else if nat_beq n 6
    then ExplicitKind.const_copy_assignment_operator
    else if nat_beq n 7
    then ExplicitKind.non_const_copy_assignment_operator
    else ExplicitKind.move_assignment_operator

kind_of-kind_code : (k : ExplicitKind) → kind_of (kind_code k) ≡ k
unfolding kind_of kind_code
kind_of-kind_code ExplicitKind.default_constructor = refl
kind_of-kind_code ExplicitKind.const_copy_constructor = refl
kind_of-kind_code ExplicitKind.non_const_copy_constructor = refl
kind_of-kind_code ExplicitKind.move_constructor = refl
kind_of-kind_code ExplicitKind.other_constructor = refl
kind_of-kind_code ExplicitKind.destructor = refl
kind_of-kind_code ExplicitKind.const_copy_assignment_operator = refl
kind_of-kind_code ExplicitKind.non_const_copy_assignment_operator = refl
kind_of-kind_code ExplicitKind.move_assignment_operator = refl

pub kind_beq_iff : (j k : ExplicitKind) → (kind_beq j k ≡ true) ↔ (j ≡ k)
unfolding kind_beq
kind_beq_iff j k = (
  λ h.
      sym (kind_of-kind_code j)
      ∙ ap kind_of ((nat_beq_iff (kind_code j) (kind_code k)).0 h)
      ∙ kind_of-kind_code k,
  λ e. (nat_beq_iff (kind_code j) (kind_code k)).1 (ap kind_code e),
)

pub record ExplicitType : Type 0 where
  pub ty : QualifiedName
  pub kind : ExplicitKind

pub explicit_type_beq_iff :
    (s t : ExplicitType) → ((s.ty == t.ty && kind_beq s.kind t.kind) ≡ true) ↔ (s ≡ t)
explicit_type_beq_iff s t = ground (arith, name_beq_iff s.ty t.ty, kind_beq_iff s.kind t.kind)

instance abbrev pub explicit_type_eq : Eq ExplicitType
explicit_type_eq = record {
  beq = λ s t. s.ty == t.ty && kind_beq s.kind t.kind;
  beq_iff = explicit_type_beq_iff;
}

pub data FieldTypeKind : Type 0 where
  regular pointer reference rvalue_reference mutable_reference : FieldTypeKind
  subclass_holder : Text → FieldTypeKind

-- `type_name` is the path that the innermost element type of the field is, where it is one.
pub record FieldInfo : Type 0 where
  pub name : Option Text
  pub type_name : Option QualifiedName
  pub type_kind : FieldTypeKind
  pub is_const : Bool
  pub is_volatile : Bool
  pub holds_std_array : Bool
  pub has_default_initializer : Bool

-- A bitfield, as bindgen reports it.
pub record DataMember : Type 0 where
  pub name : Option Text
  pub is_const : Bool
  pub has_default_member_initializer : Bool

-- `PodAnalysis` and the details of a struct.
pub record StructInfo : Type 0 where
  pub name : ApiName
  pub kind : TypeKind
  pub bases : List QualifiedName
  pub has_unnamed_base : Bool
  pub field_definition_deps : List QualifiedName
  pub field_info : List FieldInfo
  pub bitfields : List DataMember
  pub num_generics : ℕ
  pub in_anonymous_namespace : Bool
  pub has_rvalue_reference_fields : Bool

pub record KnownTypeConstructorDetails : Type 0 where
  pub has_move_constructor : Bool
  pub has_const_copy_constructor : Bool
  pub destructor_is_trivial : Bool

-- What the analysis asks of `known_types()`.
pub record KnownTypes : Type 0 where
  pub special_cpp_name : QualifiedName → Option Text
  pub get_constructor_details : QualifiedName → Option KnownTypeConstructorDetails
  pub copyable_from_volatile : QualifiedName → Bool
