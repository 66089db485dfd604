-- ===== src/SpecialMembers/Found.antt =====
-- What implicit_constructors.rs finds out about one special member, and why one is missing.
use autocxx.Prelude.{Bool, true, false, Text, List, Option, some}

pub data CppVisibility : Type 0 where
  public protected private : CppVisibility

pub data SpecialMemberFound : Type 0 where
  not_present implicit : SpecialMemberFound
  explicit : CppVisibility → SpecialMemberFound

unfoldable pub callable_any : SpecialMemberFound → Bool
callable_any (explicit public) = true
callable_any implicit = true
callable_any _ = false

unfoldable pub callable_subclass : SpecialMemberFound → Bool
callable_subclass (explicit public) = true
callable_subclass (explicit protected) = true
callable_subclass implicit = true
callable_subclass _ = false

unfoldable pub exists : SpecialMemberFound → Bool
exists (explicit _) = true
exists implicit = true
exists not_present = false

unfoldable pub exists_implicit : SpecialMemberFound → Bool
exists_implicit implicit = true
exists_implicit _ = false

unfoldable pub exists_explicit : SpecialMemberFound → Bool
exists_explicit (explicit _) = true
exists_explicit _ = false

pub data SpecialMemberKind : Type 0 where
  default_constructor copy_constructor move_constructor destructor assignment_operator :
      SpecialMemberKind

pub data WhyNoSpecialMember : Type 0 where
  dependencies_not_understood : List Text → WhyNoSpecialMember
  declared_opaque rvalue_reference_field move_constructor_declared : WhyNoSpecialMember
  dependency_lacks_it : (dependency : Text) (member : SpecialMemberKind) → WhyNoSpecialMember
  reference_field const_field : (field : Option Text) → WhyNoSpecialMember
  implicit_copy_constructor_is_non_const : (dependency : Text) → WhyNoSpecialMember

-- What the class declares of one kind.
pub data ExplicitFound : Type 0 where
  user_defined defaulted : CppVisibility → ExplicitFound
  deleted multiple : ExplicitFound

unfoldable pub is_defaulted : Option ExplicitFound → Bool
is_defaulted (some (defaulted _)) = true
is_defaulted _ = false

unfoldable pub found_as_declared : Option ExplicitFound → SpecialMemberFound
found_as_declared (some (defaulted visibility)) = explicit visibility
found_as_declared _ = implicit

unfoldable pub found_only_if_defaulted : Option ExplicitFound → SpecialMemberFound
found_only_if_defaulted (some (defaulted visibility)) = explicit visibility
found_only_if_defaulted _ = not_present

unfoldable pub found_if_user_defined : Option ExplicitFound → SpecialMemberFound
found_if_user_defined (some (user_defined visibility)) = explicit visibility
found_if_user_defined _ = not_present
