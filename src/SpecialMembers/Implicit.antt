-- ===== src/SpecialMembers/Implicit.antt =====
-- The rules of implicit_constructors.rs, each against a list of conditions. They are not C++'s own,
-- which the comments beside the code give: C++ lets a move assignment operator delete the copy
-- constructor, and an unusable operator delete a virtual destructor, and lets an initialized rvalue
-- reference and a const field that can be const default constructed be.
use autocxx.Prelude.{
  ◌≡◌, ◌↔◌, refl, Bool, true, false, ◌||◌, List, [], ◌∷◌, ◌++◌, Option, none, All, all_iff, arith,
  Option-cases, inl, inr,
}
use autocxx.SpecialMembers.Found.{
  implicit, callable_any, callable_subclass, exists, exists_implicit, WhyNoSpecialMember,
  ExplicitFound, is_defaulted, found_as_declared, found_only_if_defaulted, found_if_user_defined,
}
use autocxx.SpecialMembers.Data.{ItemsFound, ExplicitKind}
use autocxx.SpecialMembers.Rules.{
  Dependencies, Requirements, first_unmet, first_dependency_lacking, default_of_base,
  default_of_field, copy_of_base, copy_of_field, move_of_base, move_of_field, non_const_dependency,
  declares_constructor, default_constructor_rule, destructor_rule, copy_constructor_rule,
  move_constructor_rule, trivial_destructor_rule,
}

-- No base or field is reported where each meets the requirements.
first_dependency_lacking-none :
    (P : ItemsFound → Type 0) (requirements : Requirements) (deps : Dependencies)
    → ((i : ItemsFound) → (first_unmet (requirements i) ≡ none) ↔ P i)
    → (first_dependency_lacking deps requirements ≡ none) ↔ All (λ d. P (d.1)) deps
unfolding first_dependency_lacking
first_dependency_lacking-none P requirements [] each = (λ e. tt, λ h. refl)
first_dependency_lacking-none P requirements ((name, i) ∷ deps) each =
    let ih = first_dependency_lacking-none P requirements deps each in
    elim (Option-cases (first_unmet (requirements i))) [
      | inl met ↦ (
        λ e. ((each i).0 met, ih.0 (rw (met, first_dependency_lacking) at e)),
        λ h. rw (met, first_dependency_lacking) (ih.1 h.1),
      )
      | inr (member, unmet) ↦
          (λ e. cc (rw (unmet, first_dependency_lacking) at e), λ h. cc ((each i).1 h.0))
    ]

-- A member that nothing declares.
abbrev pub Undeclared : (ExplicitKind → Option ExplicitFound) → List ExplicitKind → Type 0
Undeclared explicits kinds = All (λ kind. explicits kind ≡ none) kinds

abbrev pub DefaultOfBase : ItemsFound → Type 0
DefaultOfBase i =
    (callable_subclass i.destructor ≡ true) × (callable_subclass i.default_constructor ≡ true)

abbrev pub DefaultOfField : ItemsFound → Type 0
DefaultOfField i = (callable_any i.destructor ≡ true) × (callable_any i.default_constructor ≡ true)

default_of_base_lem : (i : ItemsFound) → (first_unmet (default_of_base i) ≡ none) ↔ DefaultOfBase i
unfolding first_unmet
default_of_base_lem i = ground arith

default_of_field_lem :
    (i : ItemsFound) → (first_unmet (default_of_field i) ≡ none) ↔ DefaultOfField i
unfolding first_unmet
default_of_field_lem i = ground arith

abbrev CopyOfBase : ItemsFound → Type 0
CopyOfBase i =
    (callable_subclass i.destructor ≡ true)
    × ((callable_subclass i.const_copy_constructor
          || callable_subclass i.non_const_copy_constructor)
        ≡ true)

abbrev CopyOfField : ItemsFound → Type 0
CopyOfField i =
    (callable_any i.destructor ≡ true)
    × ((callable_any i.const_copy_constructor || callable_any i.non_const_copy_constructor) ≡ true)

abbrev pub MoveOfBase : ItemsFound → Type 0
MoveOfBase i =
    (callable_subclass i.destructor ≡ true) × (callable_subclass i.move_constructor ≡ true)

copy_of_base_lem : (i : ItemsFound) → (first_unmet (copy_of_base i) ≡ none) ↔ CopyOfBase i
unfolding first_unmet
copy_of_base_lem i = ground arith

copy_of_field_lem : (i : ItemsFound) → (first_unmet (copy_of_field i) ≡ none) ↔ CopyOfField i
unfolding first_unmet
copy_of_field_lem i = ground arith

move_of_base_lem : (i : ItemsFound) → (first_unmet (move_of_base i) ≡ none) ↔ MoveOfBase i
unfolding first_unmet
move_of_base_lem i = ground arith

move_of_field_lem :
    (i : ItemsFound)
    → (first_unmet (move_of_field i) ≡ none) ↔ (callable_any i.move_constructor ≡ true)
unfolding first_unmet
move_of_field_lem i = ground arith

non_const_dependency-none :
    (deps : Dependencies)
    → (non_const_dependency deps ≡ none)
      ↔ All (λ d. exists (d.1).const_copy_constructor ≡ true) deps
unfolding non_const_dependency
non_const_dependency-none [] = (λ e. tt, λ h. refl)
non_const_dependency-none ((name, i) ∷ deps) =
    let ih = non_const_dependency-none deps in ground (arith, ih)

module _ (explicits : ExplicitKind → Option ExplicitFound) (bases fields : Dependencies) where
  -- The rule gives a class an implicit default constructor exactly where it declares no constructor
  -- at all, holds no rvalue reference (with or without an initializer), has no reason against it
  -- from a reference or const field, and every base and field can be default constructed and
  -- destroyed, a base from a subclass and a field from anywhere.
  pub default_constructor_rule-implicit :
      (has_rvalue_reference_fields : Bool) (reference_field const_field : Option WhyNoSpecialMember)
      → ((default_constructor_rule explicits bases fields has_rvalue_reference_fields
            reference_field const_field).0
          ≡ implicit)
        ↔ (Undeclared explicits (
              ExplicitKind.default_constructor ∷ ExplicitKind.const_copy_constructor
              ∷ ExplicitKind.non_const_copy_constructor ∷ ExplicitKind.move_constructor
              ∷ ExplicitKind.other_constructor ∷ [])
            × (has_rvalue_reference_fields ≡ false)
            × (reference_field ≡ none)
            × (const_field ≡ none)
            × All (λ d. DefaultOfBase (d.1)) bases
            × All (λ d. DefaultOfField (d.1)) fields)
  unfolding default_constructor_rule declares_constructor is_defaulted found_as_declared
      found_if_user_defined
  default_constructor_rule-implicit rvalue reference_field const_field =
      let of_bases =
        first_dependency_lacking-none DefaultOfBase default_of_base bases default_of_base_lem in
      let of_fields =
        first_dependency_lacking-none DefaultOfField default_of_field fields default_of_field_lem in
      ground (arith, of_bases, of_fields)

  -- Undeclared, with bases and fields that can be copied and destroyed, and with no rvalue
  -- reference among the fields.
  abbrev pub Copyable : (has_rvalue_reference_fields : Bool) → Type 0
  Copyable has_rvalue_reference_fields =
      Undeclared explicits (
        ExplicitKind.const_copy_constructor ∷ ExplicitKind.non_const_copy_constructor
        ∷ ExplicitKind.move_constructor ∷ [])
      × (has_rvalue_reference_fields ≡ false)
      × All (λ d. CopyOfBase (d.1)) bases
      × All (λ d. CopyOfField (d.1)) fields

  abbrev pub CopiesFromConst : Type 0
  CopiesFromConst = All (λ d. exists (d.1).const_copy_constructor ≡ true) (bases ++ fields)

  -- The rule gives a class an implicit copy constructor, of either shape, exactly where it declares
  -- no copy and no move constructor, holds no rvalue reference, and every base and field can be
  -- copied and destroyed, whatever assignment operators it declares. It takes a const source exactly where each base and field
  -- has a copy constructor that does, and a non-const source otherwise.
  pub copy_constructor_rule-implicit :
      (has_rvalue_reference_fields : Bool)
      → (((copy_constructor_rule explicits bases fields has_rvalue_reference_fields).from_const
            ≡ implicit)
          ↔ (Copyable has_rvalue_reference_fields × CopiesFromConst))
        × (((copy_constructor_rule explicits bases fields
                has_rvalue_reference_fields).from_non_const
              ≡ implicit)
            ↔ (Copyable has_rvalue_reference_fields × (¬ CopiesFromConst)))
  unfolding copy_constructor_rule is_defaulted found_only_if_defaulted found_if_user_defined
  copy_constructor_rule-implicit rvalue =
      let of_bases = first_dependency_lacking-none CopyOfBase copy_of_base bases copy_of_base_lem in
      let of_fields =
        first_dependency_lacking-none CopyOfField copy_of_field fields copy_of_field_lem in
      let of_both = non_const_dependency-none (bases ++ fields) in
      (ground (arith, of_bases, of_fields, of_both), ground (arith, of_bases, of_fields, of_both))

  -- The rule gives a class an implicit move constructor exactly where it declares no move constructor, copy
  -- constructor, assignment operator or destructor, every base can be moved and destroyed from a
  -- subclass, and every field can be moved.
  pub move_constructor_rule-implicit :
      ((move_constructor_rule explicits bases fields).0 ≡ implicit) ↔ (
        Undeclared explicits (
          ExplicitKind.move_constructor ∷ ExplicitKind.const_copy_constructor
          ∷ ExplicitKind.non_const_copy_constructor ∷ ExplicitKind.const_copy_assignment_operator
          ∷ ExplicitKind.non_const_copy_assignment_operator ∷ ExplicitKind.move_assignment_operator
          ∷ ExplicitKind.destructor ∷ [])
        × All (λ d. MoveOfBase (d.1)) bases
        × All (λ d. callable_any (d.1).move_constructor ≡ true) fields)
  unfolding move_constructor_rule is_defaulted found_as_declared found_if_user_defined
  move_constructor_rule-implicit =
      let of_bases = first_dependency_lacking-none MoveOfBase move_of_base bases move_of_base_lem in
      let of_fields =
        first_dependency_lacking-none (λ i. callable_any i.move_constructor ≡ true) move_of_field
          fields move_of_field_lem in
      ground (arith, of_bases, of_fields)

  -- The rule gives a class an implicit destructor exactly where it declares none and each of its
  -- bases and fields can be destroyed, and takes it for trivial exactly where that of each base and
  -- field is trivial besides.
  pub destructor_rule-implicit :
      ((destructor_rule explicits bases fields ≡ implicit) ↔ (
        (explicits ExplicitKind.destructor ≡ none)
        × All (λ d. callable_subclass (d.1).destructor ≡ true) bases
        × All (λ d. callable_any (d.1).destructor ≡ true) fields))
      × ((trivial_destructor_rule explicits bases fields ≡ true) ↔ (
          (explicits ExplicitKind.destructor ≡ none)
          × All (λ d. callable_subclass (d.1).destructor ≡ true) bases
          × All (λ d. callable_any (d.1).destructor ≡ true) fields
          × All (λ d. (d.1).destructor_is_trivial ≡ true) (bases ++ fields)))
  unfolding destructor_rule trivial_destructor_rule exists_implicit is_defaulted found_as_declared
      found_if_user_defined
  destructor_rule-implicit =
      let of_bases = all_iff (λ d. callable_subclass (d.1).destructor) bases in
      let of_fields = all_iff (λ d. callable_any (d.1).destructor) fields in
      let of_both = all_iff (λ d. (d.1).destructor_is_trivial) (bases ++ fields) in
      (ground (arith, of_bases, of_fields), ground (arith, of_bases, of_fields, of_both))
