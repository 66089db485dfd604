-- ===== src/SpecialMembers/Rules.antt =====
-- The C++ rules in `find_constructors_present`: which special members a class has whose bases and
-- fields are all understood.
use autocxx.Prelude.{
  Bool, ◌&&◌, ◌||◌, not, List, [], ◌∷◌, ◌++◌, Option, none, some, all, is_some, Text, if◌then◌else◌,
}
use autocxx.SpecialMembers.Found.{
  SpecialMemberFound, not_present, implicit, callable_any, callable_subclass, exists,
  exists_implicit, SpecialMemberKind, WhyNoSpecialMember, dependency_lacks_it,
  rvalue_reference_field, move_constructor_declared, implicit_copy_constructor_is_non_const,
  ExplicitFound, is_defaulted, found_as_declared, found_only_if_defaulted, found_if_user_defined,
}
use autocxx.SpecialMembers.Data.{ItemsFound, ExplicitKind}

-- The bases or the fields, each with its description.
abbrev pub Dependencies : Type 0
Dependencies = List (Text × ItemsFound)

abbrev pub Requirements : Type 0
Requirements = ItemsFound → List (SpecialMemberKind × Bool)

unfoldable pub first_unmet : List (SpecialMemberKind × Bool) → Option SpecialMemberKind
first_unmet [] = none
first_unmet ((member, met) ∷ more) = if met then first_unmet more else some member

unfoldable pub first_dependency_lacking : Dependencies → Requirements → Option WhyNoSpecialMember
unfolding first_unmet
first_dependency_lacking [] requirements = none
first_dependency_lacking ((dependency, items_found) ∷ more) requirements =
    elim (first_unmet (requirements items_found)) [
      | some member ↦ some (dependency_lacks_it dependency member)
      | none ↦ first_dependency_lacking more requirements
    ]

-- `Option::or_else`
abbrev pub or_else {ℓ} : {A : Type ℓ} → Option A → Option A → Option A
or_else none b = b
or_else (some a) b = some a

-- What `first_dependency_lacking` asks of a base and of a field.
abbrev pub default_of_base : Requirements
default_of_base i =
    (SpecialMemberKind.destructor, callable_subclass i.destructor)
    ∷ (SpecialMemberKind.default_constructor, callable_subclass i.default_constructor)
    ∷ []

abbrev pub default_of_field : Requirements
default_of_field i =
    (SpecialMemberKind.destructor, callable_any i.destructor)
    ∷ (SpecialMemberKind.default_constructor, callable_any i.default_constructor)
    ∷ []

abbrev pub copy_of_base : Requirements
copy_of_base i =
    (SpecialMemberKind.destructor, callable_subclass i.destructor)
    ∷ (
      SpecialMemberKind.copy_constructor,
      callable_subclass i.const_copy_constructor || callable_subclass i.non_const_copy_constructor,
    )
    ∷ []

abbrev pub copy_of_field : Requirements
copy_of_field i =
    (SpecialMemberKind.destructor, callable_any i.destructor)
    ∷ (
      SpecialMemberKind.copy_constructor,
      callable_any i.const_copy_constructor || callable_any i.non_const_copy_constructor,
    )
    ∷ []

abbrev pub move_of_base : Requirements
move_of_base i =
    (SpecialMemberKind.destructor, callable_subclass i.destructor)
    ∷ (SpecialMemberKind.move_constructor, callable_subclass i.move_constructor)
    ∷ []

abbrev pub move_of_field : Requirements
move_of_field i = (SpecialMemberKind.move_constructor, callable_any i.move_constructor) ∷ []

-- Present as declared, unless a blocker stands in the way.
abbrev pub unless_blocked :
    Option WhyNoSpecialMember → SpecialMemberFound → SpecialMemberFound × Option WhyNoSpecialMember
unless_blocked none found = (found, none)
unless_blocked (some blocker) found = (not_present, some blocker)

-- The first base or field without a copy constructor from a const source.
unfoldable pub non_const_dependency : Dependencies → Option Text
non_const_dependency [] = none
non_const_dependency ((dependency, i) ∷ more) =
    if exists i.const_copy_constructor then non_const_dependency more else some dependency

pub record CopyFound : Type 0 where
  pub from_const : SpecialMemberFound
  pub from_non_const : SpecialMemberFound
  pub why : Option WhyNoSpecialMember

-- `explicits` is `find_explicit`, for the class at hand.
module _ (explicits : ExplicitKind → Option ExplicitFound) (bases fields : Dependencies) where
  abbrev pub declares : ExplicitKind → Bool
  declares kind = is_some (explicits kind)

  -- Whether the class declares a constructor other than a default one.
  unfoldable pub declares_constructor : Bool
  declares_constructor =
      declares ExplicitKind.const_copy_constructor
      || (declares ExplicitKind.non_const_copy_constructor
          || (declares ExplicitKind.move_constructor || declares ExplicitKind.other_constructor))

  -- The three reasons are those that the fields give by themselves.
  unfoldable pub default_constructor_rule :
      (has_rvalue_reference_fields : Bool)
      → (reference_field const_field : Option WhyNoSpecialMember)
      → SpecialMemberFound × Option WhyNoSpecialMember
  unfolding first_dependency_lacking is_defaulted found_as_declared found_if_user_defined
      declares_constructor
  default_constructor_rule has_rvalue_reference_fields reference_field const_field =
      let explicit = explicits ExplicitKind.default_constructor in
      let blocker =
        if has_rvalue_reference_fields
        then some rvalue_reference_field
        else or_else reference_field (
            or_else const_field (
              or_else (first_dependency_lacking bases default_of_base)
                (first_dependency_lacking fields default_of_field))) in
      if is_defaulted explicit || not (is_some explicit) && not declares_constructor
      then unless_blocked blocker (found_as_declared explicit)
      else (found_if_user_defined explicit, none)

  unfoldable pub destructor_rule : SpecialMemberFound
  unfolding callable_any callable_subclass is_defaulted found_as_declared found_if_user_defined
  destructor_rule =
      let explicit = explicits ExplicitKind.destructor in
      if not (is_some explicit) || is_defaulted explicit
      then if all (λ d. callable_subclass (d.1).destructor) bases
          && all (λ d. callable_any (d.1).destructor) fields
        then found_as_declared explicit
        else not_present
      else found_if_user_defined explicit

  unfoldable pub copy_constructor_rule : (has_rvalue_reference_fields : Bool) → CopyFound
  unfolding first_dependency_lacking is_defaulted found_only_if_defaulted found_if_user_defined
      non_const_dependency
  copy_constructor_rule has_rvalue_reference_fields =
      let explicit_const = explicits ExplicitKind.const_copy_constructor in
      let explicit_non_const = explicits ExplicitKind.non_const_copy_constructor in
      let copy_is_defaulted = is_defaulted explicit_const || is_defaulted explicit_non_const in
      let blocker =
        if has_rvalue_reference_fields
        then some rvalue_reference_field
        else if not copy_is_defaulted && declares ExplicitKind.move_constructor
        then some move_constructor_declared
        else or_else (first_dependency_lacking bases copy_of_base)
            (first_dependency_lacking fields copy_of_field) in
      let if_unblocked : CopyFound =
        if copy_is_defaulted
        then record {
          from_const = found_only_if_defaulted explicit_const;
          from_non_const = found_only_if_defaulted explicit_non_const;
          why = none;
        }
        else elim (non_const_dependency (bases ++ fields)) [
          | none ↦ record { from_const = implicit; from_non_const = not_present; why = none }
          | some dependency ↦ record {
            from_const = not_present;
            from_non_const = implicit;
            why = some (implicit_copy_constructor_is_non_const dependency);
          }
        ] in
      if (not (is_some explicit_const) || is_defaulted explicit_const)
        && (not (is_some explicit_non_const) || is_defaulted explicit_non_const)
      then elim blocker [
        | none ↦ if_unblocked
        | some b ↦ record { from_const = not_present; from_non_const = not_present; why = some b }
      ]
      else record {
        from_const = found_if_user_defined explicit_const;
        from_non_const = found_if_user_defined explicit_non_const;
        why = none;
      }

  unfoldable pub move_constructor_rule : SpecialMemberFound × Option WhyNoSpecialMember
  unfolding first_dependency_lacking is_defaulted found_as_declared found_if_user_defined
  move_constructor_rule =
      let explicit = explicits ExplicitKind.move_constructor in
      let declared =
        is_some explicit
        || (declares ExplicitKind.const_copy_constructor
            || (declares ExplicitKind.non_const_copy_constructor
                || (declares ExplicitKind.const_copy_assignment_operator
                    || (declares ExplicitKind.non_const_copy_assignment_operator
                        || (declares ExplicitKind.move_assignment_operator
                            || declares ExplicitKind.destructor))))) in
      if is_defaulted explicit || not declared
      then unless_blocked
          (or_else (first_dependency_lacking bases move_of_base)
            (first_dependency_lacking fields move_of_field))
          (found_as_declared explicit)
      else (found_if_user_defined explicit, none)

  unfoldable pub trivial_destructor_rule : Bool
  unfolding exists_implicit destructor_rule
  trivial_destructor_rule =
      exists_implicit destructor_rule && all (λ d. (d.1).destructor_is_trivial) (bases ++ fields)
