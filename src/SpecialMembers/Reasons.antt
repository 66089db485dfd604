-- ===== src/SpecialMembers/Reasons.antt =====
-- The reasons that implicit_constructors.rs gives for special members that are missing.
use autocxx.Prelude.{◌≡◌, ◌≢◌, Bool, List, Option, none, Text, arith, Bool-cases, inl, inr}
use autocxx.SpecialMembers.Found.{not_present, WhyNoSpecialMember, ExplicitFound}
use autocxx.SpecialMembers.Data.{ItemsFound, ExplicitKind, StructInfo}
use autocxx.SpecialMembers.Rules.{
  Dependencies, default_constructor_rule, copy_constructor_rule, move_constructor_rule,
}
use autocxx.SpecialMembers.Structs.{
  ExplicitItems, explicits_only, by_the_rules, is_understood, struct_items, find_explicit,
  first_const_field, first_reference_field,
}

-- No member has a reason to be missing that is there.
abbrev pub ReasonsAreSound : ItemsFound → Type 0
ReasonsAreSound i =
    (i.why_no_constructors.default_constructor ≢ none → i.default_constructor ≡ not_present)
    × (i.why_no_constructors.copy_constructor ≢ none → i.const_copy_constructor ≡ not_present)
    × (i.why_no_constructors.move_constructor ≢ none → i.move_constructor ≡ not_present)

module _ (explicits : ExplicitKind → Option ExplicitFound) (bases fields : Dependencies) where
  default_reason :
      (rvalue : Bool) (reference_field const_field : Option WhyNoSpecialMember)
      → (default_constructor_rule explicits bases fields rvalue reference_field const_field).1
        ≢ none
      → (default_constructor_rule explicits bases fields rvalue reference_field const_field).0
        ≡ not_present
  unfolding default_constructor_rule
  default_reason rvalue reference_field const_field why = ground arith

  copy_reason :
      (rvalue : Bool)
      → (copy_constructor_rule explicits bases fields rvalue).why ≢ none
      → (copy_constructor_rule explicits bases fields rvalue).from_const ≡ not_present
  unfolding copy_constructor_rule
  copy_reason rvalue why = ground arith

  move_reason :
      (move_constructor_rule explicits bases fields).1 ≢ none
      → (move_constructor_rule explicits bases fields).0 ≡ not_present
  unfolding move_constructor_rule
  move_reason why = ground arith

module _ (e : ExplicitItems) (s : StructInfo) where
  explicits_only_sound : (unknown : List Text) → ReasonsAreSound (explicits_only e s unknown)
  unfolding explicits_only
  explicits_only_sound unknown = (λ why. ground arith, λ why. ground arith, λ why. ground arith)

  by_the_rules_sound :
      (bases fields : Dependencies) → ReasonsAreSound (by_the_rules e s bases fields)
  unfolding by_the_rules
  by_the_rules_sound bases fields =
      let explicits = find_explicit e.explicits s.name.name in
      (
        default_reason explicits bases fields s.has_rvalue_reference_fields
            (first_reference_field s.field_info) (first_const_field s.field_info s.bitfields),
        copy_reason explicits bases fields s.has_rvalue_reference_fields,
        move_reason explicits bases fields,
      )

  -- Whatever a class's bases and fields are, and whether or not it is understood, its answer gives
  -- a reason for a missing default, const copy or move constructor only where it has that
  -- constructor as not present.
  pub struct_items-ReasonsAreSound :
      (bases fields : Dependencies) (unknown : List Text)
      → ReasonsAreSound (struct_items e s bases fields unknown)
  unfolding struct_items by_the_rules
  struct_items-ReasonsAreSound bases fields unknown =
      elim (Bool-cases (is_understood e s bases fields)) [
        | inl understood ↦ rw understood (by_the_rules_sound bases fields)
        | inr other ↦ rw other (explicits_only_sound unknown)
      ]
