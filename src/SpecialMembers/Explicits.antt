-- ===== src/SpecialMembers/Explicits.antt =====
-- `find_explicit_items` and the closure of `discard_deleted_defaulted_members`, of implicit_constructors.rs: the
-- special members that classes declare.
use autocxx.Prelude.{
  Bool, true, false, ◌&&◌, not, List, [], ◌∷◌, Option, none, some, Text, lookup, insert, set_insert,
  if◌then◌else◌,
}
use autocxx.Names.{QualifiedName, name_eq}
use autocxx.Api.{ApiName}
use autocxx.Api.Errors.{ConvertErrorFromCpp, defaulted_but_deleted, ErrorContext, new_for_method}
use autocxx.SpecialMembers.Found.{
  CppVisibility, SpecialMemberFound, not_present, SpecialMemberKind, ExplicitFound, user_defined,
  multiple,
}
use autocxx.SpecialMembers.Data.{
  ItemsFound, ExplicitKind, ExplicitType, explicit_type_eq, StructInfo,
}
use autocxx.SpecialMembers.Fields.{AllItems}
use autocxx.SpecialMembers.Structs.{ExplicitItems, Explicits}

pub data Explicitness : Type 0 where
  deleted defaulted : Explicitness

-- The type of the second parameter, as far as the analysis looks at it.
pub data SourceType : Type 0 where
  lvalue_reference : (is_mut is_volatile : Bool) → SourceType
  rvalue_reference : (is_mut : Bool) → SourceType
  by_value : SourceType

unfoldable pub assignment_operator_kind : SourceType → ExplicitKind
assignment_operator_kind (rvalue_reference _) = ExplicitKind.move_assignment_operator
assignment_operator_kind (lvalue_reference true _) = ExplicitKind.non_const_copy_assignment_operator
assignment_operator_kind _ = ExplicitKind.const_copy_assignment_operator

unfoldable pub source_is_const_rvalue_reference : SourceType → Bool
source_is_const_rvalue_reference (rvalue_reference is_mut) = not is_mut
source_is_const_rvalue_reference _ = false

unfoldable pub source_is_const_volatile_reference : SourceType → Bool
source_is_const_volatile_reference (lvalue_reference is_mut is_volatile) = not is_mut && is_volatile
source_is_const_volatile_reference _ = false

pub record FuncToConvert : Type 0 where
  pub special_member : Option SpecialMemberKind
  pub is_deleted : Option Explicitness
  pub cpp_vis : CppVisibility
  pub source : SourceType

pub data ReceiverMutability : Type 0 where
  const mutable : ReceiverMutability

pub data MethodKind : Type 0 where
  normal static : MethodKind
  constructor : (is_default : Bool) → MethodKind
  virtual pure_virtual : ReceiverMutability → MethodKind

pub data TraitMethodKind : Type 0 where
  copy_constructor move_constructor cast destructor alloc dealloc : TraitMethodKind

pub data PreFnKind : Type 0 where
  function : PreFnKind
  method : (impl_for : QualifiedName) (kind : MethodKind) → PreFnKind
  trait_method : (impl_for : QualifiedName) (kind : TraitMethodKind) → PreFnKind

-- `Result<(), ConvertErrorWithContext>`
pub data IgnoreReason : Type 0 where
  accepted : IgnoreReason
  ignored : (err : ConvertErrorFromCpp) (ctx : Option ErrorContext) → IgnoreReason

pub record PreFnAnalysis : Type 0 where
  pub kind : PreFnKind
  pub rust_name : Text
  pub ignore_reason : IgnoreReason

-- An API before the function analysis, as far as this analysis tells them apart.
pub data PreApi : Type 0 where
  struct : StructInfo → PreApi
  enum concrete_type : (name : ApiName) → PreApi
  typedef : (name : ApiName) (target : Option QualifiedName) → PreApi
  function : (name : ApiName) (fun : FuncToConvert) (analysis : PreFnAnalysis) → PreApi
  other : (name : ApiName) → PreApi

abbrev pub first_found : FuncToConvert → ExplicitFound
first_found fun = elim (fun.is_deleted) [
  | some deleted ↦ ExplicitFound.deleted
  | some defaulted ↦ ExplicitFound.defaulted fun.cpp_vis
  | none ↦ user_defined fun.cpp_vis
]

unfoldable pub merge_fun : QualifiedName → ExplicitKind → FuncToConvert → Explicits → Explicits
merge_fun ty kind fun result = elim (lookup (record { ty = ty; kind = kind }) result) [
  | none ↦ insert (record { ty = ty; kind = kind }) (first_found fun) result
  | some _ ↦ insert (record { ty = ty; kind = kind }) multiple result
]

abbrev is_special : SpecialMemberKind → Option SpecialMemberKind → Bool
is_special SpecialMemberKind.assignment_operator (some SpecialMemberKind.assignment_operator) = true
is_special SpecialMemberKind.copy_constructor (some SpecialMemberKind.copy_constructor) = true
is_special _ _ = false

abbrev pub is_assignment : FuncToConvert → Bool
is_assignment fun = is_special SpecialMemberKind.assignment_operator fun.special_member

abbrev pub is_copy_constructor : FuncToConvert → Bool
is_copy_constructor fun = is_special SpecialMemberKind.copy_constructor fun.special_member

-- `Ok(())`, or ignored for being an assignment operator.
abbrev pub assignment_understood : IgnoreReason → Bool
assignment_understood accepted = true
assignment_understood (ignored ConvertErrorFromCpp.assignment_operator _) = true
assignment_understood (ignored _ _) = false

-- Which kind of member a function declares, for which class; `none` for one that is no special
-- member, or an assignment operator that is not understood.
abbrev method_declares : FuncToConvert → MethodKind → Option ExplicitKind
method_declares fun (constructor true) = some ExplicitKind.default_constructor
method_declares fun (constructor false) =
    if is_copy_constructor fun
    then some ExplicitKind.non_const_copy_constructor
    else some ExplicitKind.other_constructor
method_declares fun _ = none

abbrev trait_method_declares : TraitMethodKind → Option ExplicitKind
trait_method_declares destructor = some ExplicitKind.destructor
trait_method_declares copy_constructor = some ExplicitKind.const_copy_constructor
trait_method_declares move_constructor = some ExplicitKind.move_constructor
trait_method_declares _ = none

abbrev tag : QualifiedName → Option ExplicitKind → Option ExplicitType
tag ty none = none
tag ty (some kind) = some (record { ty = ty; kind = kind })

unfoldable pub declared_by : FuncToConvert → IgnoreReason → PreFnKind → Option ExplicitType
unfolding assignment_operator_kind
declared_by fun reason (method impl_for kind) =
    if is_assignment fun
    then if assignment_understood reason
      then some (record { ty = impl_for; kind = assignment_operator_kind fun.source })
      else none
    else tag impl_for (method_declares fun kind)
declared_by fun reason (trait_method impl_for kind) = tag impl_for (trait_method_declares kind)
declared_by fun reason PreFnKind.function = none

-- The classes for which a function adds to one of the three sets.
unfoldable pub unknown_by :
    FuncToConvert → IgnoreReason → PreFnKind → List QualifiedName → List QualifiedName
unknown_by fun reason (method impl_for _) l =
    if is_assignment fun && not (assignment_understood reason) then set_insert impl_for l else l
unknown_by fun reason _ l = l

const_move_by : FuncToConvert → PreFnKind → List QualifiedName → List QualifiedName
const_move_by fun (trait_method impl_for move_constructor) l =
    if source_is_const_rvalue_reference fun.source then set_insert impl_for l else l
const_move_by fun _ l = l

const_volatile_by : FuncToConvert → PreFnKind → List QualifiedName → List QualifiedName
const_volatile_by fun (trait_method impl_for copy_constructor) l =
    if source_is_const_volatile_reference fun.source then set_insert impl_for l else l
const_volatile_by fun _ l = l

abbrev pub merge_declared : FuncToConvert → Option ExplicitType → Explicits → Explicits
merge_declared fun none result = result
merge_declared fun (some t) result = merge_fun t.ty t.kind fun result

unfoldable pub note_explicit : ExplicitItems → PreApi → ExplicitItems
unfolding merge_fun declared_by unknown_by const_move_by const_volatile_by
note_explicit e (function _ fun analysis) = record {
  explicits = merge_declared fun (declared_by fun analysis.ignore_reason analysis.kind) e.explicits;
  unknown_types = unknown_by fun analysis.ignore_reason analysis.kind e.unknown_types;
  const_move_constructors = const_move_by fun analysis.kind e.const_move_constructors;
  const_volatile_copy_constructors =
      const_volatile_by fun analysis.kind e.const_volatile_copy_constructors;
}
note_explicit e _ = e

unfoldable pub find_explicit_items_in : ExplicitItems → List PreApi → ExplicitItems
unfolding note_explicit
find_explicit_items_in e [] = e
find_explicit_items_in e (api ∷ apis) = find_explicit_items_in (note_explicit e api) apis

unfoldable pub find_explicit_items : List PreApi → ExplicitItems
unfolding find_explicit_items_in
find_explicit_items apis =
    find_explicit_items_in
      (record {
        explicits = [];
        unknown_types = [];
        const_move_constructors = [];
        const_volatile_copy_constructors = [];
      })
      apis

abbrev pub is_defaulted_fn : FuncToConvert → Bool
is_defaulted_fn fun = elim (fun.is_deleted) [ some defaulted ↦ true | _ ↦ false ]

abbrev pub is_accepted : IgnoreReason → Bool
is_accepted accepted = true
is_accepted (ignored _ _) = false

abbrev pub is_not_present : Option SpecialMemberFound → Bool
is_not_present (some not_present) = true
is_not_present _ = false

abbrev found_in : (ItemsFound → SpecialMemberFound) → Option ItemsFound → Option SpecialMemberFound
found_in f none = none
found_in f (some i) = some (f i)

-- What the analysis found of the member that a function is.
unfoldable pub found_member : AllItems → FuncToConvert → PreFnKind → Option SpecialMemberFound
found_member all_items fun (method impl_for (constructor true)) =
    found_in (λ i. i.default_constructor) (lookup impl_for all_items)
found_member all_items fun (method impl_for (constructor false)) =
    if is_copy_constructor fun
    then found_in (λ i. i.non_const_copy_constructor) (lookup impl_for all_items)
    else none
found_member all_items fun (trait_method impl_for destructor) =
    found_in (λ i. i.destructor) (lookup impl_for all_items)
found_member all_items fun (trait_method impl_for copy_constructor) =
    found_in (λ i. i.const_copy_constructor) (lookup impl_for all_items)
found_member all_items fun (trait_method impl_for move_constructor) =
    found_in (λ i. i.move_constructor) (lookup impl_for all_items)
found_member all_items fun _ = none

-- `built_in` is `known_types().conflicts_with_built_in_type`.
module _ (built_in : QualifiedName → Bool) where
  unfoldable pub member_context : PreFnAnalysis → PreFnKind → Option ErrorContext
  member_context analysis (method impl_for (constructor _)) =
      some (new_for_method built_in impl_for.item analysis.rust_name)
  member_context analysis _ = none

  -- The closure of `discard_deleted_defaulted_members`.
  unfoldable pub discard_if_deleted : AllItems → PreApi → PreApi
  unfolding found_member member_context
  discard_if_deleted all_items (function name fun analysis) =
      if is_defaulted_fn fun
        && (is_accepted analysis.ignore_reason
            && is_not_present (found_member all_items fun analysis.kind))
      then function name fun (record analysis {
        ignore_reason = ignored defaulted_but_deleted (member_context analysis analysis.kind);
      })
      else function name fun analysis
  discard_if_deleted all_items api = api
