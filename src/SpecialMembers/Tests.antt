-- ===== src/SpecialMembers/Tests.antt =====
-- Small classes for implicit_constructors.rs, and the witnesses.
use autocxx.Prelude.{
  ℕ, ◌≡◌, ◌≢◌, ◌↔◌, refl, Bool, true, false, List, [], ◌∷◌, ◌++◌, Option, none, some, map, lookup,
  Memᴰ, Distinct, Distinct-of_test, all, all_holds, ltb, ltb→lt, contains, contains_iff, All, Text,
  codes, ◌==◌, if◌then◌else◌,
}
use autocxx.Names.{QualifiedName, name_eq}
use autocxx.Api.{ApiName, TypeKind}
use autocxx.Api.Errors.{defaulted_but_deleted}
use autocxx.DepthFirst.{drain, next, next_from}
use autocxx.DepthFirst.Complete.{Ranked}
use autocxx.SpecialMembers.Found.{
  SpecialMemberFound, not_present, implicit, public, callable_any, callable_subclass, ExplicitFound,
  WhyNoSpecialMember,
}
use autocxx.SpecialMembers.Data.{
  ItemsFound, ExplicitKind, ExplicitType, explicit_type_eq, FieldInfo, regular, StructInfo,
  KnownTypes, WhyNoConstructors_default, kind_beq,
}
use autocxx.SpecialMembers.Rules.{
  default_constructor_rule, copy_constructor_rule, move_constructor_rule, destructor_rule,
  trivial_destructor_rule,
}
use autocxx.SpecialMembers.Fields.{AllItems}
use autocxx.SpecialMembers.Structs.{struct_items}
use autocxx.SpecialMembers.Explicits.{
  Explicitness, deleted, defaulted, FuncToConvert, by_value, lvalue_reference, trait_method,
  TraitMethodKind, PreFnAnalysis, PreApi, struct, accepted, find_explicit_items, declared_by,
  ignored, member_context, discard_if_deleted,
}
use autocxx.SpecialMembers.Walk.{
  pre_name, pre_deps, pre_apis, is_analysed, items_of, add_concretes, find_constructors_present,
}
use autocxx.SpecialMembers.Agree.{asked}
use autocxx.SpecialMembers.Consistent.{context_of, AsksDeps, find_constructors_present-consistent}
use autocxx.SpecialMembers.Declared.{declarations, together, find_explicit_items-declarations}
use autocxx.SpecialMembers.Discarded.{IsDeleted, discard_if_deleted-IsDeleted}
use autocxx.SpecialMembers.Implicit.{
  Undeclared, DefaultOfBase, DefaultOfField, MoveOfBase, Copyable, CopiesFromConst,
  default_constructor_rule-implicit, copy_constructor_rule-implicit, move_constructor_rule-implicit,
  destructor_rule-implicit,
}
use autocxx.SpecialMembers.Reasons.{ReasonsAreSound, struct_items-ReasonsAreSound}

abbrev name : Text → QualifiedName
name item = record { namespace = []; item = item }

abbrev info : Text → ApiName
info item = record { name = name item; cpp_name = none }

abbrev holding : Text → FieldInfo
holding item = record {
  name = some (codes "f");
  type_name = some (name item);
  type_kind = regular;
  is_const = false;
  is_volatile = false;
  holds_std_array = false;
  has_default_initializer = false;
}

abbrev class :
    Text → (bases : List QualifiedName) → (deps : List QualifiedName) → List FieldInfo → StructInfo
class item bases deps fields = record {
  name = info item;
  kind = TypeKind.non_pod;
  bases = bases;
  has_unnamed_base = false;
  field_definition_deps = deps;
  field_info = fields;
  bitfields = [];
  num_generics = 0;
  in_anonymous_namespace = false;
  has_rvalue_reference_fields = false;
}

-- `struct Inner { Inner(const Inner &) = delete; };`, and `struct Outer { Inner f; };`
abbrev inner : StructInfo
inner = class (codes "Inner") [] [] []

abbrev outer : StructInfo
outer = class (codes "Outer") [] (name (codes "Inner") ∷ []) (holding (codes "Inner") ∷ [])

abbrev copy_of : Text → Option Explicitness → PreApi
copy_of item is_deleted =
    PreApi.function (info (codes "copy"))
      (record {
        special_member = none;
        is_deleted = is_deleted;
        cpp_vis = public;
        source = lvalue_reference false false;
      })
      (record {
        kind = trait_method (name item) TraitMethodKind.copy_constructor;
        rust_name = codes "copy";
        ignore_reason = accepted;
      })

abbrev classes : List PreApi
classes = struct outer ∷ struct inner ∷ copy_of (codes "Inner") (some deleted) ∷ []

abbrev known : KnownTypes
known = record {
  special_cpp_name = λ _. none;
  get_constructor_details = λ _. none;
  copyable_from_volatile = λ _. false;
}

abbrev copy_of_outer : Option AllItems → Option SpecialMemberFound
copy_of_outer none = none
copy_of_outer (some all) = elim (lookup (name (codes "Outer")) all) [
  | none ↦ none
  | some i ↦ some i.const_copy_constructor
]

outer_has_no_copy : copy_of_outer (find_constructors_present known classes []) ≡ some not_present
unfolding find_constructors_present drain next next_from pre_deps pre_name kind_beq
outer_has_no_copy = refl

abbrev rank : QualifiedName → ℕ
rank n = if n == name (codes "Outer") then 1 else 0

classes-Distinct : Distinct (map pre_name classes)
unfolding pre_name
classes-Distinct = Distinct-of_test (map pre_name classes) refl

classes-Ranked : Ranked pre_apis rank classes
unfolding pre_deps pre_name
classes-Ranked x m d dep listed = ltb→lt (rank d) (rank (pre_name x)) (
    all_holds (λ n. ltb (rank n) (rank (pre_name x))) (pre_deps x)
      (all_holds (λ api. all (λ n. ltb (rank n) (rank (pre_name api))) (pre_deps api)) classes refl
        x m)
      d dep)

abbrev asks_deps : PreApi → Bool
asks_deps (struct s) = all (contains (pre_deps (struct s))) (asked known (context_of classes) s)
asks_deps _ = true

classes-AsksDeps : AsksDeps known (context_of classes) (map pre_name classes) classes
unfolding pre_deps pre_name
classes-AsksDeps s m q asks listed = (contains_iff (pre_deps (struct s)) q).0 (
    all_holds (contains (pre_deps (struct s))) (asked known (context_of classes) s)
      (all_holds asks_deps classes refl (struct s) m) q asks)

find_constructors_present-consistent_example :
    (all : AllItems) × (find_constructors_present known classes []
      ≡ some (add_concretes [] all classes))
    × ((s : StructInfo)
        → Memᴰ (struct s) classes
        → is_analysed s ≡ true
        → lookup s.name.name all ≡ some (items_of known (context_of classes) all s))
    × ((q : QualifiedName)
        → lookup q all ≢ none
        → (s : StructInfo) × Memᴰ (struct s) classes × (is_analysed s ≡ true) × (s.name.name ≡ q))
find_constructors_present-consistent_example =
    find_constructors_present-consistent known rank classes [] classes-Distinct classes-Ranked
      classes-AsksDeps

-- A second declaration hides what the first one was.
abbrev copies : List PreApi
copies = copy_of (codes "Inner") (some deleted) ∷ copy_of (codes "Inner") none ∷ []

abbrev copy_of_inner : ExplicitType
copy_of_inner = record { ty = name (codes "Inner"); kind = ExplicitKind.const_copy_constructor }

find_explicit_items-declarations_example :
    lookup copy_of_inner (find_explicit_items copies).explicits
    ≡ together none (declarations copy_of_inner copies)
find_explicit_items-declarations_example = find_explicit_items-declarations copies copy_of_inner

copies_are_multiple :
    together none (declarations copy_of_inner copies) ≡ some ExplicitFound.multiple
unfolding declared_by kind_beq
copies_are_multiple = refl

abbrev nothing_present : ItemsFound
nothing_present = record {
  default_constructor = not_present;
  destructor = not_present;
  const_copy_constructor = not_present;
  non_const_copy_constructor = not_present;
  move_constructor = not_present;
  const_move_constructor = none;
  destructor_is_trivial = false;
  name = none;
  why_no_constructors = WhyNoConstructors_default;
}

abbrev defaulted_copy : FuncToConvert
defaulted_copy = record {
  special_member = none;
  is_deleted = some defaulted;
  cpp_vis = public;
  source = by_value;
}

abbrev copy_analysis : PreFnAnalysis
copy_analysis = record {
  kind = trait_method (name (codes "Inner")) TraitMethodKind.copy_constructor;
  rust_name = codes "copy";
  ignore_reason = accepted;
}

abbrev all_of_inner : AllItems
all_of_inner = (name (codes "Inner"), nothing_present) ∷ []

discard_if_deleted-IsDeleted_example :
    (IsDeleted all_of_inner defaulted_copy copy_analysis
      → discard_if_deleted
          (λ _. false)
          all_of_inner
          (PreApi.function (info (codes "copy")) defaulted_copy copy_analysis)
        ≡ PreApi.function (info (codes "copy")) defaulted_copy (record copy_analysis {
          ignore_reason =
              ignored defaulted_but_deleted
                (member_context (λ _. false) copy_analysis copy_analysis.kind);
        }))
    × ((¬ IsDeleted all_of_inner defaulted_copy copy_analysis)
        → discard_if_deleted
            (λ _. false)
            all_of_inner
            (PreApi.function (info (codes "copy")) defaulted_copy copy_analysis)
          ≡ PreApi.function (info (codes "copy")) defaulted_copy copy_analysis)
discard_if_deleted-IsDeleted_example =
    discard_if_deleted-IsDeleted (λ _. false) all_of_inner (info (codes "copy")) defaulted_copy
      copy_analysis refl

struct_items-ReasonsAreSound_example : ReasonsAreSound (
    struct_items
      (find_explicit_items classes)
      outer
      []
      ((codes "field `f`", nothing_present) ∷ [])
      [])
struct_items-ReasonsAreSound_example =
    struct_items-ReasonsAreSound (find_explicit_items classes) outer []
      ((codes "field `f`", nothing_present) ∷ []) []

abbrev undeclared : ExplicitKind → Option ExplicitFound
undeclared _ = none

-- A field of a class that has no special member, and one of a class that has them all.
abbrev bare_field : List (Text × ItemsFound)
bare_field = (codes "field `f`", nothing_present) ∷ []

abbrev full_field : List (Text × ItemsFound)
full_field =
    (
      codes "field `g`",
      record nothing_present {
        default_constructor = implicit;
        destructor = implicit;
        const_copy_constructor = implicit;
        move_constructor = implicit;
      },
    )
    ∷ []

abbrev no_reason : Option WhyNoSpecialMember
no_reason = none

default_constructor_rule-implicit_example :
    ((default_constructor_rule undeclared full_field full_field false no_reason no_reason).0
      ≡ implicit)
    ↔ (Undeclared undeclared (
          ExplicitKind.default_constructor ∷ ExplicitKind.const_copy_constructor
          ∷ ExplicitKind.non_const_copy_constructor ∷ ExplicitKind.move_constructor
          ∷ ExplicitKind.other_constructor ∷ [])
        × (false ≡ false)
        × (no_reason ≡ none)
        × (no_reason ≡ none)
        × All (λ d. DefaultOfBase (d.1)) full_field
        × All (λ d. DefaultOfField (d.1)) full_field)
default_constructor_rule-implicit_example =
    default_constructor_rule-implicit undeclared full_field full_field false no_reason no_reason

copy_constructor_rule-implicit_example :
    (((copy_constructor_rule undeclared full_field full_field false).from_const ≡ implicit) ↔ (
      Copyable undeclared full_field full_field false
      × CopiesFromConst undeclared full_field full_field))
    × (((copy_constructor_rule undeclared full_field full_field false).from_non_const ≡ implicit)
        ↔ (Copyable undeclared full_field full_field false
            × (¬ CopiesFromConst undeclared full_field full_field)))
copy_constructor_rule-implicit_example =
    copy_constructor_rule-implicit undeclared full_field full_field false

move_constructor_rule-implicit_example :
    ((move_constructor_rule undeclared full_field bare_field).0 ≡ implicit) ↔ (
      Undeclared undeclared (
        ExplicitKind.move_constructor ∷ ExplicitKind.const_copy_constructor
        ∷ ExplicitKind.non_const_copy_constructor ∷ ExplicitKind.const_copy_assignment_operator
        ∷ ExplicitKind.non_const_copy_assignment_operator ∷ ExplicitKind.move_assignment_operator
        ∷ ExplicitKind.destructor ∷ [])
      × All (λ d. MoveOfBase (d.1)) full_field
      × All (λ d. callable_any (d.1).move_constructor ≡ true) bare_field)
move_constructor_rule-implicit_example =
    move_constructor_rule-implicit undeclared full_field bare_field

destructor_rule-implicit_example :
    ((destructor_rule undeclared full_field bare_field ≡ implicit) ↔ (
      (undeclared ExplicitKind.destructor ≡ none)
      × All (λ d. callable_subclass (d.1).destructor ≡ true) full_field
      × All (λ d. callable_any (d.1).destructor ≡ true) bare_field))
    × ((trivial_destructor_rule undeclared full_field bare_field ≡ true) ↔ (
        (undeclared ExplicitKind.destructor ≡ none)
        × All (λ d. callable_subclass (d.1).destructor ≡ true) full_field
        × All (λ d. callable_any (d.1).destructor ≡ true) bare_field
        × All (λ d. (d.1).destructor_is_trivial ≡ true) (full_field ++ bare_field)))
destructor_rule-implicit_example = destructor_rule-implicit undeclared full_field bare_field
