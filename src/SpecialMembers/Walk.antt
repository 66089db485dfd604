-- ===== src/SpecialMembers/Walk.antt =====
-- `find_constructors_present` of implicit_constructors.rs: all classes, in depth-first order. With
-- `typedef_targets` and `resolve_typedefs` of tdef.rs.
use autocxx.Prelude.{
  ℕ, zero, suc, Bool, false, ◌&&◌, not, List, [], ◌∷◌, ◌++◌, Option, none, some, contains, length,
  lookup, insert, if◌then◌else◌, nat_beq,
}
use autocxx.Names.{QualifiedName, name_eq}
use autocxx.Api.{ApiName}
use autocxx.DepthFirst.{HasFieldsAndBases, all_done, circular, unfinished, drain}
use autocxx.SpecialMembers.Found.{not_present, implicit}
use autocxx.SpecialMembers.Data.{ItemsFound, StructInfo, KnownTypes, WhyNoConstructors_default}
use autocxx.SpecialMembers.Fields.{
  AllItems, get_items_found, bases_items_found, fields_items_found, unknown_dependencies,
}
use autocxx.SpecialMembers.Structs.{ExplicitItems, struct_items}
use autocxx.SpecialMembers.Explicits.{
  PreApi, struct, enum, concrete_type, typedef, other, find_explicit_items,
}

unfoldable pub pre_name : PreApi → QualifiedName
pre_name (struct s) = s.name.name
pre_name (enum n) = n.name
pre_name (concrete_type n) = n.name
pre_name (typedef n _) = n.name
pre_name (PreApi.function n _ _) = n.name
pre_name (other n) = n.name

unfoldable pub pre_deps : PreApi → List QualifiedName
pre_deps (struct s) = s.field_definition_deps ++ s.bases
pre_deps _ = []

-- `HasFieldsAndBases for Api<FnPrePhase1>`
abbrev pub pre_apis : HasFieldsAndBases
pre_apis = record { Item = PreApi; name = pre_name; field_and_base_deps = pre_deps }

abbrev pub Targets : Type 0
Targets = List (QualifiedName × QualifiedName)

unfoldable pub typedef_targets : Targets → List PreApi → Targets
typedef_targets targets [] = targets
typedef_targets targets (typedef n (some target) ∷ apis) =
    typedef_targets (insert n.name target targets) apis
typedef_targets targets (_ ∷ apis) = typedef_targets targets apis

-- The loop over `0..targets.len()`.
unfoldable pub resolve_steps : ℕ → Targets → QualifiedName → QualifiedName
resolve_steps zero targets name = name
resolve_steps (suc n) targets name = elim (lookup name targets) [
  | some target ↦ resolve_steps n targets target
  | none ↦ name
]

unfoldable pub resolve_typedefs : Targets → QualifiedName → QualifiedName
unfolding resolve_steps
resolve_typedefs targets name = resolve_steps (length targets) targets name

unfoldable pub enum_names : List PreApi → List QualifiedName
enum_names [] = []
enum_names (enum n ∷ apis) = n.name ∷ enum_names apis
enum_names (_ ∷ apis) = enum_names apis

-- What is known before the first class is looked at.
pub record Context : Type 0 where
  pub explicit_items : ExplicitItems
  pub enums : List QualifiedName
  pub targets : Targets

-- A class that is analysed: no template, and not in an anonymous namespace.
unfoldable pub is_analysed : StructInfo → Bool
is_analysed s = nat_beq s.num_generics 0 && not s.in_anonymous_namespace

-- A concrete template instantiation that Rust may own.
unfoldable pub concrete_items : ApiName → ItemsFound
concrete_items n = record {
  default_constructor = implicit;
  destructor = implicit;
  const_copy_constructor = not_present;
  non_const_copy_constructor = not_present;
  move_constructor = not_present;
  const_move_constructor = none;
  destructor_is_trivial = false;
  name = some n;
  why_no_constructors = WhyNoConstructors_default;
}

unfoldable pub add_concretes : List QualifiedName → AllItems → List PreApi → AllItems
unfolding concrete_items
add_concretes instantiable all [] = all
add_concretes instantiable all (concrete_type n ∷ apis) =
    add_concretes instantiable
      (if contains instantiable n.name then insert n.name (concrete_items n) all else all) apis
add_concretes instantiable all (_ ∷ apis) = add_concretes instantiable all apis

module _ (k : KnownTypes) where
  module _ (c : Context) where
    -- The answer for one class, from the answers so far.
    unfoldable pub items_of : AllItems → StructInfo → ItemsFound
    unfolding get_items_found bases_items_found fields_items_found unknown_dependencies struct_items
        resolve_typedefs
    items_of all s =
        let get = get_items_found k c.enums s.name all in
        let get_base = λ (qn : QualifiedName). get (resolve_typedefs c.targets qn) in
        struct_items c.explicit_items s (bases_items_found k get_base s.bases)
          (fields_items_found k c.enums c.explicit_items.const_volatile_copy_constructors get s.name
            s.field_info)
          (unknown_dependencies k get_base get s.bases s.field_info)

    -- `none` is the panic on a duplicate struct.
    unfoldable pub visit_api : AllItems → PreApi → Option AllItems
    unfolding is_analysed items_of
    visit_api all (struct s) =
        if is_analysed s
        then elim (lookup s.name.name all) [
          | some _ ↦ none
          | none ↦ some (insert s.name.name (items_of all s) all)
        ]
        else some all
    visit_api all _ = some all

    unfoldable pub visit_all : AllItems → List PreApi → Option AllItems
    unfolding visit_api
    visit_all all [] = some all
    visit_all all (api ∷ apis) = elim (visit_api all api) [
      | none ↦ none
      | some all' ↦ visit_all all' apis
    ]

  -- `none` is a panic: a circular dependency, or a duplicate struct.
  unfoldable pub find_constructors_present : List PreApi → List QualifiedName → Option AllItems
  unfolding visit_all add_concretes find_explicit_items enum_names typedef_targets
  find_constructors_present apis instantiable =
      let c : Context = record {
        explicit_items = find_explicit_items apis;
        enums = enum_names apis;
        targets = typedef_targets [] apis;
      } in
      elim (drain pre_apis apis) [
        | all_done ordered ↦ elim (visit_all c [] ordered) [
          | none ↦ none
          | some all ↦ some (add_concretes instantiable all apis)
        ]
        | circular ↦ none
        | unfinished ↦ none
      ]
