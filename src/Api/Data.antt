-- ===== src/Api/Data.antt =====
-- `Api`, its names and its analyses.
use autocxx.Prelude.{List, [], ◌∷◌, ◌++◌, Text, codes, Option, none, Bool, true, false}
use autocxx.Names.{QualifiedName}
use autocxx.Api.Errors.{ConvertErrorFromCpp, ErrorContext}

pub record ApiName : Type 0 where
  pub name : QualifiedName
  pub cpp_name : Option Text

unfoldable pub new_from_qualified_name : QualifiedName → ApiName
new_from_qualified_name name = record { name = name; cpp_name = none }

pub data TypeKind : Type 0 where
  pod non_pod opaque abstract : TypeKind

pub data FnKind : Type 0 where
  function : FnKind
  method : (impl_for : QualifiedName) → FnKind
  trait_method : (impl_for : QualifiedName) → FnKind

pub record FnAnalysis : Type 0 where
  pub cxxbridge_name : Text
  pub rust_name : Text
  pub kind : FnKind
  pub deps : List QualifiedName

pub record PodAndDepAnalysis : Type 0 where
  pub kind : TypeKind
  pub bases : List QualifiedName
  pub field_deps : List QualifiedName
  pub constructor_and_allocator_deps : List QualifiedName

-- A Rust subclass goes by the name that the user gave.
pub record SubclassName : Type 0 where
  pub name : ApiName

with_suffix : SubclassName → Text → Text
with_suffix s suffix = s.name.name.item ++ suffix

unfoldable pub holder : SubclassName → Text
unfolding with_suffix
holder s = with_suffix s (codes "Holder")

unfoldable pub cpp : SubclassName → QualifiedName
unfolding with_suffix
cpp s = record { namespace = s.name.name.namespace; item = with_suffix s (codes "Cpp") }

pub data Api : Type 0 where
  forward_declaration : (name : ApiName) → Api
  opaque_typedef : (name : ApiName) → Api
  concrete_type :
      (name : ApiName) (holder_surface : Option (List QualifiedName))
      (constructor_and_allocator_deps : List QualifiedName)
      → Api
  string_constructor : (name : ApiName) → Api
  function : (name : ApiName) (ident : Text) (analysis : FnAnalysis) → Api
  const : (name : ApiName) → Api
  static : (name : ApiName) (cpp_ty : Option QualifiedName) → Api
  typedef : (name : ApiName) (old_tyname : Option QualifiedName) (deps : List QualifiedName) → Api
  enum : (name : ApiName) → Api
  struct : (name : ApiName) (analysis : PodAndDepAnalysis) → Api
  ctype : (name : ApiName) (typename : QualifiedName) → Api
  ignored_item : (name : ApiName) (err : ConvertErrorFromCpp) (ctx : Option ErrorContext) → Api
  rust_type : (name : ApiName) → Api
  rust_fn : (name : ApiName) (deps : List QualifiedName) → Api
  rust_subclass_fn :
      (name : ApiName) (subclass : SubclassName) (dependencies : List QualifiedName) → Api
  subclass : (name : SubclassName) (superclass : QualifiedName) → Api
  subclass_trait_item : (name : ApiName) → Api
  extern_cpp_type : (name : ApiName) (pod : Bool) → Api

unfoldable pub name_info : Api → ApiName
name_info (forward_declaration n) = n
name_info (opaque_typedef n) = n
name_info (concrete_type n _ _) = n
name_info (string_constructor n) = n
name_info (function n _ _) = n
name_info (const n) = n
name_info (static n _) = n
name_info (typedef n _ _) = n
name_info (enum n) = n
name_info (struct n _) = n
name_info (ctype n _) = n
name_info (ignored_item n _ _) = n
name_info (rust_type n) = n
name_info (rust_fn n _) = n
name_info (rust_subclass_fn n _ _) = n
name_info (subclass n _) = n.name
name_info (subclass_trait_item n) = n
name_info (extern_cpp_type n _) = n

unfoldable pub api_name : Api → QualifiedName
unfolding name_info
api_name api = (name_info api).name

unfoldable pub discard_duplicates : Api → Bool
discard_duplicates (ignored_item _ _ _) = true
discard_duplicates (static _ _) = true
discard_duplicates _ = false

unfoldable pub valid_types : Api → List QualifiedName
unfolding api_name holder cpp
valid_types (subclass n superclass) =
    n.name.name ∷ record { namespace = []; item = holder n } ∷ cpp n ∷ []
valid_types api = api_name api ∷ []
