-- ===== src/Api/Deps.antt =====
-- `HasDependencies for Api<FnPhase>` of deps.rs, and `name_for_allowlist` of fun/mod.rs.
use autocxx.Prelude.{List, [], ◌∷◌, ◌++◌, Option, none, some, Text}
use autocxx.Names.{QualifiedName}
use autocxx.Api.Errors.{ErrorContext}
use autocxx.Api.Data.{
  Api, ApiName, FnKind, PodAndDepAnalysis, TypeKind, concrete_type, static, typedef, struct,
  ignored_item, rust_fn, rust_subclass_fn, subclass, api_name,
}

abbrev pub option_iter {ℓ} : {A : Type ℓ} → Option A → List A
option_iter none = []
option_iter (some a) = a ∷ []

struct_deps : TypeKind → PodAndDepAnalysis → List QualifiedName
struct_deps TypeKind.pod a = a.field_deps ++ (a.bases ++ a.constructor_and_allocator_deps)
struct_deps _ a = a.constructor_and_allocator_deps

abbrev surface_deps : Option (List QualifiedName) → List QualifiedName
surface_deps none = []
surface_deps (some deps) = deps

unfoldable pub api_deps : Api → List QualifiedName
unfolding struct_deps
api_deps (typedef _ old_tyname deps) = option_iter old_tyname ++ deps
api_deps (struct _ analysis) = struct_deps analysis.kind analysis
api_deps (Api.function _ _ analysis) = analysis.deps
api_deps (subclass _ superclass) = superclass ∷ []
api_deps (rust_subclass_fn _ _ dependencies) = dependencies
api_deps (rust_fn _ deps) = deps
api_deps (static _ cpp_ty) = option_iter cpp_ty
api_deps (concrete_type _ surface deps) = surface_deps surface ++ deps
api_deps _ = []

abbrev in_namespace_of : ApiName → Text → QualifiedName
in_namespace_of n id = record { namespace = n.name.namespace; item = id }

fn_name_for_allowlist : FnKind → ApiName → Text → QualifiedName
fn_name_for_allowlist (FnKind.method impl_for) n ident = impl_for
fn_name_for_allowlist (FnKind.trait_method impl_for) n ident = impl_for
fn_name_for_allowlist FnKind.function n ident = in_namespace_of n ident

ctx_name_for_allowlist : ErrorContext → ApiName → QualifiedName
ctx_name_for_allowlist (ErrorContext.method self_ty _) n = in_namespace_of n self_ty
ctx_name_for_allowlist (ErrorContext.item id) n = in_namespace_of n id
ctx_name_for_allowlist (ErrorContext.sanitized_item lookup _) n = in_namespace_of n lookup

unfoldable pub name_for_allowlist : Api → QualifiedName
unfolding api_name fn_name_for_allowlist ctx_name_for_allowlist
name_for_allowlist (Api.function n ident analysis) = fn_name_for_allowlist analysis.kind n ident
name_for_allowlist (rust_subclass_fn _ s _) = s.name.name
name_for_allowlist (ignored_item n _ (some ctx)) = ctx_name_for_allowlist ctx n
name_for_allowlist api = api_name api
