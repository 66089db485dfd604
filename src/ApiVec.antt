-- ===== src/ApiVec.antt =====
-- engine/src/conversion/apivec.rs: the list of APIs, with the set of their names.
pub mod Names
mod Stubs
pub mod Push
pub mod Collect
pub mod Tests
use autocxx.Prelude.{
  ℕ, zero, suc, ◌+◌, ◌≡◌, Bool, true, false, ◌&&◌, ◌||◌, not, List, [], ◌∷◌, ◌++◌, Option, none,
  some, map, any, filter, contains, set_insert, set_remove, to_set, length, Text, codes, decimal,
  if◌then◌else◌, ◌==◌,
}
use autocxx.Names.{QualifiedName, name_eq}
use autocxx.Api.{
  Api, ApiName, struct, enum, forward_declaration, ignored_item, api_name, discard_duplicates,
  new_from_qualified_name,
}
use autocxx.Api.Errors.{
  ConvertErrorFromCpp, function_hidden_by_type, duplicate_items_found_in_parsing, ErrorContext,
  sanitized_item, new_for_item, new_for_displaced_item,
}

abbrev displaced_suffix : Text
displaced_suffix = codes "_autocxx_hidden"

pub is_unshadowable_type : Api → Bool
is_unshadowable_type (struct _ _) = true
is_unshadowable_type (enum _) = true
is_unshadowable_type (forward_declaration _) = true
is_unshadowable_type _ = false

pub is_function : Api → Bool
is_function (Api.function _ _ _) = true
is_function _ = false

is_hidden_error : ConvertErrorFromCpp → Bool
is_hidden_error function_hidden_by_type = true
is_hidden_error _ = false

pub is_displaced_function : Api → Bool
unfolding is_hidden_error
is_displaced_function (ignored_item _ err _) = is_hidden_error err
is_displaced_function _ = false

-- `none` is a panic: no such stub.
displaced_name_in : Option ErrorContext → Option Text
displaced_name_in (some (sanitized_item lookup _)) = some lookup
displaced_name_in _ = none

pub displaced_function_name : Api → Option Text
unfolding displaced_name_in
displaced_function_name (ignored_item _ _ ctx) = displaced_name_in ctx
displaced_function_name _ = none

pub record ApiVec : Type 0 where
  pub apis : List Api
  pub names : List QualifiedName

abbrev pub ApiVec_new : ApiVec
ApiVec_new = record { apis = []; names = [] }

pub insert_api : ApiVec → Api → ApiVec
insert_api v api = record { apis = v.apis ++ api ∷ []; names = set_insert (api_name api) v.names }

pub already_contains : ApiVec → QualifiedName → Bool
already_contains v name = contains v.names name

pub retain : (Api → Bool) → ApiVec → ApiVec
retain f v = record { apis = filter f v.apis; names = to_set [] (map api_name (filter f v.apis)) }

-- The first stub of that name, and the other APIs.
pub take_stub : QualifiedName → List Api → Option (Api × List Api)
take_stub name [] = none
take_stub name (api ∷ apis) =
    if api_name api == name && is_displaced_function api
    then some (api, apis)
    else elim (take_stub name apis) [ none ↦ none | some (stub, rest) ↦ some (stub, api ∷ rest) ]

pub take_displaced_function : ApiVec → QualifiedName → Option (Api × ApiVec)
unfolding take_stub
take_displaced_function v name = elim (take_stub name v.apis) [
  | none ↦ none
  | some (stub, rest) ↦
      some (stub, record { apis = rest; names = set_remove (api_name stub) v.names })
]

abbrev pub numbered : QualifiedName → ℕ → QualifiedName
numbered base counter = record base { item = base.item ++ decimal counter }

-- The loop over `1..`, on fuel.
pub free_name_from : ℕ → ApiVec → QualifiedName → ℕ → Option QualifiedName
free_name_from zero v base counter = none
free_name_from (suc fuel) v base counter =
    let rest = free_name_from fuel v base (counter + 1) in
    if not (already_contains v (numbered base counter)) then some (numbered base counter) else rest

pub first_free_name : ApiVec → QualifiedName → Option QualifiedName
first_free_name v base =
    if not (already_contains v base)
    then some base
    else free_name_from (suc (length v.names)) v base 1

pub contains_unshadowable_type : ApiVec → QualifiedName → Bool
contains_unshadowable_type v name =
    any (λ api. api_name api == name && is_unshadowable_type api) v.apis

pub contains_function : ApiVec → QualifiedName → Bool
contains_function v name = any (λ api. api_name api == name && is_function api) v.apis

abbrev pub displaced_stub : Text → QualifiedName → Api
displaced_stub lookup filed_under =
    ignored_item (new_from_qualified_name filed_under) function_hidden_by_type
      (some (new_for_displaced_item lookup filed_under.item))

pub record_displaced_function : ApiVec → QualifiedName → Option ApiVec
record_displaced_function v hidden =
    elim (first_free_name v (record hidden { item = hidden.item ++ displaced_suffix })) [
      | none ↦ none
      | some filed_under ↦ some (insert_api v (displaced_stub hidden.item filed_under))
    ]

pub refile_displaced_function : ApiVec → Api → Option ApiVec
unfolding record_displaced_function
refile_displaced_function v stub = elim (displaced_function_name stub) [
  | none ↦ none
  | some name ↦ record_displaced_function v (record (api_name stub) { item = name })
]

-- A function and a type of one name: the type keeps it.
pub settle_hidden : ApiVec → Api → Option ApiVec
settle_hidden v api =
    if is_unshadowable_type api && contains_function v (api_name api)
    then record_displaced_function
        (insert_api (retain (λ stored. not (api_name stored == api_name api)) v) api) (api_name api)
    else record_displaced_function v (api_name api)

abbrev pub hides : ApiVec → Api → Bool
hides v api =
    is_function api && contains_unshadowable_type v (api_name api)
    || is_unshadowable_type api && contains_function v (api_name api)

-- `built_in` is `known_types().conflicts_with_built_in_type`.
module _ (built_in : QualifiedName → Bool) where
  abbrev pub duplicate_item : QualifiedName → Api
  duplicate_item name =
      ignored_item (new_from_qualified_name name) duplicate_items_found_in_parsing
        (some (new_for_item built_in name.item))

  -- `push`, with fuel for its calls of itself. `none` is a panic, or no fuel left.
  pub push_from : ℕ → ApiVec → Api → Option ApiVec
  push_from zero v api = none
  push_from (suc fuel) v api =
      let inserted = insert_api v api in
      let refiled = refile_displaced_function v api in
      let settled = settle_hidden v api in
      let replaced =
        push_from fuel (retain (λ stored. not (api_name stored == api_name api)) v)
          (duplicate_item (api_name api)) in
      let clash : Option ApiVec =
        if discard_duplicates api then some v else if hides v api then settled else replaced in
      let moved : Option ApiVec = elim (take_displaced_function v (api_name api)) [
        | none ↦ clash
        | some (stub, v') ↦ elim (push_from fuel v' api) [
          | none ↦ none
          | some v'' ↦ refile_displaced_function v'' stub
        ]
      ] in
      if not (already_contains v (api_name api))
      then some inserted
      else if is_displaced_function api
      then refiled
      else moved

  pub push : ApiVec → Api → Option ApiVec
  unfolding push_from
  push v api = push_from 2 v api

  pub extend : ApiVec → List Api → Option ApiVec
  extend v [] = some v
  extend v (api ∷ more) = elim (push v api) [ none ↦ none | some v' ↦ extend v' more ]

  pub append : ApiVec → ApiVec → Option ApiVec
  unfolding extend
  append v more = extend v more.apis

  -- `collect()`
  pub from_iter : List Api → Option ApiVec
  unfolding extend
  from_iter apis = extend ApiVec_new apis
