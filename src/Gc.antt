-- ===== src/Gc.antt =====
-- engine/src/conversion/analysis/gc.rs: what the allowlist reaches.
mod Groups
mod Reach
mod Marks
pub mod Output
pub mod Tests
use autocxx.Prelude.{
  ℕ, zero, suc, ◌+◌, Bool, true, false, List, [], ◌∷◌, ◌++◌, Option, none, some, map, filter,
  contains, set_insert, length, lookup, insert, remove, or_default, if◌then◌else◌,
}
use autocxx.Names.{QualifiedName, name_eq}
use autocxx.Api.{Api, api_name, api_deps}
use autocxx.ApiVec.{ApiVec, ApiVec_new, push, append}

abbrev pub ByName : Type 0
ByName = List (QualifiedName × ApiVec)

pub all_deps : List Api → List QualifiedName
all_deps [] = []
all_deps (api ∷ apis) = api_deps api ++ all_deps apis

pub record Marking : Type 0 where
  pub todos : List QualifiedName
  pub by_typename : ByName
  pub done : List QualifiedName
  pub output : ApiVec

-- `built_in` is `known_types().conflicts_with_built_in_type`.
module _ (built_in : QualifiedName → Bool) where
  -- The first loop.
  pub group_by_name : ByName → List Api → Option ByName
  group_by_name m [] = some m
  group_by_name m (api ∷ apis) =
      elim (push built_in (or_default ApiVec_new (lookup (api_name api) m)) api) [
        | none ↦ none
        | some these ↦ group_by_name (insert (api_name api) these m) apis
      ]

  -- The body of the `while` loop, on the name that it takes off `todos`.
  pub visit : QualifiedName → Marking → Option Marking
  unfolding all_deps
  visit todo m = if contains m.done todo then some m else elim (lookup todo m.by_typename) [
    | none ↦ some (record m { done = set_insert todo m.done })
    | some these_apis ↦ elim (append built_in m.output these_apis) [
      | none ↦ none
      | some output ↦ some (record {
        todos = m.todos ++ all_deps these_apis.apis;
        by_typename = remove todo m.by_typename;
        done = set_insert todo m.done;
        output = output;
      })
    ]
  ]

  -- The `while` loop, on fuel.
  pub mark : ℕ → Marking → Option ApiVec
  unfolding visit
  mark zero m = none
  mark (suc fuel) m = elim m.todos [
    | [] ↦ some m.output
    | todo ∷ todos ↦ elim (visit todo (record m { todos = todos })) [
      | none ↦ none
      | some m' ↦ mark fuel m'
    ]
  ]

  -- `is_root` is the test on the allowlist and the instantiable concrete types.
  pub filter_apis_by_following_edges_from_allowlist : (Api → Bool) → ApiVec → Option ApiVec
  unfolding mark group_by_name
  filter_apis_by_following_edges_from_allowlist is_root v =
      let roots = map api_name (filter is_root v.apis) in
      elim (group_by_name [] v.apis) [
        | none ↦ none
        | some by_typename ↦
            mark (suc (length roots + length (all_deps v.apis)))
              (record { todos = roots; by_typename = by_typename; done = []; output = ApiVec_new })
      ]
