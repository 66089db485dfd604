-- ===== src/RemoveIgnored.antt =====
-- engine/src/conversion/analysis/remove_ignored.rs: giving up what depends on ignored items.
mod Sweep
mod Pass
pub mod Sound
pub mod Tests
use autocxx.Prelude.{
  ℕ, zero, suc, Bool, true, false, ◌||◌, not, List, [], ◌∷◌, ◌++◌, Option, none, some, filter,
  contains, to_set, length, lookup, insert, is_some, if◌then◌else◌,
}
use autocxx.Names.{QualifiedName, name_eq}
use autocxx.Api.{Api, FnKind, FnAnalysis, ignored_item, api_name, name_info, api_deps, valid_types}
use autocxx.Api.Errors.{
  ConvertErrorFromCpp, ignored_dependent, unknown_dependent_type, ErrorContext, new_for_item,
  new_for_method,
}
use autocxx.ApiVec.{ApiVec, from_iter}

pub is_ignored : Api → Bool
is_ignored (ignored_item _ _ _) = true
is_ignored _ = false

-- Why each ignored item was ignored.
abbrev pub Reasons : Type 0
Reasons = List (QualifiedName × ConvertErrorFromCpp)

add_reason : Reasons → Api → Reasons
add_reason m (ignored_item n err _) = insert n.name err m
add_reason m _ = m

pub reasons_of : Reasons → List Api → Reasons
unfolding add_reason
reasons_of m [] = m
reasons_of m (api ∷ apis) = reasons_of (add_reason m api) apis

pub types_of : List Api → List QualifiedName
unfolding is_ignored
types_of [] = []
types_of (api ∷ apis) = (if is_ignored api then [] else valid_types api) ++ types_of apis

pub first_missing : (QualifiedName → Bool) → List QualifiedName → Option QualifiedName
first_missing known [] = none
first_missing known (dep ∷ deps) = if not (known dep) then some dep else first_missing known deps

-- What becomes of one API: the API or its stub, the reasons, and `iterate_again`.
pub record Settled : Type 0 where
  pub api : Api
  pub reasons : Reasons
  pub again : Bool

pub record Swept : Type 0 where
  pub apis : List Api
  pub reasons : Reasons
  pub again : Bool

-- `built_in` is `known_types().conflicts_with_built_in_type`, and `is_known_type` stands in
-- `known_types()` too.
module _ (built_in is_known_type : QualifiedName → Bool) where
  fn_context : FnAnalysis → FnKind → Option ErrorContext
  fn_context analysis (FnKind.trait_method _) = none
  fn_context analysis (FnKind.method impl_for) =
      some (new_for_method built_in impl_for.item analysis.rust_name)
  fn_context analysis FnKind.function = some (new_for_item built_in analysis.rust_name)

  ignore_context : Api → Option ErrorContext
  unfolding fn_context
  ignore_context (Api.function _ _ analysis) = fn_context analysis analysis.kind
  ignore_context api = some (new_for_item built_in (api_name api).item)

  pub create_ignore_item : Api → ConvertErrorFromCpp → Api
  unfolding ignore_context
  create_ignore_item api err = ignored_item (name_info api) err (ignore_context api)

  pub ignored_dependents : Reasons → Api → List QualifiedName
  ignored_dependents reasons api =
      to_set [] (filter (λ dep. is_some (lookup dep reasons)) (api_deps api))

  pub give_up : Reasons → Api → ConvertErrorFromCpp → ConvertErrorFromCpp → Settled
  unfolding create_ignore_item
  give_up reasons api reason err = record {
    api = create_ignore_item api err;
    reasons = insert (api_name api) reason reasons;
    again = true;
  }

  -- The body of the loop's closure. `none` is a panic: the culprit is not among the ignored.
  pub settle_dependents : List QualifiedName → List QualifiedName → Reasons → Api → Option Settled
  unfolding give_up
  settle_dependents valid (culprit ∷ more) reasons api = elim (lookup culprit reasons) [
    | none ↦ none
    | some reason ↦
        some (give_up reasons api reason (ignored_dependent (culprit ∷ more) culprit reason))
  ]
  settle_dependents valid [] reasons api =
      elim (first_missing (λ dep. contains valid dep || is_known_type dep) (api_deps api)) [
        | none ↦ some (record { api = api; reasons = reasons; again = false })
        | some dep ↦
            some (give_up reasons api (unknown_dependent_type dep) (unknown_dependent_type dep))
      ]

  pub settle : List QualifiedName → Reasons → Api → Option Settled
  unfolding settle_dependents
  settle valid reasons api = settle_dependents valid (ignored_dependents reasons api) reasons api

  -- One pass over the APIs.
  pub sweep : List QualifiedName → Reasons → List Api → Option Swept
  unfolding settle
  sweep valid reasons [] = some (record { apis = []; reasons = reasons; again = false })
  sweep valid reasons (api ∷ apis) = elim (settle valid reasons api) [
    | none ↦ none
    | some s ↦ elim (sweep valid s.reasons apis) [
      | none ↦ none
      | some r ↦
          some (record { apis = s.api ∷ r.apis; reasons = r.reasons; again = s.again || r.again })
    ]
  ]

  -- The `while` loop, on fuel. `none` is a panic, or no fuel left.
  pub rounds : ℕ → List QualifiedName → Reasons → ApiVec → Option ApiVec
  unfolding sweep
  rounds zero valid reasons v = none
  rounds (suc fuel) valid reasons v = elim (sweep valid reasons v.apis) [
    | none ↦ none
    | some r ↦ elim (from_iter built_in r.apis) [
      | none ↦ none
      | some v' ↦ let more = rounds fuel valid r.reasons v' in if r.again then more else some v'
    ]
  ]

  pub filter_apis_by_ignored_dependents : ApiVec → Option ApiVec
  unfolding rounds
  filter_apis_by_ignored_dependents v =
      rounds (suc (length v.apis)) (to_set [] (types_of v.apis)) (reasons_of [] v.apis) v
