-- ===== src/ByValue/Requests.antt =====
-- `satisfy_requests` of byvalue_checker.rs: making types POD on request.
use autocxx.Prelude.{
  ℕ, zero, suc, ◌+◌, Bool, true, false, List, [], ◌∷◌, ◌++◌, none, some, contains, length, Text,
  codes, lookup, insert, if◌then◌else◌,
}
use autocxx.Names.{QualifiedName, name_eq, display}
use autocxx.ByValue.Data.{
  PodState, unsafe_to_be_pod, safe_to_be_pod, is_pod, is_alias, StructDetails, ByValueChecker,
}
use autocxx.ByValue.Ingest.{Results}

-- The state of the loop; the request to come first is the last of the vector.
pub record Loop : Type 0 where
  pub results : Results
  pub aliases_awaiting_target : List QualifiedName
  pub requests : List QualifiedName

-- `Result<(), String>` of a run, with the results that it leaves.
pub data Satisfied : Type 0 where
  ok : Results → Satisfied
  err : Text → Satisfied
  out_of_fuel : Satisfied

-- One round: a new state, or the error.
pub data Round : Type 0 where
  goes_on : Loop → Round
  fails : Text → Round

-- Requests that are pushed in turn.
unfoldable pub push_all : List QualifiedName → List QualifiedName → List QualifiedName
push_all [] requests = requests
push_all (ty ∷ tys) requests = push_all tys (ty ∷ requests)

pub unable : QualifiedName → Text → Text
unable ty_id reason =
    codes "Unable to make " ++ (display ty_id ++ (codes " POD because " ++ reason))

pub alias_reason : QualifiedName → (alias : QualifiedName) → Text → Text
alias_reason ty_id alias reason =
    codes "Type "
    ++ (display ty_id
        ++ (codes " could not be POD because it is a typedef to "
            ++ (display alias ++ (codes ". Because: " ++ reason))))

abbrev pub with_state : PodState → StructDetails → StructDetails
with_state state deets = record deets { state = state }

-- `l` has `ty_id`, an alias of `alias` with `deets`, taken off its requests.
unfoldable pub consider_alias :
    Loop → QualifiedName → StructDetails → (alias : QualifiedName) → Round
consider_alias l ty_id deets alias = elim (lookup alias l.results) [
  | none ↦ fails (
      unable ty_id
        (codes "it is a typedef to " ++ (display alias ++ codes ", which we know nothing about")))
  | some target ↦ elim (target.state) [
    | is_pod ↦ goes_on (record l {
      results = insert ty_id (with_state is_pod deets) l.results;
      requests = ty_id ∷ l.requests;
    })
    | unsafe_to_be_pod reason ↦ goes_on (record l {
      results =
          insert ty_id (with_state (unsafe_to_be_pod (alias_reason ty_id alias reason)) deets)
            l.results;
      requests = ty_id ∷ l.requests;
    })
    | safe_to_be_pod ↦ awaiting
    | is_alias _ ↦ awaiting
  ]
]
  where
    awaiting : Round
    awaiting =
        if contains l.aliases_awaiting_target ty_id
        then fails (unable ty_id (codes "it is part of a circular chain of typedefs"))
        else goes_on (record l {
          aliases_awaiting_target = ty_id ∷ l.aliases_awaiting_target;
          requests = alias ∷ ty_id ∷ l.requests;
        })

-- `l` has `ty_id` taken off its requests.
unfoldable pub consider : Loop → QualifiedName → Round
unfolding consider_alias push_all
consider l ty_id = elim (lookup ty_id l.results) [
  | none ↦ fails (unable ty_id (codes "we never saw a struct definition"))
  | some deets ↦ elim (deets.state) [
    | unsafe_to_be_pod error_msg ↦ fails error_msg
    | is_pod ↦ goes_on l
    | safe_to_be_pod ↦ goes_on (record l {
      results = insert ty_id (with_state is_pod deets) l.results;
      requests = push_all deets.dependent_structs l.requests;
    })
    | is_alias target_type ↦ consider_alias l ty_id deets target_type
  ]
]

-- The `while let` loop, on fuel.
unfoldable pub satisfy_from : ℕ → Loop → Satisfied
unfolding consider
satisfy_from zero l = out_of_fuel
satisfy_from (suc fuel) l = elim (l.requests) [
  | [] ↦ ok l.results
  | ty_id ∷ requests ↦ elim (consider (record l { requests = requests }) ty_id) [
    | fails error_msg ↦ err error_msg
    | goes_on l' ↦ satisfy_from fuel l'
  ]
]

-- The rounds that results can still cost.
unfoldable pub cost : Results → ℕ
cost [] = 0
cost ((_, deets) ∷ results) = elim (deets.state) [
  | unsafe_to_be_pod _ ↦ cost results
  | is_pod ↦ cost results
  | safe_to_be_pod ↦ length deets.dependent_structs + cost results
  | is_alias _ ↦ 3 + cost results
]

unfoldable pub satisfy_requests : ByValueChecker → List QualifiedName → Satisfied
unfolding satisfy_from cost push_all
satisfy_requests c requests =
    satisfy_from (suc (length requests + cost c.results)) (record {
      results = c.results;
      aliases_awaiting_target = [];
      requests = push_all requests [];
    })

abbrev pub is_pod_state : PodState → Bool
is_pod_state is_pod = true
is_pod_state _ = false

unfoldable pub is_pod_in : Results → QualifiedName → Bool
is_pod_in results ty_id = elim (lookup ty_id results) [
  | none ↦ false
  | some deets ↦ is_pod_state deets.state
]

-- `is_pod`
unfoldable pub is_pod_type : ByValueChecker → QualifiedName → Bool
unfolding is_pod_in
is_pod_type c ty_id = is_pod_in c.results ty_id
