-- ===== src/ByValue/Order.antt =====
-- `structs_in_dependency_order` of byvalue_checker.rs: a depth-first walk with a stack of its own.
use autocxx.Prelude.{
  ℕ, zero, suc, ◌+◌, Bool, true, false, List, [], ◌∷◌, ◌++◌, Option, none, some, length, lookup,
  insert, or_default, if◌then◌else◌, nat_eq,
}
use autocxx.Names.{QualifiedName, name_eq}
use autocxx.ByValue.Data.{FieldDependency, ItemStruct}
use autocxx.ByValue.Fields.{get_field_dependencies}

pub data Progress : Type 0 where
  unseen under_way ordered : Progress

-- `progress` has the positions that are not `unseen` any more. The top of the stack is the first.
pub record Walk : Type 0 where
  pub order : List ℕ
  pub progress : List (ℕ × Progress)
  pub stack : List (ℕ × Bool)

abbrev pub progress_at : List (ℕ × Progress) → ℕ → Progress
progress_at progress position = or_default unseen (lookup position progress)

-- The position of each name, the last one where a name stands twice.
unfoldable pub positions_from :
    ℕ → List (QualifiedName × ℕ) → List ItemStruct → List (QualifiedName × ℕ)
positions_from n positions [] = positions
positions_from n positions (def ∷ structs) =
    positions_from (suc n) (insert def.name n positions) structs

-- The positions of the structs that a struct holds.
unfoldable pub dependencies_in : List (QualifiedName × ℕ) → List FieldDependency → List ℕ
dependencies_in positions [] = []
dependencies_in positions (field ∷ fields) =
    let rest = dependencies_in positions fields in
    elim (lookup field.ty positions) [ none ↦ rest | some dependency ↦ dependency ∷ rest ]

abbrev pub is_unseen : Progress → Bool
is_unseen unseen = true
is_unseen _ = false

unfoldable pub push_unseen : List (ℕ × Progress) → List ℕ → List (ℕ × Bool) → List (ℕ × Bool)
push_unseen progress [] stack = stack
push_unseen progress (dependency ∷ dependencies) stack =
    push_unseen progress dependencies
      (if is_unseen (progress_at progress dependency) then (dependency, false) ∷ stack else stack)

-- `dependencies` are those of each position.
module _ (dependencies : ℕ → List ℕ) where
  -- One round of the inner loop, with the top taken off the stack.
  unfoldable pub visit_position : Walk → ℕ → (coming_back_up : Bool) → Walk
  unfolding push_unseen
  visit_position w position true = record w {
    order = w.order ++ position ∷ [];
    progress = insert position ordered w.progress;
  }
  visit_position w position false =
      if is_unseen (progress_at w.progress position)
      then record w {
        progress = insert position under_way w.progress;
        stack =
            push_unseen (insert position under_way w.progress) (dependencies position)
              ((position, true) ∷ w.stack);
      }
      else w

  -- The inner loop, on fuel; `none` is its end.
  unfoldable pub walk_from : ℕ → Walk → Option Walk
  unfolding visit_position
  walk_from zero w = none
  walk_from (suc fuel) w = elim (w.stack) [
    | [] ↦ some w
    | (position, coming_back_up) ∷ stack ↦
        walk_from fuel (visit_position (record w { stack = stack }) position coming_back_up)
  ]

  -- The rounds that positions up to `n` can cost.
  unfoldable pub round_bound : ℕ → ℕ
  round_bound zero = 0
  round_bound (suc n) = suc (length (dependencies n)) + round_bound n

  -- The loop over the roots, from `root` on, with `more` of them left.
  unfoldable pub walk_roots : (bound more root : ℕ) → Walk → Option Walk
  unfolding walk_from
  walk_roots bound zero root w = some w
  walk_roots bound (suc more) root w =
      let walked =
        if is_unseen (progress_at w.progress root)
        then walk_from (suc (suc bound)) (record w { stack = (root, false) ∷ w.stack })
        else some w in
      elim walked [ none ↦ none | some w' ↦ walk_roots bound more (suc root) w' ]

-- The element at a position.
abbrev pub struct_at {ℓ} : {A : Type ℓ} → List A → ℕ → Option A
struct_at [] n = none
struct_at (x ∷ xs) zero = some x
struct_at (x ∷ xs) (suc n) = struct_at xs n

unfoldable pub dependencies_at : List ItemStruct → ℕ → List ℕ
unfolding dependencies_in positions_from get_field_dependencies
dependencies_at structs position = elim (struct_at structs position) [
  | none ↦ []
  | some def ↦ dependencies_in (positions_from 0 [] structs) (get_field_dependencies def.fields)
]

unfoldable pub structs_at : List ItemStruct → List ℕ → List ItemStruct
structs_at structs [] = []
structs_at structs (position ∷ positions) =
    let rest = structs_at structs positions in
    elim (struct_at structs position) [ none ↦ rest | some def ↦ def ∷ rest ]

-- `none` where the fuel runs out.
unfoldable pub structs_in_dependency_order : List ItemStruct → Option (List ItemStruct)
unfolding walk_roots round_bound dependencies_at structs_at
structs_in_dependency_order structs =
    let dependencies = dependencies_at structs in
    elim (walk_roots dependencies (round_bound dependencies (length structs)) (length structs) 0
      (record { order = []; progress = []; stack = [] })) [
        | none ↦ none
        | some w ↦ some (structs_at structs w.order)
      ]
