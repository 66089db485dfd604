-- ===== src/DepthFirst.antt =====
-- engine/src/conversion/analysis/depth_first.rs: items after the items that their fields and
-- bases name.
pub mod Ordered
pub mod Ranked
pub mod Complete
pub mod Tests
use autocxx.Prelude.{
  ℕ, zero, suc, ◌≡◌, Bool, true, false, List, [], ◌∷◌, ◌++◌, Option, none, some, map, any, contains,
  set_remove, to_set, length, if◌then◌else◌, ◌==◌, option_eq,
}
use autocxx.Names.{QualifiedName, name_eq}

-- The trait `HasFieldsAndBases`.
pub record HasFieldsAndBases : Type 1 where
  pub Item : Type 0
  pub name : Item → QualifiedName
  pub field_and_base_deps : Item → List QualifiedName

module _ (h : HasFieldsAndBases) where
  open h use {Item, name, field_and_base_deps}

  pub record DepthFirstIter : Type 0 where
    pub queue : List Item
    pub yet_to_do : List QualifiedName

  -- What a call of `next` comes to; `panicked` is its `panic!` on a circular dependency.
  pub data Next : Type 0 where
    yielded : Item → DepthFirstIter → Next
    finished : Next
    panicked : Next
    out_of_fuel : Next

  pub blocked : List QualifiedName → Item → Bool
  blocked yet_to_do candidate = any (contains yet_to_do) (field_and_base_deps candidate)

  -- `self.queue.front().map(|api| api.name())`
  abbrev pub front_name : List Item → Option QualifiedName
  front_name [] = none
  front_name (x ∷ _) = some (name x)

  -- The `while let` loop of `next`, on fuel.
  unfoldable pub next_from : ℕ → Option QualifiedName → List Item → List QualifiedName → Next
  unfolding blocked
  next_from zero first queue yet_to_do = out_of_fuel
  next_from (suc fuel) first [] yet_to_do = finished
  next_from (suc fuel) first (candidate ∷ queue) yet_to_do =
      let again = next_from fuel first (queue ++ candidate ∷ []) yet_to_do in
      let rotated = if front_name (queue ++ candidate ∷ []) == first then panicked else again in
      if blocked yet_to_do candidate
      then rotated
      else yielded candidate
          (record { queue = queue; yet_to_do = set_remove (name candidate) yet_to_do })

  unfoldable pub next : DepthFirstIter → Next
  next it = next_from (suc (length it.queue)) (front_name it.queue) it.queue it.yet_to_do

  pub fields_and_bases_first : List Item → DepthFirstIter
  fields_and_bases_first inputs = record { queue = inputs; yet_to_do = to_set [] (map name inputs) }

  -- The caller's loop over the iterator: the items in turn, or `none` where it panics.
  pub data Drained : Type 0 where
    all_done : List Item → Drained
    circular : Drained
    unfinished : Drained

  abbrev pub prepend : Item → Drained → Drained
  prepend x (all_done xs) = all_done (x ∷ xs)
  prepend x circular = circular
  prepend x unfinished = unfinished

  pub drain_from : ℕ → DepthFirstIter → Drained
  drain_from zero it = unfinished
  drain_from (suc fuel) it = elim (next it) [
    | yielded x it' ↦ prepend x (drain_from fuel it')
    | finished ↦ all_done []
    | panicked ↦ circular
    | out_of_fuel ↦ unfinished
  ]

  unfoldable pub drain : List Item → Drained
  unfolding drain_from fields_and_bases_first
  drain inputs = drain_from (suc (length inputs)) (fields_and_bases_first inputs)
