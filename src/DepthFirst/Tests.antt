-- ===== src/DepthFirst/Tests.antt =====
-- The unit test of depth_first.rs, and the witnesses.
use mathlib.Core.List.{Permᴰ}
use autocxx.DepthFirst.Ordered.{IsOrdered, fields_and_bases_first-IsOrdered}
use autocxx.DepthFirst.Complete.{Ranked, fields_and_bases_first_completes}
use autocxx.Prelude.{
  Distinct-of_test, all, all_holds, ltb, ltb→lt, Distinct, map, ◌==◌, if◌then◌else◌, ℕ, ◌≡◌, refl,
  List, [], ◌∷◌, Text, codes,
}
use autocxx.Names.{QualifiedName, name_eq}
use autocxx.DepthFirst.{HasFieldsAndBases, drain, next, all_done, circular, next_from}

pub record Thing : Type 0 where
  pub thing_name : QualifiedName
  pub thing_deps : List QualifiedName

abbrev things : HasFieldsAndBases
things = record { Item = Thing; name = λ t. t.thing_name; field_and_base_deps = λ t. t.thing_deps }

abbrev root : Text → QualifiedName
root item = record { namespace = []; item = item }

abbrev a : Thing
a = record { thing_name = root (codes "a"); thing_deps = [] }

abbrev b : Thing
b = record { thing_name = root (codes "b"); thing_deps = root (codes "a") ∷ root (codes "c") ∷ [] }

abbrev c : Thing
c = record { thing_name = root (codes "c"); thing_deps = root (codes "a") ∷ [] }

drain_abc : drain things (a ∷ b ∷ c ∷ []) ≡ all_done (a ∷ c ∷ b ∷ [])
unfolding drain next next_from
drain_abc = refl

drain_cycle : drain things (b ∷ c ∷ record a { thing_deps = root (codes "b") ∷ [] } ∷ []) ≡ circular
unfolding drain next next_from
drain_cycle = refl

fields_and_bases_first-IsOrdered_example :
    Permᴰ (a ∷ c ∷ b ∷ []) (a ∷ b ∷ c ∷ [])
    × IsOrdered things
        (root (codes "a") ∷ root (codes "b") ∷ root (codes "c") ∷ [])
        []
        (a ∷ c ∷ b ∷ [])
fields_and_bases_first-IsOrdered_example =
    fields_and_bases_first-IsOrdered things (a ∷ b ∷ c ∷ []) (a ∷ c ∷ b ∷ []) drain_abc

-- a, c and b in this order.
abbrev rank_of : QualifiedName → ℕ
rank_of n = if n == root (codes "a") then 0 else if n == root (codes "c") then 1 else 2

abc-Distinct : Distinct (map (λ t. t.thing_name) (a ∷ b ∷ c ∷ []))
abc-Distinct = Distinct-of_test (map (λ t. t.thing_name) (a ∷ b ∷ c ∷ [])) refl

abc-Ranked : Ranked things rank_of (a ∷ b ∷ c ∷ [])
abc-Ranked x m d dep k = ltb→lt (rank_of d) (rank_of x.thing_name) (
    all_holds (λ n. ltb (rank_of n) (rank_of x.thing_name)) x.thing_deps
      (all_holds (λ t. all (λ n. ltb (rank_of n) (rank_of t.thing_name)) t.thing_deps)
        (a ∷ b ∷ c ∷ []) refl x m)
      d dep)

fields_and_bases_first_completes_example :
    (out : List Thing) × (drain things (a ∷ b ∷ c ∷ []) ≡ all_done out)
    × Permᴰ out (a ∷ b ∷ c ∷ [])
    × IsOrdered things (root (codes "a") ∷ root (codes "b") ∷ root (codes "c") ∷ []) [] out
fields_and_bases_first_completes_example =
    fields_and_bases_first_completes things rank_of (a ∷ b ∷ c ∷ []) abc-Distinct abc-Ranked
