-- ===== src/ByValue/Listed.antt =====
-- `structs_in_dependency_order` gives each struct once.
use mathlib.Core.List.Memᴰ
use autocxx.Prelude.{
  ℕ, zero, suc, ◌+◌, ◌<◌, ◌≤◌, ◌≡◌, ◌↔◌, refl, subst, false, List, [], ◌∷◌, some, map, length,
  if◌then◌else◌, arith, Memᴰ, Distinct,
}
use autocxx.Names.{name_eq}
use autocxx.ByValue.Data.{ItemStruct}
use autocxx.ByValue.Order.{
  Progress, unseen, under_way, ordered, Walk, progress_at, is_unseen, walk_from, walk_roots,
  round_bound, dependencies_at, structs_at, structs_in_dependency_order,
}
use autocxx.ByValue.Room.{room, room-nothing}
use autocxx.ByValue.Walked.{Inv-start, Between, walk_root-Between}
use autocxx.ByValue.Positions.{
  dependencies_at-in_range, struct_at-within, struct_at-exists, Memᴰ-structs_at,
  structs_at-Distinct,
}

module _ (dependencies : ℕ → List ℕ) (n : ℕ)
    (in_range : (p d : ℕ) → Memᴰ d (dependencies p) → d < n) where
  walk_roots-cons :
      (bound more root : ℕ) (w w' w'' : Walk)
      → (if is_unseen (progress_at w.progress root)
          then walk_from dependencies
              (suc (suc bound))
              (record w { stack = (root, false) ∷ w.stack })
          else some w)
        ≡ some w'
      → walk_roots dependencies bound more (suc root) w' ≡ some w''
      → walk_roots dependencies bound (suc more) root w ≡ some w''
  unfolding walk_roots
  walk_roots-cons bound more root w w' w'' first rest = rw (first, walk_roots) rest

  pub walk_roots-Between :
      (bound more root : ℕ) (w : Walk)
      → more + root ≡ n
      → room dependencies w.progress n ≤ bound
      → Between dependencies n in_range root w
      → (w' : Walk) × (walk_roots dependencies bound more root w ≡ some w')
        × Between dependencies n in_range n w'
  unfolding walk_roots
  walk_roots-Between bound zero root w e enough b =
      (w, refl, subst (λ r. Between dependencies n in_range r w) (omega (arith, e)) b)
  walk_roots-Between bound (suc more) root w e enough b =
      let (w', first, b', enough') =
        walk_root-Between dependencies n in_range bound root w (omega (arith, e)) enough b in
      let (w'', rest, b'') =
        walk_roots-Between bound more (suc root) w' (omega (arith, e)) enough' b' in
      (w'', walk_roots-cons bound more root w w' w'' first rest, b'')

  -- At the end, each position has been gone to and come back to.
  Between-all : (w : Walk) → Between dependencies n in_range n w → (p : ℕ) → p < n → Memᴰ p w.order
  Between-all w b p lt = at (progress_at w.progress p) refl
    where
      at : (s : Progress) → progress_at w.progress p ≡ s → Memᴰ p w.order
      at unseen e = absurd (b.behind p lt e)
      at under_way e = absurd (Memᴰ.not-nil (rw b.emptied at (b.inv.coming_back p).1 e))
      at ordered e = (b.inv.done p).1 e

pub walk_structs :
    (structs : List ItemStruct) (w : Walk)
    → walk_roots
        (dependencies_at structs)
        (round_bound (dependencies_at structs) (length structs))
        (length structs)
        0
        (record { order = []; progress = []; stack = [] })
      ≡ some w
    → structs_in_dependency_order structs ≡ some (structs_at structs w.order)
unfolding structs_in_dependency_order
walk_structs structs w e = rw (e, structs_in_dependency_order) refl

-- Where the structs have distinct names, the walk ends and lists each struct exactly once.
pub structs_in_dependency_order-all :
    (structs : List ItemStruct)
    → Distinct (map (λ d. ItemStruct.name d) structs)
    → (out : List ItemStruct) × (structs_in_dependency_order structs ≡ some out)
      × Distinct (map (λ d. ItemStruct.name d) out)
      × ((def : ItemStruct) → Memᴰ def out ↔ Memᴰ def structs)
structs_in_dependency_order-all structs names =
    let n = length structs in
    let dependencies = dependencies_at structs in
    let in_range = dependencies_at-in_range structs in
    let start : Between dependencies n in_range 0
        (record { order = []; progress = []; stack = [] }) =
      record {
        inv = Inv-start dependencies n in_range;
        emptied = refl;
        behind = λ q lt. absurd (omega arith);
      } in
    let (w, walked, b) =
      walk_roots-Between dependencies n in_range (round_bound dependencies n) n 0
        (record { order = []; progress = []; stack = [] }) (omega arith)
        (omega (arith, room-nothing dependencies n)) start in
    (
      structs_at structs w.order,
      walk_structs structs w walked,
      structs_at-Distinct structs w.order names b.inv.distinct,
      λ def. (
        λ m.
            let (p, there, e) = (Memᴰ-structs_at structs w.order def).0 m in
            struct_at-within structs p def e,
        λ m.
            let (p, lt, e) = struct_at-exists structs def m in
            (Memᴰ-structs_at structs w.order def).1
              (p, Between-all dependencies n in_range w b p lt, e),
      ),
    )
