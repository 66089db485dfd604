-- ===== src/ByValue/InOrder.antt =====
-- `structs_in_dependency_order` lists each struct behind the structs that its fields hold.
use mathlib.Core.List.Memᴰ
use autocxx.Prelude.{
  ℕ, zero, suc, ◌+◌, ◌<◌, ◌≤◌, ◌≡◌, refl, sym, ap, ◌∙◌, subst, false, List, [], ◌∷◌, Option, none,
  some, map, length, lookup, if◌then◌else◌, arith, Bool-cases, Option-cases, inl, inr, Memᴰ,
  some_injective,
}
use autocxx.Names.{QualifiedName, name_eq}
use autocxx.DepthFirst.{HasFieldsAndBases}
use autocxx.DepthFirst.Ordered.{IsOrdered}
use autocxx.DepthFirst.Complete.{Ranked}
use autocxx.ByValue.Listed.{walk_roots-Between, walk_structs}
use autocxx.ByValue.Data.{ItemStruct, FieldDependency}
use autocxx.ByValue.Fields.{get_field_dependencies}
use autocxx.ByValue.Order.{
  Walk, progress_at, is_unseen, walk_from, walk_roots, round_bound, positions_from, dependencies_in,
  struct_at, dependencies_at, structs_at, structs_in_dependency_order,
}
use autocxx.ByValue.Room.{room, room-nothing}
use autocxx.ByValue.Visits.{Inv}
use autocxx.ByValue.Walked.{Between, walk_root-Between, Inv-root, Inv-start}
use autocxx.ByValue.Positions.{dependencies_at-in_range, struct_at-within}
use autocxx.ByValue.Behind.{IsBehind, IsCovered, walk_from-IsCovered}
use autocxx.ByValue.Lookups.{
  positions_from_sound, positions_from_complete, Memᴰ-dependencies_in, dependencies_in-held,
}

abbrev pub struct_deps : ItemStruct → List QualifiedName
struct_deps def = map (λ f. FieldDependency.ty f) (get_field_dependencies def.fields)

-- The structs, each with the types of its fields.
abbrev pub struct_items : HasFieldsAndBases
struct_items = record {
  Item = ItemStruct;
  name = λ d. ItemStruct.name d;
  field_and_base_deps = struct_deps;
}

module _ (dependencies : ℕ → List ℕ) (n : ℕ)
    (in_range : (p d : ℕ) → Memᴰ d (dependencies p) → d < n) (rank : ℕ → ℕ)
    (ranked : (p d : ℕ) → Memᴰ d (dependencies p) → rank d < rank p) where
  Covered : Walk → Type 0
  Covered = IsCovered dependencies n in_range rank ranked

  root-IsCovered :
      (fuel root : ℕ) (w w' : Walk)
      → root < n
      → Inv dependencies n in_range w
      → w.stack ≡ []
      → Covered w
      → (if is_unseen (progress_at w.progress root)
          then walk_from dependencies fuel (record w { stack = (root, false) ∷ w.stack })
          else some w)
        ≡ some w'
      → Covered w'
  unfolding Covered
  root-IsCovered fuel root w w' lt inv empty c e =
      elim (Bool-cases (is_unseen (progress_at w.progress root))) [
        | inr seen ↦
            subst (IsCovered dependencies n in_range rank ranked) (some_injective (rw seen at e)) c
        | inl new ↦
            walk_from-IsCovered dependencies n in_range rank ranked fuel w.order w.progress
              ((root, false) ∷ w.stack) w' (Inv-root dependencies n in_range w root lt inv)
              (rw empty tt, c.1) (rw new at e)
      ]

  walk_roots-IsCovered :
      (bound more root : ℕ) (w w' : Walk)
      → more + root ≡ n
      → room dependencies w.progress n ≤ bound
      → Between dependencies n in_range root w
      → Covered w
      → walk_roots dependencies bound more root w ≡ some w'
      → Covered w'
  unfolding walk_roots Covered
  walk_roots-IsCovered bound zero root w w' e enough b c h =
      subst (IsCovered dependencies n in_range rank ranked) (some_injective h) c
  walk_roots-IsCovered bound (suc more) root w w' e enough b c h =
      let lt : root < n = omega (arith, e) in
      let (w1, first, b1, enough1) =
        walk_root-Between dependencies n in_range bound root w lt enough b in
      walk_roots-IsCovered bound more (suc root) w1 w' (omega (arith, e)) enough1 b1
        (root-IsCovered (suc (suc bound)) root w w1 lt b.inv b.emptied c first)
        (rw (first, walk_roots) at h)

module _ (structs : List ItemStruct) where
  struct_of :
      (v : ℕ) (ty : QualifiedName)
      → lookup ty (positions_from 0 [] structs) ≡ some v
      → (y : ItemStruct) × (struct_at structs v ≡ some y) × (y.name ≡ ty)
  struct_of v ty held = elim (positions_from_sound 0 [] structs ty v held) [
    | inl nothing ↦ cc
    | inr (i, def, at, there, same) ↦
        (def, subst (λ x. struct_at structs x ≡ some def) (omega (arith, at)) there, same)
  ]

  dependencies_of :
      (p : ℕ) (x : ItemStruct)
      → struct_at structs p ≡ some x
      → (v : ℕ)
      → Memᴰ v (dependencies_in (positions_from 0 [] structs) (get_field_dependencies x.fields))
      → Memᴰ v (dependencies_at structs p)
  unfolding dependencies_at
  dependencies_of p x there v m = rw (there, dependencies_at) m

  -- The order of the positions, as an order of the structs.
  IsBehind-IsOrdered :
      (order seen : List ℕ) (names : List QualifiedName)
      → ((q : ℕ) (y : ItemStruct) → Memᴰ q seen → struct_at structs q ≡ some y → Memᴰ y.name names)
      → IsBehind (dependencies_at structs) seen order
      → IsOrdered struct_items
          (map (λ d. ItemStruct.name d) structs)
          names
          (structs_at structs order)
  unfolding structs_at
  IsBehind-IsOrdered [] seen names named b = tt
  IsBehind-IsOrdered (p ∷ order) seen names named (deps, b) =
      elim (Option-cases (struct_at structs p)) [
        | inl nothing ↦
            rw (nothing, structs_at)
              (IsBehind-IsOrdered order (p ∷ seen) names
                (λ q y m e. elim (Memᴰ.cases_cons m) [
                  | inl same ↦ cc (sym nothing ∙ subst (λ x. struct_at structs x ≡ some y) same e)
                  | inr later ↦ named q y later e
                ])
                b)
        | inr (x, there) ↦
            rw (there, structs_at)
              (
                λ d m listed. elim (Option-cases (lookup d (positions_from 0 [] structs))) [
                  | inl absent ↦ absurd (positions_from_complete 0 [] structs d listed absent)
                  | inr (v, held) ↦
                      let dep =
                        Memᴰ-dependencies_in (positions_from 0 [] structs)
                          (get_field_dependencies x.fields) v d m held in
                      let (y, found, same) = struct_of v d held in
                      subst (λ k. Memᴰ k names) same
                        (named v y (deps v (dependencies_of p x there v dep)) found)
                ],
                IsBehind-IsOrdered order (p ∷ seen) (x.name ∷ names)
                    (λ q y m e. elim (Memᴰ.cases_cons m) [
                      | inl same ↦ Memᴰ.head (
                          ap (λ d. ItemStruct.name d)
                            (some_injective
                              (sym (subst (λ r. struct_at structs r ≡ some y) same e) ∙ there)))
                      | inr later ↦ Memᴰ.tail (named q y later e)
                    ])
                    b,
              )
      ]

  module _ (rank : ℕ → ℕ)
      (ranked : (p d : ℕ) → Memᴰ d (dependencies_at structs p) → rank d < rank p) where
    start-Covered :
        Covered
          (dependencies_at structs)
          (length structs)
          (dependencies_at-in_range structs)
          rank
          ranked
          (record { order = []; progress = []; stack = [] })
    unfolding Covered
    start-Covered = (tt, tt)

    Covered-IsBehind :
        (w : Walk)
        → Covered
            (dependencies_at structs)
            (length structs)
            (dependencies_at-in_range structs)
            rank
            ranked
            w
        → IsBehind (dependencies_at structs) [] w.order
    unfolding Covered
    Covered-IsBehind w c = c.1

  module _ (rank : QualifiedName → ℕ) (ranked : Ranked struct_items rank structs) where
    rank_of : Option ItemStruct → ℕ
    rank_of none = 0
    rank_of (some def) = rank def.name

    position_rank : ℕ → ℕ
    position_rank p = rank_of (struct_at structs p)

    position_ranked :
        (p d : ℕ) → Memᴰ d (dependencies_at structs p) → position_rank d < position_rank p
    unfolding dependencies_at position_rank rank_of
    position_ranked p d m = elim (Option-cases (struct_at structs p)) [
      | inl nothing ↦ absurd (Memᴰ.not-nil (rw (nothing, dependencies_at) at m))
      | inr (x, there) ↦
          let (ty, dep, held) =
            dependencies_in-held (positions_from 0 [] structs) (get_field_dependencies x.fields) d
              (rw (there, dependencies_at) at m) in
          let (y, found, same) = struct_of d ty held in
          let listed =
            subst (λ k. Memᴰ k (map (λ s. ItemStruct.name s) structs)) same
              (Memᴰ.map (λ s. ItemStruct.name s) (struct_at-within structs d y found)) in
          let lt = ranked x (struct_at-within structs p x there) ty dep listed in
          rw (found, there) (omega (arith, lt, ap rank same))
    ]

    -- Where every struct outranks the structs that are types
    -- of its fields, the walk ends, and lists each struct behind those.
    pub structs_in_dependency_order-IsOrdered :
        (out : List ItemStruct) × (structs_in_dependency_order structs ≡ some out)
        × IsOrdered struct_items (map (λ d. ItemStruct.name d) structs) [] out
    structs_in_dependency_order-IsOrdered =
        let n = length structs in
        let dependencies = dependencies_at structs in
        let in_range = dependencies_at-in_range structs in
        let start : Walk = record { order = []; progress = []; stack = [] } in
        let between : Between dependencies n in_range 0 start = record {
          inv = Inv-start dependencies n in_range;
          emptied = refl;
          behind = λ q lt. absurd (omega arith);
        } in
        let (w, walked, b) =
          walk_roots-Between dependencies n in_range (round_bound dependencies n) n 0 start
            (omega arith) (omega (arith, room-nothing dependencies n)) between in
        let covered =
          walk_roots-IsCovered dependencies n in_range position_rank position_ranked
            (round_bound dependencies n) n 0 start w (omega arith)
            (omega (arith, room-nothing dependencies n)) between
            (start-Covered position_rank position_ranked) walked in
        (
          structs_at structs w.order,
          walk_structs structs w walked,
          IsBehind-IsOrdered w.order [] [] (λ q y m. absurd (Memᴰ.not-nil m))
              (Covered-IsBehind position_rank position_ranked w covered),
        )
