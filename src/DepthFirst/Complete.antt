-- ===== src/DepthFirst/Complete.antt =====
-- Runs of the iterator of depth_first.rs over items that do not depend on themselves.
use autocxx.Prelude.{
  ℕ, zero, suc, ◌<◌, ◌≡◌, ◌≢◌, refl, sym, subst, ap, true, false, List, [], ◌∷◌, ◌++◌, append_assoc,
  Option, some, map, contains, contains_iff, length, length-append, option_eq, option_beq_iff,
  arith, Bool-cases, inl, inr, contains-set_remove, contains-to_set, Memᴰ, Memᴰ-perm, Distinct,
  Distinct-perm, All, All-mem, ◌⊎◌,
}
use mathlib.Core.List.{Permᴰ}
use mathlib.Core.List.Permᴰ
use mathlib.Core.List.Memᴰ
use autocxx.Names.{QualifiedName, name_eq, name_beq_iff}
use autocxx.DepthFirst.{
  HasFieldsAndBases, DepthFirstIter, Next, yielded, finished, panicked, out_of_fuel, blocked,
  front_name, next_from, next, fields_and_bases_first, all_done, circular, unfinished, prepend,
  Drained, drain_from, drain,
}
use autocxx.DepthFirst.Ordered.{
  next-IsReady, drain_from_total, IsOrdered, fields_and_bases_first-IsOrdered,
}
use autocxx.DepthFirst.Ranked.{any-true, All-ne, Memᴰ-map-inv, IsLeast-item}

prepend_completes :
    (h : HasFieldsAndBases) (x : HasFieldsAndBases.Item h) (d : Drained h)
    → d ≢ circular
    → prepend h x d ≢ circular
prepend_completes h x (all_done xs) ends e = cc
prepend_completes h x circular ends e = ends refl
prepend_completes h x unfinished ends e = cc

completed :
    (h : HasFieldsAndBases) (d : Drained h)
    → d ≢ circular
    → d ≢ unfinished
    → (out : List (HasFieldsAndBases.Item h)) × (d ≡ all_done out)
completed h (all_done out) a b = (out, refl)
completed h circular a b = absurd (a refl)
completed h unfinished a b = absurd (b refl)

module _ (h : HasFieldsAndBases) where
  open h use {Item, name, field_and_base_deps}

  -- With `pre` all waiting and no name of `pre` or of `c` the first one, the call reaches `c`.
  next_from-reaches :
      (fuel : ℕ) (first : Option QualifiedName) (pre post : List Item) (c : Item)
      (yet : List QualifiedName)
      → All (λ x. blocked h yet x ≡ true) pre
      → blocked h yet c ≡ false
      → All (λ x. some (name x) ≢ first) (pre ++ c ∷ [])
      → length pre < fuel
      → next_from h fuel first (pre ++ c ∷ post) yet ≢ panicked
  unfolding next_from
  next_from-reaches zero first pre post c yet waits free others lt = absurd (omega arith)
  next_from-reaches (suc fuel) first [] post c yet waits free others lt = ground arith
  next_from-reaches (suc fuel) first (x ∷ []) post c yet waits free others lt =
      let ih =
        next_from-reaches fuel first [] (post ++ x ∷ []) c yet tt free others.1 (omega arith) in
      ground (arith, ih, option_beq_iff (some (name c)) first)
  next_from-reaches (suc fuel) first (x ∷ y ∷ pre) post c yet waits free others lt =
      let ih =
        next_from-reaches fuel first (y ∷ pre) (post ++ x ∷ []) c yet waits.1 free others.1
          (omega arith) in
      ground (
        arith,
        ih,
        option_beq_iff (some (name y)) first,
        append_assoc pre (c ∷ post) (x ∷ []),
        waits.0,
        others.1.0,
      )

  -- The first item that is not waiting, if there is one.
  first_free :
      (yet : List QualifiedName) (queue : List Item)
      → All (λ x. blocked h yet x ≡ true) queue
        ⊎ ((pre : List Item) × (c : Item) × (post : List Item) × (queue ≡ pre ++ c ∷ post)
            × All (λ x. blocked h yet x ≡ true) pre
            × (blocked h yet c ≡ false))
  first_free yet [] = inl tt
  first_free yet (x ∷ queue) = elim (Bool-cases (blocked h yet x)) [
    | inr free ↦ inr ([], x, queue, refl, tt, free)
    | inl waits ↦ elim (first_free yet queue) [
      | inl all ↦ inl (waits, all)
      | inr (pre, c, post, e, before, free) ↦
          inr (x ∷ pre, c, post, ap (λ q. x ∷ q) e, (waits, before), free)
    ]
  ]

  front_ne :
      (pre rest : List Item) (c : Item) (first : Option QualifiedName)
      → All (λ x. some (name x) ≢ first) (pre ++ c ∷ [])
      → front_name h (pre ++ c ∷ rest) ≢ first
  front_ne [] rest c first others = others.0
  front_ne (x ∷ pre) rest c first others = others.0

  next_reaches :
      (pre post : List Item) (c : Item) (yet : List QualifiedName)
      → Distinct (map name (pre ++ c ∷ post))
      → All (λ x. blocked h yet x ≡ true) pre
      → blocked h yet c ≡ false
      → next_from h
          (suc (length (pre ++ c ∷ post)))
          (front_name h (pre ++ c ∷ post))
          (pre ++ c ∷ post)
          yet
        ≢ panicked
  unfolding next_from
  next_reaches [] post c yet distinct waits free = ground arith
  next_reaches (x ∷ pre) post c yet distinct waits free =
      let others : All (λ y. some (name y) ≢ some (name x)) (pre ++ c ∷ []) =
        All-ne name (name x) (pre ++ c ∷ []) post
          (rw (append_assoc pre (c ∷ []) post) distinct.0) in
      let reaches =
        next_from-reaches (length ((x ∷ pre) ++ c ∷ post)) (some (name x)) pre (post ++ x ∷ []) c
          yet waits.1 free others (omega (arith, length-append pre (c ∷ post))) in
      let front = front_ne pre (post ++ x ∷ []) c (some (name x)) others in
      ground (
        arith,
        waits.0,
        reaches,
        front,
        append_assoc pre (c ∷ post) (x ∷ []),
        option_beq_iff (front_name h (pre ++ c ∷ (post ++ x ∷ []))) (some (name x)),
      )

  module _ (rank : QualifiedName → ℕ) where
    -- Every item outranks the items of the queue that its fields and bases name.
    abbrev pub Ranked : List Item → Type 0
    Ranked queue =
        (x : Item)
        → Memᴰ x queue
        → (d : QualifiedName) → Memᴰ d (field_and_base_deps x)
        → Memᴰ d (map name queue)
        → rank d < rank (name x)

    record Inv (it : DepthFirstIter h) : Type 0 where
      distinct : Distinct (map name it.queue)
      named : (d : QualifiedName) → contains it.yet_to_do d ≡ true → Memᴰ d (map name it.queue)
      ranked : Ranked it.queue

    not-All-blocked :
        (it : DepthFirstIter h)
        → Inv it
        → (x : Item) (rest : List Item) → it.queue ≡ x ∷ rest
        → All (λ y. blocked h it.yet_to_do y ≡ true) it.queue
        → ⊥
    unfolding blocked
    not-All-blocked it inv x rest shape waits =
        let (m, l) = IsLeast-item name rank x rest in
        let there = subst (Memᴰ m) (sym shape) l.there in
        let (d, dep, yet) =
          any-true (contains it.yet_to_do) (field_and_base_deps m)
            (All-mem (λ y. blocked h it.yet_to_do y ≡ true) it.queue waits there) in
        let (y, k, e) = Memᴰ-map-inv name d it.queue (inv.named d yet) in
        let below = inv.ranked m there d dep (inv.named d yet) in
        omega (arith, below, l.least y (subst (Memᴰ y) shape k), ap rank e)

    next_progresses_at :
        (it : DepthFirstIter h) → Inv it → (q : List Item) → it.queue ≡ q → next h it ≢ panicked
    unfolding next next_from
    next_progresses_at it inv [] e = λ stop. ground arith
    next_progresses_at it inv (x ∷ rest) e = elim (first_free it.yet_to_do it.queue) [
      | inl waits ↦ absurd (not-All-blocked it inv x rest e waits)
      | inr (pre, c, post, shape, before, free) ↦
          let names : Distinct (map name (pre ++ c ∷ post)) =
            subst (λ q. Distinct (map name q)) shape inv.distinct in
          subst (λ q. next_from h (suc (length q)) (front_name h q) q it.yet_to_do ≢ panicked)
            (sym shape) (next_reaches pre post c it.yet_to_do names before free)
    ]

    next-Inv :
        (it : DepthFirstIter h) (x : Item) (it' : DepthFirstIter h)
        → next h it ≡ yielded x it'
        → Inv it
        → Inv it'
    next-Inv it x it' step inv =
        let r = next-IsReady h it x it' step in
        let older = λ (y : Item) (m : Memᴰ y it'.queue). Memᴰ-perm y r.moved (Memᴰ.tail m) in
        let names = Permᴰ.map name r.moved in
        record {
          distinct = (Distinct-perm (Permᴰ.symm names) inv.distinct).1;
          named = λ d e.
              let kept = contains-set_remove (name x) it.yet_to_do d in
              elim (Memᴰ.cases_cons (
                Memᴰ-perm d (Permᴰ.symm names)
                  (inv.named d (ground (arith, kept, r.crossed_off))))) [
                    | inl same ↦ ground (arith, kept, r.crossed_off, name_beq_iff (name x) d)
                    | inr later ↦ later
                  ];
          ranked = λ y m d dep k. inv.ranked y (older y m) d dep (Memᴰ-perm d names (Memᴰ.tail k));
        }

    drain_from_completes :
        (fuel : ℕ) (it : DepthFirstIter h) → Inv it → drain_from h fuel it ≢ circular
    unfolding drain_from
    drain_from_completes zero it inv = λ e. cc
    drain_from_completes (suc fuel) it inv = at (drain_from_completes fuel) (next h it) refl
      where
        at :
            ((it' : DepthFirstIter h) → Inv it' → drain_from h fuel it' ≢ circular)
            → (n : Next h) → next h it ≡ n
            → drain_from h (suc fuel) it ≢ circular
        at rec (yielded x it') step e =
            prepend_completes h x (drain_from h fuel it') (rec it' (next-Inv it x it' step inv))
              (rw (step, drain_from) at e)
        at rec finished step e = ground arith
        at rec panicked step e = next_progresses_at it inv it.queue refl step
        at rec out_of_fuel step e = ground arith

    drain_completes :
        (inputs : List Item)
        → Distinct (map name inputs)
        → Ranked inputs
        → (drain h inputs ≢ circular) × (drain h inputs ≢ unfinished)
    unfolding drain fields_and_bases_first
    drain_completes inputs distinct ranked = (
      drain_from_completes (suc (length inputs)) (fields_and_bases_first h inputs) (record {
        distinct = distinct;
        named = λ d e.
            ground
              (arith, contains-to_set [] (map name inputs) d, contains_iff (map name inputs) d);
        ranked = ranked;
      }),
      drain_from_total h (suc (length inputs)) (fields_and_bases_first h inputs) (omega arith),
    )

    -- Where the names are distinct and every item outranks the items that its fields and bases
    -- name, so that no dependency is circular, the iteration comes to its end without a panic. It
    -- gives each input once, behind all the inputs that it depends on.
    pub fields_and_bases_first_completes :
        (inputs : List Item)
        → Distinct (map name inputs)
        → Ranked inputs
        → (out : List Item) × (drain h inputs ≡ all_done out)
          × Permᴰ out inputs
          × IsOrdered h (map name inputs) [] out
    fields_and_bases_first_completes inputs distinct ranked =
        let (panics_not, ends) = drain_completes inputs distinct ranked in
        let (out, e) = completed h (drain h inputs) panics_not ends in
        let (moved, ordered) = fields_and_bases_first-IsOrdered h inputs out e in
        (out, e, moved, ordered)
