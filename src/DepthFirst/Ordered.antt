-- ===== src/DepthFirst/Ordered.antt =====
-- One call of `next` of depth_first.rs, and the order of a run.
use autocxx.Prelude.{
  ℕ, zero, suc, ◌<◌, ◌≡◌, ◌≢◌, refl, subst, ap, ◌∙◌, Bool, true, false, List, [], ◌∷◌, ◌++◌,
  append_assoc, append-nil, Option, some, map, any, contains, contains_iff, set_remove, length,
  length-append, option_eq, option_beq_iff, arith, Bool-cases, inl, inr, contains-set_remove,
  contains-to_set, Memᴰ, length-perm, Memᴰ-cons, ◌⊎◌,
}
use mathlib.Core.List.{Permᴰ}
use mathlib.Core.List.Permᴰ
use mathlib.Core.List.Memᴰ
use autocxx.Names.{QualifiedName, name_eq, name_beq_iff}
use autocxx.DepthFirst.{
  HasFieldsAndBases, DepthFirstIter, Next, yielded, finished, panicked, out_of_fuel, blocked,
  front_name, next_from, next, fields_and_bases_first, all_done, circular, unfinished, prepend,
  Drained, drain_from, drain,
}

module _ (h : HasFieldsAndBases) where
  open h use {Item, name, field_and_base_deps}

  front_name-append :
      (xs ys : List Item) (x : Item)
      → front_name h ((xs ++ x ∷ []) ++ ys) ≡ front_name h (xs ++ x ∷ [])
  front_name-append [] ys x = refl
  front_name-append (y ∷ xs) ys x = refl

  -- `rest` is still to be looked at in this call, and `pre` was put back.
  next_from-ends :
      (fuel : ℕ) (first : Option QualifiedName) (x : Item) (rest pre : List Item)
      (yet : List QualifiedName)
      → front_name h (pre ++ x ∷ []) ≡ first
      → length rest < fuel
      → next_from h fuel first (x ∷ rest ++ pre) yet ≢ out_of_fuel
  unfolding next_from
  next_from-ends zero first x rest pre yet e lt = absurd (omega arith)
  next_from-ends (suc fuel) first x [] pre yet e lt =
      ground (arith, option_beq_iff (front_name h (pre ++ x ∷ [])) first)
  next_from-ends (suc fuel) first x (y ∷ rest) pre yet e lt =
      let ih =
        next_from-ends fuel first y rest (pre ++ x ∷ []) yet (front_name-append pre (y ∷ []) x ∙ e)
          (omega arith) in
      ground (arith, ih, append_assoc rest pre (x ∷ []))

  next_queue_total :
      (queue : List Item) (yet : List QualifiedName)
      → next_from h (suc (length queue)) (front_name h queue) queue yet ≢ out_of_fuel
  unfolding next_from
  next_queue_total [] yet = λ e. cc
  next_queue_total (x ∷ rest) yet =
      rw append-nil at
        (next_from-ends (suc (suc (length rest))) (some (name x)) x rest [] yet refl (omega arith))

  -- A call of `next` ends: after one turn of the queue it panics.
  pub next_total : (it : DepthFirstIter h) → next h it ≢ out_of_fuel
  unfolding next
  next_total it = next_queue_total it.queue it.yet_to_do

  pub record IsReady (queue : List Item) (yet : List QualifiedName) (x : Item)
      (it : DepthFirstIter h) : Type 0 where
    pub moved : Permᴰ (x ∷ it.queue) queue
    pub ready : any (contains yet) (field_and_base_deps x) ≡ false
    pub crossed_off : it.yet_to_do ≡ set_remove (name x) yet

  next_from-IsReady :
      (fuel : ℕ) (first : Option QualifiedName) (queue : List Item) (yet : List QualifiedName)
      (x : Item) (it : DepthFirstIter h)
      → next_from h fuel first queue yet ≡ yielded x it
      → IsReady queue yet x it
  unfolding next_from blocked
  next_from-IsReady zero first queue yet x it e = cc
  next_from-IsReady (suc fuel) first [] yet x it e = cc
  next_from-IsReady (suc fuel) first (c ∷ queue) yet x it e =
      elim (Bool-cases (any (contains yet) (field_and_base_deps c))) [
        | inl waits ↦
            let ih = next_from-IsReady fuel first (queue ++ c ∷ []) yet x it (ground arith) in
            record {
              moved = Permᴰ.trans ih.moved (
                  Permᴰ.trans (Permᴰ.middle c queue []) (Permᴰ.cons refl (Permᴰ.append-nil queue)));
              ready = ih.ready;
              crossed_off = ih.crossed_off;
            }
        | inr free ↦
            let same : x ≡ c = ground arith in
            record {
              moved =
                  subst (λ q. Permᴰ (x ∷ q) (c ∷ queue)) {x = queue} (ground arith)
                    (Permᴰ.cons same (Permᴰ.refl queue));
              ready = rw same free;
              crossed_off = ground arith;
            }
      ]

  -- Each item stands behind the items of its dependencies, as far as `known` names them.
  abbrev pub IsOrdered : (known seen : List QualifiedName) → List Item → Type 0
  IsOrdered known seen [] = Unit
  IsOrdered known seen (x ∷ xs) =
      ((d : QualifiedName) → Memᴰ d (field_and_base_deps x) → Memᴰ d known → Memᴰ d seen)
      × IsOrdered known (name x ∷ seen) xs

  any-false :
      (p : QualifiedName → Bool) (ds : List QualifiedName) (d : QualifiedName)
      → any p ds ≡ false
      → Memᴰ d ds
      → p d ≡ false
  any-false p [] d e m = absurd (Memᴰ.not-nil m)
  any-false p (c ∷ ds) d e m = ground (arith, Memᴰ-cons d c ds, any-false p ds d)

  next_from-finished :
      (fuel : ℕ) (first : Option QualifiedName) (queue : List Item) (yet : List QualifiedName)
      → next_from h fuel first queue yet ≡ finished
      → queue ≡ []
  unfolding next_from
  next_from-finished zero first queue yet e = cc
  next_from-finished (suc fuel) first [] yet e = refl
  next_from-finished (suc fuel) first (c ∷ queue) yet e =
      let ih = next_from-finished fuel first (queue ++ c ∷ []) yet in
      let more = length-append queue (c ∷ []) in
      ground (arith, ih, λ (q : queue ++ c ∷ [] ≡ []). ap length q)

  prepend-inv :
      (x : Item) (d : Drained h) (out : List Item)
      → prepend h x d ≡ all_done out
      → (rest : List Item) × (d ≡ all_done rest) × (out ≡ x ∷ rest)
  prepend-inv x (all_done xs) out e = (xs, refl, cc)
  prepend-inv x circular out e = cc
  prepend-inv x unfinished out e = cc

  prepend_finishes : (x : Item) (d : Drained h) → d ≢ unfinished → prepend h x d ≢ unfinished
  prepend_finishes x (all_done xs) ends e = cc
  prepend_finishes x circular ends e = cc
  prepend_finishes x unfinished ends e = ends refl

  abbrev Round : ℕ → DepthFirstIter h → List Item → Type 0
  Round fuel it out =
      (next h it ≡ finished) × (out ≡ [])
      ⊎ ((x : Item) × (it' : DepthFirstIter h) × (rest : List Item) × (next h it ≡ yielded x it')
          × (drain_from h fuel it' ≡ all_done rest)
          × (out ≡ x ∷ rest))

  drain_from-inv :
      (fuel : ℕ) (it : DepthFirstIter h) (out : List Item) (n : Next h)
      → next h it ≡ n
      → drain_from h (suc fuel) it ≡ all_done out
      → Round fuel it out
  unfolding drain_from
  drain_from-inv fuel it out (yielded x it') step e =
      let (rest, more, shape) =
        prepend-inv x (drain_from h fuel it') out (rw (step, drain_from) at e) in
      inr (x, it', rest, step, more, shape)
  drain_from-inv fuel it out finished step e = inl (step, ground arith)
  drain_from-inv fuel it out panicked step e = ground arith
  drain_from-inv fuel it out out_of_fuel step e = ground arith

  pub next-IsReady :
      (it : DepthFirstIter h) (x : Item) (it' : DepthFirstIter h)
      → next h it ≡ yielded x it'
      → IsReady it.queue it.yet_to_do x it'
  unfolding next
  next-IsReady it x it' e =
      next_from-IsReady (suc (length it.queue)) (front_name h it.queue) it.queue it.yet_to_do x it'
        e

  next-finished : (it : DepthFirstIter h) → next h it ≡ finished → it.queue ≡ []
  unfolding next
  next-finished it e =
      next_from-finished (suc (length it.queue)) (front_name h it.queue) it.queue it.yet_to_do e

  abbrev Covers : List QualifiedName → List QualifiedName → List QualifiedName → Type 0
  Covers known yet seen = (d : QualifiedName) → Memᴰ d known → (contains yet d ≡ true) ⊎ Memᴰ d seen

  drain_from_sound :
      (known : List QualifiedName) (fuel : ℕ) (it : DepthFirstIter h) (out : List Item)
      (seen : List QualifiedName)
      → Covers known it.yet_to_do seen
      → drain_from h fuel it ≡ all_done out
      → Permᴰ out it.queue × IsOrdered known seen out
  unfolding drain_from
  drain_from_sound known zero it out seen cover e = cc
  drain_from_sound known (suc fuel) it out seen cover e =
      elim (drain_from-inv fuel it out (next h it) refl e) [
        | inl (ends, nothing) ↦ rw nothing (rw (next-finished it ends) Permᴰ.nil, tt)
        | inr (x, it', rest, step, more, shape) ↦
            let r = next-IsReady it x it' step in
            let (moved, ordered) =
              drain_from_sound known fuel it' rest (name x ∷ seen)
                (λ d m. ground (
                  arith,
                  cover d m,
                  contains-set_remove (name x) it.yet_to_do d,
                  r.crossed_off,
                  Memᴰ-cons d (name x) seen,
                  name_beq_iff (name x) d,
                ))
                more in
            rw shape (
              Permᴰ.trans (Permᴰ.cons refl moved) r.moved,
              (
                λ d md mk.
                    let free =
                      any-false (contains it.yet_to_do) (field_and_base_deps x) d r.ready md in
                    ground (arith, cover d mk, free),
                ordered,
              ),
            )
      ]

  -- Where the iteration comes to its end, it gave each input once, and each behind all the inputs
  -- that its fields and bases name.
  pub fields_and_bases_first-IsOrdered :
      (inputs out : List Item)
      → drain h inputs ≡ all_done out
      → Permᴰ out inputs × IsOrdered (map name inputs) [] out
  unfolding drain fields_and_bases_first
  fields_and_bases_first-IsOrdered inputs out e =
      drain_from_sound (map name inputs) (suc (length inputs)) (fields_and_bases_first h inputs) out
        []
        (λ d m. inl (
          ground (arith, contains-to_set [] (map name inputs) d, contains_iff (map name inputs) d)))
        e

  pub drain_from_total :
      (fuel : ℕ) (it : DepthFirstIter h)
      → length it.queue < fuel
      → drain_from h fuel it ≢ unfinished
  unfolding drain_from
  drain_from_total zero it lt = absurd (omega arith)
  drain_from_total (suc fuel) it lt = at (drain_from_total fuel) (next h it) refl
    where
      at :
          ((it' : DepthFirstIter h) → length it'.queue < fuel → drain_from h fuel it' ≢ unfinished)
          → (n : Next h) → next h it ≡ n
          → drain_from h (suc fuel) it ≢ unfinished
      at rec (yielded x it') step e =
          let r = next-IsReady it x it' step in
          let ends = rec it' (omega (arith, length-perm r.moved)) in
          prepend_finishes x (drain_from h fuel it') ends (rw (step, drain_from) at e)
      at rec finished step e = ground arith
      at rec panicked step e = ground arith
      at rec out_of_fuel step e = next_total it step
