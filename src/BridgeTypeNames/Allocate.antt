-- ===== src/BridgeTypeNames/Allocate.antt =====
-- `allocate` of bridge_type_names.rs: its loop, and the name that it takes.
use mathlib.Core.List.Memᴰ
use autocxx.Prelude.{
  ℕ, zero, suc, ◌+◌, ◌<◌, ◌≡◌, ◌≢◌, refl, subst, true, false, Memᴰ, codes, decimal, join, List, [],
  ◌∷◌, ◌++◌, none, some, contains, length, arith, Text, list_eq, nat_eq, free_candidate,
}
use autocxx.Names.{QualifiedName, Syn, segment_iter, validate_ident_ok_for_cxx_total}
use autocxx.BridgeTypeNames.{
  candidate, Allocation, allocated, refused, number_from, numbered_name, allocate,
  collapse_underscore_runs, qualified_name,
}
use autocxx.BridgeTypeNames.Underscores.{candidate_injective}

-- What the grammar of identifiers says of the names that the bridge makes up: identifiers joined by
-- an underscore are one, and so are an identifier with a number behind it and one whose runs of
-- underscores are reduced.
pub record IdentGrammar (syn : Syn) : Type 0 where
  pub joined :
      (s t : Text)
      → syn.lexes s ≡ true
      → syn.lexes t ≡ true
      → syn.lexes (s ++ (codes "_" ++ t)) ≡ true
  pub numbered :
      (s : Text) (n : ℕ)
      → syn.lexes s ≡ true
      → syn.lexes (s ++ (codes "_autocxx" ++ decimal n)) ≡ true
  pub collapsed : (s : Text) → syn.lexes s ≡ true → syn.lexes (collapse_underscore_runs s) ≡ true

-- Every segment of a name is an identifier.
abbrev pub NameLexes : Syn → QualifiedName → Type 0
NameLexes syn q = (segment : Text) → Memᴰ segment (segment_iter q) → syn.lexes segment ≡ true

module _ (syn : Syn) (grammar : IdentGrammar syn) where
  candidate-lexes :
      (stem : Text) (n : ℕ) → syn.lexes stem ≡ true → syn.lexes (candidate stem n) ≡ true
  unfolding candidate
  candidate-lexes stem n h = grammar.collapsed _ (grammar.numbered stem n h)

  join-lexes :
      (first : Text) (rest : List Text)
      → ((segment : Text) → Memᴰ segment (first ∷ rest) → syn.lexes segment ≡ true)
      → syn.lexes (join (codes "_") (first ∷ rest)) ≡ true
  join-lexes first [] h = h first (Memᴰ.head refl)
  join-lexes first (next ∷ rest) h =
      grammar.joined first (join (codes "_") (next ∷ rest)) (h first (Memᴰ.head refl))
        (join-lexes next rest (λ segment m. h segment (Memᴰ.tail m)))

  item-lexes : (q : QualifiedName) → NameLexes syn q → syn.lexes q.item ≡ true
  unfolding segment_iter
  item-lexes q h = h q.item (Memᴰ.append_right q.namespace (Memᴰ.head refl))

  qualified-lexes :
      (q : QualifiedName)
      → NameLexes syn q
      → syn.lexes (collapse_underscore_runs (qualified_name q)) ≡ true
  unfolding segment_iter
  qualified-lexes q h = grammar.collapsed (qualified_name q) (at q.namespace refl)
    where
      at : (ns : List Text) → q.namespace ≡ ns → syn.lexes (qualified_name q) ≡ true
      at [] e = rw e (item-lexes q h)
      at (first ∷ rest) e = rw e (
          join-lexes first (rest ++ q.item ∷ []) (
            subst
              (λ ns. (segment : Text) → Memᴰ segment (ns ++ q.item ∷ []) → syn.lexes segment ≡ true)
              e h))

  number_from-finds :
      (fuel : ℕ) (stem : Text) (taken : List Text) (counter k : ℕ)
      → syn.lexes stem ≡ true
      → k < fuel
      → contains taken (candidate stem (counter + k)) ≡ false
      → number_from syn fuel stem taken counter ≢ none
  unfolding number_from
  number_from-finds zero stem taken counter k named lt free = absurd (omega arith)
  number_from-finds (suc fuel) stem taken counter zero named lt free = ground (
    arith,
    validate_ident_ok_for_cxx_total syn (candidate stem counter)
        (candidate-lexes stem counter named),
  )
  number_from-finds (suc fuel) stem taken counter (suc k) named lt free =
      let ih =
        number_from-finds fuel stem taken (counter + 1) k named (omega arith) (ground arith) in
      ground (
        arith,
        ih,
        validate_ident_ok_for_cxx_total syn (candidate stem counter)
            (candidate-lexes stem counter named),
      )

  numbered_name_total :
      (stem : Text) (taken : List Text)
      → syn.lexes stem ≡ true
      → numbered_name syn stem taken ≢ none
  unfolding numbered_name
  numbered_name_total stem taken named =
      let (k, within, free) = free_candidate (candidate stem) (candidate_injective stem) taken 1 in
      number_from-finds (suc (length taken)) stem taken 1 k named (omega arith) free

  -- An allocation is of a free name, which is taken from then on.
  abbrev pub IsFresh : List Text → Allocation → Type 0
  IsFresh taken (allocated chosen taken') =
      (contains taken chosen ≡ false) × (taken' ≡ taken ++ chosen ∷ [])
  IsFresh taken (refused why) = Unit

  number_from-IsFresh :
      (fuel : ℕ) (stem : Text) (taken : List Text) (counter : ℕ) (a : Allocation)
      → number_from syn fuel stem taken counter ≡ some a
      → IsFresh taken a
  unfolding number_from
  number_from-IsFresh zero stem taken counter a e = cc
  number_from-IsFresh (suc fuel) stem taken counter (refused why) e = tt
  number_from-IsFresh (suc fuel) stem taken counter (allocated chosen taken') e =
      ground (arith, number_from-IsFresh fuel stem taken (counter + 1) (allocated chosen taken'))

  -- Every type is given a name or refused one: the loop ends.
  pub allocate_total :
      (name : QualifiedName) (taken : List Text)
      → NameLexes syn name
      → allocate syn name taken ≢ none
  unfolding allocate
  allocate_total name taken named = ground (
    arith,
    numbered_name_total (collapse_underscore_runs (qualified_name name)) taken
        (qualified-lexes name named),
    numbered_name_total name.item taken (item-lexes name named),
    validate_ident_ok_for_cxx_total syn (collapse_underscore_runs (qualified_name name))
        (qualified-lexes name named),
  )

  pub allocate-IsFresh :
      (name : QualifiedName) (taken : List Text) (a : Allocation)
      → allocate syn name taken ≡ some a
      → IsFresh taken a
  unfolding allocate numbered_name
  allocate-IsFresh name taken (refused why) e = tt
  allocate-IsFresh name taken (allocated chosen taken') e =
      let stem = collapse_underscore_runs (qualified_name name) in
      ground (
        arith,
        number_from-IsFresh (suc (length taken)) stem taken 1 (allocated chosen taken'),
        number_from-IsFresh (suc (length taken)) name.item taken 1 (allocated chosen taken'),
      )

  -- A name that is given is an identifier.
  abbrev Lexes : Allocation → Type 0
  Lexes (allocated chosen taken') = syn.lexes chosen ≡ true
  Lexes (refused why) = Unit

  number_from-Lexes :
      (fuel : ℕ) (stem : Text) (taken : List Text) (counter : ℕ) (a : Allocation)
      → syn.lexes stem ≡ true
      → number_from syn fuel stem taken counter ≡ some a
      → Lexes a
  unfolding number_from
  number_from-Lexes zero stem taken counter a named e = cc
  number_from-Lexes (suc fuel) stem taken counter (refused why) named e = tt
  number_from-Lexes (suc fuel) stem taken counter (allocated chosen taken') named e = ground (
    arith,
    number_from-Lexes fuel stem taken (counter + 1) (allocated chosen taken') named,
    candidate-lexes stem counter named,
  )

  pub allocate-lexes :
      (name : QualifiedName) (taken : List Text) (chosen : Text) (taken' : List Text)
      → NameLexes syn name
      → allocate syn name taken ≡ some (allocated chosen taken')
      → syn.lexes chosen ≡ true
  unfolding allocate numbered_name
  allocate-lexes name taken chosen taken' named e =
      let stem = collapse_underscore_runs (qualified_name name) in
      let qualified = qualified-lexes name named in
      let item = item-lexes name named in
      ground (
        arith,
        qualified,
        item,
        number_from-Lexes (suc (length taken)) stem taken 1 (allocated chosen taken') qualified,
        number_from-Lexes (suc (length taken)) name.item taken 1 (allocated chosen taken') item,
      )
