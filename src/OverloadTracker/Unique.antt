-- ===== src/OverloadTracker/Unique.antt =====
-- Runs of the tracker of overload_tracker.rs: the search for a suffix, and the names of a scope.
use autocxx.Prelude.{
  ℕ, zero, suc, ◌+◌, ◌<◌, ◌≡◌, ◌≢◌, refl, ◌∙◌, inl, inr, false, ◌&&◌, not, List, [], ◌∷◌, ◌++◌,
  Option, none, some, arith, nat_eq, list_eq, option_eq, Text, decimal, decimal_injective,
  lookup-insert, contains, contains-append, length, if◌then◌else◌, free_candidate, Bool-cases,
  Option-cases, Memᴰ, Distinct, append_cancel_left, list_beq_iff, ◌==◌, some_injective,
  option_beq_iff, sym, subst,
}
use mathlib.Core.List.Memᴰ
use mathlib.Core.Option
use autocxx.OverloadTracker.{
  ScopeNames, OverloadTracker, scope_of, reserved_of, with_scope, count_at, find_suffix, max1,
  name_in_scope, get_name, Request, name_all,
}

candidate_injective : (name : Text) (m n : ℕ) → name ++ decimal m ≡ name ++ decimal n → m ≡ n
candidate_injective name m n h = decimal_injective m n (append_cancel_left name h)

module _ (reserved assigned : List Text) (name : Text) where
  find_suffix-finds :
      (fuel n k : ℕ)
      → k < fuel
      → contains (reserved ++ assigned) (name ++ decimal (n + k)) ≡ false
      → (c : Text) × (find_suffix fuel reserved assigned name n ≡ some c)
  unfolding find_suffix
  find_suffix-finds zero n k h free = absurd (omega arith)
  find_suffix-finds (suc fuel) n zero h free =
      (name ++ decimal n, ground (arith, contains-append reserved assigned (name ++ decimal n)))
  find_suffix-finds (suc fuel) n (suc k) h free =
      let (c, e) = find_suffix-finds fuel (n + 1) k (omega arith) (ground arith) in
      elim (Bool-cases (
        not (contains reserved (name ++ decimal n))
        && not (contains assigned (name ++ decimal n)))) [
          | inl now ↦ (name ++ decimal n, rw now)
          | inr later ↦ (c, rw later e)
        ]

  -- The fuel that `name_in_scope` gives is enough.
  find_suffix_total :
      (n : ℕ)
      → (c : Text) × (find_suffix (suc (length (reserved ++ assigned))) reserved assigned name n
          ≡ some c)
  find_suffix_total n =
      let (k, within, free) =
        free_candidate (λ i. name ++ decimal i) (candidate_injective name) (reserved ++ assigned)
          n in
      find_suffix-finds (suc (length (reserved ++ assigned))) n k (omega arith) free

  find_suffix_free :
      (fuel n : ℕ) (c : Text)
      → find_suffix fuel reserved assigned name n ≡ some c
      → (contains reserved c ≡ false) × (contains assigned c ≡ false)
  unfolding find_suffix
  find_suffix_free zero n c h = cc
  find_suffix_free (suc fuel) n c h = ground (arith, find_suffix_free fuel (n + 1) c)

module _ (reserved : List Text) (scope : ScopeNames) (name : Text) (original : Option Text) where
  name_in_scope_total : name_in_scope reserved scope name original ≢ none
  unfolding name_in_scope
  name_in_scope_total = ground (
    arith,
    (find_suffix_total reserved scope.assigned name (max1 (count_at name scope.offsets))).1,
  )

  -- The name is new to the scope, which then holds it beside all it held; a name that is not the
  -- one asked for is not reserved either.
  record IsFresh (answer : Text × Option ℕ) (s : ScopeNames) : Type 0 where
    new : contains scope.assigned answer.0 ≡ false
    held : s.assigned ≡ scope.assigned ++ answer.0 ∷ []
    suffixed : answer.0 ≢ name → contains reserved answer.0 ≡ false

  name_in_scope-IsFresh :
      (answer : Text × Option ℕ) (s : ScopeNames)
      → name_in_scope reserved scope name original ≡ some (answer, s)
      → IsFresh answer s
  unfolding name_in_scope
  name_in_scope-IsFresh answer s h = ground (
    arith,
    find_suffix_free reserved scope.assigned name (suc (length (reserved ++ scope.assigned)))
        (max1 (count_at name scope.offsets)) answer.0,
  )

abbrev assigned_in : OverloadTracker → Option Text → List Text
assigned_in t type_name = (scope_of t type_name).assigned

-- A scope reads back as it was written, and no other scope changes.
scope_of-with_scope :
    (t : OverloadTracker) (k j : Option Text) (s : ScopeNames)
    → scope_of (with_scope t k s) j ≡ (if k == j then s else scope_of t j)
unfolding scope_of with_scope
scope_of-with_scope t none none s = refl
scope_of-with_scope t none (some j) s = refl
scope_of-with_scope t (some k) none s = refl
scope_of-with_scope t (some k) (some j) s =
    ground (arith, lookup-insert k j s t.method_names_by_type)

reserved_of-with_scope :
    (t : OverloadTracker) (k j : Option Text) (s : ScopeNames)
    → reserved_of (with_scope t k s) j ≡ reserved_of t j
unfolding reserved_of with_scope
reserved_of-with_scope t none none s = refl
reserved_of-with_scope t none (some j) s = refl
reserved_of-with_scope t (some k) none s = refl
reserved_of-with_scope t (some k) (some j) s = refl

-- What one request does to the tracker.
get_name-inv :
    (t : OverloadTracker) (type_name : Option Text) (name : Text) (original : Option Text)
    (answer : Text × Option ℕ) (t' : OverloadTracker)
    → get_name t type_name name original ≡ some (answer, t')
    → (s : ScopeNames) × (name_in_scope
          (reserved_of t type_name)
          (scope_of t type_name)
          name
          original
        ≡ some (answer, s))
      × (t' ≡ with_scope t type_name s)
unfolding get_name
get_name-inv t type_name name original answer t' h =
    elim (Option-cases
      (name_in_scope (reserved_of t type_name) (scope_of t type_name) name original)) [
        | inl stuck ↦ ground arith
        | inr ((a, s), e) ↦ (s, ground arith, ground arith)
      ]

-- The answer of one request is new to its scope and is held there afterwards; the other scopes
-- hold what they held.
get_name-assigned :
    (t : OverloadTracker) (type_name : Option Text) (name : Text) (original : Option Text)
    (answer : Text × Option ℕ) (t' : OverloadTracker) (j : Option Text)
    → get_name t type_name name original ≡ some (answer, t')
    → (contains (assigned_in t type_name) answer.0 ≡ false)
      × (assigned_in t' j
          ≡ (if type_name == j then assigned_in t type_name ++ answer.0 ∷ [] else assigned_in t j))
get_name-assigned t type_name name original answer t' j h =
    let (s, e, written) = get_name-inv t type_name name original answer t' h in
    let fresh =
      name_in_scope-IsFresh (reserved_of t type_name) (scope_of t type_name) name original answer s
        e in
    (
      fresh.new,
      let read = scope_of-with_scope t type_name j s in ground (arith, read, written, fresh.held),
    )

-- An answer other than the name asked for, a numbered one, is never a name that some real function
-- of the scope reserved.
pub get_name_avoids_reserved :
    (t : OverloadTracker) (type_name : Option Text) (name : Text) (original : Option Text)
    (answer : Text × Option ℕ) (t' : OverloadTracker)
    → get_name t type_name name original ≡ some (answer, t')
    → answer.0 ≢ name
    → contains (reserved_of t type_name) answer.0 ≡ false
get_name_avoids_reserved t type_name name original answer t' h other =
    let (s, e, written) = get_name-inv t type_name name original answer t' h in
    (name_in_scope-IsFresh (reserved_of t type_name) (scope_of t type_name) name original answer s
        e).suffixed
      other

get_name_total :
    (t : OverloadTracker) (type_name : Option Text) (name : Text) (original : Option Text)
    → get_name t type_name name original ≢ none
unfolding get_name
get_name_total t type_name name original =
    ground
      (arith, name_in_scope_total (reserved_of t type_name) (scope_of t type_name) name original)

-- Every request of a run is answered: no search for a suffix goes on for ever.
pub name_all_total : (t : OverloadTracker) (rs : List Request) → name_all t rs ≢ none
unfolding name_all
name_all_total t [] h = cc
name_all_total t (r ∷ rs) h =
    elim (Option-cases (get_name t r.type_name r.found_name r.original_name)) [
      | inl stuck ↦ get_name_total t r.type_name r.found_name r.original_name stuck
      | inr ((a, t'), e) ↦ ground (arith, name_all_total t' rs)
    ]

name_all-inv :
    (t : OverloadTracker) (r : Request) (rs : List Request) (names : List (Option Text × Text))
    → name_all t (r ∷ rs) ≡ some names
    → (answer : Text × Option ℕ) × (t' : OverloadTracker) × (rest : List (Option Text × Text))
      × (get_name t r.type_name r.found_name r.original_name ≡ some (answer, t'))
      × (name_all t' rs ≡ some rest)
      × (names ≡ (r.type_name, answer.0) ∷ rest)
unfolding name_all
name_all-inv t r rs names h =
    elim (Option-cases (get_name t r.type_name r.found_name r.original_name)) [
      | inl stuck ↦ ground arith
      | inr ((a, t'), e) ↦ elim (Option-cases (name_all t' rs)) [
        | inl stuck ↦ ground arith
        | inr (rest, f) ↦ (a, t', rest, ground arith, ground arith, ground arith)
      ]
    ]

-- No name that a scope holds at the start is given out again there.
name_all_avoids :
    (t : OverloadTracker) (rs : List Request) (names : List (Option Text × Text)) (j : Option Text)
    (n : Text)
    → name_all t rs ≡ some names
    → Memᴰ (j, n) names
    → contains (assigned_in t j) n ≡ false
unfolding name_all
name_all_avoids t [] names j n h m =
    absurd (Memᴰ.not-nil (subst (Memᴰ (j, n)) (some_injective (sym h)) m))
name_all_avoids t (r ∷ rs) names j n h m =
    let (a, t', rest, one, more, e) = name_all-inv t r rs names h in
    let (new, kept) = get_name-assigned t r.type_name r.found_name r.original_name a t' j one in
    elim (Memᴰ.cases_cons (subst (Memᴰ (j, n)) e m)) [
      | inl here ↦ ground arith
      | inr later ↦
          let ih = name_all_avoids t' rs rest j n more later in
          ground (
            arith,
            contains-append (assigned_in t r.type_name) (a.0 ∷ []) n,
            option_beq_iff r.type_name j,
          )
    ]

-- In a run from any state, no two requests of one scope get the same name, whether their names were
-- reserved before or not.
pub name_all-Distinct :
    (t : OverloadTracker) (rs : List Request) (names : List (Option Text × Text))
    → name_all t rs ≡ some names
    → Distinct names
unfolding name_all
name_all-Distinct t [] names h = rw (some_injective (sym h)) tt
name_all-Distinct t (r ∷ rs) names h =
    let (a, t', rest, one, more, e) = name_all-inv t r rs names h in
    let (new, kept) =
      get_name-assigned t r.type_name r.found_name r.original_name a t' r.type_name one in
    rw e (
      λ m.
          let avoided = name_all_avoids t' rs rest r.type_name a.0 more m in
          ground (
            arith,
            contains-append (assigned_in t r.type_name) (a.0 ∷ []) a.0,
            option_beq_iff r.type_name r.type_name,
            list_beq_iff a.0 a.0,
          ),
      name_all-Distinct t' rs rest more,
    )

answer_of-get_name :
    (t : OverloadTracker) (j : Option Text) (name : Text) (original : Option Text)
    → Option.map (λ r. r.0) (get_name t j name original)
      ≡ Option.map (λ r. r.0) (name_in_scope (reserved_of t j) (scope_of t j) name original)
unfolding get_name
answer_of-get_name t j name original =
    elim (Option-cases (name_in_scope (reserved_of t j) (scope_of t j) name original)) [
      | inl stuck ↦ rw (stuck, get_name) refl
      | inr (a, e) ↦ rw (e, get_name) refl
    ]

-- A request in one scope leaves the answers in every other scope as they are.
pub get_name_other_scope :
    (t : OverloadTracker) (k j : Option Text) (name : Text) (original : Option Text)
    (answer : Text × Option ℕ) (t' : OverloadTracker) (name' : Text) (original' : Option Text)
    → k ≢ j
    → get_name t k name original ≡ some (answer, t')
    → Option.map (λ r. r.0) (get_name t' j name' original')
      ≡ Option.map (λ r. r.0) (get_name t j name' original')
get_name_other_scope t k j name original answer t' name' original' other h =
    let (s, e, written) = get_name-inv t k name original answer t' h in
    let scopes : scope_of t' j ≡ scope_of t j =
      let read = scope_of-with_scope t k j s in ground (arith, read, written, option_beq_iff k j) in
    let reserves : reserved_of t' j ≡ reserved_of t j =
      let read = reserved_of-with_scope t k j s in cc (read, written) in
    answer_of-get_name t' j name' original'
    ∙ rw (scopes, reserves) (sym (answer_of-get_name t j name' original'))
