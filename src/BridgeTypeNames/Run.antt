-- ===== src/BridgeTypeNames/Run.antt =====
-- `BridgeTypeNames::new` of bridge_type_names.rs: the names of all types.
use mathlib.Core.List.Memᴰ
use autocxx.Prelude.{
  ◌≡◌, refl, ap, Bool, true, false, ◌||◌, List, [], ◌∷◌, ◌++◌, Option, some, contains,
  contains-append, contains-to_set, to_set, lookup, insert, lookup-insert, is_some, arith, Text,
  list_eq, nat_eq, list_beq_iff, Bool-cases, Option-cases, inl, inr, Memᴰ,
}
use autocxx.Names.{QualifiedName, name_eq, name_beq_iff, Syn}
use autocxx.Api.{Api, api_name}
use autocxx.BridgeTypeNames.{
  Naming, allocated, refused, allocate, name_type, name_types, BridgeTypeNames_new,
  cxx_reserved_names, fixed_bridge_names, all_fixed_names, declares_bridge_type,
}
use autocxx.BridgeTypeNames.Allocate.{
  IdentGrammar, NameLexes, allocate_total, allocate-IsFresh, allocate-lexes,
}

-- A type that has been named, or refused a name.
abbrev pub is_settled : Naming → QualifiedName → Bool
is_settled s n = is_some (lookup n s.names) || is_some (lookup n s.unnameable)

record IsNaming (start : List Text) (s : Naming) : Type 0 where
  distinct :
      (n m : QualifiedName) (x : Text)
      → lookup n s.names ≡ some x
      → lookup m s.names ≡ some x
      → n ≡ m
  held : (n : QualifiedName) (x : Text) → lookup n s.names ≡ some x → contains s.taken x ≡ true
  fresh : (n : QualifiedName) (x : Text) → lookup n s.names ≡ some x → contains start x ≡ false
  grown : (x : Text) → contains start x ≡ true → contains s.taken x ≡ true

module _ (start : List Text) (s : Naming) (inv : IsNaming start s) (name : QualifiedName)
    (chosen : Text) (taken : List Text) (free : contains s.taken chosen ≡ false)
    (more : taken ≡ s.taken ++ chosen ∷ []) where
  takes_chosen : contains taken chosen ≡ true
  takes_chosen =
      rw more
        (ground (arith, contains-append s.taken (chosen ∷ []) chosen, list_beq_iff chosen chosen))

  keeps_taken : (x : Text) → contains s.taken x ≡ true → contains taken x ≡ true
  keeps_taken x h = rw more (ground (arith, contains-append s.taken (chosen ∷ []) x))

  named-IsNaming : IsNaming start (record s { taken = taken; names = insert name chosen s.names })
  named-IsNaming = record {
    distinct = λ n m x h k. ground (
      arith,
      lookup-insert name n chosen s.names,
      lookup-insert name m chosen s.names,
      name_beq_iff name n,
      name_beq_iff name m,
      inv.distinct n m x,
      inv.held n x,
      inv.held m x,
    );
    held = λ n x h.
        ground
          (arith, lookup-insert name n chosen s.names, inv.held n x, takes_chosen, keeps_taken x);
    fresh = λ n x h.
        ground (arith, lookup-insert name n chosen s.names, inv.fresh n x, inv.grown chosen);
    grown = λ x h. keeps_taken x (inv.grown x h);
  }

module _ (syn : Syn) (grammar : IdentGrammar syn) (start : List Text) where
  -- One API keeps the naming right, settles the API, and unsettles none.
  abbrev Named : Naming → List Api → Option Naming → Type 0
  Named s apis r =
      (s' : Naming) × (r ≡ some s')
      × IsNaming start s'
      × ((n : QualifiedName) → is_settled s n ≡ true → is_settled s' n ≡ true)
      × ((api : Api)
          → Memᴰ api apis
          → declares_bridge_type api ≡ true
          → is_settled s' (api_name api) ≡ true)

  name_type-Named :
      (s : Naming) (api : Api)
      → (declares_bridge_type api ≡ true → NameLexes syn (api_name api))
      → IsNaming start s
      → Named s (api ∷ []) (name_type syn s api)
  unfolding name_type
  name_type-Named s api lexes inv = elim (Bool-cases (declares_bridge_type api)) [
    | inr other ↦ (
      s,
      rw other refl,
      inv,
      λ n h. h,
      λ a m d. ground (arith, ap declares_bridge_type (Memᴰ.eq_of_singleton m)),
    )
    | inl declares ↦ elim (Option-cases (allocate syn (api_name api) s.taken)) [
      | inl stuck ↦
          absurd (allocate_total syn grammar (api_name api) s.taken (lexes declares) stuck)
      | inr (refused why, e) ↦ (
        record s { unnameable = insert (api_name api) why s.unnameable },
        rw (declares, e) refl,
        record { distinct = inv.distinct; held = inv.held; fresh = inv.fresh; grown = inv.grown },
        λ n h. ground (arith, lookup-insert (api_name api) n why s.unnameable),
        λ a m d. rw (Memᴰ.eq_of_singleton m) (
            ground (
              arith,
              lookup-insert (api_name api) (api_name api) why s.unnameable,
              name_beq_iff (api_name api) (api_name api),
            )),
      )
      | inr (allocated chosen taken, e) ↦
          let (free, more) =
            allocate-IsFresh syn grammar (api_name api) s.taken (allocated chosen taken) e in
          let named =
            allocate-lexes syn grammar (api_name api) s.taken chosen taken (lexes declares) e in
          (
            record s { taken = taken; names = insert (api_name api) chosen s.names },
            rw (declares, e) (rw named refl),
            named-IsNaming start s inv (api_name api) chosen taken free more,
            λ n h. ground (arith, lookup-insert (api_name api) n chosen s.names),
            λ a m d. rw (Memᴰ.eq_of_singleton m) (
                ground (
                  arith,
                  lookup-insert (api_name api) (api_name api) chosen s.names,
                  name_beq_iff (api_name api) (api_name api),
                )),
          )
    ]
  ]

  name_types-Named :
      (s : Naming) (apis : List Api)
      → ((api : Api)
          → Memᴰ api apis
          → declares_bridge_type api ≡ true
          → NameLexes syn (api_name api))
      → IsNaming start s
      → Named s apis (name_types syn s apis)
  unfolding name_types
  name_types-Named s [] lexes inv = (s, refl, inv, λ n h. h, λ a m d. absurd (Memᴰ.not-nil m))
  name_types-Named s (x ∷ apis) lexes inv =
      let (s₁, e₁, inv₁, kept₁, settled₁) =
        name_type-Named s x (λ d. lexes x (Memᴰ.head refl) d) inv in
      let (s₂, e₂, inv₂, kept₂, settled₂) =
        name_types-Named s₁ apis (λ a m d. lexes a (Memᴰ.tail m) d) inv₁ in
      (
        s₂,
        rw (e₁, name_types) e₂,
        inv₂,
        λ n h. kept₂ n (kept₁ n h),
        λ a m d. elim (Memᴰ.cases_cons m) [
          | inl e ↦ kept₂ (api_name a) (settled₁ a (Memᴰ.head e) d)
          | inr later ↦ settled₂ a later d
        ],
      )

-- What the naming of a list of APIs comes to.
pub record IsBridgeNaming (apis : List Api) (s : Naming) : Type 0 where
  pub distinct :
      (n m : QualifiedName) (x : Text)
      → lookup n s.names ≡ some x
      → lookup m s.names ≡ some x
      → n ≡ m
  pub unreserved :
      (n : QualifiedName) (x : Text)
      → lookup n s.names ≡ some x
      → contains cxx_reserved_names x ≡ false
  pub unfixed :
      (n : QualifiedName) (x : Text) (api : Api)
      → lookup n s.names ≡ some x
      → Memᴰ api apis
      → contains (fixed_bridge_names api) x ≡ false
  pub settled :
      (api : Api)
      → Memᴰ api apis
      → declares_bridge_type api ≡ true
      → is_settled s (api_name api) ≡ true

contains_apart :
    (xs ys : List Text) (x : Text)
    → contains (xs ++ ys) x ≡ false
    → (contains xs x ≡ false) × (contains ys x ≡ false)
contains_apart xs ys x h =
    (ground (arith, contains-append xs ys x), ground (arith, contains-append xs ys x))

all_fixed_names-contains :
    (apis : List Api) (api : Api) (x : Text)
    → Memᴰ api apis
    → contains (all_fixed_names apis) x ≡ false
    → contains (fixed_bridge_names api) x ≡ false
unfolding all_fixed_names
all_fixed_names-contains [] api x m h = absurd (Memᴰ.not-nil m)
all_fixed_names-contains (y ∷ apis) api x m h =
    let both = contains-append (fixed_bridge_names y) (all_fixed_names apis) x in
    elim (Memᴰ.cases_cons m) [
      | inl e ↦ rw e (ground (arith, both))
      | inr later ↦ all_fixed_names-contains apis api x later (ground (arith, both))
    ]

-- Naming the types of any APIs ends without a panic, where the names of those that the bridge
-- declares are made of identifiers, and the names that it makes up of identifiers are identifiers.
-- No two types get one name, no type gets a name that cxx reserves or that some API brings along,
-- and each type that the bridge declares is named, or is among those that are refused a name.
pub BridgeTypeNames_new-IsBridgeNaming :
    (syn : Syn) (grammar : IdentGrammar syn) (apis : List Api)
    → ((api : Api) → Memᴰ api apis → declares_bridge_type api ≡ true → NameLexes syn (api_name api))
    → (s : Naming) × (BridgeTypeNames_new syn apis ≡ some s) × IsBridgeNaming apis s
unfolding BridgeTypeNames_new
BridgeTypeNames_new-IsBridgeNaming syn grammar apis lexes =
    let first = cxx_reserved_names ++ all_fixed_names apis in
    let start = to_set [] first in
    let s₀ : Naming = record { taken = start; names = []; unnameable = [] } in
    let inv : IsNaming start s₀ = record {
      distinct = λ n m x h k. cc;
      held = λ n x h. cc;
      fresh = λ n x h. cc;
      grown = λ x h. h;
    } in
    let (s, e, ok, kept, settled) = name_types-Named syn grammar start s₀ apis lexes inv in
    let new : (n : QualifiedName) (x : Text)
        → lookup n s.names ≡ some x
        → contains first x ≡ false =
      λ n x h. ground (arith, ok.fresh n x h, contains-to_set [] first x) in
    (
      s,
      e,
      record {
        distinct = ok.distinct;
        unreserved =
            λ n x h. (contains_apart cxx_reserved_names (all_fixed_names apis) x (new n x h)).0;
        unfixed = λ n x api h m.
            all_fixed_names-contains apis api x m
              (contains_apart cxx_reserved_names (all_fixed_names apis) x (new n x h)).1;
        settled = settled;
      },
    )
