-- ===== src/ApiVec/Push.antt =====
-- `push` of apivec.rs, on valid lists.
use autocxx.Prelude.{
  ℕ, suc, ◌≡◌, ◌≢◌, refl, sym, subst, Bool, true, false, ◌&&◌, not, List, [], ◌∷◌, Option, some,
  map, filter, contains, contains-set_insert, arith, if◌then◌else◌, ◌==◌, Bool-cases, inl, inr,
  Option-cases, some_injective,
}
use autocxx.Names.{QualifiedName, name_eq, name_beq_iff}
use autocxx.Api.{Api, api_name, name_info, new_from_qualified_name, discard_duplicates}
use autocxx.ApiVec.{
  ApiVec, is_displaced_function, insert_api, already_contains, retain, take_displaced_function,
  record_displaced_function, refile_displaced_function, is_unshadowable_type, contains_function,
  duplicate_item, settle_hidden, hides, push_from, push, is_hidden_error,
}
use autocxx.ApiVec.Names.{IsFiled, IsValid, insert_api-IsValid, retain-IsValid, retain_frees}
use autocxx.ApiVec.Stubs.{
  insert_keeps, record_displaced_function-IsValid, refile_displaced_function-IsValid,
  take_displaced_function-IsValid,
}

-- The operation returned a valid list that holds the name and all the names that were there.
abbrev pub Pushed : ApiVec → QualifiedName → Option ApiVec → Type 0
Pushed v name r =
    (v' : ApiVec) × (r ≡ some v')
    × IsValid v'
    × (contains v'.names name ≡ true)
    × ((n : QualifiedName) → contains v.names n ≡ true → contains v'.names n ≡ true)

insert_holds : (v : ApiVec) (api : Api) → contains (insert_api v api).names (api_name api) ≡ true
unfolding insert_api
insert_holds v api = ground (
  arith,
  contains-set_insert (api_name api) v.names (api_name api),
  name_beq_iff (api_name api) (api_name api),
)

insert-Pushed :
    (v : ApiVec) (api : Api)
    → IsValid v
    → IsFiled api
    → contains v.names (api_name api) ≡ false
    → Pushed v (api_name api) (some (insert_api v api))
insert-Pushed v api valid ok new = (
  insert_api v api,
  refl,
  insert_api-IsValid v valid api new ok,
  insert_holds v api,
  insert_keeps v api,
)

retain_keeps :
    (v : ApiVec) (name n : QualifiedName)
    → IsValid v
    → n ≢ name
    → contains v.names n ≡ true
    → contains (retain (λ stored. not (api_name stored == name)) v).names n ≡ true
unfolding retain
retain_keeps v name n valid other h =
    let kept = retain-IsValid v (λ stored. not (api_name stored == name)) valid in
    rw kept.indexed (filter_keeps v.apis (subst (λ l. contains l n ≡ true) valid.indexed h))
  where
    filter_keeps :
        (apis : List Api)
        → contains (map api_name apis) n ≡ true
        → contains (map api_name (filter (λ stored. not (api_name stored == name)) apis)) n ≡ true
    filter_keeps [] k = k
    filter_keeps (x ∷ apis) k = ground (
      arith,
      filter_keeps apis,
      name_beq_iff (api_name x) name,
      name_beq_iff (api_name x) n,
      other,
    )

-- An API takes the place of all those of its name.
replace-Pushed :
    (v : ApiVec) (api : Api)
    → IsValid v
    → IsFiled api
    → Pushed v
        (api_name api)
        (some (insert_api (retain (λ stored. not (api_name stored == api_name api)) v) api))
replace-Pushed v api valid ok =
    let less = retain (λ stored. not (api_name stored == api_name api)) v in
    let valid' = retain-IsValid v (λ stored. not (api_name stored == api_name api)) valid in
    let (v', e, valid'', held, kept) =
      insert-Pushed less api valid' ok (retain_frees v (api_name api) valid) in
    (
      v',
      e,
      valid'',
      held,
      λ n h. elim (Bool-cases (n == api_name api)) [
        | inl same ↦ rw ((name_beq_iff n (api_name api)).0 same) held
        | inr other ↦ kept n (
            retain_keeps v (api_name api) n valid
              (λ e. ground (arith, name_beq_iff n (api_name api))) h)
      ],
    )

settle_hidden-Pushed :
    (v : ApiVec) (api : Api)
    → IsValid v
    → IsFiled api
    → contains v.names (api_name api) ≡ true
    → Pushed v (api_name api) (settle_hidden v api)
unfolding settle_hidden
settle_hidden-Pushed v api valid ok held =
    elim (Bool-cases (is_unshadowable_type api && contains_function v (api_name api))) [
      | inl type_last ↦
          let (v₁, e₁, valid₁, held₁, kept₁) = replace-Pushed v api valid ok in
          let (v₂, e₂, valid₂, kept₂) =
            record_displaced_function-IsValid v₁ (api_name api) valid₁ in
          (
            v₂,
            rw type_last (
                subst (λ w. record_displaced_function w (api_name api) ≡ some v₂)
                  (some_injective (sym e₁)) e₂),
            valid₂,
            kept₂ (api_name api) held₁,
            λ n h. kept₂ n (kept₁ n h),
          )
      | inr type_first ↦
          let (v₂, e₂, valid₂, kept₂) = record_displaced_function-IsValid v (api_name api) valid in
          (v₂, rw type_first e₂, valid₂, kept₂ (api_name api) held, kept₂)
    ]

module _ (built_in : QualifiedName → Bool) where
  pub push_from_free :
      (fuel : ℕ) (v : ApiVec) (api : Api)
      → contains v.names (api_name api) ≡ false
      → push_from built_in (suc fuel) v api ≡ some (insert_api v api)
  unfolding push_from already_contains
  push_from_free fuel v api new = rw new

  duplicate_item_name : (name : QualifiedName) → api_name (duplicate_item built_in name) ≡ name
  unfolding api_name name_info new_from_qualified_name
  duplicate_item_name name = refl

  duplicate_item-IsFiled : (name : QualifiedName) → IsFiled (duplicate_item built_in name)
  unfolding is_displaced_function is_hidden_error
  duplicate_item-IsFiled name = λ e. cc

  push_again :
      (v : ApiVec) (api : Api)
      → IsValid v
      → IsFiled api
      → Pushed v
          (api_name api)
          (push_from built_in 1 (retain (λ stored. not (api_name stored == api_name api)) v) api)
  push_again v api valid ok =
      rw
        (push_from_free 0 (retain (λ stored. not (api_name stored == api_name api)) v) api
          (retain_frees v (api_name api) valid))
        (replace-Pushed v api valid ok)

  replaced-Pushed :
      (v : ApiVec) (name : QualifiedName)
      → IsValid v
      → Pushed v name (
          push_from built_in 1
            (retain (λ stored. not (api_name stored == name)) v)
            (duplicate_item built_in name))
  replaced-Pushed v name valid =
      subst
        (λ n. Pushed v n (
          push_from built_in 1 (retain (λ stored. not (api_name stored == n)) v)
            (duplicate_item built_in name)))
        (duplicate_item_name name)
        (push_again v (duplicate_item built_in name) valid (duplicate_item-IsFiled name))

  module _ (v : ApiVec) (api : Api) (valid : IsValid v) (ok : IsFiled api) where
    clash-Pushed :
        contains v.names (api_name api) ≡ true
        → Pushed v (api_name api) (
            if discard_duplicates api
            then some v
            else if hides v api
            then settle_hidden v api
            else push_from built_in 1
                (retain (λ stored. not (api_name stored == api_name api)) v)
                (duplicate_item built_in (api_name api)))
    clash-Pushed held = elim (Bool-cases (discard_duplicates api)) [
      | inl drop ↦ rw drop (v, refl, valid, held, λ n h. h)
      | inr use_it ↦ elim (Bool-cases (hides v api)) [
        | inl hidden ↦ rw (use_it, hidden) (settle_hidden-Pushed v api valid ok held)
        | inr clash ↦ rw (use_it, clash) (replaced-Pushed v (api_name api) valid)
      ]
    ]

    push-Pushed : Pushed v (api_name api) (push built_in v api)
    unfolding push already_contains
    push-Pushed = elim (Bool-cases (contains v.names (api_name api))) [
      | inr new ↦ rw (push_from_free 1 v api new) (insert-Pushed v api valid ok new)
      | inl held ↦ elim (Bool-cases (is_displaced_function api)) [
        | inl stub ↦
            let (v', e, valid', kept) = refile_displaced_function-IsValid v api valid (ok stub) in
            (v', rw (held, stub) e, valid', kept (api_name api) held, kept)
        | inr plain ↦ elim (Option-cases (take_displaced_function v (api_name api))) [
          | inl absent ↦ rw (held, plain, absent) (clash-Pushed held)
          | inr ((stub, v'), taken) ↦
              let (valid', free, named, kept) =
                take_displaced_function-IsValid v (api_name api) stub v' valid taken in
              let (v₂, e₂, valid₂, held₂, kept₂) = insert-Pushed v' api valid' ok free in
              let (v₃, e₃, valid₃, kept₃) =
                refile_displaced_function-IsValid v₂ stub valid₂ named in
              (
                v₃,
                rw (held, plain, taken, free)
                    (subst (λ w. refile_displaced_function w stub ≡ some v₃)
                      (some_injective (sym e₂)) e₃),
                valid₃,
                kept₃ (api_name api) held₂,
                λ n h. elim (Bool-cases (n == api_name api)) [
                  | inl same ↦
                      rw ((name_beq_iff n (api_name api)).0 same) (kept₃ (api_name api) held₂)
                  | inr other ↦
                      kept₃ n
                        (kept₂ n (kept n (λ e. ground (arith, name_beq_iff n (api_name api))) h))
                ],
              )
        ]
      ]
    ]

  -- Pushing onto a valid list always returns, for an API that, where it is the stub of a displaced
  -- function, says of which: no search for a free name goes on for ever. The list stays valid -
  -- every API has a name of its own, the set of names lists them, and every stub says of which
  -- function it is - it holds the name of the API, and it loses no name.
  pub push-IsValid :
      (v : ApiVec) (api : Api)
      → IsValid v
      → IsFiled api
      → (v' : ApiVec) × (push built_in v api ≡ some v')
        × IsValid v'
        × (contains v'.names (api_name api) ≡ true)
        × ((n : QualifiedName) → contains v.names n ≡ true → contains v'.names n ≡ true)
  push-IsValid v api valid ok = push-Pushed v api valid ok
