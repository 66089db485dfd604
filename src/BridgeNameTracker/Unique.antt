-- ===== src/BridgeNameTracker/Unique.antt =====
-- Runs of the tracker of bridge_name_tracker.rs.
use mathlib.Core.List.Memᴰ
use autocxx.Prelude.{
  ℕ, ◌+◌, ◌≤◌, ◌<◌, ◌≡◌, ◌≢◌, refl, sym, subst, ap, ◌∙◌, true, false, List, [], ◌∷◌, ◌++◌, none,
  insert, lookup-insert, arith, nat_beq, Text, codes, decimal, list_eq, nat_eq, list_beq,
  list_beq_iff, length, length-append, Bool-cases, inl, inr, ◌⊎◌, Memᴰ, Distinct, All,
}
use autocxx.BridgeNameTracker.{
  BridgeNameTracker, count_of, without_new, bridge_prefix, get_unique_cxx_bridge_name, Request,
  bridge_all,
}
use autocxx.BridgeNameTracker.Numbers.{numbered, numbered_injective}

-- Not a name that the tracker would make by numbering another.
abbrev pub IsPlain : Text → Type 0
IsPlain key = (k : Text) (n : ℕ) → key ≢ numbered k n

-- Neither the name of the function nor its name behind its namespace and type is a numbered one.
abbrev pub IsPlainRequest : Request → Type 0
IsPlainRequest r =
    IsPlain (without_new r.found_name)
    × IsPlain (bridge_prefix r.type_name (without_new r.found_name) r.ns)

-- A name that a run from this state may still give.
abbrev MayGive : BridgeNameTracker → Text → Type 0
MayGive t name =
    (key : Text) × IsPlain key
    × (((name ≡ key) × (count_of key t ≡ 0))
        ⊎ ((n : ℕ) × (name ≡ numbered key n) × (0 < n) × (count_of key t ≤ n)))

-- One request: a key, plain or with its count, and one more for that key.
record IsGiven (t : BridgeNameTracker) (key name : Text) (t' : BridgeNameTracker) : Type 0 where
  plain : IsPlain key
  counted : t' ≡ insert key (count_of key t + 1) t
  given :
      ((name ≡ key) × (count_of key t ≡ 0))
      ⊎ ((name ≡ numbered key (count_of key t)) × (0 < count_of key t))

get_unique-IsGiven :
    (t : BridgeNameTracker) (r : Request)
    → IsPlainRequest r
    → (key name : Text) × (t' : BridgeNameTracker) × (get_unique_cxx_bridge_name t r.type_name
          r.found_name r.ns
        ≡ (name, t'))
      × IsGiven t key name t'
unfolding get_unique_cxx_bridge_name
get_unique-IsGiven t r (found_plain, prefix_plain) =
    let found = without_new r.found_name in
    let prefix = bridge_prefix r.type_name found r.ns in
    elim (Bool-cases (nat_beq (count_of found t) 0)) [
      | inl first ↦
          let zero_count : count_of found t ≡ 0 = ground arith in
          (
            found,
            found,
            insert found 1 t,
            rw first refl,
            record {
              plain = found_plain;
              counted = ap (λ c. insert found (c + 1) t) (sym zero_count);
              given = inl (refl, zero_count);
            },
          )
      | inr again ↦ elim (Bool-cases (nat_beq (count_of prefix t) 0)) [
        | inl first ↦
            let zero_count : count_of prefix t ≡ 0 = ground arith in
            (
              prefix,
              prefix,
              insert prefix 1 t,
              rw (again, first) refl,
              record {
                plain = prefix_plain;
                counted = ap (λ c. insert prefix (c + 1) t) (sym zero_count);
                given = inl (refl, zero_count);
              },
            )
        | inr third ↦ (
          prefix,
          numbered prefix (count_of prefix t),
          insert prefix (count_of prefix t + 1) t,
          rw (again, third) refl,
          record { plain = prefix_plain; counted = refl; given = inr (refl, ground arith) },
        )
      ]
    ]

module _ (t : BridgeNameTracker) (key name : Text) (t' : BridgeNameTracker)
    (g : IsGiven t key name t') where
  count-grows : (k : Text) → count_of k t ≤ count_of k t'
  count-grows k =
      rw g.counted (ground (arith, lookup-insert key k (count_of key t + 1) t, list_beq_iff key k))

  count-key : count_of key t' ≡ count_of key t + 1
  count-key =
      rw g.counted
        (ground (arith, lookup-insert key key (count_of key t + 1) t, list_beq_iff key key))

  MayGive-earlier : (n : Text) → MayGive t' n → MayGive t n
  MayGive-earlier n (k, plain, inl (e, c)) = (k, plain, inl (e, omega (arith, count-grows k)))
  MayGive-earlier n (k, plain, inr (i, e, pos, c)) =
      (k, plain, inr (i, e, pos, omega (arith, count-grows k)))

  given-MayGive : MayGive t name
  given-MayGive = (
    key,
    g.plain,
    elim (g.given) [
      | inl (e, c) ↦ inl (e, c)
      | inr (e, pos) ↦ inr (count_of key t, e, pos, omega arith)
    ],
  )

  -- What has been given is not given again.
  given_once : ¬ MayGive t' name
  given_once (k, plain, inl (e, c)) = elim (g.given) [
    | inl (f, _) ↦
        let same : k ≡ key = sym e ∙ f in
        let none_yet : count_of key t' ≡ 0 = subst (λ z. count_of z t' ≡ 0) same c in
        omega (arith, count-key)
    | inr (f, _) ↦ plain key (count_of key t) (sym e ∙ f)
  ]
  given_once (k, plain, inr (i, e, pos, c)) = elim (g.given) [
    | inl (f, _) ↦ g.plain k i (sym f ∙ e)
    | inr (f, _) ↦
        let (same, index) = numbered_injective key k (count_of key t) i (sym f ∙ e) in
        let reached : count_of key t' ≤ i = subst (λ z. count_of z t' ≤ i) (sym same) c in
        omega (arith, count-key)
  ]

bridge_all-MayGive :
    (t : BridgeNameTracker) (rs : List Request)
    → All IsPlainRequest rs
    → (name : Text) → Memᴰ name (bridge_all t rs)
    → MayGive t name
unfolding bridge_all
bridge_all-MayGive t [] plain name m = absurd (Memᴰ.not-nil m)
bridge_all-MayGive t (r ∷ rs) plain name m =
    let (key, given, t', e, g) = get_unique-IsGiven t r plain.0 in
    elim (Memᴰ.cases_cons m) [
      | inl here ↦ subst (MayGive t) (sym (here ∙ ap (λ p. p.0) e)) (given-MayGive t key given t' g)
      | inr later ↦ MayGive-earlier t key given t' g name (
          bridge_all-MayGive t' rs plain.1 name
            (subst (λ u. Memᴰ name (bridge_all u rs)) (ap (λ p. p.1) e) later))
    ]

-- Where no function's name, alone or behind its namespace and type, is one that the tracker makes
-- by numbering, no two requests of a run get the same name, whatever was requested before.
pub bridge_all-Distinct :
    (t : BridgeNameTracker) (rs : List Request) → All IsPlainRequest rs → Distinct (bridge_all t rs)
unfolding bridge_all
bridge_all-Distinct t [] plain = tt
bridge_all-Distinct t (r ∷ rs) plain =
    let (key, given, t', e, g) = get_unique-IsGiven t r plain.0 in
    (
      λ m. given_once t key given t' g (
          bridge_all-MayGive t' rs plain.1 given
            (subst (λ p. Memᴰ (p.0) (bridge_all (p.1) rs)) e m)),
      bridge_all-Distinct (get_unique_cxx_bridge_name t r.type_name r.found_name r.ns).1 rs plain.1,
    )

differs_by-length : (a b : Text) → length a ≢ length b → list_beq a b ≡ false
differs_by-length a b h = ground (arith, list_beq_iff a b, λ (e : a ≡ b). h (ap length e))

-- A function whose real name is the numbered name of another: where a new tracker is asked twice
-- for a name other than `new`, and then for the name with the number 1, all in the root namespace
-- and for no type, the second and the third request get the same name.
pub bridge_all_clash :
    (name : Text)
    → name ≢ codes "new"
    → bridge_all [] (
        record { type_name = none; found_name = name; ns = [] }
        ∷ record { type_name = none; found_name = name; ns = [] }
        ∷ record { type_name = none; found_name = numbered name 1; ns = [] }
        ∷ [])
      ≡ name ∷ numbered name 1 ∷ numbered name 1 ∷ []
unfolding bridge_all get_unique_cxx_bridge_name decimal
bridge_all_clash name not_new =
    let plain : list_beq name (codes "new") ≡ false =
      ground (arith, list_beq_iff name (codes "new")) in
    let longer = length-append name (codes "_autocxx" ++ decimal 1) in
    let long : list_beq (numbered name 1) (codes "new") ≡ false =
      differs_by-length (numbered name 1) (codes "new") (λ e. omega (arith, longer)) in
    let differs : list_beq name (numbered name 1) ≡ false =
      differs_by-length name (numbered name 1) (λ e. omega (arith, longer)) in
    let same : list_beq name name ≡ true = ground (arith, list_beq_iff name name) in
    rw (plain, same, long, differs) refl
