-- ===== src/Gc/Reach.antt =====
-- Reachability over the dependencies of gc.rs, and the invariant of its marking loop.
use mathlib.Core.List.Memᴰ
use autocxx.Prelude.{
  ◌+◌, ◌≤◌, ◌≡◌, ◌≢◌, sym, subst, ap, ◌∙◌, Bool, true, false, List, [], ◌∷◌, map, contains, length,
  length-append, Distinct, arith, ◌==◌, Bool-cases, inl, inr, ◌⊎◌, ◌↔◌, Memᴰ,
}
use autocxx.Names.{QualifiedName, name_eq, name_beq_iff}
use autocxx.Api.{Api, api_name, api_deps}
use autocxx.Gc.{Marking, all_deps}
use autocxx.Gc.Groups.{entries, without}

pub Memᴰ-without :
    (n : QualifiedName) (apis : List Api) (b : Api)
    → Memᴰ b (without n apis) ↔ (Memᴰ b apis × (api_name b ≢ n))
Memᴰ-without n [] b = (λ m. absurd (Memᴰ.not-nil m), λ m. absurd (Memᴰ.not-nil m.0))
Memᴰ-without n (x ∷ apis) b = (
  λ m. elim (Bool-cases (api_name x == n)) [
    | inl this ↦ let (k, other) = (Memᴰ-without n apis b).0 (rw this at m) in (Memᴰ.tail k, other)
    | inr keep ↦ elim (Memᴰ.cases_cons (rw keep at m)) [
      | inl e ↦ (Memᴰ.head e, λ same. ground (arith, name_beq_iff (api_name x) n, ap api_name e))
      | inr later ↦ let (k, other) = (Memᴰ-without n apis b).0 later in (Memᴰ.tail k, other)
    ]
  ],
  λ (m, other). elim (Bool-cases (api_name x == n)) [
    | inl this ↦ elim (Memᴰ.cases_cons m) [
      | inl e ↦ absurd (other (ap api_name e ∙ (name_beq_iff (api_name x) n).0 this))
      | inr later ↦ rw this ((Memᴰ-without n apis b).1 (later, other))
    ]
    | inr keep ↦ elim (Memᴰ.cases_cons m) [
      | inl e ↦ rw keep (Memᴰ.head e)
      | inr later ↦ rw keep (Memᴰ.tail ((Memᴰ-without n apis b).1 (later, other)))
    ]
  ],
)

without-fewer :
    (n : QualifiedName) (apis : List Api)
    → length (all_deps (without n apis)) ≤ length (all_deps apis)
unfolding all_deps
without-fewer n [] = omega arith
without-fewer n (x ∷ apis) = ground (
  arith,
  without-fewer n apis,
  length-append (api_deps x) (all_deps apis),
  length-append (api_deps x) (all_deps (without n apis)),
)

-- Taking out an API takes its dependencies with it.
pub without-deps :
    (apis : List Api) (a : Api)
    → Memᴰ a apis
    → length (all_deps (without (api_name a) apis)) + length (api_deps a) ≤ length (all_deps apis)
unfolding all_deps
without-deps [] a m = absurd (Memᴰ.not-nil m)
without-deps (x ∷ apis) a m = elim (Memᴰ.cases_cons m) [
  | inl e ↦
      let this : (api_name x == api_name a) ≡ true =
        (name_beq_iff (api_name x) (api_name a)).1 (ap api_name (sym e)) in
      ground (
        arith,
        this,
        ap (λ b. length (api_deps b)) e,
        without-fewer (api_name a) apis,
        length-append (api_deps x) (all_deps apis),
      )
  | inr later ↦ ground (
    arith,
    without-deps apis a later,
    length-append (api_deps x) (all_deps apis),
    length-append (api_deps x) (all_deps (without (api_name a) apis)),
  )
]

pub name_unique :
    (apis : List Api) (a b : Api)
    → Distinct (map api_name apis)
    → Memᴰ a apis
    → Memᴰ b apis
    → api_name a ≡ api_name b
    → a ≡ b
name_unique [] a b d m k e = absurd (Memᴰ.not-nil m)
name_unique (x ∷ apis) a b d m k e = elim (Memᴰ.cases_cons m) [
  | inl here ↦ elim (Memᴰ.cases_cons k) [
    | inl too ↦ here ∙ sym too
    | inr later ↦ absurd (
        d.0 (
          subst (λ n. Memᴰ n (map api_name apis)) (sym e ∙ ap api_name here)
            (Memᴰ.map api_name later)))
  ]
  | inr later ↦ elim (Memᴰ.cases_cons k) [
    | inl here ↦ absurd (
        d.0 (
          subst (λ n. Memᴰ n (map api_name apis)) (e ∙ ap api_name here) (Memᴰ.map api_name later)))
    | inr too ↦ name_unique apis a b d.1 later too e
  ]
]

module _ (is_root : Api → Bool) (apis : List Api) where
  -- What a root names, by way of dependencies.
  pub data IsReachable : Api → Type 0 where
    root : {a : Api} → Memᴰ a apis → is_root a ≡ true → IsReachable a
    edge :
        {a b : Api} → IsReachable a → Memᴰ (api_name b) (api_deps a) → Memᴰ b apis → IsReachable b

  -- A name has been visited or waits for it.
  abbrev pub Noted : Marking → QualifiedName → Type 0
  Noted m n = (contains m.done n ≡ true) ⊎ Memᴰ n m.todos

  pub record IsMarking (m : Marking) (left : List Api) : Type 0 where
    pub groups : m.by_typename ≡ entries left
    pub listed : m.output.names ≡ map api_name m.output.apis
    pub distinct : Distinct m.output.names
    pub shared : (a : Api) → Memᴰ a apis → Memᴰ a m.output.apis ⊎ Memᴰ a left
    pub left_in : (a : Api) → Memᴰ a left → Memᴰ a apis
    pub left_fresh : (a : Api) → Memᴰ a left → contains m.done (api_name a) ≡ false
    pub output_done : (a : Api) → Memᴰ a m.output.apis → contains m.done (api_name a) ≡ true
    pub reached : (a : Api) → Memᴰ a m.output.apis → IsReachable a
    pub todo_reached : (a : Api) → Memᴰ a apis → Memᴰ (api_name a) m.todos → IsReachable a
    pub roots : (a : Api) → Memᴰ a apis → is_root a ≡ true → Noted m (api_name a)
    pub closed :
        (a : Api) (dep : QualifiedName) → Memᴰ a m.output.apis → Memᴰ dep (api_deps a) → Noted m dep

  -- With nothing to visit, all that is reachable has been output.
  pub finished :
      (m : Marking) (left : List Api)
      → IsMarking m left
      → m.todos ≡ []
      → (a : Api) → IsReachable a
      → Memᴰ a m.output.apis
  finished m left inv empty a r = go a r
    where
      visited : (b : Api) → Memᴰ b apis → Noted m (api_name b) → Memᴰ b m.output.apis
      visited b k noted = elim (inv.shared b k) [
        | inl there ↦ there
        | inr still ↦ elim noted [
          | inl old ↦ cc (inv.left_fresh b still)
          | inr waits ↦ absurd (Memᴰ.not-nil (subst (Memᴰ (api_name b)) empty waits))
        ]
      ]

      go : (b : Api) → IsReachable b → Memᴰ b m.output.apis
      go b (IsReachable.root k named) = visited b k (inv.roots b k named)
      go b (IsReachable.edge {a = c} s dep k) = visited b k (inv.closed c (api_name b) (go c s) dep)
