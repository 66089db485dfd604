-- ===== src/ByValue/Pending.antt =====
-- What holds of the results and of the requests that are pending in `satisfy_requests`.
use mathlib.Core.List.Memᴰ
use autocxx.Prelude.{
  ◌≡◌, ◌≢◌, ◌⊎◌, refl, sym, ap, ◌∙◌, subst, false, List, [], ◌∷◌, some, lookup, insert,
  lookup-insert_same, lookup-insert_other, some_injective, inl, inr, Memᴰ, Text,
}
use autocxx.Names.{QualifiedName, name_eq}
use autocxx.ByValue.Data.{unsafe_to_be_pod, safe_to_be_pod, is_pod, is_alias, StructDetails}
use autocxx.ByValue.Ingest.{Results}
use autocxx.ByValue.Requests.{push_all, with_state, is_pod_state, is_pod_in}
use autocxx.ByValue.Needs.{
  Memᴰ-push_all, name_cases, IsPodIn, IsPodIn-insert_same, IsPodIn-insert_other, Needs, Needed,
  Open, settled-Open, asked_for,
}

module _ (start : Results) (requests : List QualifiedName) where
  pub record Inv (pending : List QualifiedName) (r : Results) : Type 0 where
    pub kept :
        (q : QualifiedName) (d : StructDetails)
        → lookup q r ≡ some d
        → Open d
        → lookup q start ≡ some d
    pub grown : (q : QualifiedName) → IsPodIn start q → IsPodIn r q
    pub closed :
        (p q : QualifiedName) → Needs start p q → IsPodIn r p → IsPodIn r q ⊎ Memᴰ q pending
    pub answered : (q : QualifiedName) → Memᴰ q requests → IsPodIn r q ⊎ Memᴰ q pending
    pub only : (q : QualifiedName) → IsPodIn r q → IsPodIn start q ⊎ Needed start requests q
    pub wanted : (q : QualifiedName) → Memᴰ q pending → Needed start requests q

  -- The first request is POD: it can go.
  pub Inv-drop :
      (q : QualifiedName) (pending : List QualifiedName) (r : Results)
      → Inv (q ∷ pending) r
      → IsPodIn r q
      → Inv pending r
  Inv-drop q pending r inv pod =
      let settle : (x : QualifiedName)
          → IsPodIn r x ⊎ Memᴰ x (q ∷ pending)
          → IsPodIn r x ⊎ Memᴰ x pending =
        λ x h. elim h [
          | inl e ↦ inl e
          | inr m ↦ elim (Memᴰ.cases_cons m) [
            | inl same ↦ inl (rw same pod)
            | inr later ↦ inr later
          ]
        ] in
      record {
        kept = inv.kept;
        grown = inv.grown;
        closed = λ p x needs e. settle x (inv.closed p x needs e);
        answered = λ x m. settle x (inv.answered x m);
        only = inv.only;
        wanted = λ x m. inv.wanted x (Memᴰ.tail m);
      }

  -- More requests.
  pub Inv-more :
      (pending more : List QualifiedName) (r : Results)
      → Inv pending r
      → ((x : QualifiedName) → Memᴰ x pending → Memᴰ x more)
      → ((x : QualifiedName) → Memᴰ x more → Needed start requests x)
      → Inv more r
  Inv-more pending more r inv wider wanted =
      let widen : (x : QualifiedName) → IsPodIn r x ⊎ Memᴰ x pending → IsPodIn r x ⊎ Memᴰ x more =
        λ x h. elim h [ inl e ↦ inl e | inr m ↦ inr (wider x m) ] in
      record {
        kept = inv.kept;
        grown = inv.grown;
        closed = λ p x needs e. widen x (inv.closed p x needs e);
        answered = λ x m. widen x (inv.answered x m);
        only = inv.only;
        wanted = wanted;
      }

  abbrev Kept : Results → Type 0
  Kept r =
      (q : QualifiedName) (d : StructDetails)
      → lookup q r ≡ some d
      → Open d
      → lookup q start ≡ some d

  -- A settled type is none that waits.
  Kept-insert :
      (q : QualifiedName) (d : StructDetails) (r : Results)
      → (¬ Open d)
      → Kept r
      → Kept (insert q d r)
  Kept-insert q d r settled kept x w found still_open = elim (name_cases q x) [
    | inl same ↦
        let this = subst (λ n. lookup n (insert q d r) ≡ some w) (sym same) found in
        absurd
          (settled (subst Open (some_injective (sym this ∙ lookup-insert_same q d r)) still_open))
    | inr differ ↦ kept x w (sym (lookup-insert_other q x d r differ) ∙ found) still_open
  ]

  -- A type that becomes POD, with all that it needs POD or asked for.
  pub Inv-made :
      (q : QualifiedName) (d : StructDetails) (pending : List QualifiedName) (r : Results)
      → Inv pending r
      → Memᴰ q pending
      → ((x : QualifiedName) → Needs start q x → IsPodIn r x ⊎ Memᴰ x pending)
      → Inv pending (insert q (with_state is_pod d) r)
  Inv-made q d pending r inv here needs =
      let pod = IsPodIn-insert_same q (with_state is_pod d) r in
      let other = λ (x : QualifiedName) (differ : q ≢ x).
        IsPodIn-insert_other q x (with_state is_pod d) r differ in
      let grow : (x : QualifiedName) → IsPodIn r x → IsPodIn (insert q (with_state is_pod d) r) x =
        λ x e. elim (name_cases q x) [
          | inl same ↦ subst (IsPodIn (insert q (with_state is_pod d) r)) same pod
          | inr differ ↦ other x differ ∙ e
        ] in
      let widen : (x : QualifiedName)
          → IsPodIn r x ⊎ Memᴰ x pending
          → IsPodIn (insert q (with_state is_pod d) r) x ⊎ Memᴰ x pending =
        λ x h. elim h [ inl e ↦ inl (grow x e) | inr m ↦ inr m ] in
      record {
        kept =
            Kept-insert q (with_state is_pod d) r (settled-Open is_pod d (λ e. cc) (λ t e. cc))
              inv.kept;
        grown = λ x e. grow x (inv.grown x e);
        closed = λ p x need e. elim (name_cases q p) [
          | inl same ↦ widen x (needs x (subst (λ n. Needs start n x) (sym same) need))
          | inr differ ↦ widen x (inv.closed p x need (sym (other p differ) ∙ e))
        ];
        answered = λ x m. widen x (inv.answered x m);
        only = λ x e. elim (name_cases q x) [
          | inl same ↦ inr (subst (Needed start requests) same (inv.wanted q here))
          | inr differ ↦ inv.only x (sym (other x differ) ∙ e)
        ];
        wanted = inv.wanted;
      }

  -- An alias that turns out unsafe.
  pub Inv-unsafe :
      (q : QualifiedName) (d : StructDetails) (reason : Text) (pending : List QualifiedName)
      (r : Results)
      → Inv pending r
      → is_pod_in r q ≡ false
      → Inv pending (insert q (with_state (unsafe_to_be_pod reason) d) r)
  Inv-unsafe q d reason pending r inv not_pod =
      let d' = with_state (unsafe_to_be_pod reason) d in
      let same : (x : QualifiedName) → is_pod_in (insert q d' r) x ≡ is_pod_in r x = λ x.
        elim (name_cases q x) [
          | inl this ↦
              subst (λ n. is_pod_in (insert q d' r) n ≡ is_pod_in r n) this
                (IsPodIn-insert_same q d' r ∙ sym not_pod)
          | inr differ ↦ IsPodIn-insert_other q x d' r differ
        ] in
      let widen : (x : QualifiedName)
          → IsPodIn r x ⊎ Memᴰ x pending
          → IsPodIn (insert q d' r) x ⊎ Memᴰ x pending =
        λ x h. elim h [ inl e ↦ inl (same x ∙ e) | inr m ↦ inr m ] in
      record {
        kept =
            Kept-insert q d' r (settled-Open (unsafe_to_be_pod reason) d (λ e. cc) (λ t e. cc))
              inv.kept;
        grown = λ x e. same x ∙ inv.grown x e;
        closed = λ p x need e. widen x (inv.closed p x need (sym (same p) ∙ e));
        answered = λ x m. widen x (inv.answered x m);
        only = λ x e. inv.only x (sym (same x) ∙ e);
        wanted = inv.wanted;
      }

  pub is_pod_in-lookup :
      (q : QualifiedName) (r : Results) (d : StructDetails)
      → lookup q r ≡ some d
      → is_pod_in r q ≡ is_pod_state d.state
  unfolding is_pod_in
  is_pod_in-lookup q r d found = rw (is_pod_in, found) refl

  unsettled :
      (p : QualifiedName) (d : StructDetails) {q : QualifiedName}
      → lookup p start ≡ some d
      → ((d.state ≡ safe_to_be_pod) × Memᴰ q d.dependent_structs) ⊎ (d.state ≡ is_alias q)
      → IsPodIn start p
      → ⊥
  unsettled p d found why pod =
      let this = sym (is_pod_in-lookup p start d found) ∙ pod in
      elim why [
        | inl (safe, m) ↦ cc (sym (ap is_pod_state safe) ∙ this)
        | inr alias ↦ cc (sym (ap is_pod_state alias) ∙ this)
      ]

  pub Inv-start : Inv (push_all requests []) start
  Inv-start = record {
    kept = λ q d found waits. found;
    grown = λ q e. e;
    closed = λ p q (d, found, why) pod. absurd (unsettled p d found why pod);
    answered = λ q m. inr ((Memᴰ-push_all q requests []).1 (inl m));
    only = λ q e. inl e;
    wanted = λ q m. elim ((Memᴰ-push_all q requests []).0 m) [
      | inl this ↦ asked_for this
      | inr nothing ↦ absurd (Memᴰ.not-nil nothing)
    ];
  }
