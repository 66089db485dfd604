-- ===== src/ByValue/Unfit.antt =====
-- Why `satisfy_requests` refuses: a type that the requests need, and that cannot be POD.
use autocxx.Prelude.{
  ℕ, zero, suc, ◌+◌, ◌≡◌, ◌⊎◌, refl, sym, ◌∙◌, subst, List, [], Option, none, some, length, lookup,
  insert, lookup-insert_same, lookup-insert_other, some_injective, inl, inr, Text, Memᴰ,
}
use autocxx.Names.{QualifiedName, name_eq}
use autocxx.ByValue.Data.{
  PodState, unsafe_to_be_pod, safe_to_be_pod, is_pod, is_alias, StructDetails, ByValueChecker,
}
use autocxx.ByValue.Ingest.{Results}
use autocxx.ByValue.Requests.{
  Loop, err, fails, push_all, with_state, alias_reason, consider, satisfy_from, cost,
  satisfy_requests,
}
use autocxx.ByValue.Steps.{
  Step, already, made, follows, gives_up, waits, finished, failed, went_on, satisfy_from-Run,
}
use autocxx.ByValue.Needs.{name_cases, Needed}
use autocxx.ByValue.Pending.{Inv, Inv-start}
use autocxx.ByValue.Needed.{Step-Inv}

-- A state that refuses a request, or may come to: that of an unsafe type, or an alias.
abbrev pub Refuses : PodState → Type 0
Refuses state =
    ((reason : Text) × (state ≡ unsafe_to_be_pod reason))
    ⊎ ((target : QualifiedName) × (state ≡ is_alias target))

-- A type that nothing is known of, that is unsafe, or that is an alias.
abbrev pub IsUnfit : Results → QualifiedName → Type 0
IsUnfit r q = (lookup q r ≡ none) ⊎ ((d : StructDetails) × (lookup q r ≡ some d) × Refuses d.state)

consider-IsUnfit :
    (l : Loop) (q : QualifiedName) (text : Text) → consider l q ≡ fails text → IsUnfit l.results q
unfolding consider
consider-IsUnfit l q text e = at (lookup q l.results) refl
  where
    known :
        (d : StructDetails)
        → lookup q l.results ≡ some d
        → (s : PodState) → d.state ≡ s
        → IsUnfit l.results q
    known d found (unsafe_to_be_pod reason) is = inr (d, found, inl (reason, is))
    known d found (is_alias target) is = inr (d, found, inr (target, is))
    known d found is_pod is = cc (rw is at (rw (found, consider) at e))
    known d found safe_to_be_pod is = cc (rw is at (rw (found, consider) at e))

    at : (o : Option StructDetails) → lookup q l.results ≡ o → IsUnfit l.results q
    at none unknown = inl unknown
    at (some d) found = known d found d.state refl

IsUnfit-insert :
    (q : QualifiedName) (d : StructDetails) (r : Results)
    → (Refuses d.state → IsUnfit r q)
    → (x : QualifiedName) → IsUnfit (insert q d r) x
    → IsUnfit r x
IsUnfit-insert q d r before x unfit = elim (name_cases q x) [
  | inl same ↦ subst (IsUnfit r) same (elim (subst (IsUnfit (insert q d r)) (sym same) unfit) [
    | inl absent ↦ cc (sym absent ∙ lookup-insert_same q d r)
    | inr (w, found, why) ↦ before (
        subst (λ y. Refuses (StructDetails.state y))
          (some_injective (sym found ∙ lookup-insert_same q d r)) why)
  ])
  | inr differ ↦ elim unfit [
    | inl absent ↦ inl (sym (lookup-insert_other q x d r differ) ∙ absent)
    | inr (w, found, why) ↦ inr (w, sym (lookup-insert_other q x d r differ) ∙ found, why)
  ]
]

is_pod-Refuses : Refuses is_pod → ⊥
is_pod-Refuses why = elim why [ inl (reason, e) ↦ cc | inr (target, e) ↦ cc ]

-- No round makes a type unfit that was not.
Step-IsUnfit :
    (l l' : Loop) (q : QualifiedName)
    → Step l l' q
    → (x : QualifiedName) → IsUnfit l'.results x
    → IsUnfit l.results x
Step-IsUnfit l l' q (already d found is same) x unfit = rw same at unfit
Step-IsUnfit l l' q (made d found is same) x unfit =
    IsUnfit-insert q (with_state is_pod d) l.results (λ why. absurd (is_pod-Refuses why)) x
      (rw same at unfit)
Step-IsUnfit l l' q (follows d target t found alias known is same) x unfit =
    IsUnfit-insert q (with_state is_pod d) l.results (λ why. absurd (is_pod-Refuses why)) x
      (rw same at unfit)
Step-IsUnfit l l' q (gives_up d target reason found alias same) x unfit =
    IsUnfit-insert q (with_state (unsafe_to_be_pod (alias_reason q target reason)) d) l.results
      (λ why. inr (d, found, inr (target, alias))) x (rw same at unfit)
Step-IsUnfit l l' q (waits d target found alias new same) x unfit = rw same at unfit

module _ (start : Results) (requests : List QualifiedName) where
  -- A needed type that cannot be POD.
  abbrev pub NeedsUnfit : Type 0
  NeedsUnfit = (q : QualifiedName) × Needed start requests q × IsUnfit start q

  satisfy_from-err :
      (fuel : ℕ) (l : Loop) (text : Text)
      → Inv start requests l.requests l.results
      → ((x : QualifiedName) → IsUnfit l.results x → IsUnfit start x)
      → satisfy_from fuel l ≡ err text
      → NeedsUnfit
  unfolding satisfy_from
  satisfy_from-err zero l text inv before e = cc
  satisfy_from-err (suc fuel) l text inv before e = elim (satisfy_from-Run fuel l (err text) e) [
    | finished none_left same ↦ cc
    | failed q rest why shape refused same ↦ (
      q,
      inv.wanted q (rw shape (Memᴰ.head refl)),
      before q (consider-IsUnfit (record l { requests = rest }) q why refused),
    )
    | went_on q rest l' shape step more ↦
        satisfy_from-err fuel l' text
          (Step-Inv start requests (record l { requests = rest }) l' q step (rw shape at inv))
          (λ x unfit. before x (Step-IsUnfit (record l { requests = rest }) l' q step x unfit)) more
  ]

pub satisfy_requests-err :
    (c : ByValueChecker) (requests : List QualifiedName) (text : Text)
    → satisfy_requests c requests ≡ err text
    → NeedsUnfit c.results requests
unfolding satisfy_requests
satisfy_requests-err c requests text e =
    satisfy_from-err c.results requests (suc (length requests + cost c.results))
      (record {
        results = c.results;
        aliases_awaiting_target = [];
        requests = push_all requests [];
      })
      text (Inv-start c.results requests) (λ x unfit. unfit) e
