-- ===== src/ByValue/Needed.antt =====
-- `satisfy_requests` against the types that its requests need.
use mathlib.Core.List.Memᴰ
use autocxx.Prelude.{
  ℕ, zero, suc, some, lookup, ◌+◌, ◌≡◌, ◌↔◌, ◌⊎◌, refl, sym, ap, ◌∙◌, subst, true, List, [], ◌∷◌,
  length, insert, inl, inr, Memᴰ,
}
use autocxx.Names.{QualifiedName, name_eq}
use autocxx.ByValue.Data.{safe_to_be_pod, is_pod, is_alias, StructDetails, ByValueChecker}
use autocxx.ByValue.Ingest.{Results}
use autocxx.ByValue.Requests.{
  Loop, ok, push_all, with_state, alias_reason, satisfy_from, cost, satisfy_requests, is_pod_state,
  is_pod_type,
}
use autocxx.ByValue.Steps.{
  Step, already, made, follows, gives_up, waits, finished, failed, went_on, satisfy_from-Run,
}
use autocxx.ByValue.Needs.{
  Memᴰ-push_all, ok_injective, IsPodIn, IsPodIn-insert_same, Needs, is_alias_injective, Needs-inv,
  Needed, asked_for, needed_by,
}
use autocxx.ByValue.Pending.{
  Inv, Inv-drop, Inv-more, Inv-made, Inv-unsafe, is_pod_in-lookup, Inv-start,
}

module _ (start : Results) (requests : List QualifiedName) where
  Needed-IsPodIn :
      (r : Results)
      → Inv start requests [] r
      → {q : QualifiedName} → Needed start requests q
      → IsPodIn r q
  Needed-IsPodIn r inv {q} (asked_for m) = elim (inv.answered q m) [
    | inl e ↦ e
    | inr nothing ↦ absurd (Memᴰ.not-nil nothing)
  ]
  Needed-IsPodIn r inv {q} (needed_by {p} need why) =
      elim (inv.closed p q why (Needed-IsPodIn r inv need)) [
        | inl e ↦ e
        | inr nothing ↦ absurd (Memᴰ.not-nil nothing)
      ]

  -- A struct becomes POD, and what it depends on is asked for.
  made-Inv :
      (l : Loop) (q : QualifiedName) (d : StructDetails)
      → lookup q l.results ≡ some d
      → d.state ≡ safe_to_be_pod
      → Inv start requests (q ∷ l.requests) l.results
      → Inv start requests
          (push_all d.dependent_structs l.requests)
          (insert q (with_state is_pod d) l.results)
  made-Inv l q d found is inv =
      let before = inv.kept q d found (inl is) in
      let needed = inv.wanted q (Memᴰ.head refl) in
      let pushed = push_all d.dependent_structs l.requests in
      let wanted : (x : QualifiedName) → Memᴰ x (q ∷ pushed) → Needed start requests x = λ x m.
        elim (Memᴰ.cases_cons m) [
          | inl this ↦ subst (Needed start requests) (sym this) needed
          | inr later ↦ elim ((Memᴰ-push_all x d.dependent_structs l.requests).0 later) [
            | inl new ↦ needed_by needed (d, before, inl (is, new))
            | inr old ↦ inv.wanted x (Memᴰ.tail old)
          ]
        ] in
      let wider : (x : QualifiedName) → Memᴰ x (q ∷ l.requests) → Memᴰ x (q ∷ pushed) = λ x m.
        elim (Memᴰ.cases_cons m) [
          | inl this ↦ Memᴰ.head this
          | inr old ↦ Memᴰ.tail ((Memᴰ-push_all x d.dependent_structs l.requests).1 (inr old))
        ] in
      let asks : (x : QualifiedName) → Needs start q x → IsPodIn l.results x ⊎ Memᴰ x (q ∷ pushed) =
        λ x need. elim (Needs-inv start q x d before need) [
          | inl (safe, m) ↦
              inr (Memᴰ.tail ((Memᴰ-push_all x d.dependent_structs l.requests).1 (inl m)))
          | inr alias ↦ cc
        ] in
      Inv-drop start requests q pushed (insert q (with_state is_pod d) l.results)
        (Inv-made start requests q d (q ∷ pushed) l.results
          (Inv-more start requests (q ∷ l.requests) (q ∷ pushed) l.results inv wider wanted)
          (Memᴰ.head refl) asks)
        (IsPodIn-insert_same q (with_state is_pod d) l.results)

  -- An alias becomes POD, since its target is.
  follows-Inv :
      (l : Loop) (q : QualifiedName) (d : StructDetails) (target : QualifiedName)
      → lookup q l.results ≡ some d
      → d.state ≡ is_alias target
      → IsPodIn l.results target
      → Inv start requests (q ∷ l.requests) l.results
      → Inv start requests (q ∷ l.requests) (insert q (with_state is_pod d) l.results)
  follows-Inv l q d target found alias pod inv =
      let before = inv.kept q d found (inr (target, alias)) in
      Inv-made start requests q d (q ∷ l.requests) l.results inv (Memᴰ.head refl) (λ x need.
        elim (Needs-inv start q x d before need) [
          | inl (safe, m) ↦ cc
          | inr other ↦ inl (subst (IsPodIn l.results) (is_alias_injective (sym alias ∙ other)) pod)
        ])

  -- The invariant through a round.
  pub Step-Inv :
      (l l' : Loop) (q : QualifiedName)
      → Step l l' q
      → Inv start requests (q ∷ l.requests) l.results
      → Inv start requests l'.requests l'.results
  Step-Inv l l' q (already d found is same) inv = rw same (
      Inv-drop start requests q l.requests l.results inv
        (is_pod_in-lookup start requests q l.results d found ∙ ap is_pod_state is))
  Step-Inv l l' q (made d found is same) inv = rw same (made-Inv l q d found is inv)
  Step-Inv l l' q (follows d target t found alias known is same) inv = rw same (
      follows-Inv l q d target found alias
        (is_pod_in-lookup start requests target l.results t known ∙ ap is_pod_state is) inv)
  Step-Inv l l' q (gives_up d target reason found alias same) inv = rw same (
      Inv-unsafe start requests q d (alias_reason q target reason) (q ∷ l.requests) l.results inv
        (is_pod_in-lookup start requests q l.results d found ∙ ap is_pod_state alias))
  Step-Inv l l' q (waits d target found alias new same) inv =
      let before = inv.kept q d found (inr (target, alias)) in
      let it = needed_by (inv.wanted q (Memᴰ.head refl)) (d, before, inr alias) in
      rw same (
        Inv-more start requests (q ∷ l.requests) (target ∷ q ∷ l.requests) l.results inv
          (λ x m. Memᴰ.tail m)
          (λ x m. elim (Memᴰ.cases_cons m) [
            | inl this ↦ subst (Needed start requests) (sym this) it
            | inr later ↦ inv.wanted x later
          ]))

  pub satisfy_from-Inv :
      (fuel : ℕ) (l : Loop) (r : Results)
      → Inv start requests l.requests l.results
      → satisfy_from fuel l ≡ ok r
      → Inv start requests [] r
  unfolding satisfy_from
  satisfy_from-Inv zero l r inv e = cc
  satisfy_from-Inv (suc fuel) l r inv e = elim (satisfy_from-Run fuel l (ok r) e) [
    | finished none_left same ↦ rw (ok_injective same) (rw none_left at inv)
    | failed _ _ _ _ _ same ↦ cc
    | went_on q rest l' shape step more ↦
        satisfy_from-Inv fuel l' r
          (Step-Inv (record l { requests = rest }) l' q step (rw shape at inv)) more
  ]

-- Where a run comes to the end of its requests, a type is POD from then on exactly if it was POD
-- before or is needed: by a request, or by a struct or an alias that is.
pub satisfy_requests-Needed :
    (c : ByValueChecker) (requests : List QualifiedName) (r : Results)
    → satisfy_requests c requests ≡ ok r
    → (q : QualifiedName)
    → (is_pod_type (record c { results = r }) q ≡ true)
      ↔ ((is_pod_type c q ≡ true) ⊎ Needed c.results requests q)
unfolding satisfy_requests is_pod_type
satisfy_requests-Needed c requests r e q =
    let inv =
      satisfy_from-Inv c.results requests (suc (length requests + cost c.results))
        (record {
          results = c.results;
          aliases_awaiting_target = [];
          requests = push_all requests [];
        })
        r (Inv-start c.results requests) e in
    (
      inv.only q,
      λ h. elim h [
        | inl e ↦ inv.grown q e
        | inr need ↦ Needed-IsPodIn c.results requests r inv need
      ],
    )
