-- ===== src/ByValue/Rounds.antt =====
-- Why the loop of `satisfy_requests` ends.
use autocxx.Prelude.{
  ℕ, zero, suc, ◌+◌, ◌<◌, ◌≤◌, ◌≡◌, ◌≢◌, refl, ap, false, List, [], ◌∷◌, some, contains, length,
  lookup, insert, some_injective, if◌then◌else◌, arith, Bool-cases, inl, inr,
}
use autocxx.Names.{QualifiedName, name_eq, name_beq_iff}
use autocxx.ByValue.Data.{
  unsafe_to_be_pod, safe_to_be_pod, is_pod, is_alias, StructDetails, ByValueChecker,
}
use autocxx.ByValue.Ingest.{Results}
use autocxx.ByValue.Requests.{
  Loop, out_of_fuel, push_all, with_state, alias_reason, satisfy_from, cost, satisfy_requests,
}
use autocxx.ByValue.Steps.{
  Step, already, made, follows, gives_up, waits, finished, failed, went_on, satisfy_from-Run,
}

-- The rounds that one type can still cost.
abbrev weight : List QualifiedName → QualifiedName → StructDetails → ℕ
weight awaiting k deets = elim (deets.state) [
  | unsafe_to_be_pod _ ↦ 0
  | is_pod ↦ 0
  | safe_to_be_pod ↦ length deets.dependent_structs
  | is_alias _ ↦ if contains awaiting k then 1 else 3
]

abbrev left : List QualifiedName → Results → ℕ
left awaiting [] = 0
left awaiting ((k, deets) ∷ results) = weight awaiting k deets + left awaiting results

abbrev measure : Loop → ℕ
measure l = length l.requests + left l.aliases_awaiting_target l.results

left-cost : (results : Results) → left [] results ≡ cost results
unfolding cost
left-cost [] = refl
left-cost ((k, deets) ∷ results) = let ih = left-cost results in ground (arith, ih)

length-push_all :
    (tys requests : List QualifiedName)
    → length (push_all tys requests) ≡ length tys + length requests
unfolding push_all
length-push_all [] requests = omega arith
length-push_all (ty ∷ tys) requests = omega (arith, length-push_all tys (ty ∷ requests))

left-insert :
    (awaiting : List QualifiedName) (k : QualifiedName) (d d' : StructDetails) (results : Results)
    → lookup k results ≡ some d
    → left awaiting (insert k d' results) + weight awaiting k d
      ≡ left awaiting results + weight awaiting k d'
left-insert awaiting k d d' [] e = cc
left-insert awaiting k d d' ((j, w) ∷ results) e = elim (Bool-cases (name_eq.beq j k)) [
  | inl same ↦
      let here : weight awaiting j w ≡ weight awaiting k d =
        rw ((name_beq_iff j k).0 same, some_injective (rw same at e)) refl in
      rw same (omega (arith, here))
  | inr differ ↦
      let ih = left-insert awaiting k d d' results (rw differ at e) in rw differ (omega (arith, ih))
]

weight-await :
    (awaiting : List QualifiedName) (q k : QualifiedName) (d : StructDetails)
    → weight (q ∷ awaiting) k d ≤ weight awaiting k d
weight-await awaiting q k d = ground arith

left-await_le :
    (awaiting : List QualifiedName) (q : QualifiedName) (results : Results)
    → left (q ∷ awaiting) results ≤ left awaiting results
left-await_le awaiting q [] = omega arith
left-await_le awaiting q ((k, d) ∷ results) =
    omega (arith, weight-await awaiting q k d, left-await_le awaiting q results)

left-await :
    (awaiting : List QualifiedName) (q target : QualifiedName) (d : StructDetails)
    (results : Results)
    → lookup q results ≡ some d
    → d.state ≡ is_alias target
    → contains awaiting q ≡ false
    → left (q ∷ awaiting) results + 2 ≤ left awaiting results
left-await awaiting q target d [] e alias new = cc
left-await awaiting q target d ((k, w) ∷ results) e alias new =
    elim (Bool-cases (name_eq.beq k q)) [
      | inl same ↦
          let before : weight awaiting k w ≡ 3 =
            rw ((name_beq_iff k q).0 same, some_injective (rw same at e), alias, new) refl in
          let after : weight (q ∷ awaiting) k w ≡ 1 =
            rw
              (
                (name_beq_iff k q).0 same,
                some_injective (rw same at e),
                alias,
                (name_beq_iff q q).1 refl,
              )
              refl in
          omega (arith, before, after, left-await_le awaiting q results)
      | inr differ ↦
          let ih = left-await awaiting q target d results (rw differ at e) alias new in
          omega (arith, ih, weight-await awaiting q k w)
    ]

alias_weight :
    (awaiting : List QualifiedName) (k : QualifiedName) (d : StructDetails) (target : QualifiedName)
    → d.state ≡ is_alias target
    → 1 ≤ weight awaiting k d
alias_weight awaiting k d target alias = rw alias (ground arith)

-- Each round that goes on costs one at least.
Step-lt : (l l' : Loop) (q : QualifiedName) → Step l l' q → measure l' < suc (measure l)
Step-lt l l' q (already d found is same) = rw same (omega arith)
Step-lt l l' q (made d found is same) =
    let w : weight l.aliases_awaiting_target q d ≡ length d.dependent_structs = rw is refl in
    rw same (
      omega (
        arith,
        w,
        left-insert l.aliases_awaiting_target q d (with_state is_pod d) l.results found,
        length-push_all d.dependent_structs l.requests,
      ))
Step-lt l l' q (follows d target t found alias known is same) = rw same (
    omega (
      arith,
      alias_weight l.aliases_awaiting_target q d target alias,
      left-insert l.aliases_awaiting_target q d (with_state is_pod d) l.results found,
    ))
Step-lt l l' q (gives_up d target reason found alias same) = rw same (
    omega (
      arith,
      alias_weight l.aliases_awaiting_target q d target alias,
      left-insert l.aliases_awaiting_target q d
          (with_state (unsafe_to_be_pod (alias_reason q target reason)) d) l.results found,
    ))
Step-lt l l' q (waits d target found alias new same) =
    rw same
      (omega (arith, left-await l.aliases_awaiting_target q target d l.results found alias new))

satisfy_from_total : (fuel : ℕ) (l : Loop) → measure l < fuel → satisfy_from fuel l ≢ out_of_fuel
unfolding satisfy_from
satisfy_from_total zero l lt = absurd (omega arith)
satisfy_from_total (suc fuel) l lt = λ stops. elim (satisfy_from-Run fuel l out_of_fuel stops) [
  | finished none_left e ↦ cc
  | failed _ _ _ _ _ e ↦ cc
  | went_on q rest l' shape step more ↦
      satisfy_from_total fuel l'
        (omega (arith, Step-lt (record l { requests = rest }) l' q step, lt, ap length shape)) more
]

-- For any requests, the loop comes to a result: a type costs at most as many rounds as it has
-- dependencies, or three for an alias.
pub satisfy_requests_total :
    (c : ByValueChecker) (requests : List QualifiedName) → satisfy_requests c requests ≢ out_of_fuel
unfolding satisfy_requests
satisfy_requests_total c requests =
    satisfy_from_total (suc (length requests + cost c.results))
      (record {
        results = c.results;
        aliases_awaiting_target = [];
        requests = push_all requests [];
      })
      (omega (arith, left-cost c.results, length-push_all requests []))
