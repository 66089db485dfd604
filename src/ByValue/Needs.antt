-- ===== src/ByValue/Needs.antt =====
-- Which types the requests of `satisfy_requests` need.
use mathlib.Core.List.Memᴰ
use autocxx.Prelude.{
  ◌≡◌, ◌≢◌, ◌↔◌, ◌⊎◌, refl, sym, ◌∙◌, subst, true, List, [], ◌∷◌, some, lookup, insert,
  lookup-insert_same, lookup-insert_other, some_injective, arith, Bool-cases, inl, inr, Memᴰ,
  Memᴰ-cons,
}
use autocxx.Names.{QualifiedName, name_eq, name_beq_iff}
use autocxx.ByValue.Data.{PodState, safe_to_be_pod, is_alias, StructDetails}
use autocxx.ByValue.Ingest.{Results}
use autocxx.ByValue.Requests.{ok, push_all, with_state, is_pod_state, is_pod_in}

pub Memᴰ-push_all :
    (x : QualifiedName) (tys requests : List QualifiedName)
    → Memᴰ x (push_all tys requests) ↔ (Memᴰ x tys ⊎ Memᴰ x requests)
unfolding push_all
Memᴰ-push_all x [] requests = (inr, λ h. elim h [ inl m ↦ absurd (Memᴰ.not-nil m) | inr m ↦ m ])
Memᴰ-push_all x (ty ∷ tys) requests =
    let ih = Memᴰ-push_all x tys (ty ∷ requests) in
    ground (arith, ih, Memᴰ-cons x ty requests, Memᴰ-cons x ty tys)

pub name_cases : (a b : QualifiedName) → (a ≡ b) ⊎ (a ≢ b)
name_cases a b = elim (Bool-cases (name_eq.beq a b)) [
  | inl same ↦ inl ((name_beq_iff a b).0 same)
  | inr differ ↦ inr (λ same. cc ((name_beq_iff a b).1 same))
]

pub ok_injective : {r s : Results} → ok r ≡ ok s → r ≡ s
ok_injective e = cc

abbrev pub IsPodIn : Results → QualifiedName → Type 0
IsPodIn r q = is_pod_in r q ≡ true

pub IsPodIn-insert_same :
    (k : QualifiedName) (d : StructDetails) (r : Results)
    → is_pod_in (insert k d r) k ≡ is_pod_state d.state
unfolding is_pod_in
IsPodIn-insert_same k d r = rw (is_pod_in, lookup-insert_same k d r) refl

pub IsPodIn-insert_other :
    (k q : QualifiedName) (d : StructDetails) (r : Results)
    → k ≢ q
    → is_pod_in (insert k d r) q ≡ is_pod_in r q
unfolding is_pod_in
IsPodIn-insert_other k q d r differ = rw (is_pod_in, lookup-insert_other k q d r differ) refl

-- What a type asks for: a struct its dependencies, an alias its target.
abbrev pub Needs : Results → QualifiedName → QualifiedName → Type 0
Needs r p q =
    (d : StructDetails) × (lookup p r ≡ some d)
    × (((d.state ≡ safe_to_be_pod) × Memᴰ q d.dependent_structs) ⊎ (d.state ≡ is_alias q))

pub is_alias_injective : {s t : QualifiedName} → is_alias s ≡ is_alias t → s ≡ t
is_alias_injective e = cc

pub Needs-inv :
    (r : Results) (p q : QualifiedName) (d : StructDetails)
    → lookup p r ≡ some d
    → Needs r p q
    → ((d.state ≡ safe_to_be_pod) × Memᴰ q d.dependent_structs) ⊎ (d.state ≡ is_alias q)
Needs-inv r p q d found (w, there, why) =
    subst (λ x. ((x.state ≡ safe_to_be_pod) × Memᴰ q x.dependent_structs) ⊎ (x.state ≡ is_alias q))
      (some_injective (sym there ∙ found)) why

-- The requests, and what they need in turn.
pub data Needed (r : Results) (requests : List QualifiedName) : QualifiedName → Type 0 where
  asked_for : {q : QualifiedName} → Memᴰ q requests → Needed r requests q
  needed_by : {p q : QualifiedName} → Needed r requests p → Needs r p q → Needed r requests q

-- A struct or alias that is not settled yet.
abbrev pub Open : StructDetails → Type 0
Open d = (d.state ≡ safe_to_be_pod) ⊎ ((t : QualifiedName) × (d.state ≡ is_alias t))

pub settled-Open :
    (s : PodState) (d : StructDetails)
    → s ≢ safe_to_be_pod
    → ((t : QualifiedName) → s ≢ is_alias t)
    → ¬ Open (with_state s d)
settled-Open s d not_safe no_alias still_open = elim still_open [
  | inl safe ↦ not_safe safe
  | inr (t, alias) ↦ no_alias t alias
]
