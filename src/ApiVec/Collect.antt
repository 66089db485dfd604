-- ===== src/ApiVec/Collect.antt =====
-- `extend`, `append` and `from_iter` of apivec.rs, on clashing and on distinct names.
use mathlib.Core.List.Memᴰ
use mathlib.Core.List.Permᴰ
use autocxx.Prelude.{
  append-nil, append_assoc, Distinct-perm, contains_iff, ◌≡◌, refl, Bool, true, false, List, [],
  ◌∷◌, ◌++◌, some, map, contains, set_insert, arith, inl, inr, Memᴰ, Distinct, All,
}
use autocxx.Names.{QualifiedName, name_eq}
use autocxx.Api.{Api, api_name}
use autocxx.ApiVec.{ApiVec, ApiVec_new, insert_api, push, extend, append, from_iter}
use autocxx.ApiVec.Push.{push_from_free, push-IsValid}
use autocxx.ApiVec.Names.{IsFiled, IsValid}

module _ (built_in : QualifiedName → Bool) where
  extend-IsValid :
      (v : ApiVec) (apis : List Api)
      → IsValid v
      → All IsFiled apis
      → (v' : ApiVec) × (extend built_in v apis ≡ some v')
        × IsValid v'
        × ((n : QualifiedName) → contains v.names n ≡ true → contains v'.names n ≡ true)
        × ((api : Api) → Memᴰ api apis → contains v'.names (api_name api) ≡ true)
  unfolding extend
  extend-IsValid v [] valid ok = (v, refl, valid, λ n h. h, λ api m. absurd (Memᴰ.not-nil m))
  extend-IsValid v (x ∷ apis) valid ok =
      let (v₁, e₁, valid₁, held₁, kept₁) = push-IsValid built_in v x valid ok.0 in
      let (v₂, e₂, valid₂, kept₂, held₂) = extend-IsValid v₁ apis valid₁ ok.1 in
      (
        v₂,
        rw (e₁, extend) e₂,
        valid₂,
        λ n h. kept₂ n (kept₁ n h),
        λ api m. elim (Memᴰ.cases_cons m) [
          | inl e ↦ rw e (kept₂ (api_name x) held₁)
          | inr later ↦ held₂ api later
        ],
      )

  new-IsValid : IsValid ApiVec_new
  new-IsValid = record { indexed = refl; distinct = tt; filed = tt }

  -- Collecting APIs, clashing or not, returns a valid list that holds the name of each, where
  -- every stub of a displaced function among them says of which.
  pub from_iter-IsValid :
      (apis : List Api)
      → All IsFiled apis
      → (v : ApiVec) × (from_iter built_in apis ≡ some v)
        × IsValid v
        × ((api : Api) → Memᴰ api apis → contains v.names (api_name api) ≡ true)
  unfolding from_iter
  from_iter-IsValid apis ok =
      let (v, e, valid, kept, held) = extend-IsValid ApiVec_new apis new-IsValid ok in
      (v, e, valid, held)

  pub push-new :
      (v : ApiVec) (api : Api)
      → (¬ Memᴰ (api_name api) v.names)
      → push built_in v api
        ≡ some (record { apis = v.apis ++ api ∷ []; names = v.names ++ api_name api ∷ [] })
  unfolding push insert_api
  push-new v api new =
      let absent : contains v.names (api_name api) ≡ false =
        ground (arith, contains_iff v.names (api_name api), new) in
      let inserted : set_insert (api_name api) v.names ≡ v.names ++ api_name api ∷ [] =
        ground (arith, absent) in
      rw (push_from_free built_in 1 v api absent, insert_api, inserted) refl

  -- Appending a list of one API of a new name.
  pub append-new :
      (v : ApiVec) (api : Api) (names : List QualifiedName)
      → (¬ Memᴰ (api_name api) v.names)
      → append built_in v (record { apis = api ∷ []; names = names })
        ≡ some (record { apis = v.apis ++ api ∷ []; names = v.names ++ api_name api ∷ [] })
  unfolding append extend
  append-new v api names new = rw (push-new v api new, extend) refl

  pub extend-Distinct :
      (v : ApiVec) (apis : List Api)
      → Distinct (v.names ++ map api_name apis)
      → extend built_in v apis
        ≡ some (record { apis = v.apis ++ apis; names = v.names ++ map api_name apis })
  unfolding extend
  extend-Distinct v [] d = rw (append-nil v.apis, append-nil v.names) refl
  extend-Distinct v (x ∷ apis) d =
      let new : ¬ Memᴰ (api_name x) v.names = λ m.
        (Distinct-perm (Permᴰ.middle (api_name x) v.names (map api_name apis)) d).0
          (Memᴰ.append_left (map api_name apis) m) in
      let ih =
        extend-Distinct (record { apis = v.apis ++ x ∷ []; names = v.names ++ api_name x ∷ [] })
          apis (rw (append_assoc v.names (api_name x ∷ []) (map api_name apis)) d) in
      rw (push-new v x new, extend)
        (rw
          (
            ← append_assoc v.names (api_name x ∷ []) (map api_name apis),
            ← append_assoc v.apis (x ∷ []) apis,
          )
          ih)

  -- Collecting APIs whose names are distinct keeps each of them, in order.
  pub from_iter-Distinct :
      (apis : List Api)
      → Distinct (map api_name apis)
      → from_iter built_in apis ≡ some (record { apis = apis; names = map api_name apis })
  unfolding from_iter
  from_iter-Distinct apis d = extend-Distinct ApiVec_new apis d
