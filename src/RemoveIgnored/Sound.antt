-- ===== src/RemoveIgnored/Sound.antt =====
-- The passes of remove_ignored.rs together: when they end, and what they leave.
use autocxx.Prelude.{
  ℕ, zero, suc, ◌<◌, ◌≡◌, ◌≢◌, refl, sym, subst, ◌∙◌, Bool, true, false, ◌||◌, List, [], ◌∷◌, some,
  map, contains, to_set, length, Distinct, All, All-mem, lookup-insert, arith, Bool-cases, inl, inr,
  Memᴰ,
}
use autocxx.Names.{QualifiedName, name_eq, name_beq_iff}
use autocxx.Api.{Api, ignored_item, api_name, name_info, api_deps}
use autocxx.ApiVec.{ApiVec}
use autocxx.ApiVec.Collect.{from_iter-Distinct}
use autocxx.RemoveIgnored.{
  is_ignored, Reasons, rounds, filter_apis_by_ignored_dependents, types_of, reasons_of, add_reason,
}
use autocxx.RemoveIgnored.Sweep.{has, Covers, IsSound}
use autocxx.RemoveIgnored.Pass.{live_count, live_count-length, names_of-infos, sweep-IsSwept}

module _ (built_in is_known_type : QualifiedName → Bool) (valid : List QualifiedName) where
  -- What the filter leaves: an API or a stub for each, and nothing that depends on what is gone.
  pub record IsFiltered (before after : List Api) : Type 0 where
    pub named : map name_info after ≡ map name_info before
    pub survivors : (a : Api) → Memᴰ a after → is_ignored a ≡ false → Memᴰ a before
    pub clean :
        (a b : Api) (dep : QualifiedName)
        → Memᴰ a after
        → Memᴰ dep (api_deps a)
        → Memᴰ b after
        → is_ignored b ≡ true
        → api_name b ≢ dep
    pub known :
        (a : Api) (dep : QualifiedName)
        → Memᴰ a after
        → Memᴰ dep (api_deps a)
        → (contains valid dep || is_known_type dep) ≡ true

  sound-IsFiltered :
      (reasons : Reasons) (apis : List Api)
      → All (Covers reasons) apis
      → All (IsSound built_in is_known_type valid reasons) apis
      → IsFiltered apis apis
  sound-IsFiltered reasons apis covered sound = record {
    named = refl;
    survivors = λ a m live. m;
    clean = λ a b dep m k n ignored e.
        let held = All-mem (Covers reasons) apis covered n ignored in
        let (absent, _) =
          All-mem (IsSound built_in is_known_type valid reasons) apis sound m dep k in
        cc;
    known =
        λ a dep m k. (All-mem (IsSound built_in is_known_type valid reasons) apis sound m dep k).1;
  }

  rounds-IsFiltered :
      (fuel : ℕ) (reasons : Reasons) (v : ApiVec)
      → live_count v.apis < fuel
      → Distinct (map api_name v.apis)
      → All (Covers reasons) v.apis
      → (v' : ApiVec) × (rounds built_in is_known_type fuel valid reasons v ≡ some v')
        × IsFiltered v.apis v'.apis
        × (v'.names ≡ map api_name v'.apis)
  unfolding rounds
  rounds-IsFiltered zero reasons v enough d covered = absurd (omega arith)
  rounds-IsFiltered (suc fuel) reasons v enough d covered =
      let (r, e, w) = sweep-IsSwept built_in is_known_type valid reasons v.apis in
      let names = names_of-infos r.apis v.apis w.named in
      let d' : Distinct (map api_name r.apis) = subst Distinct (sym names) d in
      let next : ApiVec = record { apis = r.apis; names = map api_name r.apis } in
      let collected = from_iter-Distinct built_in r.apis d' in
      elim (Bool-cases r.again) [
        | inl again ↦
            let (v', f, ok, listed) =
              rounds-IsFiltered fuel r.reasons next (omega (arith, w.fewer_again again)) d'
                (w.covered covered) in
            (
              v',
              rw (e, rounds) (rw (collected, rounds, again) f),
              record {
                named = ok.named ∙ w.named;
                survivors = λ a m live. w.survivors a (ok.survivors a m live) live;
                clean = ok.clean;
                known = ok.known;
              },
              listed,
            )
        | inr quiet ↦ (
          next,
          rw (e, rounds) (rw (collected, rounds, quiet) refl),
          subst (IsFiltered v.apis) (sym (w.quiet_apis quiet))
              (sound-IsFiltered reasons v.apis covered (w.sound quiet)),
          refl,
        )
      ]

add_reason-grow :
    (m : Reasons) (x : Api) (n : QualifiedName) → has m n ≡ true → has (add_reason m x) n ≡ true
unfolding add_reason
add_reason-grow m (ignored_item name err ctx) n h = ground (arith, lookup-insert name.name n err m)
add_reason-grow m _ n h = h

add_reason-Covers : (m : Reasons) (x : Api) → Covers (add_reason m x) x
unfolding add_reason is_ignored api_name name_info
add_reason-Covers m (ignored_item name err ctx) e =
    ground (arith, lookup-insert name.name name.name err m, name_beq_iff name.name name.name)
add_reason-Covers m _ e = cc

reasons_of-grow :
    (m : Reasons) (apis : List Api) (n : QualifiedName)
    → has m n ≡ true
    → has (reasons_of m apis) n ≡ true
unfolding reasons_of add_reason
reasons_of-grow m [] n h = h
reasons_of-grow m (x ∷ apis) n h = reasons_of-grow (add_reason m x) apis n (add_reason-grow m x n h)

reasons_of-Covers : (m : Reasons) (apis : List Api) → All (Covers (reasons_of m apis)) apis
unfolding reasons_of
reasons_of-Covers m [] = tt
reasons_of-Covers m (x ∷ apis) = (
  λ e. reasons_of-grow (add_reason m x) apis (api_name x) (add_reason-Covers m x e),
  reasons_of-Covers (add_reason m x) apis,
)

-- On a list whose names are distinct the filter returns: the loop ends and no lookup fails. Each
-- API stays as it was, or an ignored item of its name stands in its place. No dependency of an API that
-- is left is the name of an ignored item that is left, and each is a type that some API of the
-- start declares or a known type.
pub filter_apis-IsFiltered :
    (built_in is_known_type : QualifiedName → Bool) (v : ApiVec)
    → Distinct (map api_name v.apis)
    → (v' : ApiVec) × (filter_apis_by_ignored_dependents built_in is_known_type v ≡ some v')
      × IsFiltered built_in is_known_type (to_set [] (types_of v.apis)) v.apis v'.apis
      × (v'.names ≡ map api_name v'.apis)
unfolding filter_apis_by_ignored_dependents
filter_apis-IsFiltered built_in is_known_type v d =
    rounds-IsFiltered built_in is_known_type (to_set [] (types_of v.apis)) (suc (length v.apis))
      (reasons_of [] v.apis) v (omega (arith, live_count-length v.apis)) d
      (reasons_of-Covers [] v.apis)
