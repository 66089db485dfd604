-- ===== src/ByValue/Steps.antt =====
-- The rounds of `satisfy_requests` that go on, as a relation between states of the loop.
use autocxx.Prelude.{
  ℕ, suc, ◌≡◌, refl, sym, false, List, [], ◌∷◌, Option, none, some, contains, lookup, insert, Text,
  codes, if◌then◌else◌, Bool-cases, inl, inr,
}
use autocxx.Names.{QualifiedName, name_eq}
use autocxx.ByValue.Data.{
  PodState, unsafe_to_be_pod, safe_to_be_pod, is_pod, is_alias, StructDetails,
}
use autocxx.ByValue.Requests.{
  Loop, unable, Round, goes_on, fails, push_all, with_state, alias_reason, consider_alias, consider,
  Satisfied, ok, err, satisfy_from,
}

-- `l` goes on to `l'` with the request `q`.
pub data Step (l l' : Loop) (q : QualifiedName) : Type 0 where
  already :
      (d : StructDetails) → lookup q l.results ≡ some d → d.state ≡ is_pod → l' ≡ l → Step l l' q
  made :
      (d : StructDetails)
      → lookup q l.results ≡ some d
      → d.state ≡ safe_to_be_pod
      → l' ≡ record l {
        results = insert q (with_state is_pod d) l.results;
        requests = push_all d.dependent_structs l.requests;
      }
      → Step l l' q
  follows :
      (d : StructDetails) (target : QualifiedName) (t : StructDetails)
      → lookup q l.results ≡ some d
      → d.state ≡ is_alias target
      → lookup target l.results ≡ some t
      → t.state ≡ is_pod
      → l'
        ≡ record l { results = insert q (with_state is_pod d) l.results; requests = q ∷ l.requests }
      → Step l l' q
  gives_up :
      (d : StructDetails) (target : QualifiedName) (reason : Text)
      → lookup q l.results ≡ some d
      → d.state ≡ is_alias target
      → l' ≡ record l {
        results =
            insert q (with_state (unsafe_to_be_pod (alias_reason q target reason)) d) l.results;
        requests = q ∷ l.requests;
      }
      → Step l l' q
  waits :
      (d : StructDetails) (target : QualifiedName)
      → lookup q l.results ≡ some d
      → d.state ≡ is_alias target
      → contains l.aliases_awaiting_target q ≡ false
      → l' ≡ record l {
        aliases_awaiting_target = q ∷ l.aliases_awaiting_target;
        requests = target ∷ q ∷ l.requests;
      }
      → Step l l' q

goes_on_injective : {l l' : Loop} → goes_on l ≡ goes_on l' → l' ≡ l
goes_on_injective e = cc

module _ (l l' : Loop) (q : QualifiedName) where
  await-Step :
      (d t : StructDetails) (target : QualifiedName)
      → lookup q l.results ≡ some d
      → d.state ≡ is_alias target
      → (if contains l.aliases_awaiting_target q
          then fails (unable q (codes "it is part of a circular chain of typedefs"))
          else goes_on (record l {
            aliases_awaiting_target = q ∷ l.aliases_awaiting_target;
            requests = target ∷ q ∷ l.requests;
          }))
        ≡ goes_on l'
      → Step l l' q
  await-Step d t target found alias e = elim (Bool-cases (contains l.aliases_awaiting_target q)) [
    | inl circular ↦ cc (rw circular at e)
    | inr new ↦ waits d target found alias new (goes_on_injective (rw new at e))
  ]

  alias-Step :
      (d : StructDetails) (target : QualifiedName)
      → lookup q l.results ≡ some d
      → d.state ≡ is_alias target
      → (o : Option StructDetails) → lookup target l.results ≡ o
      → consider_alias l q d target ≡ goes_on l'
      → Step l l' q
  unfolding consider_alias
  alias-Step d target found alias none unknown e = cc (rw (unknown, consider_alias) at e)
  alias-Step d target found alias (some t) known e = at t.state refl
    where
      at : (s : PodState) → t.state ≡ s → Step l l' q
      at (unsafe_to_be_pod reason) is =
          gives_up d target reason found alias
            (goes_on_injective (rw is at (rw (known, consider_alias) at e)))
      at is_pod is =
          follows d target t found alias known is
            (goes_on_injective (rw is at (rw (known, consider_alias) at e)))
      at safe_to_be_pod is =
          await-Step d t target found alias (rw is at (rw (known, consider_alias) at e))
      at (is_alias further) is =
          await-Step d t target found alias (rw is at (rw (known, consider_alias) at e))

  consider-Step_at :
      (o : Option StructDetails) → lookup q l.results ≡ o → consider l q ≡ goes_on l' → Step l l' q
  unfolding consider
  consider-Step_at none unknown e = cc (rw (unknown, consider) at e)
  consider-Step_at (some d) known e = at d.state refl
    where
      at : (s : PodState) → d.state ≡ s → Step l l' q
      at (unsafe_to_be_pod reason) is = cc (rw is at (rw (known, consider) at e))
      at is_pod is = already d known is (goes_on_injective (rw is at (rw (known, consider) at e)))
      at safe_to_be_pod is =
          made d known is (goes_on_injective (rw is at (rw (known, consider) at e)))
      at (is_alias target) is =
          alias-Step d target known is (lookup target l.results) refl
            (rw is at (rw (known, consider) at e))

  consider-Step : consider l q ≡ goes_on l' → Step l l' q
  consider-Step e = consider-Step_at (lookup q l.results) refl e

-- What a run does first.
pub data Run (fuel : ℕ) (l : Loop) (s : Satisfied) : Type 0 where
  finished : l.requests ≡ [] → s ≡ ok l.results → Run fuel l s
  failed :
      (q : QualifiedName) (rest : List QualifiedName) (text : Text)
      → l.requests ≡ q ∷ rest
      → consider (record l { requests = rest }) q ≡ fails text
      → s ≡ err text
      → Run fuel l s
  went_on :
      (q : QualifiedName) (rest : List QualifiedName) (l' : Loop)
      → l.requests ≡ q ∷ rest
      → Step (record l { requests = rest }) l' q
      → satisfy_from fuel l' ≡ s
      → Run fuel l s

module _ (fuel : ℕ) (l : Loop) (s : Satisfied) where
  round-Run :
      (q : QualifiedName) (rest : List QualifiedName)
      → l.requests ≡ q ∷ rest
      → (r : Round) → consider (record l { requests = rest }) q ≡ r
      → satisfy_from (suc fuel) l ≡ s
      → Run fuel l s
  unfolding satisfy_from
  round-Run q rest shape (fails text) e h =
      failed q rest text shape e (sym (rw e at (rw (shape, satisfy_from) at h)))
  round-Run q rest shape (goes_on l') e h =
      went_on q rest l' shape (consider-Step (record l { requests = rest }) l' q e)
        (rw e at (rw (shape, satisfy_from) at h))

  requests-Run :
      (rs : List QualifiedName) → l.requests ≡ rs → satisfy_from (suc fuel) l ≡ s → Run fuel l s
  unfolding satisfy_from
  requests-Run [] shape h = finished shape (sym (rw (shape, satisfy_from) at h))
  requests-Run (q ∷ rest) shape h =
      round-Run q rest shape (consider (record l { requests = rest }) q) refl h

  pub satisfy_from-Run : satisfy_from (suc fuel) l ≡ s → Run fuel l s
  satisfy_from-Run h = requests-Run l.requests refl h
