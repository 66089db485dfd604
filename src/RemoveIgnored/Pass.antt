-- ===== src/RemoveIgnored/Pass.antt =====
-- One pass of remove_ignored.rs over all the APIs.
use mathlib.Core.List.Memᴰ
use autocxx.Prelude.{
  ℕ, suc, ◌≤◌, length, ◌<◌, ◌≡◌, refl, sym, subst, ap, ◌∙◌, Bool, true, false, ◌||◌, List, [], ◌∷◌,
  some, map, All, cons_injective, arith, if◌then◌else◌, inl, inr, Memᴰ,
}
use autocxx.Names.{QualifiedName, name_eq, name_beq_iff}
use autocxx.Api.{Api, api_name, name_info}
use autocxx.RemoveIgnored.{is_ignored, Reasons, Settled, Swept, sweep}
use autocxx.RemoveIgnored.Sweep.{has, Covers, IsSound, IsKept, IsDropped, settle-cases}

-- The number of APIs that are not ignored yet.
pub live_count : List Api → ℕ
live_count [] = 0
live_count (api ∷ apis) = if is_ignored api then live_count apis else suc (live_count apis)

pub live_count-length : (apis : List Api) → live_count apis ≤ length apis
unfolding live_count
live_count-length [] = omega arith
live_count-length (x ∷ apis) = ground (arith, live_count-length apis)

Covers-grow :
    (m m' : Reasons) (apis : List Api)
    → ((n : QualifiedName) → has m n ≡ true → has m' n ≡ true)
    → All (Covers m) apis
    → All (Covers m') apis
Covers-grow m m' [] grow h = tt
Covers-grow m m' (x ∷ apis) grow h =
    (λ k. grow (api_name x) (h.0 k), Covers-grow m m' apis grow h.1)

name_of-info : (a b : Api) → name_info a ≡ name_info b → api_name a ≡ api_name b
unfolding api_name
name_of-info a b e = ap (λ n. n.name) e

pub names_of-infos :
    (xs ys : List Api) → map name_info xs ≡ map name_info ys → map api_name xs ≡ map api_name ys
names_of-infos [] [] e = refl
names_of-infos [] (y ∷ ys) e = cc
names_of-infos (x ∷ xs) [] e = cc
names_of-infos (x ∷ xs) (y ∷ ys) e =
    rw (name_of-info x y (cc), names_of-infos xs ys (cons_injective e)) refl

module _ (built_in is_known_type : QualifiedName → Bool) (valid : List QualifiedName) where
  pub record IsSwept (reasons : Reasons) (apis : List Api) (r : Swept) : Type 0 where
    pub grown : (n : QualifiedName) → has reasons n ≡ true → has r.reasons n ≡ true
    pub named : map name_info r.apis ≡ map name_info apis
    pub covered : All (Covers reasons) apis → All (Covers r.reasons) r.apis
    pub fewer : live_count r.apis ≤ live_count apis
    pub fewer_again : r.again ≡ true → live_count r.apis < live_count apis
    pub survivors : (a : Api) → Memᴰ a r.apis → is_ignored a ≡ false → Memᴰ a apis
    pub quiet_apis : r.again ≡ false → r.apis ≡ apis
    pub quiet_reasons : r.again ≡ false → r.reasons ≡ reasons
    pub sound : r.again ≡ false → All (IsSound built_in is_known_type valid reasons) apis

  module _ (reasons : Reasons) (x : Api) (apis : List Api) (s : Settled) (r : Swept) where
    abbrev joined : Swept
    joined = record { apis = s.api ∷ r.apis; reasons = r.reasons; again = s.again || r.again }

    kept-IsSwept :
        IsKept built_in is_known_type valid reasons x s
        → IsSwept s.reasons apis r
        → IsSwept reasons (x ∷ apis) joined
    unfolding live_count
    kept-IsSwept k w = record {
      grown = λ n h. w.grown n (rw k.reasons_same h);
      named = rw (k.same, w.named) refl;
      covered = λ h. (
        λ e. w.grown (api_name s.api) (rw (k.same, k.reasons_same) (h.0 (rw k.same at e))),
        w.covered (subst (λ m. All (Covers m) apis) (sym k.reasons_same) h.1),
      );
      fewer = rw k.same (ground (arith, w.fewer));
      fewer_again = λ e. rw k.same (ground (arith, w.fewer_again, k.quiet));
      survivors = λ a m live. elim (Memᴰ.cases_cons m) [
        | inl e ↦ Memᴰ.head (e ∙ k.same)
        | inr later ↦ Memᴰ.tail (w.survivors a later live)
      ];
      quiet_apis = λ e. rw (k.same, w.quiet_apis (ground (arith, k.quiet))) refl;
      quiet_reasons = λ e. w.quiet_reasons (ground (arith, k.quiet)) ∙ k.reasons_same;
      sound = λ e. (
        k.sound,
        subst (λ m. All (IsSound built_in is_known_type valid m) apis) k.reasons_same
            (w.sound (ground (arith, k.quiet))),
      );
    }

    dropped-IsSwept :
        IsDropped built_in is_known_type valid reasons x s
        → IsSwept s.reasons apis r
        → IsSwept reasons (x ∷ apis) joined
    unfolding live_count
    dropped-IsSwept d w = record {
      grown = λ n h. w.grown n (ground (arith, d.added n));
      named = rw (d.named, w.named) refl;
      covered = λ h. (
        λ e. w.grown (api_name s.api) (
            ground (
              arith,
              d.added (api_name s.api),
              name_of-info s.api x d.named,
              name_beq_iff (api_name x) (api_name s.api),
            )),
        w.covered (Covers-grow reasons s.reasons apis (λ n k. ground (arith, d.added n)) h.1),
      );
      fewer = ground (arith, w.fewer, d.ignored, d.live);
      fewer_again = λ e. ground (arith, w.fewer, d.ignored, d.live);
      survivors = λ a m live. elim (Memᴰ.cases_cons m) [
        | inl e ↦ cc (ap is_ignored e, d.ignored)
        | inr later ↦ Memᴰ.tail (w.survivors a later live)
      ];
      quiet_apis = λ e. ground (arith, d.loud);
      quiet_reasons = λ e. ground (arith, d.loud);
      sound = λ e. ground (arith, d.loud);
    }

  pub sweep-IsSwept :
      (reasons : Reasons) (apis : List Api)
      → (r : Swept) × (sweep built_in is_known_type valid reasons apis ≡ some r)
        × IsSwept reasons apis r
  unfolding sweep
  sweep-IsSwept reasons [] = (
    record { apis = []; reasons = reasons; again = false },
    refl,
    record {
      grown = λ n h. h;
      named = refl;
      covered = λ h. tt;
      fewer = omega arith;
      fewer_again = λ e. cc;
      survivors = λ a m live. m;
      quiet_apis = λ e. refl;
      quiet_reasons = λ e. refl;
      sound = λ e. tt;
    },
  )
  sweep-IsSwept reasons (x ∷ apis) =
      let (s, e, cases) = settle-cases built_in is_known_type valid reasons x in
      let (r, f, w) = sweep-IsSwept s.reasons apis in
      (
        joined reasons x apis s r,
        rw (e, sweep) (rw (f, sweep) refl),
        elim cases [
          | inl k ↦ kept-IsSwept reasons x apis s r k w
          | inr d ↦ dropped-IsSwept reasons x apis s r d w
        ],
      )
