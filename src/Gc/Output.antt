-- ===== src/Gc/Output.antt =====
-- The marking loop of gc.rs as a whole: what it outputs.
use mathlib.Core.List.Memᴰ
use autocxx.Prelude.{
  ℕ, zero, suc, ◌+◌, ◌<◌, ◌≡◌, refl, subst, ap, ◌∙◌, Bool, true, List, [], ◌∷◌, some, map, filter,
  length, Distinct, arith, Bool-cases, List-cases, inl, inr, ◌↔◌, Memᴰ,
}
use autocxx.Names.{QualifiedName}
use autocxx.Api.{Api, api_name}
use autocxx.ApiVec.{ApiVec, ApiVec_new}
use autocxx.DepthFirst.Ranked.{Memᴰ-map-inv}
use autocxx.Gc.{Marking, all_deps, mark, filter_apis_by_following_edges_from_allowlist}
use autocxx.Gc.Groups.{entries, group_by_name-entries}
use autocxx.Gc.Reach.{name_unique, IsReachable, IsMarking, finished}
use autocxx.Gc.Marks.{weight, visit-Visited}

-- What the output is: the APIs that a root reaches, each once, with the list of their names.
pub record IsOutput (is_root : Api → Bool) (apis : List Api) (out : ApiVec) : Type 0 where
  pub reached : (a : Api) → Memᴰ a out.apis ↔ IsReachable is_root apis a
  pub listed : out.names ≡ map api_name out.apis
  pub distinct : Distinct out.names

module _ (built_in : QualifiedName → Bool) (is_root : Api → Bool) (apis : List Api)
    (names_distinct : Distinct (map api_name apis)) where
  mark-IsOutput :
      (fuel : ℕ) (m : Marking) (left : List Api)
      → IsMarking is_root apis m left
      → weight m.todos left < fuel
      → (out : ApiVec) × (mark built_in fuel m ≡ some out) × IsOutput is_root apis out
  unfolding mark
  mark-IsOutput zero m left inv enough = absurd (omega arith)
  mark-IsOutput (suc fuel) m left inv enough = elim (List-cases m.todos) [
    | inl empty ↦ (
      m.output,
      rw (empty, mark) refl,
      record {
        reached = λ a. (inv.reached a, finished is_root apis m left inv empty a);
        listed = inv.listed;
        distinct = inv.distinct;
      },
    )
    | inr (todo, todos, next) ↦
        let (m', left', e, inv', less) =
          visit-Visited built_in is_root apis names_distinct m left inv todo todos next in
        let (out, f, ok) = mark-IsOutput fuel m' left' inv' (omega (arith, ap length next)) in
        (out, rw (next, mark) (rw (e, mark) f), ok)
  ]

Memᴰ-roots :
    (is_root : Api → Bool) (apis : List Api) (a : Api)
    → Memᴰ a (filter is_root apis) ↔ (Memᴰ a apis × (is_root a ≡ true))
Memᴰ-roots is_root [] a = (λ m. absurd (Memᴰ.not-nil m), λ m. absurd (Memᴰ.not-nil m.0))
Memᴰ-roots is_root (x ∷ apis) a = elim (Bool-cases (is_root x)) [
  | inl named ↦ rw named (
    λ m. elim (Memᴰ.cases_cons m) [
      | inl e ↦ (Memᴰ.head e, ap is_root e ∙ named)
      | inr later ↦ let (k, r) = (Memᴰ-roots is_root apis a).0 later in (Memᴰ.tail k, r)
    ],
    λ (m, r). elim (Memᴰ.cases_cons m) [
      | inl e ↦ Memᴰ.head e
      | inr later ↦ Memᴰ.tail ((Memᴰ-roots is_root apis a).1 (later, r))
    ],
  )
  | inr plain ↦ rw plain (
    λ m. let (k, r) = (Memᴰ-roots is_root apis a).0 m in (Memᴰ.tail k, r),
    λ (m, r). elim (Memᴰ.cases_cons m) [
      | inl e ↦ cc (ap is_root e)
      | inr later ↦ (Memᴰ-roots is_root apis a).1 (later, r)
    ],
  )
]

-- On a list whose names are distinct the collection returns: the loop ends. An API is in the output
-- exactly when a chain of dependencies leads to it from a root. No name stands twice there.
pub filter_apis_by_following_edges-IsOutput :
    (built_in : QualifiedName → Bool) (is_root : Api → Bool) (v : ApiVec)
    → Distinct (map api_name v.apis)
    → (out : ApiVec) × (filter_apis_by_following_edges_from_allowlist built_in is_root v ≡ some out)
      × IsOutput is_root v.apis out
unfolding filter_apis_by_following_edges_from_allowlist
filter_apis_by_following_edges-IsOutput built_in is_root v d =
    let roots = map api_name (filter is_root v.apis) in
    let start : Marking = record {
      todos = roots;
      by_typename = entries v.apis;
      done = [];
      output = ApiVec_new;
    } in
    let (out, e, ok) =
      mark-IsOutput built_in is_root v.apis d (suc (length roots + length (all_deps v.apis))) start
        v.apis
        (record {
          groups = refl;
          listed = refl;
          distinct = tt;
          shared = λ a m. inr m;
          left_in = λ a m. m;
          left_fresh = λ a m. refl;
          output_done = λ a m. absurd (Memᴰ.not-nil m);
          reached = λ a m. absurd (Memᴰ.not-nil m);
          todo_reached = λ a m w.
              let (b, k, same) = Memᴰ-map-inv api_name (api_name a) (filter is_root v.apis) w in
              let (there, named) = (Memᴰ-roots is_root v.apis b).0 k in
              subst (IsReachable is_root v.apis) (name_unique v.apis b a d there m same)
                (IsReachable.root there named);
          roots = λ a m named. inr (Memᴰ.map api_name ((Memᴰ-roots is_root v.apis a).1 (m, named)));
          closed = λ a dep m k. absurd (Memᴰ.not-nil m);
        })
        (omega arith) in
    (
      out,
      rw (group_by_name-entries built_in [] v.apis d, filter_apis_by_following_edges_from_allowlist)
          e,
      ok,
    )
