-- ===== src/SpecialMembers/Consistent.antt =====
-- The order in which `find_constructors_present` looks at the classes.
use mathlib.Core.List.{Permᴰ}
use mathlib.Core.List.Memᴰ
use mathlib.Core.List.Permᴰ
use autocxx.Prelude.{
  ℕ, ◌≡◌, ◌≢◌, refl, sym, ap, ◌∙◌, subst, true, false, List, [], ◌∷◌, ◌++◌, none, some, map, lookup,
  insert, lookup-insert_same, lookup-insert_other, Memᴰ, Memᴰ-perm, Distinct, Distinct-perm,
  append-nil, arith, Bool-cases, inl, inr, Option-cases,
}
use autocxx.Names.{QualifiedName, name_eq, name_beq_iff}
use autocxx.DepthFirst.{drain, all_done}
use autocxx.DepthFirst.Ordered.{IsOrdered}
use autocxx.DepthFirst.Ranked.{Memᴰ-map-inv}
use autocxx.DepthFirst.Complete.{Ranked, fields_and_bases_first_completes}
use autocxx.SpecialMembers.Data.{StructInfo, KnownTypes}
use autocxx.SpecialMembers.Fields.{AllItems}
use autocxx.SpecialMembers.Explicits.{
  PreApi, struct, enum, concrete_type, typedef, other, find_explicit_items,
}
use autocxx.SpecialMembers.Walk.{
  Context, pre_name, pre_deps, pre_apis, is_analysed, items_of, visit_api, visit_all,
  typedef_targets, enum_names, add_concretes, find_constructors_present,
}
use autocxx.SpecialMembers.Agree.{asked, items_of-agree}

-- What is known before the first class is looked at.
abbrev pub context_of : List PreApi → Context
context_of apis = record {
  explicit_items = find_explicit_items apis;
  enums = enum_names apis;
  targets = typedef_targets [] apis;
}

struct_injective : {s t : StructInfo} → struct s ≡ struct t → s ≡ t
struct_injective e = cc

module _ (k : KnownTypes) (c : Context) (known : List QualifiedName) where
  -- Of the listed names, a class asks only for those that it depends on.
  abbrev pub AsksDeps : List PreApi → Type 0
  AsksDeps apis =
      (s : StructInfo)
      → Memᴰ (struct s) apis
      → (q : QualifiedName) → Memᴰ q (asked k c s)
      → Memᴰ q known
      → Memᴰ q (pre_deps (struct s))

  -- The answers so far are those for the classes of `seen`, and agree with one another.
  record Inv (seen : List PreApi) (all : AllItems) : Type 0 where
    only :
        (q : QualifiedName)
        → lookup q all ≢ none
        → (s : StructInfo) × Memᴰ (struct s) seen × (is_analysed s ≡ true) × (s.name.name ≡ q)
    agrees :
        (s : StructInfo)
        → Memᴰ (struct s) seen
        → is_analysed s ≡ true
        → lookup s.name.name all ≡ some (items_of k c all s)
    closed :
        (s : StructInfo)
        → Memᴰ (struct s) seen
        → is_analysed s ≡ true
        → (q : QualifiedName) → Memᴰ q (asked k c s)
        → Memᴰ q known
        → Memᴰ q (map pre_name seen)

  only-seen :
      (seen : List PreApi) (all : AllItems)
      → Inv seen all
      → (q : QualifiedName) → (¬ Memᴰ q (map pre_name seen))
      → lookup q all ≡ none
  unfolding pre_name
  only-seen seen all inv q new = elim (Option-cases (lookup q all)) [
    | inl e ↦ e
    | inr (i, e) ↦
        let (s, m, a, same) = inv.only q (λ absent. cc) in
        absurd (new (subst (λ n. Memᴰ n (map pre_name seen)) same (Memᴰ.map pre_name m)))
  ]

  -- Looking at one more class.
  Inv-insert :
      (seen : List PreApi) (all : AllItems) (s : StructInfo)
      → Inv seen all
      → (¬ Memᴰ s.name.name (map pre_name seen))
      → Memᴰ s.name.name known
      → is_analysed s ≡ true
      → ((q : QualifiedName) → Memᴰ q (asked k c s) → Memᴰ q known → Memᴰ q (map pre_name seen))
      → Inv (struct s ∷ seen) (insert s.name.name (items_of k c all s) all)
  unfolding pre_name
  Inv-insert seen all s inv new listed analysed asks =
      let all' = insert s.name.name (items_of k c all s) all in
      let other : (q : QualifiedName) → s.name.name ≢ q → lookup q all' ≡ lookup q all =
        λ q differ. lookup-insert_other s.name.name q (items_of k c all s) all differ in
      let unasked =
        λ (t : StructInfo)
            (closed : (q : QualifiedName)
              → Memᴰ q (asked k c t)
              → Memᴰ q known
              → Memᴰ q (map pre_name seen)).
          items_of-agree k c all all' t (λ q m. sym (
            other q (λ e. new (
              subst (λ n. Memᴰ n (map pre_name seen)) (sym e)
                (closed q m (subst (λ n. Memᴰ n known) e listed)))))) in
      record {
        only = λ q there. elim (Bool-cases (name_eq.beq s.name.name q)) [
          | inl same ↦ (s, Memᴰ.head refl, analysed, (name_beq_iff s.name.name q).0 same)
          | inr differ ↦
              let (t, m, a, same) =
                inv.only q
                  (λ e. there (other q (λ e'. cc ((name_beq_iff s.name.name q).1 e')) ∙ e)) in
              (t, Memᴰ.tail m, a, same)
        ];
        agrees = λ t m a. elim (Memᴰ.cases_cons m) [
          | inl same ↦
              subst (λ u. lookup (pre_name u) all' ≡ some (items_of k c all' t)) (sym same)
                (lookup-insert_same s.name.name (items_of k c all s) all
                  ∙ ap some (unasked s asks ∙ ap (items_of k c all') (sym (struct_injective same))))
          | inr earlier ↦
              other t.name.name (λ e.
                new (subst (λ n. Memᴰ n (map pre_name seen)) (sym e) (Memᴰ.map pre_name earlier)))
              ∙ inv.agrees t earlier a
              ∙ ap some (unasked t (inv.closed t earlier a))
        ];
        closed = λ t m a q asks_it is_known. elim (Memᴰ.cases_cons m) [
          | inl same ↦
              Memᴰ.tail (
                asks q (subst (λ u. Memᴰ q (asked k c u)) (struct_injective same) asks_it) is_known)
          | inr earlier ↦ Memᴰ.tail (inv.closed t earlier a q asks_it is_known)
        ];
      }

  -- Going past an API that is no class to look at.
  Inv-skip :
      (seen : List PreApi) (all : AllItems) (api : PreApi)
      → Inv seen all
      → ((s : StructInfo) → struct s ≡ api → is_analysed s ≡ false)
      → Inv (api ∷ seen) all
  Inv-skip seen all api inv skipped =
      let earlier : (s : StructInfo)
          → Memᴰ (struct s) (api ∷ seen)
          → is_analysed s ≡ true
          → Memᴰ (struct s) seen =
        λ s m a. elim (Memᴰ.cases_cons m) [
          | inl same ↦ cc (skipped s same)
          | inr before ↦ before
        ] in
      record {
        only = λ q there. let (s, m, a, same) = inv.only q there in (s, Memᴰ.tail m, a, same);
        agrees = λ s m a. inv.agrees s (earlier s m a) a;
        closed = λ s m a q asks_it is_known.
            Memᴰ.tail (inv.closed s (earlier s m a) a q asks_it is_known);
      }

  -- Looking at one API whose dependencies are behind it.
  visit_api-Inv :
      (seen : List PreApi) (all : AllItems) (api : PreApi)
      → Inv seen all
      → (¬ Memᴰ (pre_name api) (map pre_name seen))
      → Memᴰ (pre_name api) known
      → ((d : QualifiedName) → Memᴰ d (pre_deps api) → Memᴰ d known → Memᴰ d (map pre_name seen))
      → ((s : StructInfo)
          → struct s ≡ api
          → (q : QualifiedName) → Memᴰ q (asked k c s)
          → Memᴰ q known
          → Memᴰ q (pre_deps api))
      → (all' : AllItems) × (visit_api k c all api ≡ some all') × Inv (api ∷ seen) all'
  unfolding visit_api pre_name pre_deps
  visit_api-Inv seen all (struct s) inv new listed behind asks = elim (Bool-cases (is_analysed s)) [
    | inl analysed ↦
        let absent = only-seen seen all inv s.name.name new in
        (
          insert s.name.name (items_of k c all s) all,
          ground (arith, analysed, absent),
          Inv-insert seen all s inv new listed analysed (λ q m l. behind q (asks s refl q m l) l),
        )
    | inr skipped ↦ (
      all,
      ground (arith, skipped),
      Inv-skip seen all (struct s) inv (λ t same. cc (struct_injective same)),
    )
  ]
  visit_api-Inv seen all (enum n) inv new listed behind asks =
      (all, refl, Inv-skip seen all (enum n) inv (λ t same. cc))
  visit_api-Inv seen all (concrete_type n) inv new listed behind asks =
      (all, refl, Inv-skip seen all (concrete_type n) inv (λ t same. cc))
  visit_api-Inv seen all (typedef n target) inv new listed behind asks =
      (all, refl, Inv-skip seen all (typedef n target) inv (λ t same. cc))
  visit_api-Inv seen all (PreApi.function n fun a) inv new listed behind asks =
      (all, refl, Inv-skip seen all (PreApi.function n fun a) inv (λ t same. cc))
  visit_api-Inv seen all (other n) inv new listed behind asks =
      (all, refl, Inv-skip seen all (other n) inv (λ t same. cc))

  visit_all-cons :
      (api : PreApi) (apis : List PreApi) (all all' all'' : AllItems)
      → visit_api k c all api ≡ some all'
      → visit_all k c all' apis ≡ some all''
      → visit_all k c all (api ∷ apis) ≡ some all''
  unfolding visit_all
  visit_all-cons api apis all all' all'' first rest = rw (first, visit_all) rest

  visit_all-Inv :
      (seen apis : List PreApi) (all : AllItems)
      → Inv seen all
      → Distinct (map pre_name (apis ++ seen))
      → ((api : PreApi) → Memᴰ api apis → Memᴰ (pre_name api) known)
      → IsOrdered pre_apis known (map pre_name seen) apis
      → AsksDeps apis
      → (out : List PreApi) × (all' : AllItems) × (visit_all k c all apis ≡ some all')
        × Inv out all'
        × Permᴰ out (apis ++ seen)
  unfolding visit_all
  visit_all-Inv seen [] all inv distinct listed ordered asks =
      (seen, all, refl, inv, Permᴰ.refl seen)
  visit_all-Inv seen (api ∷ apis) all inv distinct listed ordered asks =
      let new : ¬ Memᴰ (pre_name api) (map pre_name seen) = λ m.
        let (y, there, same) = Memᴰ-map-inv pre_name (pre_name api) seen m in
        distinct.0 (
          subst (λ n. Memᴰ n (map pre_name (apis ++ seen))) same
            (Memᴰ.map pre_name (Memᴰ.append_right apis there))) in
      let (all', visited, inv') =
        visit_api-Inv seen all api inv new (listed api (Memᴰ.head refl)) ordered.0
          (λ s same q m l. subst (λ x. Memᴰ q (pre_deps x)) same (asks s (Memᴰ.head same) q m l)) in
      let moved = Permᴰ.symm (Permᴰ.middle api apis seen) in
      let (out, all'', rest, inv'', perm) =
        visit_all-Inv (api ∷ seen) apis all' inv'
          (Distinct-perm (Permᴰ.map pre_name moved) distinct) (λ a m. listed a (Memᴰ.tail m))
          ordered.1 (λ s m. asks s (Memᴰ.tail m)) in
      (
        out,
        all'',
        visit_all-cons api apis all all' all'' visited rest,
        inv'',
        Permᴰ.trans perm (Permᴰ.middle api apis seen),
      )

  Inv-nothing : Inv [] []
  Inv-nothing = record {
    only = λ q there. absurd (there refl);
    agrees = λ s m a. absurd (Memᴰ.not-nil m);
    closed = λ s m a. absurd (Memᴰ.not-nil m);
  }

module _ (k : KnownTypes) (rank : QualifiedName → ℕ) where
  find_constructors_present-walk :
      (apis ordered : List PreApi) (instantiable : List QualifiedName) (all : AllItems)
      → drain pre_apis apis ≡ all_done ordered
      → visit_all k (context_of apis) [] ordered ≡ some all
      → find_constructors_present k apis instantiable ≡ some (add_concretes instantiable all apis)
  unfolding find_constructors_present
  find_constructors_present-walk apis ordered instantiable all drained visited =
      rw (drained, find_constructors_present) (rw visited refl)

  -- Where the APIs have distinct names, every class outranks the APIs that its fields and bases
  -- name, and each class asks, of the listed names, only for those that it depends on, the walk
  -- ends without a panic. Its answers are then answers `all` with the instantiable concrete types
  -- added at the end. In `all`, every analysed class has the answer that its declarations, bases
  -- and fields come to by `all` itself, and nothing but an analysed class has an answer.
  pub find_constructors_present-consistent :
      (apis : List PreApi) (instantiable : List QualifiedName)
      → Distinct (map pre_name apis)
      → Ranked pre_apis rank apis
      → AsksDeps k (context_of apis) (map pre_name apis) apis
      → (all : AllItems) × (find_constructors_present k apis instantiable
          ≡ some (add_concretes instantiable all apis))
        × ((s : StructInfo)
            → Memᴰ (struct s) apis
            → is_analysed s ≡ true
            → lookup s.name.name all ≡ some (items_of k (context_of apis) all s))
        × ((q : QualifiedName)
            → lookup q all ≢ none
            → (s : StructInfo) × Memᴰ (struct s) apis × (is_analysed s ≡ true) × (s.name.name ≡ q))
  find_constructors_present-consistent apis instantiable distinct ranked asks =
      let (ordered, drained, moved, order) =
        fields_and_bases_first_completes pre_apis rank apis distinct ranked in
      let back = Permᴰ.symm moved in
      let (out, all, visited, inv, perm) =
        visit_all-Inv k (context_of apis) (map pre_name apis) [] ordered []
          (Inv-nothing k (context_of apis) (map pre_name apis))
          (rw append-nil (Distinct-perm (Permᴰ.map pre_name back) distinct))
          (λ api m. Memᴰ.map pre_name (Memᴰ-perm api moved m)) order
          (λ s m. asks s (Memᴰ-perm (struct s) moved m)) in
      let there : Permᴰ out apis = Permᴰ.trans (rw append-nil at perm) moved in
      (
        all,
        find_constructors_present-walk apis ordered instantiable all drained visited,
        λ s m a. inv.agrees s (Memᴰ-perm (struct s) (Permᴰ.symm there) m) a,
        λ q held.
            let (s, m, a, same) = inv.only q held in (s, Memᴰ-perm (struct s) there m, a, same),
      )
