-- ===== src/Gc/Marks.antt =====
-- One visit of the marking loop of gc.rs.
use mathlib.Core.List.Memᴰ
use autocxx.Prelude.{
  ℕ, ◌+◌, ◌≤◌, ◌≡◌, ◌≢◌, refl, sym, subst, ap, ◌∙◌, Bool, true, false, List, [], ◌∷◌, ◌++◌, none,
  some, ◌⊎◌, map, contains, contains-set_insert, set_insert, lookup, remove, length, length-append,
  Distinct, Distinct-snoc, arith, ◌==◌, Bool-cases, inl, inr, Memᴰ, append-nil,
}
use autocxx.Names.{QualifiedName, name_eq, name_beq_iff}
use autocxx.Api.{Api, api_name, api_deps}
use autocxx.ApiVec.{ApiVec}
use autocxx.ApiVec.Names.{map-snoc}
use autocxx.ApiVec.Collect.{append-new}
use autocxx.DepthFirst.Ranked.{Memᴰ-map-inv}
use autocxx.Gc.{Marking, all_deps, visit}
use autocxx.Gc.Groups.{single, entries, without, lookup-entries, remove-entries}
use autocxx.Gc.Reach.{Memᴰ-without, without-deps, name_unique, IsReachable, Noted, IsMarking}

abbrev pub weight : List QualifiedName → List Api → ℕ
weight todos left = length todos + length (all_deps left)

module _ (built_in : QualifiedName → Bool) (is_root : Api → Bool) (apis : List Api)
    (names_distinct : Distinct (map api_name apis)) where
  module _ (m : Marking) (left : List Api) (inv : IsMarking is_root apis m left)
      (todo : QualifiedName) (todos : List QualifiedName) (next : m.todos ≡ todo ∷ todos) where
    abbrev pub popped : Marking
    popped = record m { todos = todos }

    -- A visit leaves less to do, and the invariant.
    abbrev pub Visited : Type 0
    Visited =
        (m' : Marking) × (left' : List Api) × (visit built_in todo popped ≡ some m')
        × IsMarking is_root apis m' left'
        × (weight m'.todos left' ≤ weight todos left)

    -- What is noted stays noted once the name taken is done.
    Noted-step :
        (m' : Marking)
        → ((n : QualifiedName) → contains m.done n ≡ true → contains m'.done n ≡ true)
        → contains m'.done todo ≡ true
        → ((n : QualifiedName) → Memᴰ n todos → Memᴰ n m'.todos)
        → (n : QualifiedName) → Noted is_root apis m n
        → Noted is_root apis m' n
    Noted-step m' grow visited kept n noted = elim noted [
      | inl old ↦ inl (grow n old)
      | inr waits ↦ elim (Memᴰ.cases_cons (subst (Memᴰ n) next waits)) [
        | inl this ↦ inl (subst (λ k. contains m'.done k ≡ true) (sym this) visited)
        | inr later ↦ inr (kept n later)
      ]
    ]

    still_todo : (a : Api) → Memᴰ (api_name a) todos → Memᴰ (api_name a) m.todos
    still_todo a k = subst (Memᴰ (api_name a)) (sym next) (Memᴰ.tail k)

    visit-again : contains m.done todo ≡ true → Visited
    unfolding visit
    visit-again old =
        let step = Noted-step popped (λ n h. h) old (λ n k. k) in
        (
          popped,
          left,
          rw old refl,
          record {
            groups = inv.groups;
            listed = inv.listed;
            distinct = inv.distinct;
            shared = inv.shared;
            left_in = inv.left_in;
            left_fresh = inv.left_fresh;
            output_done = inv.output_done;
            reached = inv.reached;
            todo_reached = λ a k w. inv.todo_reached a k (still_todo a w);
            roots = λ a k r. step (api_name a) (inv.roots a k r);
            closed = λ a dep k w. step dep (inv.closed a dep k w);
          },
          omega arith,
        )

    abbrev done' : List QualifiedName
    done' = set_insert todo m.done

    done-grows : (n : QualifiedName) → contains m.done n ≡ true → contains done' n ≡ true
    done-grows n h = ground (arith, contains-set_insert todo m.done n)

    todo-done : contains done' todo ≡ true
    todo-done = ground (arith, contains-set_insert todo m.done todo, name_beq_iff todo todo)

    not-done : (n : QualifiedName) → contains m.done n ≡ false → n ≢ todo → contains done' n ≡ false
    not-done n h other =
        ground (arith, contains-set_insert todo m.done n, name_beq_iff todo n, other)

    visit-unknown :
        contains m.done todo ≡ false
        → lookup todo (entries left) ≡ none
        → (¬ Memᴰ todo (map api_name left))
        → Visited
    unfolding visit
    visit-unknown new absent nowhere =
        let m' : Marking = record m { todos = todos; done = done' } in
        let found = subst (λ g. lookup todo g ≡ none) (sym inv.groups) absent in
        let step = Noted-step m' done-grows todo-done (λ n k. k) in
        (
          m',
          left,
          ground (arith, new, absent, found),
          record {
            groups = inv.groups;
            listed = inv.listed;
            distinct = inv.distinct;
            shared = inv.shared;
            left_in = inv.left_in;
            left_fresh = λ a k.
                not-done (api_name a) (inv.left_fresh a k)
                  (λ e. nowhere (subst (λ n. Memᴰ n (map api_name left)) e (Memᴰ.map api_name k)));
            output_done = λ a k. done-grows (api_name a) (inv.output_done a k);
            reached = inv.reached;
            todo_reached = λ a k w. inv.todo_reached a k (still_todo a w);
            roots = λ a k r. step (api_name a) (inv.roots a k r);
            closed = λ a dep k w. step dep (inv.closed a dep k w);
          },
          omega arith,
        )

    -- The visit of a name that an API left over carries.
    module _ (a : Api) (k : Memᴰ a left) (named : api_name a ≡ todo) where
      abbrev output' : ApiVec
      output' = record { apis = m.output.apis ++ a ∷ []; names = m.output.names ++ api_name a ∷ [] }

      abbrev marked : Marking
      marked = record {
        todos = todos ++ (api_deps a ++ []);
        by_typename = remove todo m.by_typename;
        done = done';
        output = output';
      }

      unseen : ¬ Memᴰ (api_name a) m.output.names
      unseen w =
          let (b, z, e) =
            Memᴰ-map-inv api_name (api_name a) m.output.apis
              (subst (Memᴰ (api_name a)) inv.listed w) in
          ground (arith, inv.output_done b z, inv.left_fresh a k, ap (contains m.done) e)

      Noted-marked : (n : QualifiedName) → Noted is_root apis m n → Noted is_root apis marked n
      Noted-marked =
          Noted-step marked done-grows todo-done (λ n w. Memᴰ.append_left (api_deps a ++ []) w)

      taken_reached : IsReachable is_root apis a
      taken_reached =
          inv.todo_reached a (inv.left_in a k)
            (subst (Memᴰ (api_name a)) (sym next) (Memᴰ.head named))

      -- What holds of the APIs output before and of the one taken holds of all.
      output_all :
          (P : Api → Type 0)
          → ((b : Api) → Memᴰ b m.output.apis → P b)
          → P a
          → (b : Api) → Memᴰ b output'.apis
          → P b
      output_all P before now b w = elim (Memᴰ.append_cases m.output.apis w) [
        | inl old ↦ before b old
        | inr this ↦ subst P (sym (Memᴰ.eq_of_singleton this)) now
      ]

      shared_marked : (b : Api) → Memᴰ b apis → Memᴰ b output'.apis ⊎ Memᴰ b (without todo left)
      shared_marked b w = elim (inv.shared b w) [
        | inl old ↦ inl (Memᴰ.append_left (a ∷ []) old)
        | inr still ↦ elim (Bool-cases (api_name b == todo)) [
          | inl this ↦ inl (
              Memᴰ.append_right m.output.apis (
                Memᴰ.head (
                  name_unique apis b a names_distinct w (inv.left_in a k)
                    ((name_beq_iff (api_name b) todo).0 this ∙ sym named))))
          | inr other ↦ inr (
              (Memᴰ-without todo left b).1
                (still, λ e. ground (arith, name_beq_iff (api_name b) todo)))
        ]
      ]

      todo_reached_marked :
          (b : Api) → Memᴰ b apis → Memᴰ (api_name b) marked.todos → IsReachable is_root apis b
      todo_reached_marked b w z = elim (Memᴰ.append_cases todos z) [
        | inl old ↦ inv.todo_reached b w (still_todo b old)
        | inr dep ↦ IsReachable.edge taken_reached (rw append-nil at dep) w
      ]

      marked-IsMarking : IsMarking is_root apis marked (without todo left)
      marked-IsMarking = record {
        groups =
            subst (λ g. remove todo g ≡ entries (without todo left)) (sym inv.groups)
              (remove-entries todo left);
        listed = rw (map-snoc m.output.apis a, inv.listed) refl;
        distinct = Distinct-snoc m.output.names (api_name a) inv.distinct unseen;
        shared = shared_marked;
        left_in = λ b w. inv.left_in b ((Memᴰ-without todo left b).0 w).0;
        left_fresh = λ b w.
            let (v, other) = (Memᴰ-without todo left b).0 w in
            not-done (api_name b) (inv.left_fresh b v) other;
        output_done =
            output_all (λ b. contains done' (api_name b) ≡ true)
              (λ b old. done-grows (api_name b) (inv.output_done b old))
              (subst (λ n. contains done' n ≡ true) (sym named) todo-done);
        reached = output_all (IsReachable is_root apis) inv.reached taken_reached;
        todo_reached = todo_reached_marked;
        roots = λ b w r. Noted-marked (api_name b) (inv.roots b w r);
        closed = λ b dep w.
            output_all (λ c. Memᴰ dep (api_deps c) → Noted is_root apis marked dep)
              (λ c old z. Noted-marked dep (inv.closed c dep old z))
              (λ z. inr (Memᴰ.append_right todos (Memᴰ.append_left [] z))) b w;
      }

      visit-known :
          contains m.done todo ≡ false → lookup todo (entries left) ≡ some (single a) → Visited
      unfolding visit all_deps
      visit-known new here =
          let found = subst (λ g. lookup todo g ≡ some (single a)) (sym inv.groups) here in
          let added = append-new built_in m.output a (api_name a ∷ []) unseen in
          (
            marked,
            without todo left,
            ground (arith, new, found, added),
            marked-IsMarking,
            omega (
              arith,
              length-append todos (api_deps a ++ []),
              length-append (api_deps a) [],
              subst
                  (λ n.
                    length (all_deps (without n left)) + length (api_deps a)
                    ≤ length (all_deps left))
                  named (without-deps left a k),
            ),
          )

    pub visit-Visited : Visited
    visit-Visited = elim (Bool-cases (contains m.done todo)) [
      | inl old ↦ visit-again old
      | inr new ↦ elim (lookup-entries todo left) [
        | inl (absent, nowhere) ↦ visit-unknown new absent nowhere
        | inr (a, here, k, named) ↦ visit-known a k named new here
      ]
    ]
