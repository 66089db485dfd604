-- ===== src/ByValue/Built.antt =====
-- `new_from_apis` of byvalue_checker.rs, with its walk and its requests.
use autocxx.Prelude.{
  ◌≡◌, ◌≢◌, ◌↔◌, ◌⊎◌, refl, List, [], ◌∷◌, none, arith, some, map, Distinct, Text, true,
  Option-cases, inl, inr,
}
use autocxx.Names.{QualifiedName, name_eq}
use autocxx.ByValue.Data.{ItemStruct, ByValueChecker}
use autocxx.ByValue.Requests.{Satisfied, ok, err, out_of_fuel, satisfy_requests, is_pod_type}
use autocxx.ByValue.Checker.{
  TypedefApi, Surroundings, Outcome, checker, unsafe_pod_type, read_names, structs_of,
  names_by_spelling, requested, ingested, with_results, new_from_apis,
}
use autocxx.ByValue.Order.{structs_in_dependency_order}
use autocxx.ByValue.Rounds.{satisfy_requests_total}
use autocxx.ByValue.Needs.{Needed}
use autocxx.ByValue.Unfit.{NeedsUnfit, satisfy_requests-err}
use autocxx.Names.Total.{new_from_cpp_name_total}
use autocxx.ByValue.Needed.{satisfy_requests-Needed}
use autocxx.ByValue.Listed.{structs_in_dependency_order-all}

module _ (s : Surroundings) where
  read_names_total : (ids : List Text) → read_names ids ≢ none
  unfolding read_names
  read_names_total [] = λ e. cc
  read_names_total (id ∷ ids) = ground (arith, new_from_cpp_name_total id, read_names_total ids)

  requested_total :
      (names : List (Text × QualifiedName)) (tys : List Text) → requested s names tys ≢ none
  unfolding requested
  requested_total names [] = λ e. cc
  requested_total names (ty ∷ tys) =
      ground (arith, new_from_cpp_name_total ty, requested_total names tys)

  module _ (apis : List TypedefApi) where
    -- `c` is the checker before the requests, and `names` are the types requested.
    abbrev pub Prepared : ByValueChecker → List QualifiedName → Type 0
    Prepared c names =
        (blocklisted : List QualifiedName) × (ordered : List ItemStruct) × (read_names s.blocklist
          ≡ some blocklisted)
        × (structs_in_dependency_order (structs_of apis) ≡ some ordered)
        × (c ≡ ingested s apis blocklisted ordered)
        × (requested s (names_by_spelling s [] apis) s.pod_requests ≡ some names)

    -- A checker in which exactly the types are POD that were so before or that the requests need.
    abbrev pub HasRequests : ByValueChecker → List QualifiedName → Outcome → Type 0
    HasRequests c names o =
        (built : ByValueChecker) × (o ≡ checker built)
        × ((q : QualifiedName)
            → (is_pod_type built q ≡ true) ↔ ((is_pod_type c q ≡ true) ⊎ Needed c.results names q))

    -- Refused, and not without a cause.
    abbrev pub IsRefused : ByValueChecker → List QualifiedName → Outcome → Type 0
    IsRefused c names o =
        (reason : Text) × (o ≡ unsafe_pod_type reason) × NeedsUnfit c.results names

    with_results-outcome :
        (c : ByValueChecker) (names : List QualifiedName) (r : Satisfied)
        → satisfy_requests c names ≡ r
        → HasRequests c names (with_results s c r) ⊎ IsRefused c names (with_results s c r)
    with_results-outcome c names (ok results) e =
        inl (record c { results = results }, refl, satisfy_requests-Needed c names results e)
    with_results-outcome c names (err reason) e =
        inr (reason, refl, satisfy_requests-err c names reason e)
    with_results-outcome c names out_of_fuel e = absurd (satisfy_requests_total c names e)

    -- Where the structs have distinct names, the checker is built or refused, and never panics. In
    -- one that is built exactly those types are POD that were so before the requests or that these
    -- need. It is refused only where the requests need a type that nothing is known of, one that is
    -- unsafe, or a typedef.
    pub new_from_apis-HasRequests :
        Distinct (map (λ d. ItemStruct.name d) (structs_of apis))
        → (c : ByValueChecker) × (names : List QualifiedName) × Prepared c names
          × (HasRequests c names (new_from_apis s apis) ⊎ IsRefused c names (new_from_apis s apis))
    unfolding new_from_apis
    new_from_apis-HasRequests distinct =
        let (ordered, listed, once, every) =
          structs_in_dependency_order-all (structs_of apis) distinct in
        elim (Option-cases (read_names s.blocklist)) [
          | inl unreadable ↦ absurd (read_names_total s.blocklist unreadable)
          | inr (blocklisted, read) ↦
              elim (Option-cases (requested s (names_by_spelling s [] apis) s.pod_requests)) [
                | inl unreadable ↦
                    absurd (requested_total (names_by_spelling s [] apis) s.pod_requests unreadable)
                | inr (names, asked) ↦
                    let c = ingested s apis blocklisted ordered in
                    let outcome : new_from_apis s apis
                        ≡ with_results s c (satisfy_requests c names) =
                      rw (read, new_from_apis) (rw (listed, asked) refl) in
                    (
                      c,
                      names,
                      (blocklisted, ordered, read, listed, refl, asked),
                      rw outcome (with_results-outcome c names _ refl),
                    )
              ]
        ]
