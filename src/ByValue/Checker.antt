-- ===== src/ByValue/Checker.antt =====
-- `new_from_apis` of byvalue_checker.rs: the state of every type, and then the requests.
use autocxx.Prelude.{
  Bool, true, false, List, [], ◌∷◌, ◌++◌, Option, none, some, Text, codes, join, contains_text,
  lookup, insert, to_set, or_default, if◌then◌else◌, nat_eq, list_eq,
}
use autocxx.Names.{QualifiedName, name_eq, display, to_cpp_name, new_from_cpp_name}
use autocxx.Api.{ApiName}
use autocxx.ByValue.Data.{unsafe_to_be_pod, is_pod, is_alias, Field, ItemStruct, ByValueChecker}
use autocxx.ByValue.Ingest.{
  Results, StructDetails_new, known_results, ingest_nonpod_type, ingest_all,
}
use autocxx.ByValue.Order.{structs_in_dependency_order}
use autocxx.ByValue.Requests.{Satisfied, ok, err, out_of_fuel, satisfy_requests}

-- What a typedef is for: a path, after array and reference markers, or something else.
pub data TypedefApi : Type 0 where
  struct : ApiName → (ident : Text) → List Field → TypedefApi
  typedef : ApiName → (target : Option QualifiedName) → (target_is_pointer : Bool) → TypedefApi
  enum : ApiName → TypedefApi
  extern_cpp_type : ApiName → (pod : Bool) → TypedefApi
  other : ApiName → TypedefApi

unfoldable pub typedef_api_name : TypedefApi → ApiName
typedef_api_name (struct n _ _) = n
typedef_api_name (typedef n _ _) = n
typedef_api_name (enum n) = n
typedef_api_name (extern_cpp_type n _) = n
typedef_api_name (other n) = n

-- What the analysis asks of `known_types()`, of the configuration and of what bindgen reported.
pub record Surroundings : Type 0 where
  pub special_cpp_name : QualifiedName → Option Text
  pub pod_safe_types : List (QualifiedName × Bool)
  pub consider_substitution : QualifiedName → Option QualifiedName
  pub blocklist : List Text
  pub pod_requests : List Text
  pub types_inheriting_virtually : List QualifiedName
  pub types_with_bases : List QualifiedName
  pub has_volatile_bitfield : QualifiedName → Bool

-- `panicked` is the `unreachable!` at the end of `new_from_cpp_name`.
pub data Outcome : Type 0 where
  checker : ByValueChecker → Outcome
  unsafe_pod_type : Text → Outcome
  panicked unfinished : Outcome

-- `names_in ids` for each name, where all can be read.
unfoldable pub read_names : List Text → Option (List QualifiedName)
read_names [] = some []
read_names (id ∷ ids) = elim (new_from_cpp_name id) [
  | none ↦ none
  | some name ↦ elim (read_names ids) [ none ↦ none | some names ↦ some (name ∷ names) ]
]

unfoldable pub blocklist_results : List QualifiedName → Results → Results
blocklist_results [] results = results
blocklist_results (tn ∷ names) results = blocklist_results names (
    insert tn
      (StructDetails_new
        (unsafe_to_be_pod (codes "type " ++ (display tn ++ codes " is on the blocklist"))))
      results)

-- What is under `names` that the test holds for.
unfoldable pub names_with : (QualifiedName → Bool) → List TypedefApi → List QualifiedName
unfolding typedef_api_name
names_with test [] = []
names_with test (api ∷ apis) =
    let rest = names_with test apis in
    let name = (typedef_api_name api).name in if test name then name ∷ rest else rest

unfoldable pub structs_of : List TypedefApi → List ItemStruct
structs_of [] = []
structs_of (struct n ident fields ∷ apis) =
    record { name = n.name; ident = ident; fields = fields } ∷ structs_of apis
structs_of (_ ∷ apis) = structs_of apis

unfoldable pub nested_cpp_spelling : ApiName → Option Text
nested_cpp_spelling n = elim (n.cpp_name) [
  | none ↦ none
  | some cpp_name ↦
      if contains_text cpp_name (codes "::")
      then some (join (codes "::") (n.name.namespace ++ cpp_name ∷ []))
      else none
]

module _ (s : Surroundings) where
  unfoldable pub cpp_spellings : ApiName → List Text
  unfolding nested_cpp_spelling
  cpp_spellings n = elim (nested_cpp_spelling n) [
    | none ↦ to_cpp_name s.special_cpp_name n.name ∷ []
    | some spelling ↦ to_cpp_name s.special_cpp_name n.name ∷ spelling ∷ []
  ]

  abbrev insert_all :
      List Text → QualifiedName → List (Text × QualifiedName) → List (Text × QualifiedName)
  insert_all [] name names = names
  insert_all (spelling ∷ spellings) name names =
      insert_all spellings name (insert spelling name names)

  unfoldable pub names_by_spelling :
      List (Text × QualifiedName) → List TypedefApi → List (Text × QualifiedName)
  unfolding cpp_spellings typedef_api_name
  names_by_spelling names [] = names
  names_by_spelling names (api ∷ apis) =
      names_by_spelling
        (insert_all (cpp_spellings (typedef_api_name api)) (typedef_api_name api).name names) apis

  -- The first pass, over what is no struct.
  unfoldable pub ingest_other : ByValueChecker → TypedefApi → ByValueChecker
  unfolding ingest_nonpod_type
  ingest_other c (typedef n target true) = record c {
    results = insert n.name (StructDetails_new is_pod) c.results;
  }
  ingest_other c (typedef n (some target) false) = record c {
    results =
        insert n.name
          (StructDetails_new (is_alias (or_default target (s.consider_substitution target))))
          c.results;
  }
  ingest_other c (typedef n none false) = ingest_nonpod_type c n.name
  ingest_other c (enum n) = record c {
    results = insert n.name (StructDetails_new is_pod) c.results;
  }
  ingest_other c (extern_cpp_type n true) = record c {
    results = insert n.name (StructDetails_new is_pod) c.results;
  }
  ingest_other c _ = c

  unfoldable pub ingest_others : ByValueChecker → List TypedefApi → ByValueChecker
  unfolding ingest_other
  ingest_others c [] = c
  ingest_others c (api ∷ apis) = ingest_others (ingest_other c api) apis

  -- The name that a request asks for, by any of the spellings.
  unfoldable pub requested : List (Text × QualifiedName) → List Text → Option (List QualifiedName)
  requested names [] = some []
  requested names (ty ∷ tys) =
      let rest = requested names tys in
      elim (lookup ty names) [
        | some name ↦ elim rest [ none ↦ none | some more ↦ some (name ∷ more) ]
        | none ↦ elim (new_from_cpp_name ty) [
          | none ↦ none
          | some name ↦ elim rest [ none ↦ none | some more ↦ some (name ∷ more) ]
        ]
      ]

  abbrev pub with_results : ByValueChecker → Satisfied → Outcome
  with_results c (ok results) = checker (record c { results = results })
  with_results c (err reason) = unsafe_pod_type reason
  with_results c out_of_fuel = unfinished

  -- The checker before the requests.
  unfoldable pub ingested : List TypedefApi → List QualifiedName → List ItemStruct → ByValueChecker
  unfolding known_results blocklist_results names_with ingest_others ingest_all
  ingested apis blocklisted ordered =
      ingest_all
        (ingest_others
          (record {
            results = blocklist_results blocklisted (known_results s.pod_safe_types []);
            virtually_inherited = to_set [] s.types_inheriting_virtually;
            has_bases = to_set [] s.types_with_bases;
            volatile_bitfields = to_set [] (names_with s.has_volatile_bitfield apis);
          })
          apis)
        ordered

  unfoldable pub new_from_apis : List TypedefApi → Outcome
  unfolding read_names structs_of structs_in_dependency_order ingested names_by_spelling requested
      satisfy_requests
  new_from_apis apis = elim (read_names s.blocklist) [
    | none ↦ panicked
    | some blocklisted ↦ elim (structs_in_dependency_order (structs_of apis)) [
      | none ↦ unfinished
      | some ordered ↦ elim (requested (names_by_spelling [] apis) s.pod_requests) [
        | none ↦ panicked
        | some requests ↦
            with_results (ingested apis blocklisted ordered)
              (satisfy_requests (ingested apis blocklisted ordered) requests)
      ]
    ]
  ]
