-- ===== src/BridgeTypeNames/Tests.antt =====
-- The unit tests of bridge_type_names.rs, and the witnesses.
use mathlib.Core.Option
use autocxx.Prelude.{
  ℕ, Bool, all, all_holds, ◌||◌, ◌&&◌, nat_beq, leb, is_digit, decimal-digits, all-append, arith,
  Bool-cases, inl, inr, ◌≡◌, refl, List, [], ◌∷◌, ◌++◌, Text, codes, none, some, true, false, map,
  decimal, contains_text, list_eq, nat_eq,
}
use autocxx.Names.{Syn, segment_iter, validate_ident_ok_for_cxx}
use autocxx.Api.{Api, struct, TypeKind, api_name, name_info}
use autocxx.BridgeTypeNames.{
  Naming, collapse_after, BridgeTypeNames_new, name_types, allocate, numbered_name, number_from,
  candidate, collapse_underscore_runs, all_fixed_names, fixed_bridge_names, declares_bridge_type,
}
use autocxx.BridgeTypeNames.Underscores.{collapse_underscore_runs_lem}
use autocxx.BridgeTypeNames.Allocate.{IdentGrammar}
use autocxx.BridgeTypeNames.Run.{IsBridgeNaming, BridgeTypeNames_new-IsBridgeNaming}

abbrev pub is_word : ℕ → Bool
is_word c =
    is_digit c || (nat_beq c b'_' || ((leb b'a' c && leb c b'z') || (leb b'A' c && leb c b'Z')))

-- A text of letters, digits and underscores is taken for an identifier, and none is reserved.
abbrev pub words : Syn
words = record { lexes = all is_word; parses = λ _. true }

digits_are_words : (s : Text) → all is_digit s ≡ true → all is_word s ≡ true
digits_are_words [] h = refl
digits_are_words (c ∷ s) h =
    let first : is_digit c ≡ true = ground arith in
    let later : all is_digit s ≡ true = ground arith in rw (first, digits_are_words s later) refl

collapse_after-words :
    (after : Bool) (s : Text) → all is_word s ≡ true → all is_word (collapse_after after s) ≡ true
unfolding collapse_after
collapse_after-words after [] h = refl
collapse_after-words after (c ∷ s) h =
    let first : is_word c ≡ true = ground arith in
    let ih = collapse_after-words (nat_beq c b'_') s (ground arith) in
    elim (Bool-cases (nat_beq c b'_' && after)) [
      | inl dropped ↦ rw dropped ih
      | inr kept ↦ rw (kept, first) ih
    ]

pub words-IdentGrammar : IdentGrammar words
unfolding collapse_underscore_runs
words-IdentGrammar = record {
  joined = λ s t h k. all-append is_word s (codes "_" ++ t) h k;
  numbered = λ s n h.
      all-append is_word s (codes "_autocxx" ++ decimal n) h
        (digits_are_words (decimal n) (decimal-digits n));
  collapsed = λ s h. collapse_after-words false s h;
}

abbrev type_in : List Text → Text → Api
type_in namespace item =
    struct (record { name = record { namespace = namespace; item = item }; cpp_name = none })
      (record {
        kind = TypeKind.non_pod;
        bases = [];
        field_deps = [];
        constructor_and_allocator_deps = [];
      })

abbrev bobs : List Api
bobs =
    type_in (codes "A" ∷ []) (codes "Bob")
    ∷ type_in (codes "B" ∷ []) (codes "Bob")
    ∷ type_in [] (codes "Bob")
    ∷ []

-- `second_type_of_a_name_is_qualified_by_its_namespace`
second_type :
    Option.map (λ s. map (λ e. e.1) s.names) (BridgeTypeNames_new words bobs)
    ≡ some (codes "Bob" ∷ codes "B_Bob" ∷ codes "Bob_autocxx1" ∷ [])
unfolding BridgeTypeNames_new name_types allocate numbered_name number_from candidate
    collapse_underscore_runs all_fixed_names fixed_bridge_names declares_bridge_type
    validate_ident_ok_for_cxx decimal api_name name_info
second_type = refl

-- `String` is kept for cxx.
reserved_type :
    Option.map
      (λ s. map (λ e. e.1) s.names)
      (BridgeTypeNames_new words (type_in (codes "a_" ∷ []) (codes "String") ∷ []))
    ≡ some (codes "a_String" ∷ [])
unfolding BridgeTypeNames_new name_types allocate numbered_name number_from candidate
    collapse_underscore_runs all_fixed_names fixed_bridge_names declares_bridge_type
    validate_ident_ok_for_cxx decimal api_name name_info
reserved_type = refl

BridgeTypeNames_new-IsBridgeNaming_example :
    (s : Naming) × (BridgeTypeNames_new words bobs ≡ some s) × IsBridgeNaming bobs s
unfolding api_name name_info segment_iter
BridgeTypeNames_new-IsBridgeNaming_example =
    BridgeTypeNames_new-IsBridgeNaming words words-IdentGrammar bobs (λ api m declares.
      all_holds (all is_word) (segment_iter (api_name api))
        (all_holds (λ a. all (all is_word) (segment_iter (api_name a))) bobs refl api m))

collapse_underscore_runs_lem_example :
    (contains_text (collapse_underscore_runs (codes "a__b")) (codes "__") ≡ false)
    × (contains_text (codes "a__b") (codes "__") ≡ false
        → collapse_underscore_runs (codes "a__b") ≡ codes "a__b")
    × (collapse_underscore_runs (codes "a" ++ (codes "__" ++ codes "b"))
        ≡ collapse_underscore_runs (codes "a" ++ (codes "_" ++ codes "b")))
collapse_underscore_runs_lem_example =
    collapse_underscore_runs_lem (codes "a__b") (codes "a") (codes "b")
