-- ===== src/NameCheck/Spelled.antt =====
-- The texts that `check_names` makes identifiers of, and that its checks do not panic on those.
use mathlib.Core.List.Memᴰ
use autocxx.Prelude.{
  ◌≡◌, ◌≢◌, true, ◌++◌, refl, List, [], ◌∷◌, Option, none, some, Text, list_eq, nat_eq, Memᴰ, arith,
  Option-cases, inl, inr,
}
use autocxx.Names.{name_eq, Syn, segment_iter, new_from_cpp_name, validate_ident_ok_for_cxx_total}
use autocxx.Api.{
  Api, ApiName, typedef, forward_declaration, opaque_typedef, const, static, enum, struct, subclass,
  api_name, name_info,
}
use autocxx.BridgeTypeNames.Allocate.{NameLexes}
use autocxx.NameCheck.{
  Refusal, validate_all_segments_ok_for_cxx, and_then, name_error, cpp_name_error, item_name_error,
}
use autocxx.Names.Total.{new_from_cpp_name_total}

-- The segments of the C++ name that an item has.
abbrev cpp_segments : Option Text → List Text
cpp_segments none = []
cpp_segments (some cpp_name) = elim (new_from_cpp_name cpp_name) [
  | none ↦ []
  | some q ↦ segment_iter q
]

abbrev spelled_name : ApiName → List Text
spelled_name n = segment_iter n.name ++ cpp_segments n.cpp_name

-- The texts that a check of an API makes identifiers of, with those of its name.
abbrev pub spelled : Api → List Text
spelled (typedef n _ _) = spelled_name n
spelled (forward_declaration n) = spelled_name n
spelled (opaque_typedef n) = spelled_name n
spelled (const n) = spelled_name n
spelled (static n _) = spelled_name n
spelled (enum n) = spelled_name n
spelled (struct n _) = spelled_name n
spelled (subclass n superclass) = segment_iter n.name.name ++ segment_iter superclass
spelled a = segment_iter (api_name a)

module _ (syn : Syn) where
  -- All are identifiers, if perhaps reserved words.
  abbrev pub AllLex : List Text → Type 0
  AllLex texts = (t : Text) → Memᴰ t texts → syn.lexes t ≡ true

  validate_all_total :
      (texts : List Text) → AllLex texts → validate_all_segments_ok_for_cxx syn texts ≢ none
  unfolding validate_all_segments_ok_for_cxx
  validate_all_total [] lex = λ e. cc
  validate_all_total (t ∷ texts) lex = ground (
    arith,
    validate_ident_ok_for_cxx_total syn t (lex t (Memᴰ.head refl)),
    validate_all_total texts (λ x m. lex x (Memᴰ.tail m)),
  )

  cpp_name_error_total :
      (cpp_name : Option Text) → AllLex (cpp_segments cpp_name) → cpp_name_error syn cpp_name ≢ none
  unfolding cpp_name_error
  cpp_name_error_total none lex = λ e. cc
  cpp_name_error_total (some cpp_name) lex = elim (Option-cases (new_from_cpp_name cpp_name)) [
    | inl unread ↦ absurd (new_from_cpp_name_total cpp_name unread)
    | inr (q, read) ↦
        rw (cpp_name_error, read)
          (validate_all_total (segment_iter q) (rw (cpp_segments, read) at lex))
  ]

  and_then_total : (a b : Option Refusal) → a ≢ none → b ≢ none → and_then syn a b ≢ none
  and_then_total none b h k = h
  and_then_total (some none) b h k = k
  and_then_total (some (some e)) b h k = λ same. cc

  item_name_error_total : (n : ApiName) → AllLex (spelled_name n) → item_name_error syn n ≢ none
  item_name_error_total n lex =
      and_then_total _ _
        (validate_all_total (segment_iter n.name)
          (λ t m. lex t (Memᴰ.append_left (cpp_segments n.cpp_name) m)))
        (cpp_name_error_total n.cpp_name (λ t m. lex t (Memᴰ.append_right (segment_iter n.name) m)))

  pub name_error_total : (api : Api) → AllLex (spelled api) → name_error syn api ≢ none
  unfolding name_error api_name name_info
  name_error_total (typedef n _ _) lex = item_name_error_total n lex
  name_error_total (forward_declaration n) lex = item_name_error_total n lex
  name_error_total (opaque_typedef n) lex = item_name_error_total n lex
  name_error_total (const n) lex = item_name_error_total n lex
  name_error_total (static n _) lex = item_name_error_total n lex
  name_error_total (enum n) lex = item_name_error_total n lex
  name_error_total (struct n _) lex = item_name_error_total n lex
  name_error_total (subclass n superclass) lex =
      and_then_total _ _
        (validate_all_total (segment_iter n.name.name)
          (λ t m. lex t (Memᴰ.append_left (segment_iter superclass) m)))
        (validate_all_total (segment_iter superclass)
          (λ t m. lex t (Memᴰ.append_right (segment_iter n.name.name) m)))
  name_error_total (Api.function n _ _) lex = validate_all_total (segment_iter n.name) lex
  name_error_total _ lex = λ e. cc

  pub spelled-name : (api : Api) → AllLex (spelled api) → NameLexes syn (api_name api)
  unfolding api_name name_info
  spelled-name (typedef n _ _) lex = λ t m. lex t (Memᴰ.append_left (cpp_segments n.cpp_name) m)
  spelled-name (forward_declaration n) lex =
      λ t m. lex t (Memᴰ.append_left (cpp_segments n.cpp_name) m)
  spelled-name (opaque_typedef n) lex = λ t m. lex t (Memᴰ.append_left (cpp_segments n.cpp_name) m)
  spelled-name (const n) lex = λ t m. lex t (Memᴰ.append_left (cpp_segments n.cpp_name) m)
  spelled-name (static n _) lex = λ t m. lex t (Memᴰ.append_left (cpp_segments n.cpp_name) m)
  spelled-name (enum n) lex = λ t m. lex t (Memᴰ.append_left (cpp_segments n.cpp_name) m)
  spelled-name (struct n _) lex = λ t m. lex t (Memᴰ.append_left (cpp_segments n.cpp_name) m)
  spelled-name (subclass n superclass) lex =
      λ t m. lex t (Memᴰ.append_left (segment_iter superclass) m)
  spelled-name _ lex = lex
