-- ===== src/Names/Idents.antt =====
-- The identifier checks of engine/src/types.rs.
use autocxx.Prelude.{
  Bool, true, false, ◌≡◌, ◌≢◌, Option, none, some, arith, ◌&&◌, not, List, [], ◌∷◌, ◌==◌, list_eq,
  nat_eq, if◌then◌else◌, Text, codes, starts_with, contains_text, contains,
}
use autocxx.Names.Defs.{QualifiedName}

unfoldable pub is_std_function : QualifiedName → Bool
is_std_function name = name.item == codes "function" && name.namespace == (codes "std" ∷ [])

abbrev va_list_spellings : List Text
va_list_spellings =
    codes "va_list"
    ∷ codes "__builtin_va_list"
    ∷ codes "__builtin_ms_va_list"
    ∷ codes "__builtin_sysv_va_list"
    ∷ codes "__gnuc_va_list"
    ∷ codes "__isoc_va_list"
    ∷ codes "__darwin_va_list"
    ∷ codes "__va_list_tag"
    ∷ []

is_va_list_in : List Text → Text → Bool
is_va_list_in [] item = contains va_list_spellings item
is_va_list_in (first ∷ []) item = first == codes "std" && item == codes "__va_list"
is_va_list_in (first ∷ second ∷ rest) item = false

unfoldable pub is_va_list : QualifiedName → Bool
unfolding is_va_list_in
is_va_list name = is_va_list_in name.namespace name.item

pub data InvalidIdentError : Type 0 where
  union too_many_underscores bindgen_opaque_type bindgen_ty : InvalidIdentError
  reserved_name : Text → InvalidIdentError

pub data Validity : Type 0 where
  ok : Validity
  err : InvalidIdentError → Validity

-- What `syn` and `proc_macro2` say of a text: whether `Ident::new` takes it, which panics on one that
-- is no identifier, and whether it reads as an identifier, which a reserved word does not.
pub record Syn : Type 0 where
  pub lexes : Text → Bool
  pub parses : Text → Bool

module _ (syn : Syn) where
  -- `none` is the panic of `make_ident`.
  unfoldable pub validate_str_ok_for_rust : Text → Option Validity
  validate_str_ok_for_rust label =
      if syn.lexes label
      then some (if syn.parses label then ok else err (reserved_name label))
      else none

  cxx_rules : Text → Validity
  cxx_rules id =
      if starts_with id (codes "__BindgenUnionField")
      then err union
      else if starts_with id (codes "__BindgenOpaqueArray")
      then err bindgen_opaque_type
      else if contains_text id (codes "__") && not (starts_with id (codes "__bindgen_marker"))
      then err too_many_underscores
      else if starts_with id (codes "_bindgen_ty_")
      then err bindgen_ty
      else ok

  unfoldable pub validate_ident_ok_for_cxx : Text → Option Validity
  unfolding cxx_rules validate_str_ok_for_rust
  validate_ident_ok_for_cxx id = elim (validate_str_ok_for_rust id) [
    | none ↦ none
    | some ok ↦ some (cxx_rules id)
    | some (err e) ↦ some (err e)
  ]

  -- An identifier is never a panic.
  pub validate_ident_ok_for_cxx_total :
      (id : Text) → syn.lexes id ≡ true → validate_ident_ok_for_cxx id ≢ none
  unfolding validate_ident_ok_for_cxx validate_str_ok_for_rust
  validate_ident_ok_for_cxx_total id h = ground arith
