-- ===== src/ByValue/Held.antt =====
-- Which types the fields of a struct hold by value, and what `get_field_dependencies` reads of them.
use mathlib.Core.List.Memᴰ
use autocxx.Prelude.{
  ◌≡◌, ◌≢◌, ◌↔◌, ◌⊎◌, ◌∙◌, sym, ap, some_injective, refl, true, false, List, [], ◌∷◌, Option, none,
  some, lookup, Text, codes, starts_with, subst, All, Memᴰ, Bool-cases, Option-cases, inl, inr,
}
use autocxx.Names.{QualifiedName, name_eq}
use autocxx.ByValue.Data.{
  unsafe_to_be_pod, StructDetails, FieldDependency, FieldType, bitfield, function_pointer,
  opaque_path, path, pointer, other, Field,
}
use autocxx.ByValue.Fields.{is_padding, dependency_of, get_field_dependencies}
use autocxx.ByValue.Ingest.{Results}

-- A type whose state is known, and is not unsafe.
abbrev pub NotUnsafe : Results → QualifiedName → Type 0
NotUnsafe results ty =
    (d : StructDetails) × (lookup ty results ≡ some d)
    × ((reason : Text) → d.state ≢ unsafe_to_be_pod reason)

-- A field that is no padding of bindgen's.
abbrev pub IsNamed : Field → Type 0
IsNamed f =
    (ident : Text) → f.ident ≡ some ident → starts_with ident (codes "__bindgen_padding_") ≡ false

-- What a field holds by value: the type of its path, where the field is no padding, and the type is
-- no array of one that bindgen wrote as bytes.
pub data HoldsByValue (f : Field) (ty : QualifiedName) : Type 0 where
  holds_path : IsNamed f → f.ty ≡ path ty → HoldsByValue f ty
  holds_opaque : IsNamed f → f.ty ≡ opaque_path false ty → HoldsByValue f ty

is_padding-IsNamed : (f : Field) → (is_padding f.ident ≡ false) ↔ IsNamed f
is_padding-IsNamed f = at f.ident refl
  where
    at : (o : Option Text) → f.ident ≡ o → (is_padding f.ident ≡ false) ↔ IsNamed f
    at none e = (λ h ident named. cc, λ h. rw e refl)
    at (some text) e = (
      λ h ident named.
          subst (λ x. starts_with x (codes "__bindgen_padding_") ≡ false)
            (some_injective (sym e ∙ named)) (rw e at h),
      λ h. rw e (h text e),
    )

dependency_of-Holds :
    (f : Field) (ty : QualifiedName)
    → is_padding f.ident ≡ false
    → (dependency_of f.ty ≡ some ty) ↔ HoldsByValue f ty
unfolding dependency_of
dependency_of-Holds f ty named = at f.ty refl
  where
    none_held : (dependency_of f.ty ≡ none) → (dependency_of f.ty ≡ some ty) ↔ HoldsByValue f ty
    none_held e = (
      λ h. cc,
      λ h. elim h [ holds_path _ is ↦ cc (rw is at e) | holds_opaque _ is ↦ cc (rw is at e) ],
    )

    at : (t : FieldType) → f.ty ≡ t → (dependency_of f.ty ≡ some ty) ↔ HoldsByValue f ty
    at (path p) e = (
      λ h. holds_path ((is_padding-IsNamed f).0 named) (e ∙ ap path (some_injective (rw e at h))),
      λ h. elim h [ holds_path _ is ↦ rw is refl | holds_opaque _ is ↦ rw is refl ],
    )
    at (opaque_path false p) e = (
      λ h.
          holds_opaque ((is_padding-IsNamed f).0 named)
            (e ∙ ap (opaque_path false) (some_injective (rw e at h))),
      λ h. elim h [ holds_path _ is ↦ rw is refl | holds_opaque _ is ↦ rw is refl ],
    )
    at (opaque_path true p) e = none_held (rw e refl)
    at bitfield e = none_held (rw e refl)
    at function_pointer e = none_held (rw e refl)
    at pointer e = none_held (rw e refl)
    at other e = none_held (rw e refl)

-- The types that the fields of a struct hold by value are all known, and none is unsafe.
abbrev pub FieldsAreFine : Results → List Field → Type 0
FieldsAreFine results fields =
    (f : Field) (ty : QualifiedName) → Memᴰ f fields → HoldsByValue f ty → NotUnsafe results ty

padding_holds_none :
    (f : Field) (ty : QualifiedName) → is_padding f.ident ≡ true → HoldsByValue f ty → ⊥
padding_holds_none f ty padding h = elim h [
  | holds_path named _ ↦ cc ((is_padding-IsNamed f).1 named)
  | holds_opaque named _ ↦ cc ((is_padding-IsNamed f).1 named)
]

get_field_dependencies-none :
    (f : Field) (fields : List Field)
    → ((ty : QualifiedName) → HoldsByValue f ty → ⊥)
    → get_field_dependencies (f ∷ fields) ≡ get_field_dependencies fields
unfolding get_field_dependencies
get_field_dependencies-none f fields nothing = elim (Bool-cases (is_padding f.ident)) [
  | inl padding ↦ rw padding refl
  | inr named ↦ elim (Option-cases (dependency_of f.ty)) [
    | inl no_path ↦ rw (named, no_path) refl
    | inr (ty, is) ↦ absurd (nothing ty ((dependency_of-Holds f ty named).0 is))
  ]
]

FieldsAreFine-cons :
    (results : Results) (f : Field) (fields : List Field)
    → FieldsAreFine results (f ∷ fields) ↔ (
        ((ty : QualifiedName) → HoldsByValue f ty → NotUnsafe results ty)
        × FieldsAreFine results fields)
FieldsAreFine-cons results f fields = (
  λ h. (λ ty held. h f ty (Memᴰ.head refl) held, λ g ty m held. h g ty (Memᴰ.tail m) held),
  λ (first, rest) g ty m held. elim (Memᴰ.cases_cons m) [
    | inl this ↦ first ty (subst (λ x. HoldsByValue x ty) this held)
    | inr later ↦ rest g ty later held
  ],
)

field_cases :
    (f : Field)
    → ((ty : QualifiedName) → HoldsByValue f ty → ⊥)
      ⊎ ((ty : QualifiedName) × (is_padding f.ident ≡ false) × (dependency_of f.ty ≡ some ty))
field_cases f = elim (Bool-cases (is_padding f.ident)) [
  | inl padding ↦ inl (λ ty held. padding_holds_none f ty padding held)
  | inr named ↦ elim (Option-cases (dependency_of f.ty)) [
    | inl no_path ↦ inl (λ ty held. cc ((dependency_of-Holds f ty named).1 held))
    | inr (ty, is) ↦ inr (ty, named, is)
  ]
]

-- The dependencies are the types that are held by value.
pub get_field_dependencies-fine :
    (results : Results) (fields : List Field)
    → All (λ d. NotUnsafe results (FieldDependency.ty d)) (get_field_dependencies fields)
      ↔ FieldsAreFine results fields
unfolding get_field_dependencies
get_field_dependencies-fine results [] = (λ h f ty m. absurd (Memᴰ.not-nil m), λ h. tt)
get_field_dependencies-fine results (f ∷ fields) =
    let ih = get_field_dependencies-fine results fields in
    let cons = FieldsAreFine-cons results f fields in
    elim (field_cases f) [
      | inl nothing ↦
          rw (get_field_dependencies-none f fields nothing)
            (λ h. cons.1 (λ ty held. absurd (nothing ty held), ih.0 h), λ h. ih.1 (cons.0 h).1)
      | inr (ty, named, is) ↦
          rw (named, is)
            (
              λ (first, rest). cons.1 (
                λ t held.
                    subst (NotUnsafe results)
                      (some_injective (sym is ∙ (dependency_of-Holds f t named).1 held)) first,
                ih.0 rest,
              ),
              λ h. ((cons.0 h).0 ty ((dependency_of-Holds f ty named).0 is), ih.1 (cons.0 h).1),
            )
    ]
