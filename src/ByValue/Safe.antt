-- ===== src/ByValue/Safe.antt =====
-- When `ingest_struct` finds a struct safe to be POD.
use autocxx.Prelude.{
  ◌≡◌, ◌≢◌, ◌↔◌, ◌⊎◌, ◌∙◌, sym, ap, some_injective, refl, Bool, true, false, ◌&&◌, List, [], ◌∷◌,
  Option, none, some, contains, lookup, Text, All, Option-cases, inl, inr,
}
use autocxx.Names.{QualifiedName, name_eq}
use autocxx.ByValue.Data.{
  PodState, unsafe_to_be_pod, safe_to_be_pod, is_pod, is_alias, StructDetails, FieldDependency,
  ItemStruct, ByValueChecker,
}
use autocxx.ByValue.Fields.{get_field_dependencies, has_vtable, bases_are_opaque_bytes}
use autocxx.ByValue.Held.{NotUnsafe, FieldsAreFine, get_field_dependencies-fine}
use autocxx.ByValue.Ingest.{
  Results, field_problem, overruled_by, reason_if, struct_name, struct_state,
}

state_cases :
    (state : PodState)
    → ((reason : Text) × (state ≡ unsafe_to_be_pod reason))
      ⊎ ((reason : Text) → state ≢ unsafe_to_be_pod reason)
state_cases (unsafe_to_be_pod reason) = inl (reason, refl)
state_cases safe_to_be_pod = inr (λ reason e. cc)
state_cases is_pod = inr (λ reason e. cc)
state_cases (is_alias target) = inr (λ reason e. cc)

field_problem-cons :
    (results : Results) (has_bases : List QualifiedName) (tyname : QualifiedName)
    (f : FieldDependency) (fields : List FieldDependency) (d : StructDetails)
    → lookup f.ty results ≡ some d
    → ((reason : Text) → d.state ≢ unsafe_to_be_pod reason)
    → (state : PodState) → d.state ≡ state
    → field_problem results has_bases tyname (f ∷ fields)
      ≡ field_problem results has_bases tyname fields
unfolding field_problem
field_problem-cons results has_bases tyname f fields d known fine (unsafe_to_be_pod reason) is =
    absurd (fine reason is)
field_problem-cons results has_bases tyname f fields d known fine safe_to_be_pod is =
    rw (known, field_problem) (rw is refl)
field_problem-cons results has_bases tyname f fields d known fine is_pod is =
    rw (known, field_problem) (rw is refl)
field_problem-cons results has_bases tyname f fields d known fine (is_alias t) is =
    rw (known, field_problem) (rw is refl)

field_problem-none :
    (results : Results) (has_bases : List QualifiedName) (tyname : QualifiedName)
    (fields : List FieldDependency)
    → (field_problem results has_bases tyname fields ≡ none)
      ↔ All (λ f. NotUnsafe results (FieldDependency.ty f)) fields
unfolding field_problem
field_problem-none results has_bases tyname [] = (λ e. tt, λ h. refl)
field_problem-none results has_bases tyname (f ∷ fields) =
    let ih = field_problem-none results has_bases tyname fields in
    elim (Option-cases (lookup f.ty results)) [
      | inl unknown ↦ (λ e. cc (rw (unknown, field_problem) at e), λ h. cc (h.0.1))
      | inr (d, known) ↦ elim (state_cases d.state) [
        | inl (reason, is) ↦ (
          λ e. cc (rw is at (rw (known, field_problem) at e)),
          λ h. absurd (
              h.0.2 reason
                (ap (λ x. StructDetails.state x) (some_injective (sym h.0.1 ∙ known)) ∙ is)),
        )
        | inr fine ↦
            let on =
              field_problem-cons results has_bases tyname f fields d known fine d.state refl in
            (λ e. ((d, known, fine), ih.0 (sym on ∙ e)), λ h. on ∙ ih.1 h.1)
      ]
    ]

overruled_by-safe :
    (reason : Option Text) (state : PodState)
    → (overruled_by reason state ≡ safe_to_be_pod) ↔ ((reason ≡ none) × (state ≡ safe_to_be_pod))
overruled_by-safe none state = (λ e. (refl, e), λ h. h.1)
overruled_by-safe (some reason) state = (λ e. cc, λ h. cc)

overruled_if-safe :
    (test : Bool) (reason : Text) (state : PodState)
    → (overruled_by (reason_if test reason) state ≡ safe_to_be_pod)
      ↔ ((test ≡ false) × (state ≡ safe_to_be_pod))
overruled_if-safe true reason state = (λ e. cc, λ h. cc)
overruled_if-safe false reason state = (λ e. (refl, e), λ h. h.1)

-- A struct is found safe to be POD exactly where it has no virtual base, no bases that are opaque
-- bytes, no virtual functions and no volatile bitfield, and each type that a field holds by value
-- is known and not unsafe. A pointer, a function pointer, a bitfield, padding and
-- an array of a type that bindgen wrote as bytes hold none.
pub struct_state-safe :
    (c : ByValueChecker) (def : ItemStruct)
    → (struct_state c def ≡ safe_to_be_pod) ↔ (
        (contains c.virtually_inherited (struct_name def) ≡ false)
        × ((contains c.has_bases (struct_name def) && bases_are_opaque_bytes def) ≡ false)
        × (has_vtable def ≡ false)
        × FieldsAreFine c.results def.fields
        × (contains c.volatile_bitfields (struct_name def) ≡ false))
unfolding struct_state
struct_state-safe c def =
    let held = get_field_dependencies-fine c.results def.fields in
    let fields =
      field_problem-none c.results c.has_bases (struct_name def)
        (get_field_dependencies def.fields) in
    (
      λ e.
          let (a, e1) =
            (overruled_if-safe (contains c.virtually_inherited (struct_name def)) _ _).0 e in
          let (b, e2) =
            (overruled_if-safe
                (contains c.has_bases (struct_name def) && bases_are_opaque_bytes def) _ _).0
              e1 in
          let (v, e3) = (overruled_if-safe (has_vtable def) _ _).0 e2 in
          let (f, e4) =
            (overruled_by-safe
                (field_problem c.results c.has_bases (struct_name def)
                  (get_field_dependencies def.fields))
                _).0
              e3 in
          (
            a,
            b,
            v,
            held.0 (fields.0 f),
            ((overruled_if-safe (contains c.volatile_bitfields (struct_name def)) _ _).0 e4).0,
          ),
      λ (a, b, v, f, bits).
          (overruled_if-safe (contains c.virtually_inherited (struct_name def)) _ _).1 (
            a,
            (overruled_if-safe
                  (contains c.has_bases (struct_name def) && bases_are_opaque_bytes def) _ _).1
                (
                  b,
                  (overruled_if-safe (has_vtable def) _ _).1 (
                    v,
                    (overruled_by-safe
                          (field_problem c.results c.has_bases (struct_name def)
                            (get_field_dependencies def.fields))
                          _).1
                        (
                          fields.1 (held.1 f),
                          (overruled_if-safe (contains c.volatile_bitfields (struct_name def)) _
                                _).1
                              (bits, refl),
                        ),
                  ),
                ),
          ),
    )
