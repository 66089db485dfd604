-- ===== src/ByValue/Ingest.antt =====
-- `ingest_struct` and `ingest_nonpod_type` of byvalue_checker.rs: the state of one type.
use autocxx.Prelude.{
  Bool, ◌&&◌, List, [], ◌∷◌, ◌++◌, Option, none, some, map, contains, Text, codes, lookup, insert,
  or_default, if◌then◌else◌, nat_eq, list_eq, ◌==◌,
}
use autocxx.Names.{QualifiedName, name_eq, display}
use autocxx.ByValue.Data.{
  PodState, unsafe_to_be_pod, safe_to_be_pod, is_pod, is_alias, StructDetails, FieldDependency,
  ItemStruct, ByValueChecker,
}
use autocxx.ByValue.Fields.{
  get_field_dependencies, has_vtable, bases_are_opaque_bytes, marker_field_reason,
}

abbrev pub Results : Type 0
Results = List (QualifiedName × StructDetails)

-- `StructDetails::new`
abbrev pub StructDetails_new : PodState → StructDetails
StructDetails_new state = record { state = state; dependent_structs = [] }

-- `new`, with the answer of `known_types().get_pod_safe_types()`.
unfoldable pub known_results : List (QualifiedName × Bool) → Results → Results
known_results [] results = results
known_results ((tn, by_value_safe) ∷ types) results = known_results types (
    insert tn
      (StructDetails_new (
        if by_value_safe
        then is_pod
        else unsafe_to_be_pod (codes "type " ++ (display tn ++ codes " is not safe for POD"))))
      results)

pub could_not : QualifiedName → Text → Text
could_not tyname reason =
    codes "Type " ++ (display tyname ++ (codes " could not be POD because " ++ reason))

pub unknown_reason : (has_bases : List QualifiedName) → QualifiedName → FieldDependency → Text
unfolding could_not
unknown_reason has_bases tyname dependency =
    let item = dependency.ty.item in
    if item == codes "__BindgenUnionField"
    then could_not tyname (codes "it is a union")
    else if item == codes "__bindgen_marker_Volatile"
    then could_not tyname (
        codes
          "it has a `volatile` member. Rust has no volatile type, only volatile reads and writes, so a Rust field of one would be accessed as if the qualifier were not there. Add a C++ accessor which performs the volatile access, and bind that.")
    else if item == codes "__bindgen_marker_LongDouble"
    then could_not tyname (
        codes
          "it has a `long double` member, which Rust has no type for - see the error for a `long double` in a signature")
    else if item == codes "__bindgen_marker_Float128"
    then could_not tyname (
        codes
          "it has a `__float128` member, which Rust has no type for - see the error for a `__float128` in a signature")
    else or_default
        (could_not tyname
          (codes "its dependent type " ++ (display dependency.ty ++ codes " isn't known")))
        (marker_field_reason tyname dependency has_bases)

-- The first field that stands in the way.
unfoldable pub field_problem :
    Results → (has_bases : List QualifiedName) → QualifiedName → List FieldDependency → Option Text
field_problem results has_bases tyname [] = none
field_problem results has_bases tyname (dependency ∷ fields) =
    let rest = field_problem results has_bases tyname fields in
    elim (lookup dependency.ty results) [
      | none ↦ some (unknown_reason has_bases tyname dependency)
      | some deets ↦ elim (deets.state) [
        | unsafe_to_be_pod reason ↦ some (
            could_not tyname (
              codes "its dependent type "
              ++ (display dependency.ty ++ (codes " isn't safe to be POD. Because: " ++ reason))))
        | safe_to_be_pod ↦ rest
        | is_pod ↦ rest
        | is_alias _ ↦ rest
      ]
    ]

-- `reason`, where there is one, takes the place of what was found before.
abbrev pub overruled_by : Option Text → PodState → PodState
overruled_by none state = state
overruled_by (some reason) state = unsafe_to_be_pod reason

abbrev pub reason_if : Bool → Text → Option Text
reason_if test reason = if test then some reason else none

-- The name that `ingest_struct` files a struct under.
abbrev pub struct_name : ItemStruct → QualifiedName
struct_name def = record { namespace = def.name.namespace; item = def.ident }

unfoldable pub struct_state : ByValueChecker → ItemStruct → PodState
unfolding field_problem has_vtable bases_are_opaque_bytes
struct_state c def =
    overruled_by
      (reason_if (contains c.virtually_inherited (struct_name def))
        (could_not (struct_name def) (codes "it inherits a base class virtually.")))
      (overruled_by
        (reason_if (contains c.has_bases (struct_name def) && bases_are_opaque_bytes def) (
          could_not (struct_name def) (
            codes
              "the C++ compiler leaves its base classes less room than fields of their own types would take up, so the bases have no Rust type.")))
        (overruled_by
          (reason_if (has_vtable def)
            (could_not (struct_name def) (codes "it has virtual functions.")))
          (overruled_by
            (field_problem c.results c.has_bases (struct_name def)
              (get_field_dependencies def.fields))
            (overruled_by
              (reason_if (contains c.volatile_bitfields (struct_name def)) (
                could_not (struct_name def) (
                  codes
                    "it has a `volatile` bitfield. Rust has no volatile type, only volatile reads and writes, so the accessors would read and write the bits as if the qualifier were not there. Add a C++ accessor which performs the volatile access, and bind that.")))
              safe_to_be_pod))))

unfoldable pub ingest_struct : ByValueChecker → ItemStruct → ByValueChecker
unfolding struct_state get_field_dependencies
ingest_struct c def = record c {
  results =
      insert (struct_name def)
        (record {
          state = struct_state c def;
          dependent_structs = map (λ d. FieldDependency.ty d) (get_field_dependencies def.fields);
        })
        c.results;
}

unfoldable pub ingest_nonpod_type : ByValueChecker → QualifiedName → ByValueChecker
ingest_nonpod_type c tyname = record c {
  results =
      insert tyname
        (StructDetails_new (
          unsafe_to_be_pod
            (codes "Type " ++ (display tyname ++ codes " is a typedef to a complex type"))))
        c.results;
}

unfoldable pub ingest_all : ByValueChecker → List ItemStruct → ByValueChecker
unfolding ingest_struct
ingest_all c [] = c
ingest_all c (def ∷ defs) = ingest_all (ingest_struct c def) defs
