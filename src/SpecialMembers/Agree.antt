-- ===== src/SpecialMembers/Agree.antt =====
-- What the answer for a class reads of the answers so far: those for its bases, and for the types
-- of the fields that it holds by value.
use mathlib.Core.List.Memᴰ
use autocxx.Prelude.{
  ◌≡◌, refl, List, [], ◌∷◌, ◌++◌, Option, none, some, map, lookup, Memᴰ, Text, arith, if◌then◌else◌,
  Bool-cases, inl, inr, Option-cases,
}
use autocxx.Names.{QualifiedName, name_eq}
use autocxx.Api.{ApiName}
use autocxx.SpecialMembers.Data.{ItemsFound, StructInfo, KnownTypes, FieldInfo, FieldTypeKind}
use autocxx.SpecialMembers.Fields.{
  AllItems, get_items_found, bases_items_found, type_items_found, fields_items_found, unknown_bases,
  unknown_field, unknown_fields, unknown_dependencies, held_by_value,
}
use autocxx.SpecialMembers.Rules.{Dependencies}
use autocxx.SpecialMembers.Structs.{struct_items}
use autocxx.SpecialMembers.Walk.{Context, resolve_typedefs, items_of}

abbrev pub to_list : Option QualifiedName → List QualifiedName
to_list none = []
to_list (some ty) = ty ∷ []

module _ (k : KnownTypes) where
  -- The types of the fields held by value.
  abbrev pub held_types : List FieldInfo → List QualifiedName
  held_types [] = []
  held_types (field ∷ fields) =
      (if held_by_value k field.type_kind then to_list field.type_name else []) ++ held_types fields

  abbrev pub asked : Context → StructInfo → List QualifiedName
  asked c s = map (resolve_typedefs c.targets) s.bases ++ held_types s.field_info

append-agree :
    {texts texts' more more' : List Text}
    → texts ≡ texts'
    → more ≡ more'
    → texts ++ more ≡ texts' ++ more'
append-agree e f = cc

module _ (k : KnownTypes) (get get' : QualifiedName → Option ItemsFound) where
  abbrev AgreeOn : List QualifiedName → Type 0
  AgreeOn names = (q : QualifiedName) → Memᴰ q names → get q ≡ get' q

  bases_items_found-agree :
      (bases : List QualifiedName)
      → AgreeOn bases
      → bases_items_found k get bases ≡ bases_items_found k get' bases
  unfolding bases_items_found
  bases_items_found-agree [] same = refl
  bases_items_found-agree (base ∷ bases) same =
      let ih = bases_items_found-agree bases (λ q m. same q (Memᴰ.tail m)) in
      let here = same base (Memᴰ.head refl) in ground (arith, ih, here)

  type_items_found-agree :
      (class_name : ApiName) (field : FieldInfo) (kind : FieldTypeKind)
      → AgreeOn (if held_by_value k kind then to_list field.type_name else [])
      → type_items_found k get class_name field kind ≡ type_items_found k get' class_name field kind
  unfolding type_items_found
  type_items_found-agree class_name field kind same = elim (Option-cases field.type_name) [
    | inl unnamed ↦ ground arith
    | inr (ty, named) ↦ elim (Bool-cases (held_by_value k kind)) [
      | inl held ↦ let here = rw (held, named) at same ty (Memᴰ.head refl) in ground arith
      | inr other ↦ ground arith
    ]
  ]

  fields_items_found-agree :
      (enums cv : List QualifiedName) (class_name : ApiName) (fields : List FieldInfo)
      → AgreeOn (held_types k fields)
      → fields_items_found k enums cv get class_name fields
        ≡ fields_items_found k enums cv get' class_name fields
  unfolding fields_items_found
  fields_items_found-agree enums cv class_name [] same = refl
  fields_items_found-agree enums cv class_name (field ∷ fields) same =
      let ih =
        fields_items_found-agree enums cv class_name fields
          (λ q m. same q (Memᴰ.append_right _ m)) in
      let here =
        type_items_found-agree class_name field field.type_kind
          (λ q m. same q (Memᴰ.append_left _ m)) in
      ground (arith, ih, here)

  unknown_bases-agree :
      (bases : List QualifiedName)
      → AgreeOn bases
      → unknown_bases k get bases ≡ unknown_bases k get' bases
  unfolding unknown_bases
  unknown_bases-agree [] same = refl
  unknown_bases-agree (base ∷ bases) same =
      let ih = unknown_bases-agree bases (λ q m. same q (Memᴰ.tail m)) in
      let here = same base (Memᴰ.head refl) in ground (arith, ih, here)

  unknown_field-agree :
      (field : FieldInfo)
      → AgreeOn (if held_by_value k field.type_kind then to_list field.type_name else [])
      → unknown_field k get field ≡ unknown_field k get' field
  unfolding unknown_field
  unknown_field-agree field same = elim (Option-cases field.type_name) [
    | inl unnamed ↦ ground arith
    | inr (ty, named) ↦ elim (Bool-cases (held_by_value k field.type_kind)) [
      | inl held ↦ let here = rw (held, named) at same ty (Memᴰ.head refl) in ground arith
      | inr other ↦ ground arith
    ]
  ]

  unknown_fields-agree :
      (fields : List FieldInfo)
      → AgreeOn (held_types k fields)
      → unknown_fields k get fields ≡ unknown_fields k get' fields
  unfolding unknown_fields
  unknown_fields-agree [] same = refl
  unknown_fields-agree (field ∷ fields) same =
      let ih = unknown_fields-agree fields (λ q m. same q (Memᴰ.append_right _ m)) in
      let here = unknown_field-agree field (λ q m. same q (Memᴰ.append_left _ m)) in
      ground (arith, ih, here)

module _ (k : KnownTypes) (c : Context) where
  get_items_found-agree :
      (class_name : ApiName) (all all' : AllItems) (q : QualifiedName)
      → lookup q all ≡ lookup q all'
      → get_items_found k c.enums class_name all q ≡ get_items_found k c.enums class_name all' q
  unfolding get_items_found
  get_items_found-agree class_name all all' q same = ground (arith, same)

  struct_items-agree :
      (s : StructInfo) {bases bases' fields fields' : Dependencies} {unknown unknown' : List Text}
      → bases ≡ bases'
      → fields ≡ fields'
      → unknown ≡ unknown'
      → struct_items c.explicit_items s bases fields unknown
        ≡ struct_items c.explicit_items s bases' fields' unknown'
  struct_items-agree s of_bases of_fields of_unknown = cc

  -- The answer for a class is the same wherever the answers that it asks for are.
  pub items_of-agree :
      (all all' : AllItems) (s : StructInfo)
      → ((q : QualifiedName) → Memᴰ q (asked k c s) → lookup q all ≡ lookup q all')
      → items_of k c all s ≡ items_of k c all' s
  unfolding items_of unknown_dependencies
  items_of-agree all all' s same =
      let get = get_items_found k c.enums s.name all in
      let get' = get_items_found k c.enums s.name all' in
      let get_base = λ (qn : QualifiedName). get (resolve_typedefs c.targets qn) in
      let get_base' = λ (qn : QualifiedName). get' (resolve_typedefs c.targets qn) in
      let of_base = λ (q : QualifiedName) (m : Memᴰ q s.bases).
        get_items_found-agree s.name all all' (resolve_typedefs c.targets q) (
          same (resolve_typedefs c.targets q)
            (Memᴰ.append_left _ (Memᴰ.map (resolve_typedefs c.targets) m))) in
      let of_field = λ (q : QualifiedName) (m : Memᴰ q (held_types k s.field_info)).
        get_items_found-agree s.name all all' q (same q (Memᴰ.append_right _ m)) in
      let unknown_base = unknown_bases-agree k get_base get_base' s.bases of_base in
      let unknown_field = unknown_fields-agree k get get' s.field_info of_field in
      struct_items-agree s (bases_items_found-agree k get_base get_base' s.bases of_base)
        (fields_items_found-agree k get get' c.enums
          c.explicit_items.const_volatile_copy_constructors s.name s.field_info of_field)
        (append-agree unknown_base unknown_field)
