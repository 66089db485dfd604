-- ===== src/Names/Defs.antt =====
-- `Namespace` and `QualifiedName` of engine/src/types.rs.
use autocxx.Prelude.{
  ℕ, ◌≡◌, ◌↔◌, Bool, true, false, ◌&&◌, List, [], ◌∷◌, ◌++◌, Option, none, some, arith, Eq, ◌==◌,
  list_eq, nat_eq, list_beq, list_beq_iff, if◌then◌else◌, Text, codes, join, length,
}

-- The segments, outermost first.
abbrev pub Namespace : Type 0
Namespace = List Text

unfoldable pub Namespace_new : Namespace
Namespace_new = []

unfoldable pub push : Namespace → Text → Namespace
push ns segment = ns ++ segment ∷ []

unfoldable pub is_empty : Namespace → Bool
is_empty [] = true
is_empty (_ ∷ _) = false

unfoldable pub depth : Namespace → ℕ
depth ns = length ns

unfoldable pub to_cpp_path : Namespace → Text
to_cpp_path ns = join (codes "::") ns

pub record QualifiedName : Type 0 where
  pub namespace : Namespace
  pub item : Text

-- The derived `PartialEq`.
abbrev pub name_beq : QualifiedName → QualifiedName → Bool
name_beq a b = list_beq a.namespace b.namespace && list_beq a.item b.item

pub name_beq_iff : (a b : QualifiedName) → (name_beq a b ≡ true) ↔ (a ≡ b)
name_beq_iff a b = ground (arith, list_beq_iff a.namespace b.namespace, list_beq_iff a.item b.item)

instance abbrev pub name_eq : Eq QualifiedName
name_eq = record { beq = name_beq; beq_iff = name_beq_iff }

-- The loop of `from_segments`; `none` is its `unreachable!()`, met on no segment at all.
unfoldable pub from_segments_in : Namespace → List Text → Option QualifiedName
unfolding push
from_segments_in ns [] = none
from_segments_in ns (seg ∷ []) = some (record { namespace = ns; item = seg })
from_segments_in ns (seg ∷ next ∷ rest) = from_segments_in (push ns seg) (next ∷ rest)

unfoldable pub from_segments : List Text → Option QualifiedName
unfolding from_segments_in Namespace_new
from_segments segs = from_segments_in Namespace_new segs

-- From the segments of a type path. A leading `root` or `output` marks a C++ type and is dropped.
unfoldable pub from_type_path : List Text → Option QualifiedName
unfolding from_segments
from_type_path [] = none
from_type_path (first ∷ rest) =
    if first == codes "root"
    then from_segments rest
    else if first == codes "output"
    then from_segments rest
    else from_segments (first ∷ rest)

-- `id.split("::")`, left to right and without overlaps.
abbrev pub cons_head : ℕ → List Text → List Text
cons_head c [] = (c ∷ []) ∷ []
cons_head c (s ∷ rest) = (c ∷ s) ∷ rest

unfoldable pub split_colons : Text → List Text
split_colons [] = [] ∷ []
split_colons (c ∷ []) = (c ∷ []) ∷ []
split_colons (c ∷ d ∷ rest) =
    let cut = [] ∷ split_colons rest in
    let kept = cons_head c (split_colons (d ∷ rest)) in if c == b':' && d == b':' then cut else kept

-- The loop of `new_from_cpp_name`: empty segments of the namespace are skipped.
unfoldable pub new_from_cpp_segments : Namespace → List Text → Option QualifiedName
unfolding push
new_from_cpp_segments ns [] = none
new_from_cpp_segments ns (seg ∷ []) = some (record { namespace = ns; item = seg })
new_from_cpp_segments ns (seg ∷ next ∷ rest) =
    new_from_cpp_segments (if seg == [] then ns else push ns seg) (next ∷ rest)

unfoldable pub new_from_cpp_name : Text → Option QualifiedName
unfolding new_from_cpp_segments Namespace_new split_colons
new_from_cpp_name id = new_from_cpp_segments Namespace_new (split_colons id)

unfoldable pub segment_iter : QualifiedName → List Text
segment_iter name = name.namespace ++ name.item ∷ []

-- `special` is what `known_types().special_cpp_name` answers.
unfoldable pub to_cpp_name : (special : QualifiedName → Option Text) → QualifiedName → Text
unfolding segment_iter
to_cpp_name special name = elim (special name) [
  | some cpp ↦ cpp
  | none ↦ join (codes "::") (segment_iter name)
]

-- `Display::fmt`
unfoldable pub display_segments : Namespace → Text → Text
display_segments [] item = item
display_segments (seg ∷ ns) item = seg ++ (codes "::" ++ display_segments ns item)

unfoldable pub display : QualifiedName → Text
unfolding display_segments
display name = display_segments name.namespace name.item

unfoldable pub get_root_path_idents : QualifiedName → List Text
unfolding segment_iter
get_root_path_idents name = segment_iter name

unfoldable pub get_bindgen_path_idents : QualifiedName → List Text
unfolding get_root_path_idents
get_bindgen_path_idents name = codes "bindgen" ∷ codes "root" ∷ get_root_path_idents name
