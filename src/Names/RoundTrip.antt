-- ===== src/Names/RoundTrip.antt =====
-- Printing a qualified name of engine/src/types.rs and reading it back.
use autocxx.Prelude.{
  ◌≡◌, refl, ap, ◌∙◌, Bool, true, ◌&&◌, not, [], ◌∷◌, ◌++◌, some, arith, ◌==◌, nat_eq, list_eq,
  Text, codes, all, append_assoc, append-nil,
}
use autocxx.Names.Defs.{
  Namespace, QualifiedName, push, split_colons, new_from_cpp_segments, new_from_cpp_name,
  display_segments, display,
}

abbrev pub no_colon : Text → Bool
no_colon s = all (λ c. not (c == b':')) s

split_colons-separator :
    (s rest : Text)
    → no_colon s ≡ true
    → split_colons (s ++ (codes "::" ++ rest)) ≡ s ∷ split_colons rest
unfolding split_colons
split_colons-separator [] rest h = refl
split_colons-separator (c ∷ []) rest h = ground arith
split_colons-separator (c ∷ d ∷ s) rest h =
    let ih = split_colons-separator (d ∷ s) rest (ground arith) in ground (arith, ih)

split_colons-plain : (s : Text) → no_colon s ≡ true → split_colons s ≡ s ∷ []
unfolding split_colons
split_colons-plain [] h = refl
split_colons-plain (c ∷ []) h = refl
split_colons-plain (c ∷ d ∷ s) h =
    let ih = split_colons-plain (d ∷ s) (ground arith) in ground (arith, ih)

-- A segment that `new_from_cpp_name` can read back: no colon, and something in it.
abbrev pub plain_segment : Text → Bool
plain_segment s = no_colon s && not (s == [])

split_colons-display :
    (ns : Namespace) (item : Text)
    → all plain_segment ns ≡ true
    → no_colon item ≡ true
    → split_colons (display_segments ns item) ≡ ns ++ item ∷ []
unfolding display_segments
split_colons-display [] item hn hi = split_colons-plain item hi
split_colons-display (seg ∷ ns) item hn hi =
    let ih = split_colons-display ns item (ground arith) hi in
    split_colons-separator seg (display_segments ns item) (ground arith) ∙ ap (λ t. seg ∷ t) ih

new_from_cpp_segments-append :
    (acc ns : Namespace) (item : Text)
    → all plain_segment ns ≡ true
    → new_from_cpp_segments acc (ns ++ item ∷ [])
      ≡ some (record { namespace = acc ++ ns; item = item })
unfolding new_from_cpp_segments push
new_from_cpp_segments-append acc [] item h = rw append-nil
new_from_cpp_segments-append acc (seg ∷ []) item h = ground arith
new_from_cpp_segments-append acc (seg ∷ next ∷ ns) item h =
    let ih = new_from_cpp_segments-append (acc ++ seg ∷ []) (next ∷ ns) item (ground arith) in
    ground (arith, ih, append_assoc acc (seg ∷ []) (next ∷ ns))

-- Reading back the printed form of a name gives the name, where no segment holds a colon and no
-- segment of the namespace is empty.
pub new_from_cpp_name-display :
    (name : QualifiedName)
    → all plain_segment name.namespace ≡ true
    → no_colon name.item ≡ true
    → new_from_cpp_name (display name) ≡ some name
unfolding new_from_cpp_name display
new_from_cpp_name-display name hn hi =
    rw (split_colons-display name.namespace name.item hn hi)
      (new_from_cpp_segments-append [] name.namespace name.item hn)
