-- ===== src/SpecialMembers/Declared.antt =====
-- `find_explicit_items` against its description.
use autocxx.Prelude.{
  ◌≡◌, refl, sym, ap, ◌∙◌, Bool, true, false, List, [], ◌∷◌, Option, none, some, lookup,
  lookup-insert, if◌then◌else◌, arith, Option-cases, Bool-cases, inl, inr, ◌==◌,
}
use autocxx.Names.{name_eq}
use autocxx.SpecialMembers.Found.{ExplicitFound, multiple}
use autocxx.SpecialMembers.Data.{ExplicitType, explicit_type_eq, explicit_type_beq_iff}
use autocxx.SpecialMembers.Structs.{ExplicitItems, Explicits}
use autocxx.SpecialMembers.Explicits.{
  FuncToConvert, PreApi, struct, enum, concrete_type, typedef, other, first_found, merge_fun,
  merge_declared, declared_by, note_explicit, find_explicit_items_in, find_explicit_items,
}

abbrev is_for : ExplicitType → Option ExplicitType → Bool
is_for t none = false
is_for t (some u) = u == t

-- The functions that declare a member, in order.
abbrev pub declarations : ExplicitType → List PreApi → List FuncToConvert
declarations t [] = []
declarations t (PreApi.function _ fun analysis ∷ apis) =
    let rest = declarations t apis in
    if is_for t (declared_by fun analysis.ignore_reason analysis.kind) then fun ∷ rest else rest
declarations t (_ ∷ apis) = declarations t apis

-- What several declarations of one member come to, behind what is found already.
abbrev pub together : Option ExplicitFound → List FuncToConvert → Option ExplicitFound
together found [] = found
together none (fun ∷ []) = some (first_found fun)
together _ (_ ∷ _) = some multiple

lookup-merge_fun :
    (t u : ExplicitType) (fun : FuncToConvert) (result : Explicits)
    → lookup t (merge_fun u.ty u.kind fun result)
      ≡ (if u == t then together (lookup t result) (fun ∷ []) else lookup t result)
unfolding merge_fun
lookup-merge_fun t u fun result = elim (Bool-cases (u == t)) [
  | inr differ ↦ elim (Option-cases (lookup u result)) [
    | inl unseen ↦
        rw (unseen, merge_fun) (lookup-insert u t (first_found fun) result ∙ rw differ refl)
    | inr (found, seen) ↦ rw (seen, merge_fun) (lookup-insert u t multiple result ∙ rw differ refl)
  ]
  | inl same ↦
      let key = ap (λ v. lookup v result) ((explicit_type_beq_iff u t).0 same) in
      elim (Option-cases (lookup u result)) [
        | inl unseen ↦
            rw (unseen, merge_fun)
              (lookup-insert u t (first_found fun) result ∙ ground (arith, same, sym key ∙ unseen))
        | inr (found, seen) ↦
            rw (seen, merge_fun)
              (lookup-insert u t multiple result ∙ ground (arith, same, sym key ∙ seen))
      ]
]

lookup-merge_declared :
    (t : ExplicitType) (declares : Option ExplicitType) (fun : FuncToConvert) (result : Explicits)
    → lookup t (merge_declared fun declares result)
      ≡ (if is_for t declares then together (lookup t result) (fun ∷ []) else lookup t result)
lookup-merge_declared t none fun result = refl
lookup-merge_declared t (some u) fun result = lookup-merge_fun t u fun result

together-step :
    (b : Bool) (found : Option ExplicitFound) (fun : FuncToConvert) (rest : List FuncToConvert)
    → together (if b then together found (fun ∷ []) else found) rest
      ≡ together found (if b then fun ∷ rest else rest)
together-step false found fun rest = refl
together-step true none fun [] = refl
together-step true (some f) fun [] = refl
together-step true none fun (more ∷ rest) = refl
together-step true (some f) fun (more ∷ rest) = refl

lookup-find_explicit_items_in :
    (apis : List PreApi) (e : ExplicitItems) (t : ExplicitType)
    → lookup t (find_explicit_items_in e apis).explicits
      ≡ together (lookup t e.explicits) (declarations t apis)
unfolding find_explicit_items_in note_explicit
lookup-find_explicit_items_in [] e t = refl
lookup-find_explicit_items_in (PreApi.function n fun analysis ∷ apis) e t =
    let ih =
      lookup-find_explicit_items_in apis (note_explicit e (PreApi.function n fun analysis)) t in
    let declares = declared_by fun analysis.ignore_reason analysis.kind in
    ih
    ∙ ap (λ found. together found (declarations t apis))
        (lookup-merge_declared t declares fun e.explicits)
    ∙ together-step (is_for t declares) (lookup t e.explicits) fun (declarations t apis)
lookup-find_explicit_items_in (struct s ∷ apis) e t = lookup-find_explicit_items_in apis e t
lookup-find_explicit_items_in (enum n ∷ apis) e t = lookup-find_explicit_items_in apis e t
lookup-find_explicit_items_in (concrete_type n ∷ apis) e t = lookup-find_explicit_items_in apis e t
lookup-find_explicit_items_in (typedef n target ∷ apis) e t = lookup-find_explicit_items_in apis e t
lookup-find_explicit_items_in (other n ∷ apis) e t = lookup-find_explicit_items_in apis e t

-- For any list of APIs, what is found of a member of a class is nothing where no function declares
-- it, what the one function declares where there is one, and `multiple` where there are more.
pub find_explicit_items-declarations :
    (apis : List PreApi) (t : ExplicitType)
    → lookup t (find_explicit_items apis).explicits ≡ together none (declarations t apis)
unfolding find_explicit_items
find_explicit_items-declarations apis t = lookup-find_explicit_items_in apis _ t
