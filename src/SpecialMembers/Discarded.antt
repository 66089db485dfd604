-- ===== src/SpecialMembers/Discarded.antt =====
-- `discard_deleted_defaulted_members` against what `find_explicit_items` takes a function for.
use autocxx.Prelude.{
  ◌≡◌, ◌↔◌, refl, sym, ◌∙◌, Bool, true, false, ◌&&◌, Option, none, some, lookup, arith, Bool-cases,
  Option-cases, some_injective, inl, inr,
}
use autocxx.Names.{QualifiedName, name_eq}
use autocxx.Api.{ApiName}
use autocxx.Api.Errors.{defaulted_but_deleted}
use autocxx.SpecialMembers.Found.{SpecialMemberFound, not_present}
use autocxx.SpecialMembers.Data.{ItemsFound, ExplicitKind, ExplicitType}
use autocxx.SpecialMembers.Fields.{AllItems}
use autocxx.SpecialMembers.Explicits.{
  FuncToConvert, defaulted, MethodKind, TraitMethodKind, PreFnKind, method, trait_method,
  PreFnAnalysis, PreApi, IgnoreReason, accepted, ignored, is_assignment, is_copy_constructor,
  is_accepted, is_defaulted_fn, is_not_present, declared_by, found_member, member_context,
  discard_if_deleted,
}

-- What the analysis answers of a member that a class declares; `none` for the kinds it has no answer
-- for.
abbrev pub answer_for : ExplicitKind → ItemsFound → Option SpecialMemberFound
answer_for ExplicitKind.default_constructor i = some i.default_constructor
answer_for ExplicitKind.const_copy_constructor i = some i.const_copy_constructor
answer_for ExplicitKind.non_const_copy_constructor i = some i.non_const_copy_constructor
answer_for ExplicitKind.move_constructor i = some i.move_constructor
answer_for ExplicitKind.destructor i = some i.destructor
answer_for _ i = none

-- A declaration that counts as one of a special member, which its class turns out not to have.
abbrev pub DeclaresMissing : AllItems → FuncToConvert → PreFnAnalysis → Type 0
DeclaresMissing all fun analysis =
    (t : ExplicitType) × (i : ItemsFound) × (declared_by fun analysis.ignore_reason analysis.kind
      ≡ some t)
    × (lookup t.ty all ≡ some i)
    × (answer_for t.kind i ≡ some not_present)

abbrev answer_in : AllItems → Option ExplicitType → Option SpecialMemberFound
answer_in all none = none
answer_in all (some t) = elim (lookup t.ty all) [ none ↦ none | some i ↦ answer_for t.kind i ]

module _ (all : AllItems) (fun : FuncToConvert) (no_assignment : is_assignment fun ≡ false) where
  found_in_method :
      (impl_for : QualifiedName) (kind : MethodKind)
      → found_member all fun (method impl_for kind)
        ≡ answer_in all (declared_by fun accepted (method impl_for kind))
  unfolding found_member declared_by
  found_in_method ty (MethodKind.constructor true) = at (lookup ty all) refl
    where
      at :
          (o : Option ItemsFound)
          → lookup ty all ≡ o
          → found_member all fun (method ty (MethodKind.constructor true))
            ≡ answer_in all (declared_by fun accepted (method ty (MethodKind.constructor true)))
      at none e = rw no_assignment (rw (answer_in, e) refl)
      at (some i) e = rw no_assignment (rw (answer_in, e) refl)
  found_in_method ty (MethodKind.constructor false) =
      at (lookup ty all) refl (is_copy_constructor fun) refl
    where
      at :
          (o : Option ItemsFound)
          → lookup ty all ≡ o
          → (b : Bool) → is_copy_constructor fun ≡ b
          → found_member all fun (method ty (MethodKind.constructor false))
            ≡ answer_in all (declared_by fun accepted (method ty (MethodKind.constructor false)))
      at none e true copy = rw (no_assignment, copy) (rw (answer_in, e) refl)
      at none e false other = rw (no_assignment, other) (rw (answer_in, e) refl)
      at (some i) e true copy = rw (no_assignment, copy) (rw (answer_in, e) refl)
      at (some i) e false other = rw (no_assignment, other) (rw (answer_in, e) refl)
  found_in_method ty MethodKind.normal = rw no_assignment refl
  found_in_method ty MethodKind.static = rw no_assignment refl
  found_in_method ty (MethodKind.virtual m) = rw no_assignment refl
  found_in_method ty (MethodKind.pure_virtual m) = rw no_assignment refl

  found_in_trait :
      (ty : QualifiedName) (kind : TraitMethodKind)
      → found_member all fun (trait_method ty kind)
        ≡ answer_in all (declared_by fun accepted (trait_method ty kind))
  unfolding found_member declared_by
  found_in_trait ty TraitMethodKind.copy_constructor = ground arith
  found_in_trait ty TraitMethodKind.move_constructor = ground arith
  found_in_trait ty TraitMethodKind.destructor = ground arith
  found_in_trait ty TraitMethodKind.cast = refl
  found_in_trait ty TraitMethodKind.alloc = refl
  found_in_trait ty TraitMethodKind.dealloc = refl

  found_member-declared_by :
      (kind : PreFnKind) → found_member all fun kind ≡ answer_in all (declared_by fun accepted kind)
  unfolding found_member declared_by
  found_member-declared_by PreFnKind.function = refl
  found_member-declared_by (method ty kind) = found_in_method ty kind
  found_member-declared_by (trait_method ty kind) = found_in_trait ty kind

-- A declaration with `= default`, not ignored so far, of a member that its class does not have.
abbrev pub IsDeleted : AllItems → FuncToConvert → PreFnAnalysis → Type 0
IsDeleted all fun analysis =
    (fun.is_deleted ≡ some defaulted)
    × (analysis.ignore_reason ≡ accepted)
    × DeclaresMissing all fun analysis

answer_in-missing :
    (all : AllItems) (o : Option ExplicitType)
    → (answer_in all o ≡ some not_present) ↔ (
        (t : ExplicitType) × (i : ItemsFound) × (o ≡ some t)
        × (lookup t.ty all ≡ some i)
        × (answer_for t.kind i ≡ some not_present))
answer_in-missing all none = (λ e. cc, λ (t, i, same, known, missing). cc)
answer_in-missing all (some t) =
    (there, λ (u, i, same, known, missing). back u i (some_injective same) known missing)
  where
    there :
        answer_in all (some t) ≡ some not_present
        → (u : ExplicitType) × (i : ItemsFound) × (some t ≡ some u)
          × (lookup u.ty all ≡ some i)
          × (answer_for u.kind i ≡ some not_present)
    there e = elim (Option-cases (lookup t.ty all)) [
      | inl unknown ↦ cc (rw (answer_in, unknown) at e)
      | inr (i, known) ↦ (t, i, refl, known, rw (answer_in, known) at e)
    ]

    back :
        (u : ExplicitType) (i : ItemsFound)
        → t ≡ u
        → lookup u.ty all ≡ some i
        → answer_for u.kind i ≡ some not_present
        → answer_in all (some t) ≡ some not_present
    back u i same known missing = rw same (rw (answer_in, known) missing)

is_not_present-test :
    (o : Option SpecialMemberFound) → (is_not_present o ≡ true) ↔ (o ≡ some not_present)
is_not_present-test o = ground arith

IsDeleted-test :
    (all : AllItems) (fun : FuncToConvert) (analysis : PreFnAnalysis)
    → is_assignment fun ≡ false
    → ((is_defaulted_fn fun
          && (is_accepted analysis.ignore_reason
              && is_not_present (found_member all fun analysis.kind)))
        ≡ true)
      ↔ IsDeleted all fun analysis
IsDeleted-test all fun analysis plain = at analysis.ignore_reason refl
  where
    at :
        (reason : IgnoreReason)
        → analysis.ignore_reason ≡ reason
        → ((is_defaulted_fn fun
              && (is_accepted analysis.ignore_reason
                  && is_not_present (found_member all fun analysis.kind)))
            ≡ true)
          ↔ IsDeleted all fun analysis
    at (ignored why ctx) e = (λ h. absurd (ground (arith, h, e)), λ h. cc (sym e ∙ h.1))
    at accepted e =
        let same = found_member-declared_by all fun plain analysis.kind in
        let missing = answer_in-missing all (declared_by fun accepted analysis.kind) in
        rw (e, same)
          (ground (
            arith,
            missing,
            is_not_present-test (answer_in all (declared_by fun accepted analysis.kind)),
          ))

-- A function that is no assignment operator is withdrawn exactly where it is declared with
-- `= default`, is not ignored so far, and counts, by what `find_explicit_items` takes it for, as
-- the declaration of a member that the analysis found its class not to have. Otherwise it stays as
-- it is.
pub discard_if_deleted-IsDeleted :
    (built_in : QualifiedName → Bool) (all : AllItems) (n : ApiName) (fun : FuncToConvert)
    (analysis : PreFnAnalysis)
    → is_assignment fun ≡ false
    → (IsDeleted all fun analysis
        → discard_if_deleted built_in all (PreApi.function n fun analysis)
          ≡ PreApi.function n fun (record analysis {
            ignore_reason =
                ignored defaulted_but_deleted (member_context built_in analysis analysis.kind);
          }))
      × ((¬ IsDeleted all fun analysis)
          → discard_if_deleted built_in all (PreApi.function n fun analysis)
            ≡ PreApi.function n fun analysis)
unfolding discard_if_deleted
discard_if_deleted-IsDeleted built_in all n fun analysis plain =
    let test = IsDeleted-test all fun analysis plain in
    (
      λ gone. rw (test.1 gone) refl,
      λ kept.
          elim (Bool-cases (
            is_defaulted_fn fun
            && (is_accepted analysis.ignore_reason
                && is_not_present (found_member all fun analysis.kind)))) [
                  | inl doomed ↦ absurd (kept (test.0 doomed))
                  | inr spared ↦ rw spared refl
                ],
    )
