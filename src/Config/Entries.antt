-- ===== src/Config/Entries.antt =====
-- The allowlist over the directives of one block.
use autocxx.Prelude.{Bool, true, false, ◌≡◌, refl, List, [], ◌∷◌, ◌++◌, append-nil, append_assoc}
use autocxx.Config.{
  AllowlistEntry, everything, specific, conflicting_generate_and_generate_all, Allowlisted, ok, err,
  Allowlist_push, set_all, default_allowlist,
}

-- `generate!` or `generate_ns!` of an entry, or `generate_all!`.
pub data Directive : Type 0 where
  generate : AllowlistEntry → Directive
  generate_all : Directive

-- One more directive; nothing is read after the first that fails.
abbrev pub apply : Allowlisted → Directive → Allowlisted
apply (err e) directive = err e
apply (ok list) (generate entry) = Allowlist_push list entry
apply (ok list) generate_all = set_all list

abbrev pub run : Allowlisted → List Directive → Allowlisted
run so_far [] = so_far
run so_far (directive ∷ rest) = run (apply so_far directive) rest

abbrev pub entries : List Directive → List AllowlistEntry
entries [] = []
entries (generate entry ∷ rest) = entry ∷ entries rest
entries (generate_all ∷ rest) = entries rest

abbrev pub has_generate_all : List Directive → Bool
has_generate_all [] = false
has_generate_all (generate entry ∷ rest) = has_generate_all rest
has_generate_all (generate_all ∷ rest) = true

abbrev pub conflict : Allowlisted
conflict = err conflicting_generate_and_generate_all

-- What the directives of a block come to, whatever their order.
abbrev pub outcome_of : List AllowlistEntry → Bool → Allowlisted
outcome_of [] true = ok everything
outcome_of [] false = ok default_allowlist
outcome_of (entry ∷ rest) true = conflict
outcome_of (entry ∷ rest) false = ok (specific (entry ∷ rest))

run-conflict : (ds : List Directive) → run conflict ds ≡ conflict
run-conflict [] = refl
run-conflict (d ∷ ds) = run-conflict ds

run-everything : (ds : List Directive) → run (ok everything) ds ≡ outcome_of (entries ds) true
unfolding Allowlist_push set_all
run-everything [] = refl
run-everything (generate entry ∷ ds) = run-conflict ds
run-everything (generate_all ∷ ds) = run-everything ds

run-specific :
    (entry : AllowlistEntry) (list : List AllowlistEntry) (ds : List Directive)
    → run (ok (specific (entry ∷ list))) ds
      ≡ outcome_of (entry ∷ list ++ entries ds) (has_generate_all ds)
unfolding Allowlist_push set_all
run-specific entry list [] = rw append-nil refl
run-specific entry list (generate new ∷ ds) =
    rw (append_assoc list (new ∷ []) (entries ds)) at (run-specific entry (list ++ new ∷ []) ds)
run-specific entry list (generate_all ∷ ds) = run-conflict ds

-- The directives of a block fail exactly if one generates all and another an entry, in whatever
-- order; else the allowlist has all the entries in the order of the block, or is everything, or is
-- left unspecified where the block has no such directive.
pub run-outcome :
    (ds : List Directive)
    → run (ok default_allowlist) ds ≡ outcome_of (entries ds) (has_generate_all ds)
unfolding Allowlist_push set_all
run-outcome [] = refl
run-outcome (generate entry ∷ ds) = run-specific entry [] ds
run-outcome (generate_all ∷ ds) = run-everything ds
