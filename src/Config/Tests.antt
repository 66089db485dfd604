-- ===== src/Config/Tests.antt =====
-- Small blocks of directives for config.rs, and the witnesses.
use autocxx.Prelude.{
  Bool, true, false, not, ◌≡◌, ◌==◌, List, [], ◌∷◌, filter, Text, codes, nat_eq, list_eq,
}
use autocxx.Config.{DirectiveList, item, iter, clear_matches, unmatched, ok, default_allowlist}
use autocxx.Config.Answered.{asked, answers, unmatched-answers}
use autocxx.Config.Entries.{generate, generate_all, run, conflict, run-outcome}

abbrev requests : DirectiveList
requests =
    record { text = codes "A"; matched = true } ∷ record { text = codes "B"; matched = false } ∷ []

abbrev questions : List (Text → Bool)
questions = (λ t. t == codes "B") ∷ (λ t. t == codes "C") ∷ []

unmatched-answers_example :
    unmatched (asked questions (clear_matches requests))
    ≡ filter (λ t. not (answers questions t)) (iter requests)
unmatched-answers_example = unmatched-answers questions requests

run-outcome_example :
    run (ok default_allowlist) (generate_all ∷ generate (item (codes "A")) ∷ []) ≡ conflict
run-outcome_example = run-outcome (generate_all ∷ generate (item (codes "A")) ∷ [])
