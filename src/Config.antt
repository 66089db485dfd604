-- ===== src/Config.antt =====
-- parser/src/config.rs: the lists of directives with what answered to them, and the allowlist.
pub mod Answered
pub mod Entries
pub mod Tests
use autocxx.Prelude.{
  Bool, true, false, not, ◌||◌, List, [], ◌∷◌, ◌++◌, map, filter, Text, if◌then◌else◌,
}

pub record DirectiveRequest : Type 0 where
  pub text : Text
  pub matched : Bool

abbrev pub DirectiveList : Type 0
DirectiveList = List DirectiveRequest

abbrev pub DirectiveList_push : Text → DirectiveList → DirectiveList
DirectiveList_push request list = list ++ record { text = request; matched = false } ∷ []

abbrev pub iter : DirectiveList → List Text
iter list = map (λ r. r.text) list

-- What the loop of `matches` does to one request.
abbrev pub set_matched : (Text → Bool) → DirectiveRequest → DirectiveRequest
set_matched is_match request =
    if is_match request.text then record request { matched = true } else request

-- The loop of `matches`, from what has matched so far.
unfoldable pub matches_from : (Text → Bool) → Bool → DirectiveList → Bool × DirectiveList
matches_from is_match matched_any [] = (matched_any, [])
matches_from is_match matched_any (request ∷ rest) =
    let (answer, list) = matches_from is_match (is_match request.text || matched_any) rest in
    (answer, set_matched is_match request ∷ list)

unfoldable pub matches : (Text → Bool) → DirectiveList → Bool × DirectiveList
matches is_match list = matches_from is_match false list

unfoldable pub clear_matches : DirectiveList → DirectiveList
clear_matches list = map reset list
  where
    reset : DirectiveRequest → DirectiveRequest
    reset r = record r { matched = false }

unfoldable pub unmatched : DirectiveList → List Text
unmatched list = map (λ r. r.text) (filter (λ r. not r.matched) list)

pub data AllowlistEntry : Type 0 where
  item : Text → AllowlistEntry
  namespace : Text → AllowlistEntry

pub data Allowlist : Type 0 where
  unspecified : List AllowlistEntry → Allowlist
  everything : Allowlist
  specific : List AllowlistEntry → Allowlist

pub data AllowlistErr : Type 0 where
  conflicting_generate_and_generate_all : AllowlistErr

-- `Result<(), AllowlistErr>` with the list that the call leaves.
pub data Allowlisted : Type 0 where
  ok : Allowlist → Allowlisted
  err : AllowlistErr → Allowlisted

unfoldable pub Allowlist_push : Allowlist → AllowlistEntry → Allowlisted
Allowlist_push (unspecified uncommitted_list) entry = ok (specific (uncommitted_list ++ entry ∷ []))
Allowlist_push everything entry = err conflicting_generate_and_generate_all
Allowlist_push (specific list) entry = ok (specific (list ++ entry ∷ []))

unfoldable pub set_all : Allowlist → Allowlisted
set_all (unspecified uncommitted_list) = ok everything
set_all everything = ok everything
set_all (specific list) = err conflicting_generate_and_generate_all

abbrev pub default_allowlist : Allowlist
default_allowlist = unspecified []
