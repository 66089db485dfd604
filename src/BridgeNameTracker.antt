-- ===== src/BridgeNameTracker.antt =====
-- engine/src/conversion/analysis/fun/bridge_name_tracker.rs: the names of functions in the cxx
-- bridge.
mod Numbers
pub mod Unique
pub mod Tests
use autocxx.Prelude.{
  ℕ, ◌+◌, List, [], ◌∷◌, ◌++◌, Option, none, some, lookup, insert, or_default, if◌then◌else◌,
  nat_beq, ◌==◌, Text, codes, decimal, join, list_eq, nat_eq,
}
use autocxx.Names.{Namespace}

abbrev pub BridgeNameTracker : Type 0
BridgeNameTracker = List (Text × ℕ)

abbrev pub count_of : Text → BridgeNameTracker → ℕ
count_of k t = or_default 0 (lookup k t)

abbrev pub without_new : Text → Text
without_new found_name = if found_name == codes "new" then codes "new_autocxx" else found_name

abbrev pub type_segments : Option Text → List Text
type_segments none = []
type_segments (some type_name) = type_name ∷ []

abbrev pub bridge_prefix : Option Text → Text → Namespace → Text
bridge_prefix type_name found_name ns =
    join (codes "_") (ns ++ (type_segments type_name ++ found_name ∷ []))

pub get_unique_cxx_bridge_name :
    BridgeNameTracker → Option Text → Text → Namespace → Text × BridgeNameTracker
get_unique_cxx_bridge_name t type_name found_name ns =
    let found = without_new found_name in
    let prefix = bridge_prefix type_name found ns in
    let count = count_of prefix t in
    if nat_beq (count_of found t) 0
    then (found, insert found 1 t)
    else if nat_beq count 0
    then (prefix, insert prefix 1 t)
    else (prefix ++ (codes "_autocxx" ++ decimal count), insert prefix (count + 1) t)

pub record Request : Type 0 where
  pub type_name : Option Text
  pub found_name : Text
  pub ns : Namespace

-- A whole run: the names of the functions in turn.
pub bridge_all : BridgeNameTracker → List Request → List Text
unfolding get_unique_cxx_bridge_name
bridge_all t [] = []
bridge_all t (r ∷ rs) =
    let (name, t') = get_unique_cxx_bridge_name t r.type_name r.found_name r.ns in
    name ∷ bridge_all t' rs
