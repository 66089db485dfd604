-- ===== src/Lib.antt =====
-- autocxx generates Rust bindings for C++. bindgen reads the headers, and the engine
-- (engine/src/conversion) turns its output into a list of APIs, runs one analysis after another over
-- that list, and prints a cxx bridge. This library models the names, the list and the analyses that
-- decide which APIs are kept, in which order and under which names.
--
-- How the parts fit together: a `QualifiedName` names an `Api`. Every analysis takes an `ApiVec` and
-- collects its result into a new one, so that what `push` does on a clash of names is part of each of
-- them. The function analysis asks the overload tracker for Rust names. The POD analysis and the
-- implicit constructors walk the types by the depth-first iterator. After the functions have been
-- analysed, `remove_ignored.rs` gives up what depends on ignored items, and `gc.rs` keeps what the
-- allowlist reaches; both follow the dependencies that `deps.rs` lists.
--
-- - Prelude, with its children: tests, sets, maps and texts that the parts share. `IndexSet` and
--   `HashSet` are lists in order of insertion (`set_insert`, `to_set`), the maps are association
--   lists (`lookup`, `insert`, `remove`), a text is a list of code points, and `decimal` prints a
--   number.
-- - Names: engine/src/types.rs. `Namespace` and `QualifiedName` with their constructors, printed
--   forms and the checks of identifiers. A `Syn` is what `Ident::new` and `syn` say of a text: whether
--   it is an identifier, without which `make_ident` panics, and whether it is a reserved word.
-- - OverloadTracker: engine/src/conversion/analysis/fun/overload_tracker.rs. `reserve`, `get_name`
--   and its two callers take and return the tracker. The search for a number that is free is on fuel:
--   one more than the names that are taken, since the candidates all differ.
-- - DepthFirst: engine/src/conversion/analysis/depth_first.rs. `next` is one call of the iterator;
--   its loop is on fuel, one round more than there are items in the queue. `drain` is a whole run.
-- - Api: engine/src/conversion/api.rs in its last phase, `deps` of
--   engine/src/conversion/analysis/deps.rs, `name_for_allowlist` of
--   engine/src/conversion/analysis/fun/mod.rs, and the error contexts of
--   engine/src/conversion/convert_error.rs. An API has the fields that the modelled code reads.
-- - ApiVec: engine/src/conversion/apivec.rs. `push` calls itself at most once, after the clashing
--   name has been freed, so that fuel 2 is enough; `first_free_name` has fuel for one candidate more
--   than there are names. `none` is the panic on a stub that the list has lost. The identifiers that
--   `record_displaced_function` makes of a name are its texts: the panic of `make_ident` on a name
--   that is no identifier is left out there, since it has been an identifier of bindgen's.
-- - RemoveIgnored: engine/src/conversion/analysis/remove_ignored.rs. `sweep` is one pass of the
--   `while` loop; each pass but the last ignores one API more, so that the number of APIs bounds the
--   passes. What `known_types()` answers is a parameter.
-- - Gc: engine/src/conversion/analysis/gc.rs. `visit` is one round of the `while` loop. A round takes
--   one name off the list and adds the dependencies of the APIs that it moves, so that the roots and
--   all dependencies together bound the rounds. The test for a root is a parameter.
-- - BridgeTypeNames: engine/src/conversion/analysis/bridge_type_names.rs. `BridgeTypeNames_new` walks
--   the APIs and gives each type that the bridge declares a name by `allocate`. Its loop over numbered
--   candidates is on fuel: one more than the names that are taken, since the candidates all differ.
--   `none` is the panic of `make_ident`, besides; `IdentGrammar` has what is asked of identifiers for
--   the names that are made up to be some. `get` answers the text of an identifier.
-- - NameCheck: engine/src/conversion/analysis/name_check.rs, with `convert_item_apis` of
--   engine/src/conversion/error_reporter.rs. `check_names` converts the list twice: once with the
--   checks of identifiers, where `none` is the panic of `make_ident`, and, when the types have their bridge names, once with the check for clashes.
-- - BridgeNameTracker: engine/src/conversion/analysis/fun/bridge_name_tracker.rs.
--   `get_unique_cxx_bridge_name` takes and returns the map of counts; `bridge_all` is a run of it.
-- - SpecialMembers: engine/src/conversion/analysis/fun/implicit_constructors.rs, with
--   `typedef_targets` and `resolve_typedefs` of engine/src/conversion/analysis/tdef.rs. Found and Data
--   hold the types, Explicits `find_explicit_items` and the closure of
--   `discard_deleted_defaulted_members` (that the list is collected anew is left out), Fields
--   the answers for bases and fields, Rules the C++ rules, Structs one class, and Walk
--   `find_constructors_present` over the iterator of DepthFirst. Whether a parameter is a reference,
--   to what, is a `SourceType` in place of its `syn` type, and the type of a field is the path of its
--   innermost element. What `known_types()` answers is a parameter, and a panic is `none`.
--   `typedef_targets` is followed for as many steps as there are typedefs, as the code does.
-- - ByValue: engine/src/conversion/analysis/pod/byvalue_checker.rs, with `cpp_spellings` of
--   engine/src/conversion/api.rs. Data and Fields read a struct, whose fields have the kinds of types
--   that type_helpers.rs tells apart, under the name of its API; Ingest files its state under its own
--   ident in the namespace of that name. Ingest is the state of one type, Order the walk over the structs
--   with its own stack, Requests `satisfy_requests`, and Checker `new_from_apis`. The fuel of the walk
--   is the number of positions and of dependencies, and that of the requests is `cost`; each round
--   of either makes what is left of it smaller. A HashMap is an association list, `progress` has the
--   entries that were set, and `known_types()`, the configuration and the reports of bindgen are
--   parameters.
-- - CppStandard: engine/src/cpp_standard.rs. `year_from` is the loop of `parse_standard_year`, with
--   what its iterator is to take next as a state; the arguments that lib.rs and the environment give
--   are parameters.
-- - Config: parser/src/config.rs. The `Cell` of a request is a field, and `matches` returns the list
--   that it leaves; `Allowlisted` is the result of `push` and `set_all` with the allowlist they leave.
--
-- Not modelled: the parsing of bindgen's output, the conversion of types and the analysis of
-- functions, which rewrite `syn` trees; the generation of Rust and C++ text; the builder and the
-- command line tools, which are input and output; and logging.
pub mod Prelude
pub mod Names
pub mod OverloadTracker
pub mod DepthFirst
pub mod Api
pub mod ApiVec
pub mod RemoveIgnored
pub mod Gc
pub mod BridgeTypeNames
pub mod NameCheck
pub mod BridgeNameTracker
pub mod SpecialMembers
pub mod ByValue
pub mod CppStandard
pub mod Config
