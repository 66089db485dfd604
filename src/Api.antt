-- ===== src/Api.antt =====
-- engine/src/conversion/api.rs in the phase that the last analyses see (`Api<FnPhase>`), with the
-- fields that those analyses read; `deps` of deps.rs and `name_for_allowlist` of fun/mod.rs.
pub mod Errors
mod Data
mod Deps
unfoldable pub use Data.*
unfoldable pub use Deps.*
