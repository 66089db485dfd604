-- ===== src/Names.antt =====
-- engine/src/types.rs: namespaces, qualified names, and which identifiers cxx accepts.
mod Defs
mod Idents
pub mod RoundTrip
pub mod Total
pub mod Tests
unfoldable pub use Defs.*
unfoldable pub use Idents.*
