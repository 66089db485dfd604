-- ===== src/ByValue.antt =====
-- engine/src/conversion/analysis/pod/byvalue_checker.rs: which types Rust may hold by value.
mod Data
mod Fields
mod Ingest
mod Requests
mod Checker
mod Order
pub mod Steps
pub mod Rounds
pub mod Needs
mod Pending
pub mod Needed
pub mod Room
mod Visits
mod Covers
mod Behind
mod Lookups
pub mod InOrder
pub mod Walked
mod Positions
pub mod Listed
pub mod Held
pub mod Safe
pub mod Unfit
pub mod Built
pub mod Tests
unfoldable pub use Data.*
unfoldable pub use Fields.*
unfoldable pub use Ingest.*
unfoldable pub use Order.*
unfoldable pub use Checker.*
unfoldable pub use Requests.*
