-- ===== src/SpecialMembers.antt =====
-- engine/src/conversion/analysis/fun/implicit_constructors.rs: which special members a class has.
mod Found
mod Data
mod Rules
mod Fields
mod Structs
mod Explicits
mod Walk
mod Agree
pub mod Consistent
pub mod Implicit
pub mod Declared
pub mod Discarded
pub mod Reasons
pub mod Tests
unfoldable pub use Found.*
unfoldable pub use Data.*
unfoldable pub use Rules.*
unfoldable pub use Fields.*
unfoldable pub use Structs.*
unfoldable pub use Explicits.*
unfoldable pub use Walk.*
