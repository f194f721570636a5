-- ===== src/Base.antt =====
-- The names that the other modules share: the libraries', passed on, and those of the children.
mod Tests
mod Lists
mod Words
mod Defs
pub mod Splits
pub mod Int
pub mod Bits
pub mod Masks
pub mod Check
pub use Tests.*
pub use Lists.*
pub use Words.*
unfoldable pub use Defs.*
