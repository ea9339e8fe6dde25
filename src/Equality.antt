-- ===== src/Equality.antt =====
-- The shape that the `Equal` methods share, and its laws.
mod Defs
mod Loops
mod Search
pub mod Maps
pub use Defs.*
pub use Loops.*
pub use Search.*
