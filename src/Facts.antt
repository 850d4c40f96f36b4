-- ===== src/Facts.antt =====
-- crates/core/src/sema/facts.rs: the loans of a function and the points that kill or invalidate
-- them.
pub mod Occurs
pub mod Held
mod Walk
mod Collect
pub mod Numbered
pub mod Defined
pub mod Touches
pub mod Accesses
unfoldable pub use Walk.*
unfoldable pub use Collect.*
