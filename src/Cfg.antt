-- ===== src/Cfg.antt =====
-- crates/core/src/sema/cfg.rs: the control-flow graph of a function body. A `BlockId` is its
-- number; the source panics where `blocks[id]` is out of range, and the model reads a block with no
-- statement and no successor there.
mod Types
pub mod Builder
mod Build
mod Hoare
mod Methods
pub mod WellFormed
pub mod Passes
pub mod Totals
mod Branching
pub mod FallsThrough
unfoldable pub use Types.*
unfoldable pub use Builder.*
unfoldable pub use Build.*
