-- ===== src/Pool.antt =====
-- The pool of crates/core/src/interpreter/value.rs (`PoolData`) and its methods in
-- crates/core/src/builtins/instance/pool_methods.rs.
mod Data
pub mod Cells
pub mod FreeList
pub mod Valid
pub mod Methods
pub mod Release
pub mod Handles
pub mod Stale
mod Tests
unfoldable pub use Data.*
