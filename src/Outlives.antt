-- ===== src/Outlives.antt =====
-- crates/core/src/sema/outlives_check.rs: what is bound to a lifetime at a call or in a struct literal.
mod Check
mod Program
pub mod Resolve
pub mod Sites
pub mod Accepts
pub mod Safety
unfoldable pub use Check.*
unfoldable pub use Program.*
