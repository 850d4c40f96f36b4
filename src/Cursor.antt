-- ===== src/Cursor.antt =====
-- crates/rd_parser/src/cursor.rs: the token cursor of the recursive-descent parser.
mod Moves
pub mod Skip
pub mod Balanced
mod Tests
unfoldable pub use Moves.*
