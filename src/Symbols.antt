-- ===== src/Symbols.antt =====
-- crates/core/src/sema/symbol_table.rs: the table of definitions and the stack of lexical scopes of
-- name resolution. A `DefId` is its number.
pub mod Table
pub mod Scope
pub mod Stack
pub mod Scoping
mod Tests
