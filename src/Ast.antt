-- ===== src/Ast.antt =====
-- The abstract syntax, crates/core/src/ast: spans and operators in `Common`, types in `TypeKind`,
-- expressions, statements and patterns in `Syntax`, declarations in `Items`.
-- An `Expr`, `Stmt`, `Pattern` or `Type` of the source is a record of a kind and a span: here a
-- constructor carries its span last. Slices of nodes are list types of the same block.
mod Base
mod TypeKind
mod Syntax
mod Items
unfoldable pub use Base.*
pub use TypeKind.*
unfoldable pub use Syntax.*
pub use Items.*
