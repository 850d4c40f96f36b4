-- ===== src/Lib.antt =====
-- Ubel Stratum is a language whose functions are annotated with a tier. A function of the LOW tier
-- manages memory by borrowing and moving, and crates/core/src/sema checks it as a borrow checker
-- does: `analyse` (crates/core/src/sema/mod.rs) runs, on every LOW-tier free function of a program,
-- a borrow check and then a move check, and on every program the checks of declared lifetimes before
-- and after them. This library is about that part of the compiler, from the syntax tree to the
-- reported violations, and about four parts beside it: the parser's token cursor, the table of
-- symbols, and the variables and pools of the interpreter.
--
-- The parts, in the order in which a function passes through them:
-- - Ast: the syntax tree, crates/core/src/ast. A node and its span are one constructor. Literals of
--   floating-point type are bit patterns; an integer literal is a sign and a magnitude. Of an item
--   only what the passes read is kept (crates/core/src/ast/declarations.rs, root.rs). A `try` with a
--   catch binding and no catch body is not distinguished from one without the binding.
-- - Cfg: crates/core/src/sema/cfg.rs. `build` turns a body into basic blocks. The builder's
--   mutable state is the state of a monad (Cfg.Builder), whose failure is the `None` of `?`, which
--   keeps the state. A block's number is a natural number: a function has fewer than 2^32
--   blocks, and so it is with loans.
--   Cfg.Hoare and Cfg.Methods carry the invariant through the builder.
-- - Facts: crates/core/src/sema/facts.rs. `collect` numbers the loans of a graph and lists the
--   points that define a place, kill a loan or may conflict with it. Facts.Walk is the tree walk of
--   crates/core/src/ast/visitor.rs without nested blocks.
-- - Points, Worklist, Liveness, Borrow: crates/core/src/sema/borrow_check.rs. Points are the
--   program points and their successors, which lie across empty blocks; Worklist is the loop that
--   finds the points a loan reaches, Liveness the sweep that finds where a place is read later, and
--   Borrow the check itself and the regions of the loans. The cache of liveness tables is left out.
-- - Builtins: the method names of crates/core/src/builtins/instance.rs.
-- - MoveFacts: crates/core/src/sema/move_facts.rs, the owning locals of a function and the places
--   where they are used by value.
-- - MoveCheck: crates/core/src/sema/move_check.rs, which runs Worklist from every move. The owning
--   locals are a hash set in the source, visited in no specified order; here, in a list's order.
-- - Analysis: passes 5 and 6 of `analyse`. The second runs only if the first found nothing.
--   Analysis.Passes is the whole of `analyse`, where passes 1, 3 and 4 are parameters that say whether
--   they report errors. Analysis.Rules says in terms of statements and paths when a borrow is in the
--   way of an access; Facts.Occurs, Facts.Accesses and Facts.Held say what a statement
--   reads, assigns and binds, and which borrow it holds.
-- - Cursor: crates/rd_parser/src/cursor.rs, the token cursor of the recursive-descent parser. Its loops
--   run on as much fuel as there are tokens: each round moves the cursor on, and the last token is Eof.
-- - Outlives: crates/core/src/sema/outlives_check.rs, the values that calls and struct literals bind to
--   declared lifetimes. A hash map of resolved values keeps the last value of a lifetime, and so does
--   the list.
-- - Lifetimes: crates/core/src/sema/lifetime_check.rs, the `[lifetime …]` lists of functions and
--   structs and the lifetimes their types name. The depth-first search for a cycle has as much fuel
--   as the list has names, since a call puts one more of them into `visited`.
-- - Pool: `PoolData` of crates/core/src/interpreter/value.rs and the methods of
--   crates/core/src/builtins/instance/pool_methods.rs. `Outcome` tells a value from a `Signal::Panic`
--   and from a crash of the interpreter (a division by a block size of 0).
-- - Symbols: crates/core/src/sema/symbol_table.rs, the table of definitions and the stack of scopes
--   that name resolution keeps (the walk that uses them, name_resolution.rs, is not modelled).
-- - Environment: crates/core/src/interpreter/env.rs, the variables of the interpreter, whose values
--   are a parameter.
--
-- Hash maps and hash sets are association lists and lists without repetition. Out of range, where
-- the source panics, a block is `dead_block`.
--
-- Loops: the search for the first statement of a block has one round per block of the graph and one
-- more; the worklist has as many rounds as the graph has points, each of which takes one point off;
-- the liveness sweep is repeated twice per point and once more, since a sweep that is not the last
-- sets one of two flags of a point.
--
-- Not modelled: the parsers (crates/parser, and crates/rd_parser but for its cursor), the lexer's
-- token table, the other passes of `analyse` (name resolution, type inference, tiers), the
-- interpreter but for its environments and pools, the other methods of the runtime and code
-- generation, the editor support, the diagnostics, and the command line. The passes here read
-- only the tree that these produce.
pub mod Analysis
pub mod Ast
pub mod Borrow
pub mod Builtins
pub mod Cfg
pub mod Common
pub mod Cursor
pub mod Environment
pub mod Facts
pub mod Lifetimes
pub mod Liveness
pub mod MoveCheck
pub mod MoveFacts
pub mod Outlives
pub mod Points
pub mod Pool
pub mod Symbols
pub mod Worklist
pub mod Tests
