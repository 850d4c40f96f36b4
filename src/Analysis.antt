-- ===== src/Analysis.antt =====
-- The last passes of `analyse`, crates/core/src/sema/mod.rs, that concern LOW-tier functions: borrow
-- checking, and move checking if that found nothing. Analysis.Passes is `analyse` as a whole.
pub mod Rules
pub mod Accepts
pub mod Passes
use ubel_stratum.Common.{List, [], ◌∷◌}
use ubel_stratum.Ast.{Program}
use ubel_stratum.Borrow
use ubel_stratum.MoveCheck

pub data Outcome : Type 0 where
  accepted : Outcome
  borrow_errors : List Borrow.Violation → Outcome
  move_errors : List MoveCheck.Violation → Outcome

unfoldable pub after_moves : List MoveCheck.Violation → Outcome
after_moves [] = accepted
after_moves (v ∷ vs) = move_errors (v ∷ vs)

unfoldable pub after_borrows : List Borrow.Violation → List MoveCheck.Violation → Outcome
after_borrows [] moves = after_moves moves
after_borrows (v ∷ vs) moves = borrow_errors (v ∷ vs)

unfoldable pub check_low_tier : Program → Outcome
check_low_tier program =
    after_borrows (Borrow.check_program program) (MoveCheck.check_program program)
