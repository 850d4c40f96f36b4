-- ===== src/Tests.antt =====
-- The functions of the unit tests of crates/core/src/sema/move_check.rs and borrow_check.rs.
mod Moves
mod Borrows
mod Graph
mod Lifetimes
mod Outlives
use ubel_stratum.Common.{
  ℕ, true, false, [], ◌∷◌, ◌≡◌, ◌↔◌, inl, inr, refl, none, String, contains, find, insert, list_at,
  push_at, length, Among, nat_eq,
}
use ubel_stratum.Ast.{
  Span, Expr, ident, lit, int_lit, call, field, borrow, deref, Args, no_args, positional, Stmts,
  end_block, cons_stmt, Stmt, let_stmt, expr_stmt, while_stmt, ident_target, assign_expr, assign,
  AssignOp, add_assign, FunctionDecl, low, private_vis, Program, Item, function,
}
use ubel_stratum.Ast
use ubel_stratum.Cfg
use ubel_stratum.Cfg.{Cfg, build}
use ubel_stratum.Cfg.WellFormed.{build-IsWellFormed}
use ubel_stratum.Facts
use ubel_stratum.Facts.{place_eq}
use ubel_stratum.Points
use ubel_stratum.Points.{point_eq}
use ubel_stratum.Worklist
use ubel_stratum.Liveness
use ubel_stratum.Borrow
use ubel_stratum.MoveFacts
use ubel_stratum.MoveCheck
use ubel_stratum.Analysis
use ubel_stratum.Analysis.Accepts

abbrev pub at : ℕ → Span
at n = record { start = n; end = n; line = 0; column = 0 }

abbrev pub let_ : String → Expr → Stmt
let_ x e = let_stmt false (ident_target x) none e (at 0)

abbrev pub var : String → Expr
var x = ident x (at 0)

abbrev pub unique_new : Expr
unique_new =
    call (field (var "Unique") "new" (at 0))
      (positional (lit (int_lit false 5) (at 0)) (at 0) no_args) (at 0)

abbrev pub func : Stmts → FunctionDecl
func body = record {
  tier = low;
  visibility = private_vis;
  is_async = false;
  name = "f";
  lifetime_params = [];
  params = [];
  return_type = none;
  body = body;
  span = at 0;
}

-- let a = Unique.new(5); let b = a; let c = a;
abbrev pub twice_moved : FunctionDecl
twice_moved = func (
    cons_stmt (let_ "a" unique_new)
      (cons_stmt (let_ "b" (ident "a" (at 1))) (cons_stmt (let_ "c" (ident "a" (at 2))) end_block)))

unfoldable pub program : Unit {0}
unfolding Ast.stmt_span Cfg.program Cfg.build Cfg.build_block Cfg.block Cfg.block_successors
    contains find insert list_at push_at Facts.collect Facts.walk_expr Facts.stmt_reads_place
    Facts.stmt_defines_place Points.succ_points Points.all_points Points.first_points_of
    Points.extend_all Worklist.propagate Worklist.drain Worklist.round Worklist.push_all
    Worklist.push_new Liveness.fixed_point Liveness.iterate Liveness.sweep Liveness.update
    Liveness.set_after Liveness.set_before Liveness.flag Liveness.any_flag Liveness.all_false
    Borrow.compute_liveness Borrow.is_kill Borrow.compute_reaches_before Borrow.stmt_at
    Borrow.violation_at Borrow.report Borrow.check_candidates Borrow.check_loan Borrow.check_loans
    Borrow.check Borrow.check_function Borrow.check_program MoveFacts.collect_with
    MoveFacts.walk_moves MoveFacts.callee_moves MoveFacts.user_method_names
    MoveCheck.compute_moved_reaches MoveCheck.violation MoveCheck.report_candidate
    MoveCheck.report_candidates MoveCheck.report_sources MoveCheck.check_place
    MoveCheck.check_places MoveCheck.check MoveCheck.check_function_with MoveCheck.check_items
    MoveCheck.check_program Analysis.check_low_tier Analysis.after_moves Analysis.after_borrows
program = tt

second_use :
    MoveCheck.check_program (function twice_moved ∷ [])
    ≡ record { place = "a"; moved_span = at 1; used_span = at 2 } ∷ []
unfolding program
second_use = refl

abbrev pub moved_graph : Cfg
moved_graph = build twice_moved

abbrev pub use_of_a : MoveCheck.Violation
use_of_a = record { place = "a"; moved_span = at 1; used_span = at 2 }

abbrev pub place_a : Facts.Place
place_a = Facts.local "a"

abbrev pub point : ℕ → ℕ → Points.Point
point b i = record { block = b; stmt_index = i }

abbrev pub moved_facts : Facts.Facts
moved_facts = Facts.collect moved_graph

abbrev pub moved_moves : MoveFacts.MoveFacts
moved_moves = MoveFacts.collect_with moved_graph []

abbrev pub move_1 : MoveFacts.MoveFact
move_1 = record { place = place_a; point = point 0 1; span = at 1 }

abbrev pub move_2 : MoveFacts.MoveFact
move_2 = record { place = place_a; point = point 0 2; span = at 2 }

-- let p = &mut n; let y = n; let last = *p;
abbrev pub conflicting : FunctionDecl
conflicting = func (
    cons_stmt (let_ "p" (borrow true (var "n") (at 3))) (
      cons_stmt (let_stmt false (ident_target "y") none (var "n") (at 4))
        (cons_stmt (let_ "last" (deref (var "p") (at 0))) end_block)))

abbrev pub conflict_graph : Cfg
conflict_graph = build conflicting

abbrev pub conflict_facts : Facts.Facts
conflict_facts = Facts.collect conflict_graph

abbrev pub loan_of_n : Facts.Loan
loan_of_n = record {
  id = 0;
  place = Facts.local "n";
  bound_place = Facts.local "p";
  mutable = true;
  issued_at = point 0 0;
  span = at 3;
}

abbrev pub read_of_n : Borrow.Violation
read_of_n = record { loan_span = at 3; conflict_span = at 4; place = "n"; mutable = true }

conflict_reported : Borrow.check_program (function conflicting ∷ []) ≡ read_of_n ∷ []
unfolding program
conflict_reported = refl

-- let p = &mut n; let last = *p; let y = n;
dead_after_last_use :
    Borrow.check_function (
      func (
        cons_stmt (let_ "p" (borrow true (var "n") (at 3))) (
          cons_stmt
            (let_ "last" (deref (var "p") (at 0)))
            (cons_stmt (let_ "y" (var "n")) end_block))))
    ≡ []
unfolding program
dead_after_last_use = refl

-- let p = &mut n; n op= value; let z = *p;
abbrev assigned_while_borrowed : AssignOp → Expr → FunctionDecl
assigned_while_borrowed op value = func (
    cons_stmt (let_ "p" (borrow true (var "n") (at 3))) (
      cons_stmt (expr_stmt (assign_expr op (var "n") value (at 0)) (at 4))
        (cons_stmt (let_ "z" (deref (var "p") (at 0))) end_block)))

compound_assignment :
    Borrow.check_function (assigned_while_borrowed add_assign (lit (int_lit false 1) (at 0))) ≡ []
unfolding program
compound_assignment = refl

assignment_of_itself : length (Borrow.check_function (assigned_while_borrowed assign (var "n"))) ≡ 1
unfolding program
assignment_of_itself = refl

-- let a = Unique.new(5); while cond { let b = a; }
moved_every_iteration :
    length (
      MoveCheck.check_function_with
        (func (
          cons_stmt (let_ "a" unique_new) (
            cons_stmt
              (while_stmt (var "cond") (cons_stmt (let_ "b" (var "a")) end_block) (at 0))
              end_block)))
        [])
    ≡ 1
unfolding program
moved_every_iteration = refl

-- let p = &mut n; while *p { let y = n; }
condition_reads_again :
    Borrow.check_function (
      func (
        cons_stmt (let_ "p" (borrow true (var "n") (at 3))) (
          cons_stmt
            (while_stmt (deref (var "p") (at 0)) (cons_stmt (let_ "y" (var "n")) end_block) (at 0))
            end_block)))
    ≡ []
unfolding program
condition_reads_again = refl
