-- ===== src/Cfg/Passes.antt =====
-- Which statements can be passed, read off the syntax.
use ubel_stratum.Common.{Bool, true, false, ◌&&◌, ◌||◌}
use ubel_stratum.Ast.{
  Stmt, Stmts, end_block, cons_stmt, let_stmt, expr_stmt, return_void, return_value, fail, if_stmt,
  match_stmt, for_stmt, while_stmt, loop_stmt, break_void, break_value, continue_stmt, with_stmt,
  using_stmt, extract_stmt, defer_stmt, try_stmt, try_catch_stmt, unsafe_stmt, IfExpr, mk_if,
  BranchBody, block_body, expr_body, ElifBranches, no_elifs, elif_branch, ElseBody, no_else,
  else_body, MatchArms, no_arms, match_arm,
}

-- The specification: a block falls through if each of its statements does; a statement with branches
-- does if one of them does, a loop always does, a jump never.
unfoldable mutual
  pub falls_through : Stmts → Bool
  falls_through end_block = true
  falls_through (cons_stmt s rest) = passes s && falls_through rest

  pub passes : Stmt → Bool
  passes (if_stmt i sp) = passes_if i
  passes (match_stmt e arms sp) = some_arm_passes arms
  passes (while_stmt e body sp) = true
  passes (for_stmt t e body sp) = true
  passes (loop_stmt body sp) = true
  passes (return_void sp) = false
  passes (return_value e sp) = false
  passes (fail e sp) = false
  passes (break_void sp) = false
  passes (break_value e sp) = false
  passes (continue_stmt sp) = false
  passes (with_stmt a body sp) = falls_through body
  passes (using_stmt us body sp) = falls_through body
  passes (unsafe_stmt body sp) = falls_through body
  passes (try_stmt body sp) = falls_through body
  passes (try_catch_stmt body x c sp) = falls_through body || falls_through c
  passes (let_stmt m t ty e sp) = true
  passes (expr_stmt e sp) = true
  passes (extract_stmt p e sp) = true
  passes (defer_stmt e sp) = true

  pub passes_if : IfExpr → Bool
  passes_if (mk_if e body elifs els sp) =
      branch_passes body || (some_elif_passes elifs || else_passes els)

  pub branch_passes : BranchBody → Bool
  branch_passes (block_body b sp) = falls_through b
  branch_passes (expr_body e) = true

  pub some_elif_passes : ElifBranches → Bool
  some_elif_passes no_elifs = false
  some_elif_passes (elif_branch e body sp rest) = branch_passes body || some_elif_passes rest

  pub else_passes : ElseBody → Bool
  else_passes no_else = true
  else_passes (else_body b) = branch_passes b

  pub some_arm_passes : MatchArms → Bool
  some_arm_passes no_arms = false
  some_arm_passes (match_arm p g body sp rest) = branch_passes body || some_arm_passes rest
