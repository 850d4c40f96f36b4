-- ===== src/Cfg/Build.antt =====
-- `build` and the methods of `Builder`, crates/core/src/sema/cfg.rs. A method that builds a nested
-- block takes the call on that block as an argument: the recursion is that of the syntax.
use ubel_stratum.Common.{ℕ, Bool, true, false, List, [], ◌∷◌, ◌++◌, Option, none, some}
use ubel_stratum.Ast.{
  Stmt, Stmts, end_block, cons_stmt, let_stmt, expr_stmt, return_void, return_value, fail, if_stmt,
  match_stmt, for_stmt, while_stmt, loop_stmt, break_void, break_value, continue_stmt, with_stmt,
  using_stmt, extract_stmt, defer_stmt, try_stmt, try_catch_stmt, unsafe_stmt, IfExpr, mk_if,
  BranchBody, block_body, expr_body, ElifBranches, no_elifs, elif_branch, ElseBody, no_else,
  else_body, MatchArms, no_arms, match_arm, FunctionDecl,
}
use ubel_stratum.Cfg.Types.{goto, branch, return_term, unreachable, Cfg}
use ubel_stratum.Cfg.Builder.{
  Builder, M, ◌>>=◌, ◌>>◌, pure, stop, attempt, new_block, set_terminator, push_stmt, push_loop,
  pop_loop, last_loop,
}

-- The branches built so far: `branch_targets` and `converge_points`.
pub record Branches : Type 0 where
  pub targets : List ℕ
  pub points : List ℕ

abbrev pub point_of : Option ℕ → List ℕ
point_of none = []
point_of (some t) = t ∷ []

-- One more branch in front.
unfoldable pub add_branch : ℕ × Option ℕ → Branches → Branches
add_branch r bs = record { targets = r.0 ∷ bs.targets; points = point_of r.1 ++ bs.points }

unfoldable pub goto_all : ℕ → List ℕ → M (Unit {0})
goto_all after [] = pure tt
goto_all after (p ∷ ps) = set_terminator p (goto after) >> goto_all after ps

unfoldable pub converge : List ℕ → M ℕ
converge [] = stop
converge (p ∷ ps) = do after ← new_block; goto_all after (p ∷ ps); pure after

-- `if let Some(tail) = … { self.set_terminator(tail, Terminator::Goto(target)) }`
unfoldable pub wire : Option ℕ → ℕ → M (Unit {0})
wire none target = pure tt
wire (some tail) target = set_terminator tail (goto target)

unfoldable pub build_conditional_loop : Stmt → (ℕ → M ℕ) → ℕ → M ℕ
build_conditional_loop stmt body current = do
  push_stmt current stmt
  header ← new_block
  set_terminator current (goto header)
  body_entry ← new_block
  exit ← new_block
  set_terminator header (branch (body_entry ∷ exit ∷ []))
  push_loop header exit
  tail ← attempt (body body_entry)
  wire tail header
  pop_loop
  pure exit

unfoldable pub build_unconditional_loop : Stmt → (ℕ → M ℕ) → ℕ → M ℕ
build_unconditional_loop stmt body current = do
  push_stmt current stmt
  header ← new_block
  set_terminator current (goto header)
  exit ← new_block
  push_loop header exit
  tail ← attempt (body header)
  wire tail header
  pop_loop
  pure exit

-- The `catch_body`, if there is one, as the call that builds it.
unfoldable pub build_catch : Option (ℕ → M ℕ) → ℕ → M (List ℕ)
build_catch none catch_entry = set_terminator catch_entry return_term >> pure []
build_catch (some body) catch_entry = do t ← attempt (body catch_entry); pure (point_of t)

unfoldable pub build_try : Stmt → (ℕ → M ℕ) → Option (ℕ → M ℕ) → ℕ → M ℕ
build_try stmt body catch_body current = do
  push_stmt current stmt
  try_entry ← new_block
  catch_entry ← new_block
  set_terminator current (branch (try_entry ∷ catch_entry ∷ []))
  t ← attempt (body try_entry)
  caught ← build_catch catch_body catch_entry
  converge (point_of t ++ caught)

unfoldable pub build_match : Stmt → M Branches → ℕ → M ℕ
build_match stmt arms current = do
  push_stmt current stmt
  bs ← arms
  set_terminator current (branch bs.targets)
  converge bs.points

-- With no `else`, an empty block is one more target, and converges.
unfoldable pub finish_if : ℕ → Bool → Branches → M ℕ
finish_if current true bs = set_terminator current (branch bs.targets) >> converge bs.points
finish_if current false bs = do
  skip ← new_block
  set_terminator current (branch (bs.targets ++ skip ∷ []))
  converge (bs.points ++ skip ∷ [])

abbrev pub has_else : ElseBody → Bool
has_else no_else = false
has_else (else_body b) = true

-- `break` and `continue`: out of a loop the block ends in `Unreachable`.
unfoldable pub jump : Option ℕ → ℕ → M (Unit {0})
jump none current = set_terminator current unreachable
jump (some target) current = set_terminator current (goto target)

abbrev pub exit_of : Option (ℕ × ℕ) → Option ℕ
exit_of none = none
exit_of (some l) = some l.1

abbrev pub header_of : Option (ℕ × ℕ) → Option ℕ
header_of none = none
header_of (some l) = some l.0

unfoldable pub build_break : Stmt → ℕ → M ℕ
build_break stmt current = do push_stmt current stmt; l ← last_loop; jump (exit_of l) current; stop

unfoldable pub build_continue : Stmt → ℕ → M ℕ
build_continue stmt current = do
  push_stmt current stmt
  l ← last_loop
  jump (header_of l) current
  stop

unfoldable pub build_return : Stmt → ℕ → M ℕ
build_return stmt current = do push_stmt current stmt; set_terminator current return_term; stop

unfoldable pub build_straight : Stmt → ℕ → M ℕ
build_straight stmt current = do push_stmt current stmt; pure current

unfoldable mutual
  pub build_block : Stmts → ℕ → M ℕ
  build_block end_block current = pure current
  build_block (cons_stmt s rest) current = do next ← build_stmt s current; build_block rest next

  -- The `match` of `build_block`.
  pub build_stmt : Stmt → ℕ → M ℕ
  build_stmt (if_stmt i sp) current = do push_stmt current (if_stmt i sp); build_if i current
  build_stmt (match_stmt e arms sp) current =
      build_match (match_stmt e arms sp) (build_arms arms) current
  build_stmt (while_stmt e body sp) current =
      build_conditional_loop (while_stmt e body sp) (build_block body) current
  build_stmt (for_stmt t e body sp) current =
      build_conditional_loop (for_stmt t e body sp) (build_block body) current
  build_stmt (loop_stmt body sp) current =
      build_unconditional_loop (loop_stmt body sp) (build_block body) current
  build_stmt (return_void sp) current = build_return (return_void sp) current
  build_stmt (return_value e sp) current = build_return (return_value e sp) current
  build_stmt (fail e sp) current = build_return (fail e sp) current
  build_stmt (break_void sp) current = build_break (break_void sp) current
  build_stmt (break_value e sp) current = build_break (break_value e sp) current
  build_stmt (continue_stmt sp) current = build_continue (continue_stmt sp) current
  build_stmt (with_stmt a body sp) current = do
    push_stmt current (with_stmt a body sp)
    build_block body current
  build_stmt (using_stmt us body sp) current = do
    push_stmt current (using_stmt us body sp)
    build_block body current
  build_stmt (unsafe_stmt body sp) current = do
    push_stmt current (unsafe_stmt body sp)
    build_block body current
  build_stmt (try_stmt body sp) current =
      build_try (try_stmt body sp) (build_block body) none current
  build_stmt (try_catch_stmt body x c sp) current =
      build_try (try_catch_stmt body x c sp) (build_block body) (some (build_block c)) current
  build_stmt (let_stmt m t ty e sp) current = build_straight (let_stmt m t ty e sp) current
  build_stmt (expr_stmt e sp) current = build_straight (expr_stmt e sp) current
  build_stmt (extract_stmt p e sp) current = build_straight (extract_stmt p e sp) current
  build_stmt (defer_stmt e sp) current = build_straight (defer_stmt e sp) current

  -- What `build_if` does after its `push_stmt`.
  pub build_if : IfExpr → ℕ → M ℕ
  build_if (mk_if e then_body elifs els sp) current = do
    r ← build_branch_body then_body
    bs ← build_elifs elifs
    last ← build_else els
    finish_if current (has_else els) (
        add_branch r
          (record { targets = bs.targets ++ last.targets; points = bs.points ++ last.points }))

  pub build_elifs : ElifBranches → M Branches
  build_elifs no_elifs = pure (record { targets = []; points = [] })
  build_elifs (elif_branch e body sp rest) = do
    r ← build_branch_body body
    bs ← build_elifs rest
    pure (add_branch r bs)

  pub build_else : ElseBody → M Branches
  build_else no_else = pure (record { targets = []; points = [] })
  build_else (else_body body) = do
    r ← build_branch_body body
    pure (add_branch r (record { targets = []; points = [] }))

  pub build_arms : MatchArms → M Branches
  build_arms no_arms = pure (record { targets = []; points = [] })
  build_arms (match_arm p g body sp rest) = do
    r ← build_branch_body body
    bs ← build_arms rest
    pure (add_branch r bs)

  pub build_branch_body : BranchBody → M (ℕ × Option ℕ)
  build_branch_body (block_body b sp) = do
    entry ← new_block
    tail ← attempt (build_block b entry)
    pure (entry, tail)
  build_branch_body (expr_body e) = do entry ← new_block; pure (entry, some entry)

abbrev pub no_blocks : Builder
no_blocks = record { blocks = []; loop_stack = [] }

unfoldable pub close : ℕ → Option ℕ → M ℕ
close entry none = pure entry
close entry (some t) = set_terminator t return_term >> pure entry

-- The body of `build`: what falls off the end returns.
unfoldable pub build_body : Stmts → M ℕ
build_body body = do entry ← new_block; tail ← attempt (build_block body entry); close entry tail

abbrev pub entry_of : Option ℕ → ℕ
entry_of none = 0
entry_of (some e) = e

-- All of the builder, for what computes with a whole graph.
unfoldable pub program : Unit {0}
unfolding ◌>>=◌ ◌>>◌ pure stop attempt new_block set_terminator push_stmt push_loop pop_loop
    last_loop add_branch goto_all converge wire build_conditional_loop build_unconditional_loop
    build_catch build_try build_match finish_if jump build_break build_continue build_return
    build_straight build_block build_body close
program = tt

unfoldable pub build : FunctionDecl → Cfg
build decl = record {
  blocks = (build_body decl.body no_blocks).1.blocks;
  entry = entry_of (build_body decl.body no_blocks).0;
}
