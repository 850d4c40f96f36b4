-- ===== src/Cfg/WellFormed.antt =====
-- `build` gives a well-formed graph: induction over the syntax.
use ubel_stratum.Common.{ℕ, ◌<◌, [], ◌++◌, arith, Option, none, some, nat_eq, contains-nil}
use ubel_stratum.Ast.{
  Stmt, Stmts, end_block, cons_stmt, let_stmt, expr_stmt, return_void, return_value, fail, if_stmt,
  match_stmt, for_stmt, while_stmt, loop_stmt, break_void, break_value, continue_stmt, with_stmt,
  using_stmt, extract_stmt, defer_stmt, try_stmt, try_catch_stmt, unsafe_stmt, IfExpr, mk_if,
  BranchBody, block_body, expr_body, ElifBranches, no_elifs, elif_branch, ElseBody, no_else,
  else_body, MatchArms, no_arms, match_arm, FunctionDecl,
}
use ubel_stratum.Cfg.Types.{block, block_successors, IsWellFormed}
use ubel_stratum.Cfg.Builder.{Builder}
use ubel_stratum.Cfg.Build.{
  add_branch, has_else, build_block, build_stmt, build_if, build_elifs, build_else, build_arms,
  build_branch_body, build_body, build, close, no_blocks,
}
use ubel_stratum.Cfg.Hoare.{
  size, Valid, Post, Post-bind, Post-seq, Post-pure, Post-attempt, new_block-Post, push_stmt-Post,
}
use ubel_stratum.Cfg.Methods.{
  InRange, Entries, CatchBody, build_conditional_loop_post, build_unconditional_loop_post,
  build_try_post, build_match-Post, finish_if-Post, build_break_post, build_continue_post,
  build_return_post, build_straight_post, AllInRange-append, AllInRange-cons, AllInRange-nil,
  AllInRange-mono, set_return-Post,
}

-- The entry of a branch and the block that it falls through from are blocks of the graph.
abbrev BranchOk : ℕ → ℕ × Option ℕ → Type 0
BranchOk n r = r.0 < n

mutual
  unfolding build_block add_branch CatchBody

  build_block-Post :
      (ss : Stmts) (current : ℕ) (b : Builder)
      → Valid b
      → current < size b
      → Post InRange b (build_block ss current b)
  build_block-Post end_block current b v h = Post-pure current b v h
  build_block-Post (cons_stmt s rest) current b v h =
      Post-bind _ _ b (build_stmt-Post s current b v h)
        λ next b1 v1 g1 h1. build_block-Post rest next b1 v1 h1

  build_stmt-Post :
      (s : Stmt) (current : ℕ) (b : Builder)
      → Valid b
      → current < size b
      → Post InRange b (build_stmt s current b)
  build_stmt-Post (if_stmt i sp) current b v h =
      Post-seq _ _ b (push_stmt-Post b v current (if_stmt i sp))
        λ b1 v1 g1. build_if-Post i current b1 v1
  build_stmt-Post (match_stmt e arms sp) current b v h =
      build_match-Post (match_stmt e arms sp) (build_arms arms) (build_arms-Post arms) current b v h
  build_stmt-Post (while_stmt e body sp) current b v h =
      build_conditional_loop_post (while_stmt e body sp) (build_block body) (build_block-Post body)
        current b v h
  build_stmt-Post (for_stmt t e body sp) current b v h =
      build_conditional_loop_post (for_stmt t e body sp) (build_block body) (build_block-Post body)
        current b v h
  build_stmt-Post (loop_stmt body sp) current b v h =
      build_unconditional_loop_post (loop_stmt body sp) (build_block body) (build_block-Post body)
        current b v h
  build_stmt-Post (return_void sp) current b v h = build_return_post (return_void sp) current b v h
  build_stmt-Post (return_value e sp) current b v h =
      build_return_post (return_value e sp) current b v h
  build_stmt-Post (fail e sp) current b v h = build_return_post (fail e sp) current b v h
  build_stmt-Post (break_void sp) current b v h = build_break_post (break_void sp) current b v h
  build_stmt-Post (break_value e sp) current b v h =
      build_break_post (break_value e sp) current b v h
  build_stmt-Post (continue_stmt sp) current b v h =
      build_continue_post (continue_stmt sp) current b v h
  build_stmt-Post (with_stmt a body sp) current b v h =
      Post-seq _ _ b (push_stmt-Post b v current (with_stmt a body sp))
        λ b1 v1 g1. build_block-Post body current b1 v1 (omega arith)
  build_stmt-Post (using_stmt us body sp) current b v h =
      Post-seq _ _ b (push_stmt-Post b v current (using_stmt us body sp))
        λ b1 v1 g1. build_block-Post body current b1 v1 (omega arith)
  build_stmt-Post (unsafe_stmt body sp) current b v h =
      Post-seq _ _ b (push_stmt-Post b v current (unsafe_stmt body sp))
        λ b1 v1 g1. build_block-Post body current b1 v1 (omega arith)
  build_stmt-Post (try_stmt body sp) current b v h =
      build_try_post (try_stmt body sp) (build_block body) none (build_block-Post body) tt current b
        v h
  build_stmt-Post (try_catch_stmt body x c sp) current b v h =
      build_try_post (try_catch_stmt body x c sp) (build_block body) (some (build_block c))
        (build_block-Post body) (build_block-Post c) current b v h
  build_stmt-Post (let_stmt m t ty e sp) current b v h =
      build_straight_post (let_stmt m t ty e sp) current b v h
  build_stmt-Post (expr_stmt e sp) current b v h =
      build_straight_post (expr_stmt e sp) current b v h
  build_stmt-Post (extract_stmt p e sp) current b v h =
      build_straight_post (extract_stmt p e sp) current b v h
  build_stmt-Post (defer_stmt e sp) current b v h =
      build_straight_post (defer_stmt e sp) current b v h

  build_if-Post :
      (i : IfExpr) (current : ℕ) (b : Builder) → Valid b → Post InRange b (build_if i current b)
  build_if-Post (mk_if e then_body elifs els sp) current b v =
      Post-bind _ _ b (build_branch_body-Post then_body b v) λ r b1 v1 g1 h1.
        Post-bind _ _ b1 (build_elifs-Post elifs b1 v1) λ bs b2 v2 g2 h2.
          Post-bind _ _ b2 (build_else-Post els b2 v2) λ last b3 v3 g3 h3.
            finish_if-Post current (has_else els) _ b3 v3 (
              AllInRange-cons (bs.targets ++ last.targets) (omega arith)
                (AllInRange-append bs.targets last.targets (AllInRange-mono bs.targets g3 h2) h3))

  build_elifs-Post : (es : ElifBranches) (b : Builder) → Valid b → Post Entries b (build_elifs es b)
  build_elifs-Post no_elifs b v = Post-pure _ b v AllInRange-nil
  build_elifs-Post (elif_branch e body sp rest) b v =
      Post-bind _ _ b (build_branch_body-Post body b v) λ r b1 v1 g1 h1.
        Post-bind _ _ b1 (build_elifs-Post rest b1 v1)
          λ bs b2 v2 g2 h2. Post-pure _ b2 v2 (AllInRange-cons bs.targets (omega arith) h2)

  build_else-Post : (e : ElseBody) (b : Builder) → Valid b → Post Entries b (build_else e b)
  build_else-Post no_else b v = Post-pure _ b v AllInRange-nil
  build_else-Post (else_body body) b v =
      Post-bind _ _ b (build_branch_body-Post body b v)
        λ r b1 v1 g1 h1. Post-pure _ b1 v1 (AllInRange-cons [] h1 AllInRange-nil)

  build_arms-Post : (arms : MatchArms) (b : Builder) → Valid b → Post Entries b (build_arms arms b)
  build_arms-Post no_arms b v = Post-pure _ b v AllInRange-nil
  build_arms-Post (match_arm p g body sp rest) b v =
      Post-bind _ _ b (build_branch_body-Post body b v) λ r b1 v1 g1 h1.
        Post-bind _ _ b1 (build_arms-Post rest b1 v1)
          λ bs b2 v2 g2 h2. Post-pure _ b2 v2 (AllInRange-cons bs.targets (omega arith) h2)

  build_branch_body-Post :
      (body : BranchBody) (b : Builder) → Valid b → Post BranchOk b (build_branch_body body b)
  build_branch_body-Post (block_body ss sp) b v =
      Post-bind _ _ b (new_block-Post b v) λ entry b1 v1 g1 h1.
        Post-bind _ _ b1 (Post-attempt _ b1 (build_block-Post ss entry b1 v1 h1))
          λ tail b2 v2 g2 h2. Post-pure (entry, tail) b2 v2 (omega arith)
  build_branch_body-Post (expr_body e) b v =
      Post-bind _ _ b (new_block-Post b v)
        λ entry b1 v1 g1 h1. Post-pure (entry, some entry) b1 v1 h1

no_blocks-Valid : Valid no_blocks
unfolding block block_successors
no_blocks-Valid = record {
  ids = λ i h. elim h [ ];
  targets = λ i t k. cc (contains-nil t);
  loops = λ l m. elim m [ ];
}

close-Post :
    (entry : ℕ) (tail : Option ℕ) (b : Builder)
    → Valid b
    → entry < size b
    → Post InRange b (close entry tail b)
unfolding close
close-Post entry none b v h = Post-pure entry b v h
close-Post entry (some t) b v h =
    Post-seq _ _ b (set_return-Post b v t) λ b1 v1 g1. Post-pure entry b1 v1 (omega arith)

build_body-Post : (body : Stmts) (b : Builder) → Valid b → Post InRange b (build_body body b)
unfolding build_body
build_body-Post body b v = Post-bind _ _ b (new_block-Post b v) λ entry b1 v1 g1 h1.
    Post-bind _ _ b1 (Post-attempt _ b1 (build_block-Post body entry b1 v1 h1))
      λ tail b2 v2 g2 h2. close-Post entry tail b2 v2 (omega arith)

-- The graph of every function body is well formed: its blocks stand at their numbers, and the
-- targets of every terminator are blocks of the graph.
pub build-IsWellFormed : (decl : FunctionDecl) → IsWellFormed (build decl)
unfolding build
build-IsWellFormed decl =
    let p = build_body-Post decl.body no_blocks no_blocks-Valid in
    record { ids = p.valid.ids; targets = p.valid.targets }
