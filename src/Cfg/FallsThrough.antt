-- ===== src/Cfg/FallsThrough.antt =====
-- Which bodies have a block to fall through from: the `Option` that `build_block` returns, read off
-- the syntax.
use ubel_stratum.Common.{
  ℕ, false, not, ◌&&◌, ◌||◌, ◌≡◌, refl, inl, inr, Option, none, some, Option-cases, ◌∙◌,
}
use ubel_stratum.Ast.{
  Stmt, Stmts, end_block, cons_stmt, let_stmt, expr_stmt, return_void, return_value, fail, if_stmt,
  match_stmt, for_stmt, while_stmt, loop_stmt, break_void, break_value, continue_stmt, with_stmt,
  using_stmt, extract_stmt, defer_stmt, try_stmt, try_catch_stmt, unsafe_stmt, IfExpr, mk_if,
  BranchBody, block_body, expr_body, ElifBranches, no_elifs, elif_branch, ElseBody, no_else,
  else_body, MatchArms, no_arms, match_arm,
}
use ubel_stratum.Cfg.Totals.{
  is_some, Gives, Yields, Gives-bind, Yields-bind, Gives-attempt, Gives-and, Gives-seq, Yields-pure,
  Total-new_block, Total-push_stmt, Gives-pure, Gives-build_conditional_loop,
  Gives-build_unconditional_loop,
}
use ubel_stratum.Cfg.Builder.{Builder, M, ◌>>=◌}
use ubel_stratum.Cfg.Build.{
  add_branch, has_else, build_block, build_stmt, build_if, build_elifs, build_else, build_arms,
  build_branch_body,
}
use ubel_stratum.Cfg.Passes.{
  falls_through, passes, passes_if, branch_passes, some_elif_passes, else_passes, some_arm_passes,
}
use ubel_stratum.Cfg.Branching.{
  Gives-build_straight, Gives-build_return, Gives-build_break, Gives-build_continue, Passing,
  Passing-cons, Gives-finish_if, Gives-build_match, Gives-build_try, no_catch, with_catch, or_false,
  Passing-nil, Passing-last, joined, Passing-append, closing,
}

mutual
  unfolding build_block falls_through add_branch

  Gives-build_block : (ss : Stmts) (current : ℕ) → Gives (falls_through ss) (build_block ss current)
  Gives-build_block end_block current = Gives-pure current
  Gives-build_block (cons_stmt s rest) current =
      Gives-and (passes s) (falls_through rest) _ _ (Gives-build_stmt s current)
        (Gives-build_block rest)

  Gives-build_stmt : (s : Stmt) (current : ℕ) → Gives (passes s) (build_stmt s current)
  Gives-build_stmt (if_stmt i sp) current =
      Gives-seq (passes_if i) _ _ (Total-push_stmt current (if_stmt i sp))
        (Gives-build_if i current)
  Gives-build_stmt (match_stmt e arms sp) current =
      Gives-build_match (match_stmt e arms sp) (build_arms arms) current (some_arm_passes arms)
        (Yields-build_arms arms)
  Gives-build_stmt (while_stmt e body sp) current = Gives-build_conditional_loop _ _ current
  Gives-build_stmt (for_stmt t e body sp) current = Gives-build_conditional_loop _ _ current
  Gives-build_stmt (loop_stmt body sp) current = Gives-build_unconditional_loop _ _ current
  Gives-build_stmt (return_void sp) current = Gives-build_return current _
  Gives-build_stmt (return_value e sp) current = Gives-build_return current _
  Gives-build_stmt (fail e sp) current = Gives-build_return current _
  Gives-build_stmt (break_void sp) current = Gives-build_break current _
  Gives-build_stmt (break_value e sp) current = Gives-build_break current _
  Gives-build_stmt (continue_stmt sp) current = Gives-build_continue current _
  Gives-build_stmt (with_stmt a body sp) current =
      Gives-seq (falls_through body) _ _ (Total-push_stmt current (with_stmt a body sp))
        (Gives-build_block body current)
  Gives-build_stmt (using_stmt us body sp) current =
      Gives-seq (falls_through body) _ _ (Total-push_stmt current (using_stmt us body sp))
        (Gives-build_block body current)
  Gives-build_stmt (unsafe_stmt body sp) current =
      Gives-seq (falls_through body) _ _ (Total-push_stmt current (unsafe_stmt body sp))
        (Gives-build_block body current)
  Gives-build_stmt (try_stmt body sp) current = λ b.
      Gives-build_try (try_stmt body sp) (build_block body) none current (falls_through body) false
        (Gives-build_block body) no_catch b
      ∙ or_false (falls_through body)
  Gives-build_stmt (try_catch_stmt body x c sp) current =
      Gives-build_try (try_catch_stmt body x c sp) (build_block body) (some (build_block c)) current
        (falls_through body) (falls_through c) (Gives-build_block body)
        (with_catch (build_block c) (falls_through c) (Gives-build_block c))
  Gives-build_stmt (let_stmt m t ty e sp) current = Gives-build_straight current _
  Gives-build_stmt (expr_stmt e sp) current = Gives-build_straight current _
  Gives-build_stmt (extract_stmt p e sp) current = Gives-build_straight current _
  Gives-build_stmt (defer_stmt e sp) current = Gives-build_straight current _

  Gives-build_if : (i : IfExpr) (current : ℕ) → Gives (passes_if i) (build_if i current)
  Gives-build_if (mk_if e body elifs els sp) current =
      let x = branch_passes body in
      let y = some_elif_passes elifs in
      let z = has_else els && else_passes els in
      λ b.
        Gives-bind (not (has_else els) || (x || (y || z))) _ _ (Yields-build_branch_body body)
          (λ r h.
            Gives-bind (not (has_else els) || (x || (y || z))) _ _ (Yields-build_elifs elifs)
              λ bs k.
                Gives-bind (not (has_else els) || (x || (y || z))) _ _ (Yields-build_else els)
                  λ last l.
                    Gives-finish_if current (has_else els) (x || (y || z))
                      (add_branch r (joined bs last))
                      (Passing-cons r (joined bs last) x (y || z) h
                        (Passing-append bs last y z k l)))
          b
        ∙ closing x y els

  Yields-build_else :
      (els : ElseBody) → Yields (Passing (has_else els && else_passes els)) (build_else els)
  Yields-build_else no_else = Yields-pure _ Passing-nil
  Yields-build_else (else_body body) =
      Yields-bind _ _ (Yields-build_branch_body body)
        λ r h. Yields-pure _ (Passing-last r (branch_passes body) h)

  Yields-build_elifs : (es : ElifBranches) → Yields (Passing (some_elif_passes es)) (build_elifs es)
  Yields-build_elifs no_elifs = Yields-pure _ Passing-nil
  Yields-build_elifs (elif_branch e body sp rest) =
      Yields-bind _ _ (Yields-build_branch_body body) λ r h.
        Yields-bind _ _ (Yields-build_elifs rest)
          λ bs k. Yields-pure _ (Passing-cons r bs (branch_passes body) (some_elif_passes rest) h k)

  Yields-build_arms : (arms : MatchArms) → Yields (Passing (some_arm_passes arms)) (build_arms arms)
  Yields-build_arms no_arms = Yields-pure _ Passing-nil
  Yields-build_arms (match_arm p g body sp rest) =
      Yields-bind _ _ (Yields-build_branch_body body) λ r h.
        Yields-bind _ _ (Yields-build_arms rest)
          λ bs k. Yields-pure _ (Passing-cons r bs (branch_passes body) (some_arm_passes rest) h k)

  Yields-build_branch_body :
      (body : BranchBody)
      → Yields (λ (r : ℕ × Option ℕ). is_some r.1 ≡ branch_passes body) (build_branch_body body)
  Yields-build_branch_body (block_body ss sp) = Yields-bind _ _ Total-new_block λ entry _.
      Yields-bind _ _ (Gives-attempt (falls_through ss) _ (Gives-build_block ss entry))
        λ tail e. Yields-pure (entry, tail) e
  Yields-build_branch_body (expr_body e) =
      Yields-bind _ _ Total-new_block λ entry _. Yields-pure (entry, some entry) refl

bind_stopped :
    {A B : Type 0} (m : M A) (f g : A → M B) (b : Builder)
    → (m b).0 ≡ none
    → (m >>= f) b ≡ (m >>= g) b
unfolding ◌>>=◌
bind_stopped m f g b e = rw (e, ◌>>=◌) refl

-- `build_block` returns a block to fall through from exactly if, by the syntax, each statement can be
-- passed: it is no jump, and of its branches, a missing `else` among them, one can be passed.
pub is_some-build_block :
    (ss : Stmts) (current : ℕ) (b : Builder)
    → is_some (build_block ss current b).0 ≡ falls_through ss
is_some-build_block ss current b = Gives-build_block ss current b

-- What stands behind a statement that cannot be passed is not in the graph: the builder's state is the
-- same whatever follows.
pub build_block-dropped :
    (s : Stmt) (rest other : Stmts) (current : ℕ) (b : Builder)
    → passes s ≡ false
    → build_block (cons_stmt s rest) current b ≡ build_block (cons_stmt s other) current b
unfolding build_block
build_block-dropped s rest other current b stops =
    bind_stopped (build_stmt s current) _ _ b (elim (Option-cases (build_stmt s current b).0) [
      | inl stopped ↦ stopped
      | inr (a, e) ↦ let g = Gives-build_stmt s current b in absurd (cc (stops, rw e at g))
    ])
