-- ===== src/Facts/Collect.antt =====
-- `collect` and what it asks of a statement, crates/core/src/sema/facts.rs.
use ubel_stratum.Common.{
  ℕ, ◌+◌, Bool, true, false, List, [], ◌∷◌, ◌++◌, Option, none, some, ◌==◌, nat_eq, length, modify,
  push_at, if◌then◌else◌,
}
use ubel_stratum.Ast.{
  Span, Expr, assign_expr, borrow, assign, BindingTarget, ident_target, destructure, Stmt, let_stmt,
  expr_stmt,
}
use ubel_stratum.Cfg.{BasicBlock, Cfg}
use ubel_stratum.Points.{Point, point_eq}
use ubel_stratum.Facts.Walk.{
  Place, local, unknown, place_eq, is_unknown, expr_as_place, walk_expr, top_exprs,
  expr_reads_place, stmt_reads_place,
}

pub record Loan : Type 0 where
  pub id : ℕ
  pub place : Place
  pub bound_place : Place
  pub mutable : Bool
  pub issued_at : Point
  pub span : Span

pub record Facts : Type 0 where
  pub loans : List Loan
  pub loan_killed_at : List (ℕ × List Point)
  pub loan_invalidated_at : List (ℕ × List Point)
  pub place_defined_at : List (Place × List Point)

pub data Access : Type 0 where
  no_access reassign conflict : Access

abbrev pub reads_or_none : Bool → Access
reads_or_none true = conflict
reads_or_none false = no_access

-- The test on an assignment; any other statement goes by what it reads.
unfoldable pub access_expr : Expr → Stmt → Place → Access
unfolding expr_as_place expr_reads_place stmt_reads_place
access_expr (assign_expr op target value sp) s p =
    if expr_as_place target == p
    then (if expr_reads_place value p then conflict else reassign)
    else reads_or_none (stmt_reads_place s p)
access_expr e s p = reads_or_none (stmt_reads_place s p)

unfoldable pub access_stmt : Stmt → Place → Access
unfolding access_expr
access_stmt (expr_stmt e sp) p = access_expr e (expr_stmt e sp) p
access_stmt s p = reads_or_none (stmt_reads_place s p)

unfoldable pub classify_access : Stmt → Place → Access
unfolding access_stmt
classify_access s p = if is_unknown p then no_access else access_stmt s p

abbrev pub known : Place → Option Place
known (local x) = some (local x)
known unknown = none

unfoldable pub expr_defines_place : Expr → Option Place
unfolding expr_as_place
expr_defines_place (assign_expr op target value sp) = known (expr_as_place target)
expr_defines_place e = none

unfoldable pub binding_place : BindingTarget → Option Place
binding_place (ident_target x) = some (local x)
binding_place (destructure p) = none

unfoldable pub stmt_defines_place : Stmt → Option Place
unfolding expr_defines_place binding_place
stmt_defines_place (let_stmt m b ty e sp) = binding_place b
stmt_defines_place (expr_stmt e sp) = expr_defines_place e
stmt_defines_place s = none

abbrev pub if_borrow : Expr → Option Place → Option Place
if_borrow (borrow m e sp) target = target
if_borrow e target = none

unfoldable pub expr_bare_borrow_target : Expr → Option Place
unfolding expr_as_place
expr_bare_borrow_target (assign_expr assign target value sp) =
    if_borrow value (some (expr_as_place target))
expr_bare_borrow_target e = none

unfoldable pub stmt_bare_borrow_target : Stmt → Option Place
unfolding expr_bare_borrow_target binding_place
stmt_bare_borrow_target (let_stmt m b ty e sp) = if_borrow e (binding_place b)
stmt_bare_borrow_target (expr_stmt e sp) = expr_bare_borrow_target e
stmt_bare_borrow_target s = none

-- `loans` and `next_id`.
pub record Loans : Type 0 where
  pub items : List Loan
  pub next_id : ℕ

unfoldable pub add_loan : Point → Expr → Loans → Loans
unfolding expr_as_place
add_loan at (borrow m e sp) l = record {
  items =
      l.items
      ++ record {
        id = l.next_id;
        place = expr_as_place e;
        bound_place = unknown;
        mutable = m;
        issued_at = at;
        span = sp;
      }
        ∷ [];
  next_id = l.next_id + 1;
}
add_loan at e l = l

unfoldable pub add_loans : Point → List Expr → Loans → Loans
unfolding add_loan
add_loans at [] l = l
add_loans at (e ∷ es) l = add_loans at es (add_loan at e l)

-- `collect_loans_in_expr` on each of the statement's expressions.
unfoldable pub collect_loans : Point → List Expr → Loans → Loans
unfolding add_loans walk_expr
collect_loans at [] l = l
collect_loans at (e ∷ es) l = collect_loans at es (add_loans at (walk_expr e) l)

unfoldable pub bind_loan : ℕ → Option Place → List Loan → List Loan
bind_loan i none ls = ls
bind_loan i (some target) ls = modify ls i (λ l. record l { bound_place = target })

-- The statements with their points, in the order of both loops.
unfoldable pub located_from : ℕ → ℕ → List Stmt → List (Point × Stmt)
located_from b i [] = []
located_from b i (s ∷ ss) = (record { block = b; stmt_index = i }, s) ∷ located_from b (i + 1) ss

unfoldable pub located_blocks : List BasicBlock → List (Point × Stmt)
unfolding located_from
located_blocks [] = []
located_blocks (b ∷ bs) = located_from b.id 0 b.stmts ++ located_blocks bs

unfoldable pub located : Cfg → List (Point × Stmt)
unfolding located_blocks
located c = located_blocks c.blocks

-- The first loop.
unfoldable pub define_at :
    Point → Option Place → List (Place × List Point) → List (Place × List Point)
unfolding push_at
define_at at none m = m
define_at at (some p) m = push_at p at m

unfoldable pub definitions :
    List (Point × Stmt) → List (Place × List Point) → List (Place × List Point)
unfolding define_at stmt_defines_place
definitions [] m = m
definitions ((at, s) ∷ rest) m = definitions rest (define_at at (stmt_defines_place s) m)

unfoldable pub loans_of_stmt : Point → Stmt → Loans → Loans
unfolding collect_loans top_exprs bind_loan stmt_bare_borrow_target
loans_of_stmt at s l =
    let l' = collect_loans at (top_exprs s) l in
    record l' { items = bind_loan (length l.items) (stmt_bare_borrow_target s) l'.items }

unfoldable pub loans_of : List (Point × Stmt) → Loans → Loans
unfolding loans_of_stmt
loans_of [] l = l
loans_of ((at, s) ∷ rest) l = loans_of rest (loans_of_stmt at s l)

-- `loan_killed_at` and `loan_invalidated_at`.
pub record Touched : Type 0 where
  pub killed : List (ℕ × List Point)
  pub invalidated : List (ℕ × List Point)

unfoldable pub touch : ℕ → Point → Access → Touched → Touched
unfolding push_at
touch id at no_access t = t
touch id at reassign t = record t { killed = push_at id at t.killed }
touch id at conflict t = record t { invalidated = push_at id at t.invalidated }

-- The second loop, for one loan.
unfoldable pub touched_by : Loan → List (Point × Stmt) → Touched → Touched
unfolding touch classify_access
touched_by l [] t = t
touched_by l ((at, s) ∷ rest) t =
    touched_by l rest (if at == l.issued_at then t else touch l.id at (classify_access s l.place) t)

unfoldable pub touched_by_all : List Loan → List (Point × Stmt) → Touched → Touched
unfolding touched_by
touched_by_all [] ss t = t
touched_by_all (l ∷ ls) ss t = touched_by_all ls ss (touched_by l ss t)

unfoldable pub collect : Cfg → Facts
unfolding located definitions loans_of touched_by_all
collect c =
    let ss = located c in
    let ls = (loans_of ss (record { items = []; next_id = 0 })).items in
    let t = touched_by_all ls ss (record { killed = []; invalidated = [] }) in
    record {
      loans = ls;
      loan_killed_at = t.killed;
      loan_invalidated_at = t.invalidated;
      place_defined_at = definitions ss [];
    }
