-- ===== src/Borrow.antt =====
-- crates/core/src/sema/borrow_check.rs: which candidate conflicts of a loan are violations, and the
-- region of a loan. The cache of liveness results by place is left out: it holds what the same call
-- gives again.
pub mod Conflicts
pub mod Regions
pub mod Kills
use ubel_stratum.Common.{
  ℕ, suc, ◌+◌, Bool, true, false, not, ◌&&◌, ◌||◌, List, [], ◌∷◌, ◌++◌, Option, none, some, String,
  ◌==◌, nat_eq, length, is_empty, contains, get_elem?, list_at, insert, if◌then◌else◌,
}
use ubel_stratum.Ast.{Span, Expr, Stmt, stmt_span, FunctionDecl, Item, function, Program, is_low}
use ubel_stratum.Cfg.{BasicBlock, Cfg, block, build}
use ubel_stratum.Points.{Point, point_eq, succ_points, all_points}
use ubel_stratum.Facts.{
  Place, local, unknown, place_eq, is_unknown, stmt_reads_place, stmt_defines_place, Loan, Facts,
  collect,
}
use ubel_stratum.Worklist.{Search, propagate}
use ubel_stratum.Liveness.{Live, flag, fixed_point}

pub record Violation : Type 0 where
  pub loan_span : Span
  pub conflict_span : Span
  pub place : String
  pub mutable : Bool

-- `cfg.block(p.block).stmts[p.stmt_index]`
unfoldable pub stmt_at : Cfg → Point → Option Stmt
unfolding block
stmt_at c p = get_elem? (block c.blocks p.block).stmts p.stmt_index

abbrev pub reads_at : Place → Option Stmt → Bool
reads_at place none = false
reads_at place (some s) = stmt_reads_place s place

abbrev pub is_place : Place → Option Place → Bool
is_place place none = false
is_place place (some p) = p == place

abbrev pub defines_at : Place → Option Stmt → Bool
defines_at place none = false
defines_at place (some s) = is_place place (stmt_defines_place s)

abbrev pub uses : Cfg → Place → Point → Bool
uses c place p = reads_at place (stmt_at c p)

abbrev pub defines : Cfg → Place → Point → Bool
defines c place p = defines_at place (stmt_at c p)

unfoldable pub compute_liveness : Cfg → Place → Live
compute_liveness c place =
    fixed_point (succ_points c) (uses c place) (defines c place)
      (suc (length (all_points c) + length (all_points c))) (all_points c)

-- `is_kill`
unfoldable pub is_kill : Facts → Loan → Point → Bool
is_kill f loan p =
    contains (list_at loan.id f.loan_killed_at) p
    || (contains (list_at loan.bound_place f.place_defined_at) p && not (p == loan.issued_at))

unfoldable pub compute_reaches_before : Cfg → Loan → Facts → List Point
compute_reaches_before c loan f =
    (propagate (succ_points c) (is_kill f loan) (length (all_points c)) loan.issued_at).reaches

abbrev pub place_name : Place → String
place_name (local x) = x
place_name unknown = "<unknown>"

abbrev pub no_span : Span
no_span = record { start = 0; end = 0; line = 0; column = 0 }

-- Out of range the source panics.
abbrev pub span_of : Option Stmt → Span
span_of none = no_span
span_of (some s) = stmt_span s

unfoldable pub violation_at : Cfg → Loan → Point → Violation
violation_at c loan p = record {
  loan_span = loan.span;
  conflict_span = span_of (stmt_at c p);
  place = place_name loan.place;
  mutable = loan.mutable;
}

-- The inner loop of `check`.
unfoldable pub report : (Point → Bool) → (Point → Violation) → List Point → List Violation
report is_live violation [] = []
report is_live violation (p ∷ ps) =
    let rest = report is_live violation ps in if is_live p then violation p ∷ rest else rest

unfoldable pub check_candidates : Cfg → Facts → Loan → List Point → List Violation
check_candidates c f loan candidates =
    let reaches = compute_reaches_before c loan f in
    if is_empty reaches
    then []
    else report (λ p. contains reaches p && flag (compute_liveness c loan.bound_place).after p)
        (violation_at c loan) candidates

unfoldable pub check_loan : Cfg → Facts → Loan → List Violation
check_loan c f loan =
    if not loan.mutable
    then []
    else if is_unknown loan.bound_place
    then []
    else check_candidates c f loan (list_at loan.id f.loan_invalidated_at)

unfoldable pub check_loans : Cfg → Facts → List Loan → List Violation
check_loans c f [] = []
check_loans c f (l ∷ ls) = check_loan c f l ++ check_loans c f ls

unfoldable pub check : Cfg → Facts → List Violation
check c f = check_loans c f f.loans

unfoldable pub check_function : FunctionDecl → List Violation
check_function decl = check (build decl) (collect (build decl))

abbrev pub if_low : FunctionDecl → List Violation → List Violation
if_low f vs = if is_low f.tier then vs else []

unfoldable pub check_program : Program → List Violation
check_program [] = []
check_program (function f ∷ items) = if_low f (check_function f) ++ check_program items
check_program (item ∷ items) = check_program items

unfoldable pub keep : (Point → Bool) → List Point → List Point
keep test [] = []
keep test (p ∷ ps) = let rest = keep test ps in if test p then p ∷ rest else rest

unfoldable pub loan_region : Cfg → Facts → Loan → List Point
loan_region c f loan =
    keep (flag (compute_liveness c loan.bound_place).before) (compute_reaches_before c loan f)

-- An empty region is not entered.
abbrev pub insert_region : ℕ → List Point → List (ℕ × List Point) → List (ℕ × List Point)
insert_region id [] m = m
insert_region id (p ∷ ps) m = insert id (p ∷ ps) m

unfoldable pub add_region : Cfg → Facts → Loan → List (ℕ × List Point) → List (ℕ × List Point)
add_region c f loan m =
    if is_unknown loan.bound_place
    then m
    else if is_empty (compute_reaches_before c loan f)
    then m
    else insert_region loan.id (loan_region c f loan) m

unfoldable pub add_regions : Cfg → Facts → List Loan → List (ℕ × List Point) → List (ℕ × List Point)
add_regions c f [] m = m
add_regions c f (l ∷ ls) m = add_regions c f ls (add_region c f l m)

unfoldable pub compute_loan_regions : Cfg → Facts → List (ℕ × List Point)
compute_loan_regions c f = add_regions c f f.loans []
