-- ===== src/Outlives/Check.antt =====
-- The pass of crates/core/src/sema/outlives_check.rs. The walk over an expression is that of
-- crates/core/src/ast/visitor.rs with the same nodes left closed as in Facts.Walk; the regions are those
-- of Borrow. The source's tables and sets are hash maps and sets; nothing depends on their order.
use ubel_stratum.Common.{
  ℕ, Bool, true, false, not, ◌&&◌, List, [], ◌∷◌, ◌++◌, Option, none, some, String, string_eq, ◌==◌,
  nat_eq, contains, list_at, find, insert, if◌then◌else◌,
}
use ubel_stratum.Ast.{Span, Expr, expr_span, LifetimeConstraint, LifetimeParam}
use ubel_stratum.Points.{Point, point_eq}
use ubel_stratum.Facts.{Place, local, unknown, place_eq, Loan, Facts, expr_as_place}

pub data Violation : Type 0 where
  boundary_too_short : (lifetime : String) (loan_span call_span : Span) → Violation
  non_local_boundary_value : (lifetime : String) (call_span : Span) → Violation
  outlives_constraint_violated :
      (longer shorter : String) (longer_span shorter_span constraint_span : Span) → Violation

pub data Resolved : Type 0 where
  concrete : List Point → Resolved
  caller_param : Resolved
  dead : (loan_span : Span) → Resolved
  untraced : Resolved

-- What the checks of a caller's sites share.
pub record Caller : Type 0 where
  pub param_names : List String
  pub facts : Facts
  pub regions : List (ℕ × List Point)

unfoldable pub bound_loans : String → List Loan → List Loan
bound_loans name [] = []
bound_loans name (loan ∷ loans) =
    if loan.bound_place == local name then loan ∷ bound_loans name loans else bound_loans name loans

-- A loan without a region has none that contains the point.
unfoldable pub covering : List (ℕ × List Point) → Point → List Loan → List Point
unfolding list_at contains
covering regions point [] = []
covering regions point (loan ∷ loans) =
    if contains (list_at loan.id regions) point
    then list_at loan.id regions ++ covering regions point loans
    else covering regions point loans

unfoldable pub last_span : Span → List Loan → Span
last_span span [] = span
last_span span (loan ∷ loans) = last_span loan.span loans

-- Cases 3 and 4: the loans bound to the name, and the points that those at hand cover.
unfoldable pub resolve_loans : List Loan → List Point → Resolved
unfolding last_span
resolve_loans [] covered = untraced
resolve_loans (loan ∷ loans) [] = dead (last_span loan.span loans)
resolve_loans (loan ∷ loans) (p ∷ ps) = concrete (p ∷ ps)

unfoldable pub resolve_name : Caller → Point → String → Resolved
unfolding contains bound_loans covering resolve_loans
resolve_name caller point name =
    if contains caller.param_names name
    then caller_param
    else resolve_loans (bound_loans name caller.facts.loans)
        (covering caller.regions point (bound_loans name caller.facts.loans))

unfoldable pub resolve_place : Caller → Point → Place → Resolved
unfolding resolve_name
resolve_place caller point unknown = concrete (point ∷ [])
resolve_place caller point (local name) = resolve_name caller point name

unfoldable pub resolve_boundary_value : Caller → Point → Expr → Resolved
unfolding expr_as_place resolve_place
resolve_boundary_value caller point e = resolve_place caller point (expr_as_place e)

unfoldable pub emit_e2_violation : Resolved → String → Span → List Violation
emit_e2_violation (concrete region) lifetime span = []
emit_e2_violation caller_param lifetime span = []
emit_e2_violation (dead loan_span) lifetime span = boundary_too_short lifetime loan_span span ∷ []
emit_e2_violation untraced lifetime span = non_local_boundary_value lifetime span ∷ []

unfoldable pub is_subset : List Point → List Point → Bool
unfolding contains
is_subset [] region = true
is_subset (p ∷ ps) region = contains region p && is_subset ps region

-- The test of `check_outlives_constraint`, its two early returns included.
unfoldable pub is_violated : (longer shorter : Resolved) → Bool
unfolding is_subset
is_violated (dead span) shorter = false
is_violated untraced shorter = false
is_violated caller_param shorter = false
is_violated (concrete lr) (dead span) = false
is_violated (concrete lr) untraced = false
is_violated (concrete lr) caller_param = true
is_violated (concrete lr) (concrete sr) = not (is_subset sr lr)

abbrev pub Pairs : Type 0
Pairs = List (String × Expr)

-- `.collect()` into a map: a later pair replaces an earlier one with its name.
unfoldable pub resolve_pairs :
    (Expr → Resolved) → Pairs → List (String × Resolved) → List (String × Resolved)
unfolding insert
resolve_pairs resolve [] resolved = resolved
resolve_pairs resolve ((name, e) ∷ pairs) resolved =
    resolve_pairs resolve pairs (insert name (resolve e) resolved)

unfoldable pub emit_if_resolved : Option Resolved → String → Span → List Violation
unfolding emit_e2_violation
emit_if_resolved none name span = []
emit_if_resolved (some r) name span = emit_e2_violation r name span

-- The first loop of `check_boundary_site`.
unfoldable pub check_pairs : List (String × Resolved) → Pairs → List Violation
unfolding find emit_if_resolved expr_span
check_pairs resolved [] = []
check_pairs resolved ((name, e) ∷ pairs) =
    emit_if_resolved (find name resolved) name (expr_span e) ++ check_pairs resolved pairs

unfoldable pub span_or : Span → Option Expr → Span
unfolding expr_span
span_or span none = span
span_or span (some e) = expr_span e

unfoldable pub check_outlives_constraint :
    Pairs → LifetimeConstraint → Option Resolved → Option Resolved → List Violation
unfolding is_violated find span_or
check_outlives_constraint pairs c none shorter = []
check_outlives_constraint pairs c (some longer) none = []
check_outlives_constraint pairs c (some longer) (some shorter) =
    if is_violated longer shorter
    then outlives_constraint_violated c.longer c.shorter (span_or c.span (find c.longer pairs))
        (span_or c.span (find c.shorter pairs)) c.span
      ∷ []
    else []

unfoldable pub check_constraint :
    List (String × Resolved) → Pairs → Option LifetimeConstraint → List Violation
unfolding check_outlives_constraint find
check_constraint resolved pairs none = []
check_constraint resolved pairs (some c) =
    check_outlives_constraint pairs c (find c.longer resolved) (find c.shorter resolved)

-- The second loop.
unfoldable pub check_constraints :
    List (String × Resolved) → Pairs → List LifetimeParam → List Violation
unfolding check_constraint
check_constraints resolved pairs [] = []
check_constraints resolved pairs (p ∷ params) =
    check_constraint resolved pairs p.constraint ++ check_constraints resolved pairs params

unfoldable pub check_boundary_site : List LifetimeParam → Pairs → (Expr → Resolved) → List Violation
unfolding resolve_pairs check_pairs check_constraints
check_boundary_site declared pairs resolve =
    let resolved = resolve_pairs resolve pairs [] in
    check_pairs resolved pairs ++ check_constraints resolved pairs declared
