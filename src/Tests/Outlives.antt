-- ===== src/Tests/Outlives.antt =====
-- Calls that bind a reference to a lifetime, after the unit tests of
-- crates/core/src/sema/outlives_check.rs.
use ubel_stratum.Common.{
  false, [], List, ◌∷◌, ◌++◌, ◌≡◌, ◌↔◌, inl, inr, refl, none, some, string_eq, find,
}
use ubel_stratum.Ast.{
  Expr, ident, lit, int_lit, call, borrow, assign_expr, assign, Args, no_args, positional, Stmts,
  end_block, cons_stmt, expr_stmt, Stmt, Ty, primitive, int, reference, FunctionDecl, LifetimeParam,
  ParamKind, named_param, low, private_vis, Program, Item, function,
}
use ubel_stratum.Ast
use ubel_stratum.Points.{point_eq}
use ubel_stratum.Facts.{place_eq}
use ubel_stratum.Borrow
use ubel_stratum.Outlives
use ubel_stratum.Analysis
use ubel_stratum.Outlives.{
  Violation, boundary_too_short, non_local_boundary_value, Resolved, concrete, dead,
}
use ubel_stratum.Outlives.Safety.{CallsAt, IsBacked, check_program-IsBacked}
use ubel_stratum.Outlives.Accepts.{
  Distinct, IsSound, LastsAreSound, check_boundary_site-eq-nil, check_boundary_site-LastsAreSound,
}
use ubel_stratum.Outlives.Sites.{last_of}
use ubel_stratum.Outlives.Resolve.{Means, resolve_name-Means}
use ubel_stratum.Tests.{program, at, let_, var, func, point}

unfoldable outlives : Unit {0}
unfolding program Ast.expr_span Borrow.compute_loan_regions Borrow.add_regions Borrow.add_region
    Borrow.loan_region Borrow.keep Outlives.bound_loans Outlives.covering Outlives.resolve_loans
    Outlives.resolve_name Outlives.resolve_boundary_value Outlives.emit_e2_violation
    Outlives.is_violated Outlives.resolve_pairs Outlives.emit_if_resolved Outlives.check_pairs
    Outlives.check_outlives_constraint Outlives.check_constraint Outlives.check_constraints
    Outlives.check_boundary_site Outlives.find_boundary_sites Outlives.call_pairs
    Outlives.check_callee Outlives.check_site Outlives.check_sites Outlives.check_exprs
    Outlives.check_points Outlives.caller_of Outlives.check_function Outlives.function_table
    Outlives.struct_table Outlives.check_functions Outlives.check_program
outlives = tt

-- &L int
abbrev ref_l : Ty
ref_l = reference false (some "L") (primitive int (at 0)) (at 0)

abbrev lifetime_l : LifetimeParam
lifetime_l = record { name = "L"; constraint = none; span = at 0 }

abbrev take_with : List ParamKind → FunctionDecl
take_with params = record {
  tier = low;
  visibility = private_vis;
  is_async = false;
  name = "take";
  lifetime_params = lifetime_l ∷ [];
  params = params;
  return_type = none;
  body = end_block;
  span = at 0;
}

-- fn take [lifetime L] (v: &L int)
abbrev take_one : FunctionDecl
take_one = take_with (named_param false "v" (some ref_l) none ∷ [])

-- fn take [lifetime L] (v: &L int, w: &L int)
abbrev take_two : FunctionDecl
take_two =
    take_with
      (named_param false "v" (some ref_l) none ∷ (named_param false "w" (some ref_l) none ∷ []))

abbrev one_arg : Expr → Args
one_arg e = positional e (at 0) no_args

abbrev call_stmt : Args → Stmt
call_stmt args = expr_stmt (call (var "take") args (at 9)) (at 9)

-- let p = &n; take(p);
abbrev live_caller : FunctionDecl
live_caller = func (
    cons_stmt (let_ "p" (borrow false (var "n") (at 3)))
      (cons_stmt (call_stmt (one_arg (ident "p" (at 4)))) end_block))

abbrev live_program : Program
live_program = function live_caller ∷ (function take_one ∷ [])

live_accepted : Outlives.check_program live_program ≡ []
unfolding outlives
live_accepted = refl

-- let p = &n; n = 5; take(p);
abbrev reassign : Stmt
reassign = expr_stmt (assign_expr assign (var "n") (lit (int_lit false 5) (at 0)) (at 0)) (at 0)

abbrev dead_caller : Args → FunctionDecl
dead_caller args = func (
    cons_stmt (let_ "p" (borrow false (var "n") (at 3)))
      (cons_stmt reassign (cons_stmt (call_stmt args) end_block)))

dead_rejected :
    Outlives.check_program
      (function (dead_caller (one_arg (ident "p" (at 4)))) ∷ (function take_one ∷ []))
    ≡ boundary_too_short "L" (at 3) (at 4) ∷ []
unfolding outlives
dead_rejected = refl

-- let p = &n; n = 5; take(p, &n); where both parameters are of one lifetime
dead_masked :
    Outlives.check_program (
      function (
        dead_caller
          (positional (ident "p" (at 4)) (at 0) (one_arg (borrow false (var "n") (at 5)))))
      ∷ (function take_two ∷ []))
    ≡ []
unfolding outlives
dead_masked = refl

-- take(other());
result_accepted :
    Outlives.check_program (
      function
        (func (cons_stmt (call_stmt (one_arg (call (var "other") no_args (at 4)))) end_block))
      ∷ (function take_one ∷ []))
    ≡ []
unfolding outlives
result_accepted = refl

-- let p = other(); take(p);
untraced_rejected :
    Outlives.check_program (
      function (
        func (
          cons_stmt
            (let_ "p" (call (var "other") no_args (at 3)))
            (cons_stmt (call_stmt (one_arg (ident "p" (at 4)))) end_block)))
      ∷ (function take_one ∷ []))
    ≡ non_local_boundary_value "L" (at 4) ∷ []
unfolding outlives
untraced_rejected = refl

abbrev p_arg : Expr
p_arg = ident "p" (at 4)

abbrev live_pairs : Outlives.Pairs
live_pairs = ("L", p_arg) ∷ []

live_pairs-Distinct : Distinct live_pairs
live_pairs-Distinct = (λ e m. elim m [ ], tt)

abbrev at_call : Expr → Resolved
at_call = Outlives.resolve_boundary_value (Outlives.caller_of live_caller) (point 0 1)

check_boundary_site-eq-nil_example :
    (Outlives.check_boundary_site (lifetime_l ∷ []) live_pairs at_call ≡ [])
    ↔ IsSound (lifetime_l ∷ []) live_pairs at_call
check_boundary_site-eq-nil_example =
    check_boundary_site-eq-nil (lifetime_l ∷ []) live_pairs at_call live_pairs-Distinct

resolve_name-Means_example :
    Means live_caller
      (point 0 1)
      "p"
      (Outlives.resolve_name (Outlives.caller_of live_caller) (point 0 1) "p")
resolve_name-Means_example = resolve_name-Means live_caller (point 0 1) "p"

take_called : CallsAt live_program live_caller (point 0 1) "take" (one_arg p_arg)
unfolding outlives
take_called = record {
  item = inl refl;
  checked = refl;
  stmt = call_stmt (one_arg p_arg);
  expr = call (var "take") (one_arg p_arg) (at 9);
  name_span = at 0;
  span = at 9;
  located_at = inr (inl refl);
  in_stmt = inl refl;
  in_expr = inl refl;
}

take_found : find "take" (Outlives.function_table live_program []) ≡ some take_one
unfolding outlives
take_found = refl

abbrev take_pairs : Outlives.Pairs
take_pairs = Outlives.call_pairs take_one.lifetime_params take_one.params (one_arg p_arg)

p_passed : last_of "L" take_pairs ≡ some p_arg
unfolding outlives
p_passed = refl

check_program-IsBacked_example : IsBacked live_caller (point 0 1) "p"
check_program-IsBacked_example =
    check_program-IsBacked live_program live_caller take_one (point 0 1) "take" (one_arg p_arg)
      live_accepted take_called take_found refl "L" "p" (at 4) p_passed

-- The first argument is dead and the second is at hand.
abbrev dead_then_fresh : Expr → Resolved
dead_then_fresh (ident name sp) = dead (at 3)
dead_then_fresh e = concrete (point 0 2 ∷ [])

abbrev fresh_arg : Expr
fresh_arg = borrow false (var "n") (at 5)

abbrev masked_pairs : Outlives.Pairs
masked_pairs = live_pairs ++ ("L", fresh_arg) ∷ []

check_boundary_site-LastsAreSound_example :
    (Outlives.check_boundary_site (lifetime_l ∷ []) masked_pairs dead_then_fresh ≡ [])
    ↔ LastsAreSound (lifetime_l ∷ []) masked_pairs dead_then_fresh
check_boundary_site-LastsAreSound_example =
    check_boundary_site-LastsAreSound (lifetime_l ∷ []) masked_pairs dead_then_fresh

-- The passes that are not modelled report nothing.
abbrev silent : Analysis.Passes.OtherPasses
silent = record {
  resolution_fails = λ p. false;
  inference_fails = λ p. false;
  tiers_fail = λ p. false;
}

analyse-Explains_example :
    Analysis.Passes.Explains silent live_program (Analysis.Passes.analyse silent live_program)
analyse-Explains_example = Analysis.Passes.analyse-Explains silent live_program
