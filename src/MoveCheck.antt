-- ===== src/MoveCheck.antt =====
-- crates/core/src/sema/move_check.rs: which uses of an owning local may come after a move of it.
-- `tracked_locals` is a hash set in the source, whose order is not specified: the model visits the
-- places in the order of the list.
pub mod Uses
use ubel_stratum.Common.{
  ℕ, Bool, true, false, List, [], ◌∷◌, ◌++◌, String, contains, length, list_at, if◌then◌else◌,
}
use ubel_stratum.Ast.{Span, FunctionDecl, Item, function, Program, is_low}
use ubel_stratum.Cfg.{Cfg, build}
use ubel_stratum.Points.{Point, point_eq, succ_points, all_points}
use ubel_stratum.Facts.{Place, place_eq, Facts, collect}
use ubel_stratum.MoveFacts.{MoveFact, MoveFacts, collect_with, user_method_names}
use ubel_stratum.Worklist.{Search, propagate}
use ubel_stratum.Borrow.{place_name}

pub record Violation : Type 0 where
  pub place : String
  pub moved_span : Span
  pub used_span : Span

unfoldable pub compute_moved_reaches : Cfg → Point → List Point → List Point
compute_moved_reaches c from kill_points =
    (propagate (succ_points c) (contains kill_points) (length (all_points c)) from).reaches

-- `already_reported` and `violations`.
pub record Report : Type 0 where
  pub already_reported : List Point
  pub violations : List Violation

unfoldable pub violation : Place → MoveFact → MoveFact → Violation
violation place source candidate = record {
  place = place_name place;
  moved_span = source.span;
  used_span = candidate.span;
}

unfoldable pub report_candidate : Place → List Point → MoveFact → MoveFact → Report → Report
report_candidate place reaches source candidate r =
    if contains r.already_reported candidate.point
    then r
    else if contains reaches candidate.point
    then record {
      already_reported = candidate.point ∷ r.already_reported;
      violations = r.violations ++ violation place source candidate ∷ [];
    }
    else r

-- The inner loop.
unfoldable pub report_candidates : Place → List Point → MoveFact → List MoveFact → Report → Report
report_candidates place reaches source [] r = r
report_candidates place reaches source (m ∷ ms) r =
    report_candidates place reaches source ms (report_candidate place reaches source m r)

-- The loop over the sources; `all` are the candidates of the inner loop.
unfoldable pub report_sources :
    Cfg → List Point → Place → List MoveFact → List MoveFact → Report → Report
report_sources c kill_points place all [] r = r
report_sources c kill_points place all (m ∷ ms) r =
    report_sources c kill_points place all ms
      (report_candidates place (compute_moved_reaches c m.point kill_points) m all r)

unfoldable pub check_place : Cfg → Facts → MoveFacts → Place → List Violation
check_place c f m place =
    let candidates = list_at place m.moved_at in
    (report_sources c (list_at place f.place_defined_at) place candidates candidates
      (record { already_reported = []; violations = [] })).violations

unfoldable pub check_places : Cfg → Facts → MoveFacts → List Place → List Violation
check_places c f m [] = []
check_places c f m (p ∷ ps) = check_place c f m p ++ check_places c f m ps

unfoldable pub check : Cfg → Facts → MoveFacts → List Violation
check c f m = check_places c f m m.tracked_locals

unfoldable pub check_function_with : FunctionDecl → List String → List Violation
check_function_with decl user_methods =
    check (build decl) (collect (build decl)) (collect_with (build decl) user_methods)

abbrev pub if_low : FunctionDecl → List Violation → List Violation
if_low f vs = if is_low f.tier then vs else []

unfoldable pub check_items : List String → Program → List Violation
check_items user_methods [] = []
check_items user_methods (function f ∷ items) =
    if_low f (check_function_with f user_methods) ++ check_items user_methods items
check_items user_methods (item ∷ items) = check_items user_methods items

unfoldable pub check_program : Program → List Violation
check_program program = check_items (user_method_names program) program
