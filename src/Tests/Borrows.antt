-- ===== src/Tests/Borrows.antt =====
-- The borrow checker at a program with a conflict.
use ubel_stratum.Common.{
  true, [], ◌∷◌, ◌≡◌, ◌≢◌, ◌⊎◌, ◌↔◌, inl, refl, contains, list_at, Among, nat_eq,
}
use ubel_stratum.Ast.{FunctionDecl, function}
use ubel_stratum.Cfg.{build}
use ubel_stratum.Cfg.WellFormed.{build-IsWellFormed}
use ubel_stratum.Facts
use ubel_stratum.Facts.{place_eq}
use ubel_stratum.Points
use ubel_stratum.Points.{point_eq}
use ubel_stratum.Liveness
use ubel_stratum.Borrow
use ubel_stratum.Analysis
use ubel_stratum.Analysis.Accepts
use ubel_stratum.Tests.{
  twice_moved, point, conflicting, conflict_graph, conflict_facts, loan_of_n, read_of_n, program,
}

check_low_tier-accepted_example :
    (Analysis.check_low_tier (function twice_moved ∷ []) ≡ Analysis.accepted) ↔ (
      (Accepts.BorrowConflict (function twice_moved ∷ []) → ⊥)
      × (Accepts.MovedUse (function twice_moved ∷ []) → ⊥))
check_low_tier-accepted_example = Accepts.check_low_tier-accepted (function twice_moved ∷ [])

Among-borrow_program_example :
    Among read_of_n (Borrow.check_program (function conflicting ∷ [])) ↔ (
      (decl : FunctionDecl) × Accepts.IsLowFunction (function conflicting ∷ []) decl
      × (loan : Facts.Loan) × Among loan (Accepts.loan_facts decl).loans
      × Borrow.Conflicts.Conflict (build decl) (Accepts.loan_facts decl) loan read_of_n)
Among-borrow_program_example = Accepts.Among-borrow_program (function conflicting ∷ []) read_of_n

Among-check_example : Among read_of_n (Borrow.check conflict_graph conflict_facts) ↔ (
    (loan : Facts.Loan) × Among loan conflict_facts.loans
    × Borrow.Conflicts.Conflict conflict_graph conflict_facts loan read_of_n)
Among-check_example =
    Borrow.Conflicts.Among-check conflict_graph (build-IsWellFormed conflicting) conflict_facts
      read_of_n

contains-compute_reaches_before_example :
    (contains (Borrow.compute_reaches_before conflict_graph loan_of_n conflict_facts) (point 0 2)
      ≡ true)
    ↔ Borrow.Conflicts.ReachedBy conflict_graph conflict_facts loan_of_n (point 0 2)
contains-compute_reaches_before_example =
    Borrow.Conflicts.contains-compute_reaches_before conflict_graph (build-IsWellFormed conflicting)
      conflict_facts loan_of_n (point 0 2)

in_graph : contains (Points.all_points conflict_graph) (point 0 1) ≡ true
unfolding program
in_graph = refl

compute_liveness_exact_example :
    ((Liveness.flag (Borrow.compute_liveness conflict_graph (Facts.local "p")).before (point 0 1)
        ≡ true)
      ↔ Liveness.Exact.LiveAt
          (Points.succ_points conflict_graph)
          (Borrow.uses conflict_graph (Facts.local "p"))
          (Borrow.defines conflict_graph (Facts.local "p"))
          (point 0 1))
    × ((Liveness.flag (Borrow.compute_liveness conflict_graph (Facts.local "p")).after (point 0 1)
          ≡ true)
        ↔ Liveness.Exact.LiveBehind
            (Points.succ_points conflict_graph)
            (Borrow.uses conflict_graph (Facts.local "p"))
            (Borrow.defines conflict_graph (Facts.local "p"))
            (point 0 1))
compute_liveness_exact_example =
    Borrow.Conflicts.compute_liveness_exact conflict_graph (build-IsWellFormed conflicting)
      conflict_facts (Facts.local "p") (point 0 1) in_graph

loan_collected : Among loan_of_n (Facts.collect conflict_graph).loans
unfolding program
loan_collected = inl refl

Among-loan_points_example :
    (Among (point 0 1) (list_at 0 (Facts.collect conflict_graph).loan_invalidated_at)
      ↔ Facts.Accesses.AccessedAt conflict_graph
          (Facts.local "n")
          (point 0 0)
          Facts.Accesses.Reads
          (point 0 1))
    × (Among (point 0 1) (list_at 0 (Facts.collect conflict_graph).loan_killed_at)
        ↔ Facts.Accesses.AccessedAt conflict_graph
            (Facts.local "n")
            (point 0 0)
            Facts.Accesses.Overwrites
            (point 0 1))
Among-loan_points_example =
    Facts.Accesses.Among-loan_points conflict_graph loan_of_n (point 0 1) loan_collected

contains-compute_loan_regions_example :
    (contains
        (list_at 0 (Borrow.compute_loan_regions conflict_graph (Facts.collect conflict_graph)))
        (point 0 1)
      ≡ true)
    ↔ Borrow.Regions.InRegion conflict_graph (Facts.collect conflict_graph) loan_of_n (point 0 1)
contains-compute_loan_regions_example =
    Borrow.Regions.contains-compute_loan_regions conflict_graph (build-IsWellFormed conflicting)
      loan_of_n (point 0 1) loan_collected

is_kill_iff_example :
    (Borrow.is_kill (Facts.collect conflict_graph) loan_of_n (point 0 2) ≡ true) ↔ (
      Facts.Accesses.AccessedAt conflict_graph
        (Facts.local "n")
        (point 0 0)
        Facts.Accesses.Overwrites
        (point 0 2)
      ⊎ Facts.Accesses.BoundAt conflict_graph (Facts.local "p") (point 0 2)
        × (point 0 2 ≢ point 0 0))
is_kill_iff_example = Borrow.Kills.is_kill_iff conflict_graph loan_of_n (point 0 2) loan_collected
