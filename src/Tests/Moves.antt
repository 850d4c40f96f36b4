-- ===== src/Tests/Moves.antt =====
-- The move checker at a program that uses a moved local.
use ubel_stratum.Common.{true, ◌≡◌, ◌↔◌, inl, inr, refl, contains, list_at, Among, nat_eq}
use ubel_stratum.Cfg.WellFormed.{build-IsWellFormed}
use ubel_stratum.Facts
use ubel_stratum.Facts.{place_eq}
use ubel_stratum.Points
use ubel_stratum.Points.{point_eq}
use ubel_stratum.Worklist
use ubel_stratum.MoveCheck
use ubel_stratum.Tests.{
  twice_moved, moved_graph, use_of_a, place_a, point, moved_facts, moved_moves, move_1, move_2,
  program,
}

use_reported : Among use_of_a (MoveCheck.check moved_graph moved_facts moved_moves)
unfolding program
use_reported = inl refl

check_sound_example :
    (place : Facts.Place) × Among place moved_moves.tracked_locals
    × (p : Points.Point) × MoveCheck.Uses.UseAfterMove moved_graph moved_facts place
        (list_at place moved_moves.moved_at)
        use_of_a
        p
check_sound_example =
    MoveCheck.Uses.check_sound moved_graph (build-IsWellFormed twice_moved) moved_facts moved_moves
      use_of_a use_reported

a_tracked : Among place_a moved_moves.tracked_locals
unfolding program
a_tracked = inl refl

move_1-Among : Among move_1 (list_at place_a moved_moves.moved_at)
unfolding program
move_1-Among = inl refl

move_2-Among : Among move_2 (list_at place_a moved_moves.moved_at)
unfolding program
move_2-Among = inr (inl refl)

still_moved : MoveCheck.Uses.StillMoved moved_graph moved_facts place_a (point 0 1) (point 0 2)
unfolding program
still_moved = Worklist.Exact.first refl

check_complete_example :
    (v : MoveCheck.Violation) × Among v (MoveCheck.check moved_graph moved_facts moved_moves)
    × MoveCheck.Uses.UseAfterMove moved_graph moved_facts place_a
        (list_at place_a moved_moves.moved_at)
        v
        (point 0 2)
check_complete_example =
    MoveCheck.Uses.check_complete moved_graph (build-IsWellFormed twice_moved) moved_facts
      moved_moves place_a move_1 move_2 a_tracked move_1-Among move_2-Among still_moved

contains-compute_moved_reaches_example :
    (contains
        (MoveCheck.compute_moved_reaches moved_graph
          (point 0 1)
          (list_at place_a moved_facts.place_defined_at))
        (point 0 2)
      ≡ true)
    ↔ MoveCheck.Uses.StillMoved moved_graph moved_facts place_a (point 0 1) (point 0 2)
contains-compute_moved_reaches_example =
    MoveCheck.Uses.contains-compute_moved_reaches moved_graph (build-IsWellFormed twice_moved)
      moved_facts place_a (point 0 1) (point 0 2)

Among-place_defined_at_example :
    Among (point 0 0) (list_at place_a (Facts.collect moved_graph).place_defined_at)
    ↔ Facts.Accesses.BoundAt moved_graph place_a (point 0 0)
Among-place_defined_at_example =
    Facts.Accesses.Among-place_defined_at moved_graph place_a (point 0 0)
