-- ===== src/Tests/Graph.antt =====
-- The graph of a small function.
use ubel_stratum.Common.{true, false, [], ◌∷◌, ◌≡◌, ◌↔◌, refl, contains, nat_eq}
use ubel_stratum.Ast.{end_block, cons_stmt}
use ubel_stratum.Cfg
use ubel_stratum.Cfg.{build_block}
use ubel_stratum.Cfg.Builder.{Builder}
use ubel_stratum.Cfg.Passes.{passes, falls_through}
use ubel_stratum.Cfg.Totals.{is_some}
use ubel_stratum.Cfg.FallsThrough.{is_some-build_block, build_block-dropped}
use ubel_stratum.Ast.{return_void}
use ubel_stratum.Cfg.{Cfg, build}
use ubel_stratum.Cfg.WellFormed.{build-IsWellFormed}
use ubel_stratum.Facts.{place_eq}
use ubel_stratum.Points
use ubel_stratum.Points.{point_eq}
use ubel_stratum.Tests.{at, let_, var, point, conflicting, conflict_graph}

abbrev one_block : Builder
one_block = record { blocks = Cfg.dead_block ∷ []; loop_stack = [] }

build-IsWellFormed_example : Cfg.IsWellFormed (build conflicting)
build-IsWellFormed_example = build-IsWellFormed conflicting

contains-succ_points_example :
    (contains (Points.succ_points conflict_graph (point 0 0)) (point 0 1) ≡ true)
    ↔ Points.Follows.Follows conflict_graph (point 0 0) (point 0 1)
contains-succ_points_example =
    Points.Exact.contains-succ_points conflict_graph (point 0 0) (point 0 1)

-- { return; let y = n; } falls through nowhere, and ends in one block.
is_some-build_block_example :
    is_some (build_block (cons_stmt (return_void (at 0)) end_block) 0 (one_block)).0
    ≡ falls_through (cons_stmt (return_void (at 0)) end_block)
is_some-build_block_example =
    is_some-build_block (cons_stmt (return_void (at 0)) end_block) 0 one_block

return_stops : passes (return_void (at 0)) ≡ false
unfolding passes
return_stops = refl

build_block-dropped_example :
    build_block
      (cons_stmt (return_void (at 0)) (cons_stmt (let_ "y" (var "n")) end_block))
      0
      one_block
    ≡ build_block (cons_stmt (return_void (at 0)) end_block) 0 one_block
build_block-dropped_example =
    build_block-dropped (return_void (at 0)) (cons_stmt (let_ "y" (var "n")) end_block) end_block 0
      one_block return_stops
