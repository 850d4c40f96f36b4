-- ===== src/Points.antt =====
-- Points of a graph and the points that follow one, crates/core/src/sema/borrow_check.rs
-- (`first_points_of`, `succ_points`, `all_points`); `Point` is from crates/core/src/sema/facts.rs.
pub mod Follows
pub mod Exact
pub mod Universe
use ubel_stratum.Common.{
  ℕ, zero, suc, ◌+◌, Bool, true, false, List, [], ◌∷◌, ◌++◌, ◌≡◌, ◌↔◌, ◌&&◌, arith, length,
  is_empty, contains, Eq, nat_eq, nat_beq, ltb, if◌then◌else◌,
}
use ubel_stratum.Ast.{Stmt}
use ubel_stratum.Cfg.{BasicBlock, Cfg, block, block_successors}

pub record Point : Type 0 where
  pub block : ℕ
  pub stmt_index : ℕ

abbrev pub point_beq : Point → Point → Bool
point_beq p q = nat_beq p.block q.block && nat_beq p.stmt_index q.stmt_index

pub point_beq_iff : (p q : Point) → (point_beq p q ≡ true) ↔ (p ≡ q)
point_beq_iff p q = ground arith

instance abbrev pub point_eq : Eq Point
point_eq = record { equal = point_beq; equal_iff = point_beq_iff }

-- The result of a call and the set `seen` as the call leaves it.
pub record Found : Type 0 where
  pub points : List Point
  pub seen : List ℕ

-- `for succ in … { out.extend(…) }`, over the call that is made for each successor.
unfoldable pub extend_all : (ℕ → List ℕ → Found) → List ℕ → List ℕ → Found
extend_all first [] seen = record { points = []; seen = seen }
extend_all first (s ∷ ss) seen =
    let head = first s seen in
    let tail = extend_all first ss head.seen in
    record { points = head.points ++ tail.points; seen = tail.seen }

-- Fuel bounds the depth of the calls: each one that makes further calls has put a new block of the
-- graph into `seen`.
unfoldable pub first_points_of : ℕ → List BasicBlock → ℕ → List ℕ → Found
unfolding extend_all contains block block_successors
first_points_of zero bs b seen = record { points = []; seen = seen }
first_points_of (suc fuel) bs b seen = elim (contains seen b) [
  | true ↦ record { points = []; seen = seen }
  | false ↦ elim (is_empty (block bs b).stmts) [
    | false ↦ record { points = record { block = b; stmt_index = 0 } ∷ []; seen = b ∷ seen }
    | true ↦ extend_all (first_points_of fuel bs) (block_successors (block bs b)) (b ∷ seen)
  ]
]

-- A fresh `seen` for each successor.
unfoldable pub entries_of : List BasicBlock → List ℕ → List Point
unfolding first_points_of
entries_of bs [] = []
entries_of bs (s ∷ ss) = (first_points_of (suc (length bs)) bs s []).points ++ entries_of bs ss

unfoldable pub succ_points : Cfg → Point → List Point
unfolding entries_of block block_successors
succ_points c p =
    if ltb (p.stmt_index + 1) (length (block c.blocks p.block).stmts)
    then record { block = p.block; stmt_index = p.stmt_index + 1 } ∷ []
    else entries_of c.blocks (block_successors (block c.blocks p.block))

unfoldable pub points_of : ℕ → ℕ → List Stmt → List Point
points_of b i [] = []
points_of b i (s ∷ ss) = record { block = b; stmt_index = i } ∷ points_of b (i + 1) ss

unfoldable pub points_of_blocks : List BasicBlock → List Point
unfolding points_of
points_of_blocks [] = []
points_of_blocks (b ∷ bs) = points_of b.id 0 b.stmts ++ points_of_blocks bs

unfoldable pub all_points : Cfg → List Point
unfolding points_of_blocks
all_points c = points_of_blocks c.blocks
