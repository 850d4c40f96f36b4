-- ===== src/Worklist.antt =====
-- The forward propagation that `compute_moved_reaches` (crates/core/src/sema/move_check.rs) and
-- `compute_reaches_before` (crates/core/src/sema/borrow_check.rs) share: a first-in first-out
-- worklist over `succ_points`, which enters a kill point and does not go past it.
pub mod Exact
use ubel_stratum.Common.{
  ℕ, zero, suc, ◌+◌, Bool, true, false, List, [], ◌∷◌, ◌++◌, length, contains, if◌then◌else◌,
}
use ubel_stratum.Points.{Point, point_eq}

pub record Search : Type 0 where
  pub reaches : List Point
  pub worklist : List Point

-- `if reaches.insert(s) { worklist.push_back(s); }`
unfoldable pub push_new : Point → Search → Search
unfolding contains
push_new p s =
    if contains s.reaches p
    then s
    else record { reaches = p ∷ s.reaches; worklist = s.worklist ++ p ∷ [] }

unfoldable pub push_all : List Point → Search → Search
unfolding push_new
push_all [] s = s
push_all (p ∷ ps) s = push_all ps (push_new p s)

module _ (succ : Point → List Point) (kill : Point → Bool) where
  -- One round, after `p` left the worklist.
  unfoldable pub round : Point → Search → Search
  unfolding push_all
  round p s = if kill p then s else push_all (succ p) s

  -- Fuel bounds the rounds: each point of the graph enters the worklist once.
  unfoldable pub drain : ℕ → Search → Search
  unfolding round
  drain zero s = s
  drain (suc fuel) s = elim s.worklist [
    | [] ↦ s
    | p ∷ rest ↦ drain fuel (round p (record s { worklist = rest }))
  ]

  unfoldable pub propagate : ℕ → Point → Search
  unfolding drain push_all
  propagate fuel from = drain fuel (push_all (succ from) (record { reaches = []; worklist = [] }))
