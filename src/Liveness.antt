-- ===== src/Liveness.antt =====
-- `compute_liveness` of crates/core/src/sema/borrow_check.rs, over the points that follow a point
-- and the tests whether a point's statement reads or defines the place.
pub mod Exact
pub mod Sweep
pub mod Fixpoint
use ubel_stratum.Common.{
  ℕ, zero, suc, Bool, true, false, not, ◌&&◌, ◌||◌, List, [], ◌∷◌, Option, none, some, find, insert,
  if◌then◌else◌,
}
use ubel_stratum.Points.{Point, point_eq}

-- `live_before`, `live_after` and `changed`.
pub record Live : Type 0 where
  pub before : List (Point × Bool)
  pub after : List (Point × Bool)
  pub changed : Bool

abbrev pub or_false : Option Bool → Bool
or_false none = false
or_false (some b) = b

-- `live.get(p).copied().unwrap_or(false)`; the source's `live[p]` panics at an unknown point, and
-- no point that follows one of a built graph is unknown.
unfoldable pub flag : List (Point × Bool) → Point → Bool
unfolding find
flag m p = or_false (find p m)

unfoldable pub any_flag : List (Point × Bool) → List Point → Bool
any_flag m [] = false
any_flag m (q ∷ qs) = flag m q || any_flag m qs

abbrev pub differ : Bool → Bool → Bool
differ true b = not b
differ false b = b

unfoldable pub set_after : Point → Bool → Live → Live
set_after p b s =
    if differ b (flag s.after p) then record s { after = insert p b s.after; changed = true } else s

unfoldable pub set_before : Point → Bool → Live → Live
set_before p b s =
    if differ b (flag s.before p)
    then record s { before = insert p b s.before; changed = true }
    else s

unfoldable pub all_false : List Point → List (Point × Bool)
all_false [] = []
all_false (p ∷ ps) = (p, false) ∷ all_false ps

module _ (succ : Point → List Point) (uses defines : Point → Bool) where
  -- The body of the inner loop.
  unfoldable pub update : Point → Live → Live
  update p s =
      let new_after = any_flag s.before (succ p) in
      let new_before = uses p || (new_after && not (defines p)) in
      set_before p new_before (set_after p new_after s)

  -- The inner loop, last point first.
  unfoldable pub sweep : List Point → Live → Live
  sweep [] s = s
  sweep (p ∷ ps) s = update p (sweep ps s)

  -- The outer loop. Fuel bounds the sweeps: each but the last sets a flag for good.
  unfoldable pub iterate : ℕ → List Point → Live → Live
  iterate zero ps s = s
  iterate (suc fuel) ps s =
      let s' = sweep ps (record s { changed = false }) in
      elim s'.changed [ true ↦ iterate fuel ps s' | false ↦ s' ]

  unfoldable pub fixed_point : ℕ → List Point → Live
  fixed_point fuel ps =
      iterate fuel ps (record { before = all_false ps; after = all_false ps; changed = true })
