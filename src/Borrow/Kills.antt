-- ===== src/Borrow/Kills.antt =====
-- The kill test of `compute_reaches_before`, in terms of the statements of the graph.
use ubel_stratum.Common.{
  true, ◌≡◌, ◌≢◌, ◌⊎◌, ◌↔◌, inl, inr, arith, contains, contains-Among, list_at, Among, Bool-cases,
  nat_eq, ◌==◌,
}
use ubel_stratum.Cfg.{Cfg}
use ubel_stratum.Points.{Point, point_eq, point_beq_iff}
use ubel_stratum.Facts.{Loan, place_eq, collect}
use ubel_stratum.Facts.Accesses.{
  AccessedAt, Overwrites, BoundAt, Among-loan_points, Among-place_defined_at,
}
use ubel_stratum.Borrow.{is_kill}

pub is_kill_iff :
    (c : Cfg) (loan : Loan) (p : Point)
    → Among loan (collect c).loans
    → (is_kill (collect c) loan p ≡ true) ↔ (
        AccessedAt c loan.place loan.issued_at Overwrites p
        ⊎ BoundAt c loan.bound_place p × (p ≢ loan.issued_at))
unfolding is_kill
is_kill_iff c loan p m =
    let killed = contains-Among (list_at loan.id (collect c).loan_killed_at) p in
    let defined = contains-Among (list_at loan.bound_place (collect c).place_defined_at) p in
    let touched = (Among-loan_points c loan p m).1 in
    let binds = Among-place_defined_at c loan.bound_place p in
    let issue = point_beq_iff p loan.issued_at in
    (
      λ e. elim (Bool-cases (contains (list_at loan.id (collect c).loan_killed_at) p)) [
        | inl k ↦ inl (touched.0 (killed.0 k))
        | inr n ↦ inr (binds.0 (defined.0 (ground arith)), λ same. ground (arith, issue.1 same))
      ],
      λ h. elim h [
        | inl t ↦ ground (arith, killed.1 (touched.1 t))
        | inr (d, other) ↦ elim (Bool-cases (p == loan.issued_at)) [
          | inl same ↦ absurd (other (issue.0 same))
          | inr differ ↦ ground (arith, defined.1 (binds.1 d))
        ]
      ],
    )
