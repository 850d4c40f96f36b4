-- ===== src/Borrow/Conflicts.antt =====
-- The borrow check against paths in the graph.
use ubel_stratum.Common.{
  suc, ◌+◌, Bool, true, false, ◌&&◌, List, [], ◌∷◌, ◌≡◌, ◌⊎◌, ◌↔◌, inl, inr, arith, length,
  is_empty, contains, contains-nil, list_at, Among, Among-append, Bool-cases, List-cases, subst, ap,
  sym, ◌∙◌, refl, nat_eq,
}
use ubel_stratum.Cfg.{Cfg, IsWellFormed}
use ubel_stratum.Points.{Point, point_eq, succ_points, all_points}
use ubel_stratum.Points.Universe.{succ_points_bounded}
use ubel_stratum.Facts.{Place, is_unknown, Loan, Facts}
use ubel_stratum.Worklist.Exact.{Flows, first, onward, contains-propagate}
use ubel_stratum.Liveness.{flag}
use ubel_stratum.Liveness.Exact.{LiveAt, LiveBehind}
use ubel_stratum.Liveness.Fixpoint.{flag-before_fixed_point, flag-after_fixed_point}
use ubel_stratum.Borrow.{
  Violation, uses, defines, compute_liveness, is_kill, compute_reaches_before, violation_at, report,
  check_candidates, check_loan, check_loans, check,
}

-- The loan is issued, and some path leads on to the point with no kill in between.
abbrev pub ReachedBy : Cfg → Facts → Loan → Point → Type 0
ReachedBy c f loan = Flows (succ_points c) (is_kill f loan) loan.issued_at

-- Behind the point, the reference that holds the loan is read before it is bound anew.
abbrev pub ReadLater : Cfg → Loan → Point → Type 0
ReadLater c loan = LiveBehind (succ_points c) (uses c loan.bound_place) (defines c loan.bound_place)

-- What the check reports for one loan.
pub record Conflict (c : Cfg) (f : Facts) (loan : Loan) (v : Violation) : Type 0 where
  pub mutable : loan.mutable ≡ true
  pub bound : is_unknown loan.bound_place ≡ false
  pub point : Point
  pub candidate : Among point (list_at loan.id f.loan_invalidated_at)
  pub reached : ReachedBy c f loan point
  pub read_later : ReadLater c loan point
  pub reported : violation_at c loan point ≡ v

pub Flows-in_graph :
    (c : Cfg) (w : IsWellFormed c) (kill : Point → Bool) (from : Point) {q : Point}
    → Flows (succ_points c) kill from q
    → contains (all_points c) q ≡ true
Flows-in_graph c w kill from (first {q} k) = succ_points_bounded c w from q k
Flows-in_graph c w kill from (onward {p} {q} r live k) = succ_points_bounded c w p q k

module _ (c : Cfg) (w : IsWellFormed c) (f : Facts) where
  -- In a well-formed graph `compute_reaches_before` ends with exactly the points that a path without kill leads to.
  pub contains-compute_reaches_before :
      (loan : Loan) (q : Point)
      → (contains (compute_reaches_before c loan f) q ≡ true) ↔ ReachedBy c f loan q
  unfolding compute_reaches_before
  contains-compute_reaches_before loan q =
      contains-propagate (succ_points c) (is_kill f loan) loan.issued_at (all_points c)
        (succ_points_bounded c w) (length (all_points c)) (omega arith) q

  pub compute_liveness_exact :
      (place : Place) (p : Point)
      → contains (all_points c) p ≡ true
      → ((flag (compute_liveness c place).before p ≡ true)
          ↔ LiveAt (succ_points c) (uses c place) (defines c place) p)
        × ((flag (compute_liveness c place).after p ≡ true)
            ↔ LiveBehind (succ_points c) (uses c place) (defines c place) p)
  unfolding compute_liveness
  compute_liveness_exact place p k = (
    flag-before_fixed_point (succ_points c) (uses c place) (defines c place) (all_points c)
        (succ_points_bounded c w) (suc (length (all_points c) + length (all_points c))) p
        (omega arith) k,
    flag-after_fixed_point (succ_points c) (uses c place) (defines c place) (all_points c)
        (succ_points_bounded c w) (suc (length (all_points c) + length (all_points c))) p
        (omega arith) k,
  )

  Among-report :
      (is_live : Point → Bool) (at : Point → Violation) (ps : List Point) (v : Violation)
      → Among v (report is_live at ps)
        ↔ ((p : Point) × Among p ps × (is_live p ≡ true) × (at p ≡ v))
  unfolding report
  Among-report is_live at [] v = (λ m. elim m [ ], λ (p, m, l, e). elim m [ ])
  Among-report is_live at (p ∷ ps) v = elim (Bool-cases (is_live p)) [
    | inl here ↦
        rw (here, report)
          (
            λ m. elim m [
              | inl e ↦ (p, inl refl, here, e)
              | inr k ↦ let (q, n, l, e) = (Among-report is_live at ps v).0 k in (q, inr n, l, e)
            ],
            λ (q, n, l, e). elim n [
              | inl same ↦ inl (ap at same ∙ e)
              | inr k ↦ inr ((Among-report is_live at ps v).1 (q, k, l, e))
            ],
          )
    | inr dead ↦
        rw (dead, report)
          (
            λ m. let (q, n, l, e) = (Among-report is_live at ps v).0 m in (q, inr n, l, e),
            λ (q, n, l, e). elim n [
              | inl same ↦ absurd (cc (ap is_live same))
              | inr k ↦ (Among-report is_live at ps v).1 (q, k, l, e)
            ],
          )
  ]

  pub empty-reaches :
      (loan : Loan)
      → is_empty (compute_reaches_before c loan f) ≡ true
      → (p : Point) → contains (compute_reaches_before c loan f) p ≡ false
  empty-reaches loan e p = elim (List-cases (compute_reaches_before c loan f)) [
    | inl none ↦ rw none (contains-nil p)
    | inr (x, rest, some) ↦ absurd (cc (ap (is_empty {A = Point}) some))
  ]

  abbrev Live : Loan → Point → Type 0
  Live loan p = ReachedBy c f loan p × ReadLater c loan p

  live_iff :
      (loan : Loan) (p : Point)
      → ((contains (compute_reaches_before c loan f) p
            && flag (compute_liveness c loan.bound_place).after p)
          ≡ true)
        ↔ Live loan p
  live_iff loan p =
      let r = contains-compute_reaches_before loan p in
      (
        λ e.
            let at = r.0 (ground arith) in
            let k = Flows-in_graph c w (is_kill f loan) loan.issued_at at in
            (at, (compute_liveness_exact loan.bound_place p k).1.0 (ground arith)),
        λ (at, l).
            let k = Flows-in_graph c w (is_kill f loan) loan.issued_at at in
            ground (arith, r.1 at, (compute_liveness_exact loan.bound_place p k).1.1 l),
      )

  Among-check_candidates :
      (loan : Loan) (ps : List Point) (v : Violation)
      → Among v (check_candidates c f loan ps)
        ↔ ((p : Point) × Among p ps × Live loan p × (violation_at c loan p ≡ v))
  unfolding check_candidates
  Among-check_candidates loan ps v =
      elim (Bool-cases (is_empty (compute_reaches_before c loan f))) [
        | inl nowhere ↦
            rw (nowhere, check_candidates)
              (
                λ m. elim m [ ],
                λ (p, m, l, e).
                    cc (
                      empty-reaches loan nowhere p,
                      (contains-compute_reaches_before loan p).1 l.0,
                    ),
              )
        | inr somewhere ↦
            let test = λ (p : Point).
              contains (compute_reaches_before c loan f) p
              && flag (compute_liveness c loan.bound_place).after p in
            let r = Among-report test (violation_at c loan) ps v in
            rw (somewhere, check_candidates)
              (
                λ m. let (p, n, l, e) = r.0 m in (p, n, (live_iff loan p).0 l, e),
                λ (p, n, l, e). r.1 (p, n, (live_iff loan p).1 l, e),
              )
      ]

  check_loan_bound :
      (loan : Loan)
      → loan.mutable ≡ true
      → is_unknown loan.bound_place ≡ false
      → check_loan c f loan ≡ check_candidates c f loan (list_at loan.id f.loan_invalidated_at)
  unfolding check_loan
  check_loan_bound loan mut named = ground arith

  check_loan_skipped :
      (loan : Loan)
      → (loan.mutable ≡ false) ⊎ (is_unknown loan.bound_place ≡ true)
      → check_loan c f loan ≡ []
  unfolding check_loan
  check_loan_skipped loan skip = ground arith

  Among-check_loan :
      (loan : Loan) (v : Violation) → Among v (check_loan c f loan) ↔ Conflict c f loan v
  Among-check_loan loan v = elim (Bool-cases loan.mutable) [
    | inr shared ↦ (λ m. absurd (rw (check_loan_skipped loan (inl shared)) at m), λ k. cc k.mutable)
    | inl mut ↦ elim (Bool-cases (is_unknown loan.bound_place)) [
      | inl inline ↦ (λ m. absurd (rw (check_loan_skipped loan (inr inline)) at m), λ k. cc k.bound)
      | inr named ↦
          let r = Among-check_candidates loan (list_at loan.id f.loan_invalidated_at) v in
          (
            λ m.
                let (p, n, l, e) = r.0 (rw (check_loan_bound loan mut named) at m) in
                record {
                  mutable = mut;
                  bound = named;
                  point = p;
                  candidate = n;
                  reached = l.0;
                  read_later = l.1;
                  reported = e;
                },
            λ k.
                rw (check_loan_bound loan mut named)
                  (r.1 (k.point, k.candidate, (k.reached, k.read_later), k.reported)),
          )
    ]
  ]

  Among-check_loans :
      (ls : List Loan) (v : Violation)
      → Among v (check_loans c f ls) ↔ ((loan : Loan) × Among loan ls × Conflict c f loan v)
  unfolding check_loans
  Among-check_loans [] v = (λ m. elim m [ ], λ (l, m, k). elim m [ ])
  Among-check_loans (l ∷ ls) v = (
    λ m. elim ((Among-append (check_loan c f l) (check_loans c f ls) v).0 m) [
      | inl here ↦ (l, inl refl, (Among-check_loan l v).0 here)
      | inr rest ↦ let (l', n, k) = (Among-check_loans ls v).0 rest in (l', inr n, k)
    ],
    λ (l', n, k). (Among-append (check_loan c f l) (check_loans c f ls) v).1 (elim n [
      | inl same ↦ inl ((Among-check_loan l v).1 (subst (λ x. Conflict c f x v) (sym same) k))
      | inr rest ↦ inr ((Among-check_loans ls v).1 (l', rest, k))
    ]),
  )

  pub Among-check :
      (v : Violation)
      → Among v (check c f) ↔ ((loan : Loan) × Among loan f.loans × Conflict c f loan v)
  unfolding check
  Among-check v = Among-check_loans f.loans v
