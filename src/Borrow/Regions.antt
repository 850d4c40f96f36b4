-- ===== src/Borrow/Regions.antt =====
-- The regions of `compute_loan_regions` against paths in the graph.
use ubel_stratum.Common.{
  ℕ, suc, ◌≤◌, Bool, true, false, List, [], ◌∷◌, ◌≡◌, ◌↔◌, inl, inr, arith, refl, is_empty,
  contains, contains-cons, contains-nil, list_at, list_at-insert, Among, Bool-cases, subst, ◌∙◌,
  nat_eq, nat_beq, nat_beq_iff, if◌then◌else◌,
}
use ubel_stratum.Cfg.{Cfg, IsWellFormed}
use ubel_stratum.Points.{Point, point_eq, succ_points}
use ubel_stratum.Facts.{is_unknown, Loan, Facts, collect}
use ubel_stratum.Facts.Numbered.{Numbered, collect-Numbered}
use ubel_stratum.Liveness.{flag}
use ubel_stratum.Liveness.Exact.{LiveAt}
use ubel_stratum.Borrow.{
  uses, defines, compute_liveness, is_kill, compute_reaches_before, keep, loan_region,
  insert_region, add_region, add_regions, compute_loan_regions,
}
use ubel_stratum.Borrow.Conflicts.{
  ReachedBy, contains-compute_reaches_before, compute_liveness_exact, Flows-in_graph, empty-reaches,
}

-- A point of a loan's region: a path leads there from the issue with no kill, and the reference that
-- holds the loan may be read from there on.
pub record InRegion (c : Cfg) (f : Facts) (loan : Loan) (p : Point) : Type 0 where
  pub bound : is_unknown loan.bound_place ≡ false
  pub reached : ReachedBy c f loan p
  pub live : LiveAt (succ_points c) (uses c loan.bound_place) (defines c loan.bound_place) p

contains-keep :
    (test : Point → Bool) (ps : List Point) (p : Point)
    → (contains (keep test ps) p ≡ true) ↔ (contains ps p ≡ true) × (test p ≡ true)
unfolding keep
contains-keep test [] p = (λ e. cc (contains-nil p), λ (e, _). e)
contains-keep test (q ∷ ps) p = elim (Bool-cases (test q)) [
  | inl good ↦
      rw (good, keep)
        (
          λ e. elim ((contains-cons q (keep test ps) p).0 e) [
            | inl same ↦ ((contains-cons q ps p).1 (inl same), subst (λ x. test x ≡ true) same good)
            | inr k ↦
                let (m, l) = (contains-keep test ps p).0 k in ((contains-cons q ps p).1 (inr m), l)
          ],
          λ (e, l). elim ((contains-cons q ps p).0 e) [
            | inl same ↦ (contains-cons q (keep test ps) p).1 (inl same)
            | inr k ↦
                (contains-cons q (keep test ps) p).1 (inr ((contains-keep test ps p).1 (k, l)))
          ],
        )
  | inr bad ↦
      rw (bad, keep)
        (
          λ e. let (m, l) = (contains-keep test ps p).0 e in ((contains-cons q ps p).1 (inr m), l),
          λ (e, l). elim ((contains-cons q ps p).0 e) [
            | inl same ↦ absurd (cc (l, subst (λ x. test x ≡ false) same bad))
            | inr k ↦ (contains-keep test ps p).1 (k, l)
          ],
        )
]

module _ (c : Cfg) (w : IsWellFormed c) (f : Facts) where
  contains-loan_region :
      (loan : Loan) (p : Point)
      → is_unknown loan.bound_place ≡ false
      → (contains (loan_region c f loan) p ≡ true) ↔ InRegion c f loan p
  unfolding loan_region
  contains-loan_region loan p named =
      let r = contains-compute_reaches_before c w f loan p in
      let k =
        contains-keep (flag (compute_liveness c loan.bound_place).before)
          (compute_reaches_before c loan f) p in
      (
        λ e.
            let (at, l) = k.0 e in
            let in_graph = Flows-in_graph c w (is_kill f loan) loan.issued_at (r.0 at) in
            record {
              bound = named;
              reached = r.0 at;
              live = (compute_liveness_exact c w f loan.bound_place p in_graph).0.0 l;
            },
        λ x.
            let in_graph = Flows-in_graph c w (is_kill f loan) loan.issued_at x.reached in
            k.1 (
              r.1 x.reached,
              (compute_liveness_exact c w f loan.bound_place p in_graph).0.1 x.live,
            ),
      )

  -- What is entered for a loan, if anything.
  entered : Loan → List Point
  entered loan =
      if is_unknown loan.bound_place
      then []
      else if is_empty (compute_reaches_before c loan f)
      then []
      else loan_region c f loan

  contains-entered :
      (loan : Loan) (p : Point) → (contains (entered loan) p ≡ true) ↔ InRegion c f loan p
  unfolding entered
  contains-entered loan p = elim (Bool-cases (is_unknown loan.bound_place)) [
    | inl inline ↦ rw (inline, entered) (λ e. cc (e, contains-nil p), λ x. cc (inline, x.bound))
    | inr named ↦ elim (Bool-cases (is_empty (compute_reaches_before c loan f))) [
      | inl nowhere ↦
          rw (named, entered, nowhere)
            (
              λ e. cc (e, contains-nil p),
              λ x. cc (
                empty-reaches c w f loan nowhere p,
                (contains-compute_reaches_before c w f loan p).1 x.reached,
              ),
            )
      | inr somewhere ↦ rw (named, entered, somewhere) (contains-loan_region loan p named)
    ]
  ]

  add_region_lem :
      (loan : Loan) (m : List (ℕ × List Point))
      → add_region c f loan m ≡ insert_region loan.id (entered loan) m
  unfolding add_region entered
  add_region_lem loan m = ground arith

  list_at-insert_region :
      (id j : ℕ) (ps : List Point) (m : List (ℕ × List Point))
      → list_at id m ≡ []
      → list_at j (insert_region id ps m) ≡ (if nat_beq id j then ps else list_at j m)
  list_at-insert_region id j [] m h = elim (Bool-cases (nat_beq id j)) [
    | inl same ↦ rw same (subst (λ i. list_at i m ≡ []) ((nat_beq_iff id j).0 same) h)
    | inr other ↦ rw other refl
  ]
  list_at-insert_region id j (p ∷ ps) m h = list_at-insert id j (p ∷ ps) m

  list_at-add_region :
      (loan : Loan) (j : ℕ) (m : List (ℕ × List Point))
      → list_at loan.id m ≡ []
      → list_at j (add_region c f loan m)
        ≡ (if nat_beq loan.id j then entered loan else list_at j m)
  list_at-add_region loan j m h =
      rw (add_region_lem loan m) (list_at-insert_region loan.id j (entered loan) m h)

  -- The identifiers from `k` on are still without a region.
  abbrev Free : ℕ → List (ℕ × List Point) → Type 0
  Free k m = (i : ℕ) → k ≤ i → list_at i m ≡ []

  add_region-Free :
      (k : ℕ) (x : Loan) (m : List (ℕ × List Point))
      → x.id ≡ k
      → Free k m
      → Free (suc k) (add_region c f x m)
  add_region-Free k x m n h i l =
      let other : nat_beq x.id i ≡ false = ground arith in
      (list_at-add_region x i m (h x.id (omega arith)) ∙ rw other refl) ∙ h i (omega arith)

  list_at-add_regions :
      (k : ℕ) (ls : List Loan) (m : List (ℕ × List Point)) (j : ℕ)
      → Numbered k ls
      → Free k m
      → suc j ≤ k
      → list_at j (add_regions c f ls m) ≡ list_at j m
  unfolding add_regions
  list_at-add_regions k [] m j n h l = refl
  list_at-add_regions k (x ∷ ls) m j n h l =
      let e : x.id ≡ k = n.0 in
      let other : nat_beq x.id j ≡ false = ground arith in
      list_at-add_regions (suc k) ls (add_region c f x m) j n.1 (add_region-Free k x m e h)
        (omega arith)
      ∙ (list_at-add_region x j m (h x.id (omega arith)) ∙ rw other refl)

  list_at_first :
      (k : ℕ) (x : Loan) (ls : List Loan) (m : List (ℕ × List Point))
      → Numbered k (x ∷ ls)
      → Free k m
      → list_at x.id (add_regions c f (x ∷ ls) m) ≡ entered x
  unfolding add_regions
  list_at_first k x ls m n h =
      let e : x.id ≡ k = n.0 in
      let same : nat_beq x.id x.id ≡ true = ground arith in
      list_at-add_regions (suc k) ls (add_region c f x m) x.id n.1 (add_region-Free k x m e h)
        (omega arith)
      ∙ (list_at-add_region x x.id m (h x.id (omega arith)) ∙ rw same refl)

  contains-add_regions :
      (k : ℕ) (ls : List Loan) (m : List (ℕ × List Point)) (loan : Loan) (p : Point)
      → Numbered k ls
      → Free k m
      → Among loan ls
      → (contains (list_at loan.id (add_regions c f ls m)) p ≡ true) ↔ InRegion c f loan p
  unfolding add_regions
  contains-add_regions k [] m loan p n h a = elim a [ ]
  contains-add_regions k (x ∷ ls) m loan p n h a = elim a [
    | inl same ↦
        subst
          (λ l.
            (contains (list_at l.id (add_regions c f ls (add_region c f x m))) p ≡ true)
            ↔ InRegion c f l p)
          same (rw (list_at_first k x ls m n h) (contains-entered x p))
    | inr rest ↦
        contains-add_regions (suc k) ls (add_region c f x m) loan p n.1
          (add_region-Free k x m n.0 h) rest
  ]

pub contains-compute_loan_regions :
    (c : Cfg) (w : IsWellFormed c) (loan : Loan) (p : Point)
    → Among loan (collect c).loans
    → (contains (list_at loan.id (compute_loan_regions c (collect c))) p ≡ true)
      ↔ InRegion c (collect c) loan p
unfolding compute_loan_regions list_at
contains-compute_loan_regions c w loan p m =
    contains-add_regions c w (collect c) 0 (collect c).loans [] loan p (collect-Numbered c)
      (λ i _. refl) m
