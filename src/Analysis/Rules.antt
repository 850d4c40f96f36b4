-- ===== src/Analysis/Rules.antt =====
-- When a mutable borrow is in the way of an access, in terms of the statements of a function and the
-- paths of its graph.
use ubel_stratum.Common.{
  true, false, ◌≡◌, ◌≢◌, refl, ◌⊎◌, inl, inr, contains, ℕ, Among, Bool-cases, subst, String,
}
use ubel_stratum.Ast.{Stmt}
use ubel_stratum.Cfg.{Cfg}
use ubel_stratum.Points.{Point, point_eq, succ_points}
use ubel_stratum.Facts.{Place, local, unknown, is_unknown, Loan, located, collect}
use ubel_stratum.Facts.Accesses.{AccessedAt, Reads, Overwrites, BoundAt, Among-loan_points}
use ubel_stratum.Facts.Held.{Held, HoldsBorrow, IsHeld, AmongHeld-collect}
use ubel_stratum.Worklist.Exact.{first, onward}
use ubel_stratum.Liveness.Exact.{LiveBehind}
use ubel_stratum.Borrow.{uses, defines, is_kill, Violation, violation_at}
use ubel_stratum.Borrow.Conflicts.{ReachedBy, Conflict}
use ubel_stratum.Borrow.Kills.{is_kill_iff}

-- At the point the borrow ends: another statement than its own overwrites the borrowed local, or binds
-- the holder.
abbrev pub Ends : Cfg → Held → Point → Type 0
Ends c b p =
    AccessedAt c b.place b.issued_at Overwrites p ⊎ BoundAt c (local b.holder) p × (p ≢ b.issued_at)

abbrev as_loan : Held → ℕ → Loan
as_loan b id = record {
  id = id;
  place = b.place;
  bound_place = local b.holder;
  mutable = b.mutable;
  issued_at = b.issued_at;
  span = b.span;
}

module _ (c : Cfg) (b : Held) where
  -- A path from the statement that borrows, at none of whose points between the ends the borrow ends.
  pub data Reaches : Point → Type 0 where
    next : {q : Point} → contains (succ_points c b.issued_at) q ≡ true → Reaches q
    past :
        {p q : Point}
        → Reaches p
        → (Ends c b p → ⊥)
        → contains (succ_points c p) q ≡ true
        → Reaches q

  -- The borrow stands in the function, alone as the value of a `let` of its holder or of a plain
  -- assignment to it. It is mutable and reaches a point where another statement reads the borrowed
  -- local, and behind that point the holder is read before it is bound anew.
  pub record InTheWay (p : Point) : Type 0 where
    pub stmt : Stmt
    pub stands : Among {A = Point × Stmt} (b.issued_at, stmt) (located c)
    pub holds : HoldsBorrow b stmt
    pub mutable : b.mutable ≡ true
    pub reached : Reaches p
    pub access : AccessedAt c b.place b.issued_at Reads p
    pub read_later :
        LiveBehind (succ_points c) (uses c (local b.holder)) (defines c (local b.holder)) p

  module _ (id : ℕ) (issued : Among (as_loan b id) (collect c).loans) where
    Reaches-Flows : {q : Point} → Reaches q → ReachedBy c (collect c) (as_loan b id) q
    Reaches-Flows (next k) = first k
    Reaches-Flows (past {p} r live k) = onward (Reaches-Flows r) (not_killed p live) k
      where
        not_killed : (p : Point) → (Ends c b p → ⊥) → is_kill (collect c) (as_loan b id) p ≡ false
        not_killed p live = elim (Bool-cases (is_kill (collect c) (as_loan b id) p)) [
          | inl kill ↦ absurd (live ((is_kill_iff c (as_loan b id) p issued).0 kill))
          | inr none ↦ none
        ]

    Flows-Reaches : {q : Point} → ReachedBy c (collect c) (as_loan b id) q → Reaches q
    Flows-Reaches (first k) = next k
    Flows-Reaches (onward {p} r live k) =
        past (Flows-Reaches r) (λ e. cc (live, (is_kill_iff c (as_loan b id) p issued).1 e)) k

    from_the_way :
        (p : Point)
        → InTheWay p
        → Conflict c (collect c) (as_loan b id) (violation_at c (as_loan b id) p)
    from_the_way p w = record {
      mutable = w.mutable;
      bound = refl;
      point = p;
      candidate = (Among-loan_points c (as_loan b id) p issued).0.1 w.access;
      reached = Reaches-Flows w.reached;
      read_later = w.read_later;
      reported = refl;
    }

    from_the_check :
        (v : Violation) → Conflict c (collect c) (as_loan b id) v → (p : Point) × InTheWay p
    from_the_check v k =
        let (s, stands, holds) = (AmongHeld-collect c b).0 (
          as_loan b id,
          issued,
          record { holder = refl; place = refl; mutable = refl; issued_at = refl; span = refl },
        ) in
        (
          k.point,
          record {
            stmt = s;
            stands = stands;
            holds = holds;
            mutable = k.mutable;
            reached = Flows-Reaches k.reached;
            access = (Among-loan_points c (as_loan b id) k.point issued).0.0 k.candidate;
            read_later = k.read_later;
          },
        )

-- A loan that is held is one of these.
IsHeld-as_loan : (b : Held) (l : Loan) → IsHeld b l → l ≡ as_loan b l.id
IsHeld-as_loan b l k = λ i. record {
  id = l.id;
  place = k.place i;
  bound_place = k.holder i;
  mutable = k.mutable i;
  issued_at = k.issued_at i;
  span = k.span i;
}

known_local : (p : Place) → is_unknown p ≡ false → (x : String) × (p ≡ local x)
known_local (local x) e = (x, refl)
known_local unknown e = absurd (cc)

-- A conflict that the check finds is a borrow that is in the way.
pub Conflict-InTheWay :
    (c : Cfg) (loan : Loan) (v : Violation)
    → Among loan (collect c).loans
    → Conflict c (collect c) loan v
    → (b : Held) × (p : Point) × InTheWay c b p
Conflict-InTheWay c loan v issued k =
    let (x, named) = known_local loan.bound_place k.bound in
    let b : Held = record {
      holder = x;
      place = loan.place;
      mutable = loan.mutable;
      issued_at = loan.issued_at;
      span = loan.span;
    } in
    let same =
      IsHeld-as_loan b loan
        (record { holder = named; place = refl; mutable = refl; issued_at = refl; span = refl }) in
    let (p, w) =
      from_the_check c b loan.id (subst (λ (l : Loan). Among l (collect c).loans) same issued) v
        (subst (λ (l : Loan). Conflict c (collect c) l v) same k) in
    (b, p, w)

-- A borrow that is in the way is a conflict of a loan that the check collects.
pub InTheWay-Conflict :
    (c : Cfg) (b : Held) (p : Point)
    → InTheWay c b p
    → (loan : Loan) × Among loan (collect c).loans × (v : Violation) × Conflict c (collect c) loan v
InTheWay-Conflict c b p w =
    let (l, issued, k) = (AmongHeld-collect c b).1 (w.stmt, w.stands, w.holds) in
    let there = subst (λ (l : Loan). Among l (collect c).loans) (IsHeld-as_loan b l k) issued in
    (as_loan b l.id, there, violation_at c (as_loan b l.id) p, from_the_way c b l.id there p w)
