-- ===== src/Liveness/Exact.antt =====
-- The iteration ends, and its flags say exactly from which points the place may be read before it
-- is defined anew.
use ubel_stratum.Common.{
  Bool, true, false, List, [], ◌∷◌, ◌≡◌, ◌↔◌, inl, inr, arith, contains, contains-cons,
  contains-nil, contains_head, insert, find-insert, Bool-cases, subst, sym, if◌then◌else◌, ◌==◌,
}
use ubel_stratum.Points.{Point, point_eq, point_beq_iff}
use ubel_stratum.Liveness.{Live, flag, any_flag, set_after, set_before}

module _ (succ : Point → List Point) (uses defines : Point → Bool) where
  pub data LiveAt : Point → Type 0 where
    used : {p : Point} → uses p ≡ true → LiveAt p
    later : {p q : Point} → defines p ≡ false → contains (succ p) q ≡ true → LiveAt q → LiveAt p

abbrev pub LiveBehind : (Point → List Point) → (Point → Bool) → (Point → Bool) → Point → Type 0
LiveBehind succ uses defines p =
    (q : Point) × (contains (succ p) q ≡ true) × LiveAt succ uses defines q

pub any_flag_iff :
    (m : List (Point × Bool)) (qs : List Point)
    → (any_flag m qs ≡ true) ↔ ((q : Point) × (contains qs q ≡ true) × (flag m q ≡ true))
unfolding any_flag
any_flag_iff m [] = (λ e. cc, λ (q, k, _). cc (contains-nil q))
any_flag_iff m (p ∷ qs) = (
  λ e. elim (Bool-cases (flag m p)) [
    | inl here ↦ (p, contains_head p qs, here)
    | inr gone ↦
        let (q, k, f) = (any_flag_iff m qs).0 (rw gone at e) in
        (q, (contains-cons p qs q).1 (inr k), f)
  ],
  λ (q, k, f). elim ((contains-cons p qs q).0 k) [
    | inl same ↦ ground (arith, subst (λ x. flag m x ≡ true) (sym same) f)
    | inr rest ↦ ground (arith, (any_flag_iff m qs).1 (q, rest, f))
  ],
)

pub flag-insert :
    (p q : Point) (b : Bool) (m : List (Point × Bool))
    → flag (insert p b m) q ≡ (if p == q then b else flag m q)
unfolding flag
flag-insert p q b m = ground (arith, find-insert p q b m)

pub flag-set_after :
    (p q : Point) (b : Bool) (s : Live)
    → flag (set_after p b s).after q ≡ (if p == q then b else flag s.after q)
unfolding set_after
flag-set_after p q b s = ground (arith, flag-insert p q b s.after, point_beq_iff p q)

pub flag-set_before :
    (p q : Point) (b : Bool) (s : Live)
    → flag (set_before p b s).before q ≡ (if p == q then b else flag s.before q)
unfolding set_before
flag-set_before p q b s = ground (arith, flag-insert p q b s.before, point_beq_iff p q)
