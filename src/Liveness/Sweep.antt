-- ===== src/Liveness/Sweep.antt =====
-- One step of the sweep: what it does to the flags, what it keeps, and that a step which changes
-- nothing finds its two equations true.
use ubel_stratum.Common.{
  Bool, true, false, not, ◌&&◌, ◌||◌, List, ◌≡◌, refl, ◌⊎◌, ◌↔◌, inl, inr, arith, ap, ◌∙◌, ◌≢◌,
  Bool-cases, subst, if◌then◌else◌, ◌==◌,
}
use ubel_stratum.Points.{Point, point_eq, point_beq_iff}
use ubel_stratum.Liveness.{Live, flag, any_flag, differ, set_after, set_before, update}
use ubel_stratum.Liveness.Exact.{LiveAt, used, later, any_flag_iff, flag-set_after, flag-set_before}

before-set_after : (p : Point) (b : Bool) (s : Live) → (set_after p b s).before ≡ s.before
unfolding set_after
before-set_after p b s = ground arith

after-set_before : (p : Point) (b : Bool) (s : Live) → (set_before p b s).after ≡ s.after
unfolding set_before
after-set_before p b s = ground arith

differ_iff : (a b : Bool) → (differ a b ≡ true) ↔ (b ≢ a)
differ_iff true b = ground arith
differ_iff false b = ground arith

set_after_unchanged :
    (p : Point) (b : Bool) (s : Live)
    → (set_after p b s).changed ≡ false
    → (set_after p b s ≡ s) × (flag s.after p ≡ b)
unfolding set_after
set_after_unchanged p b s e = ground (arith, differ_iff b (flag s.after p))

set_before_unchanged :
    (p : Point) (b : Bool) (s : Live)
    → (set_before p b s).changed ≡ false
    → (set_before p b s ≡ s) × (flag s.before p ≡ b)
unfolding set_before
set_before_unchanged p b s e = ground (arith, differ_iff b (flag s.before p))

set_after_changed :
    (p : Point) (b : Bool) (s : Live)
    → (set_after p b s).changed ≡ true
    → (s.changed ≡ true) ⊎ (flag s.after p ≢ b)
unfolding set_after
set_after_changed p b s e = ground (arith, differ_iff b (flag s.after p))

set_before_changed :
    (p : Point) (b : Bool) (s : Live)
    → (set_before p b s).changed ≡ true
    → (s.changed ≡ true) ⊎ (flag s.before p ≢ b)
unfolding set_before
set_before_changed p b s e = ground (arith, differ_iff b (flag s.before p))

any_flag_mono :
    (m n : List (Point × Bool)) (qs : List Point)
    → ((q : Point) → flag m q ≡ true → flag n q ≡ true)
    → any_flag m qs ≡ true
    → any_flag n qs ≡ true
any_flag_mono m n qs h e =
    let (q, k, f) = (any_flag_iff m qs).0 e in (any_flag_iff n qs).1 (q, k, h q f)

module _ (succ : Point → List Point) (uses defines : Point → Bool) where
  abbrev pub new_after : Live → Point → Bool
  new_after s p = any_flag s.before (succ p)

  -- What `live_before` is, given `live_after`.
  abbrev pub before_from : Bool → Point → Bool
  before_from a p = uses p || (a && not (defines p))

  pub flag-after_update :
      (p q : Point) (s : Live)
      → flag (update succ uses defines p s).after q
        ≡ (if p == q then new_after s p else flag s.after q)
  unfolding update
  flag-after_update p q s = rw after-set_before (flag-set_after p q (new_after s p) s)

  pub flag-before_update :
      (p q : Point) (s : Live)
      → flag (update succ uses defines p s).before q
        ≡ (if p == q then before_from (new_after s p) p else flag s.before q)
  unfolding update
  flag-before_update p q s = rw flag-set_before (rw before-set_after refl)

  -- The flags are never more than what a step would compute.
  pub record Inv (s : Live) : Type 0 where
    pub sound : (p : Point) → flag s.before p ≡ true → LiveAt succ uses defines p
    pub after_from : (p : Point) → flag s.after p ≡ true → new_after s p ≡ true
    pub before_by : (p : Point) → flag s.before p ≡ true → before_from (flag s.after p) p ≡ true

  pub record Grows (s t : Live) : Type 0 where
    pub before : (q : Point) → flag s.before q ≡ true → flag t.before q ≡ true
    pub after : (q : Point) → flag s.after q ≡ true → flag t.after q ≡ true

  pub update-Grows : (p : Point) (s : Live) → Inv s → Grows s (update succ uses defines p s)
  update-Grows p s h = record {
    before = λ q f.
        ground (arith, flag-before_update p q s, h.after_from p, h.before_by p, point_beq_iff p q);
    after = λ q f. ground (arith, flag-after_update p q s, h.after_from p, point_beq_iff p q);
  }

  before_from_sound :
      (s : Live) (p : Point)
      → Inv s
      → before_from (new_after s p) p ≡ true
      → LiveAt succ uses defines p
  before_from_sound s p h e = elim (Bool-cases (uses p)) [
    | inl u ↦ used u
    | inr unread ↦
        let (q, k, f) = (any_flag_iff s.before (succ p)).0 (ground arith) in
        later (ground arith) k (h.sound q f)
  ]

  pub update-Inv : (p : Point) (s : Live) → Inv s → Inv (update succ uses defines p s)
  update-Inv p s h =
      let t = update succ uses defines p s in
      let g = update-Grows p s h in
      record {
        sound = λ q f. elim (Bool-cases (p == q)) [
          | inr other ↦ h.sound q (ground (arith, flag-before_update p q s))
          | inl same ↦
              subst (LiveAt succ uses defines) ((point_beq_iff p q).0 same)
                (before_from_sound s p h (ground (arith, flag-before_update p q s)))
        ];
        after_from = λ q f.
            any_flag_mono s.before t.before (succ q) g.before
              (ground (arith, flag-after_update p q s, h.after_from q, point_beq_iff p q));
        before_by = λ q f. ground (
          arith,
          flag-before_update p q s,
          flag-after_update p q s,
          h.before_by q,
          point_beq_iff p q,
        );
      }

  pub update_unchanged :
      (p : Point) (s : Live)
      → (update succ uses defines p s).changed ≡ false
      → (update succ uses defines p s ≡ s)
        × (flag s.after p ≡ new_after s p)
        × (flag s.before p ≡ before_from (new_after s p) p)
  unfolding update
  update_unchanged p s e =
      let a = new_after s p in
      let b = before_from a p in
      let s1 = set_after p a s in
      let (same1, f1) = set_before_unchanged p b s1 e in
      let (same0, f0) = set_after_unchanged p a s (subst (λ x. x.changed ≡ false) same1 e) in
      (same1 ∙ same0, f0, subst (λ x. flag x.before p ≡ b) same0 f1)

  -- Once set, `changed` stays set; a step that sets it flips a flag at its point.
  pub update_changed :
      (p : Point) (s : Live)
      → (update succ uses defines p s).changed ≡ true
      → (s.changed ≡ true)
        ⊎ (flag s.after p ≢ new_after s p)
        ⊎ (flag s.before p ≢ before_from (new_after s p) p)
  unfolding update
  update_changed p s e = ground (
    arith,
    set_before_changed p (before_from (new_after s p) p) (set_after p (new_after s p) s) e,
    set_after_changed p (new_after s p) s,
    before-set_after p (new_after s p) s,
    ap (λ (m : List (Point × Bool)). flag m p) (before-set_after p (new_after s p) s),
  )
