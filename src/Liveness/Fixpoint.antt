-- ===== src/Liveness/Fixpoint.antt =====
-- The sweeps end, and the flags that they end with are exact.
use ubel_stratum.Common.{
  ℕ, zero, suc, ◌+◌, ◌<◌, Bool, true, false, List, [], ◌∷◌, ◌≡◌, refl, ◌⊎◌, ◌↔◌, inl, inr, arith,
  length, contains, contains-cons, contains-nil, contains_head, Bool-cases, subst, sym,
  if◌then◌else◌, find, ap, ◌∙◌,
}
use ubel_stratum.Points.{Point, point_eq, point_beq_iff}
use ubel_stratum.Liveness.{Live, flag, all_false, update, sweep, iterate, fixed_point}
use ubel_stratum.Liveness.Exact.{LiveAt, used, later, LiveBehind, any_flag_iff}
use ubel_stratum.Liveness.Sweep.{
  new_after, before_from, Inv, Grows, update-Grows, update-Inv, update_unchanged, update_changed,
  flag-after_update, flag-before_update,
}

-- How many points have their flag unset.
falses : List Point → List (Point × Bool) → ℕ
falses [] m = 0
falses (u ∷ us) m = if flag m u then falses us m else suc (falses us m)

falses-le-length : (us : List Point) (m : List (Point × Bool)) → falses us m < suc (length us)
unfolding falses
falses-le-length [] m = omega arith
falses-le-length (u ∷ us) m = ground (arith, falses-le-length us m)

falses_mono :
    (us : List Point) (m n : List (Point × Bool))
    → ((q : Point) → flag m q ≡ true → flag n q ≡ true)
    → falses us n < suc (falses us m)
unfolding falses
falses_mono [] m n h = omega arith
falses_mono (u ∷ us) m n h = ground (arith, h u, falses_mono us m n h)

falses_strict :
    (us : List Point) (m n : List (Point × Bool)) (p : Point)
    → ((q : Point) → flag m q ≡ true → flag n q ≡ true)
    → contains us p ≡ true
    → flag m p ≡ false
    → flag n p ≡ true
    → falses us n < falses us m
unfolding falses
falses_strict [] m n p h k f g = cc (contains-nil p)
falses_strict (u ∷ us) m n p h k f g = elim ((contains-cons u us p).0 k) [
  | inl same ↦
      let f' = subst (λ x. flag m x ≡ false) (sym same) f in
      let g' = subst (λ x. flag n x ≡ true) (sym same) g in ground (arith, falses_mono us m n h)
  | inr rest ↦ ground (arith, h u, falses_strict us m n p h rest f g)
]

module _ (succ : Point → List Point) (uses defines : Point → Bool) where
  abbrev Step : Point → Live → Live
  Step = update succ uses defines

  abbrev Ok : Live → Type 0
  Ok = Inv succ uses defines

  -- What the iteration looks for, at one point.
  record Solved (s : Live) (p : Point) : Type 0 where
    after_eq : flag s.after p ≡ new_after succ uses defines s p
    before_eq : flag s.before p ≡ before_from succ uses defines (flag s.after p) p

  module _ (us : List Point) where
    work : Live → ℕ
    work s = falses us s.before + falses us s.after

    Grows-work : (s t : Live) → Grows succ uses defines s t → work t < suc (work s)
    unfolding work
    Grows-work s t g =
        omega
          (arith, falses_mono us s.before t.before g.before, falses_mono us s.after t.after g.after)

    update_work :
        (p : Point) (s : Live)
        → contains us p ≡ true
        → Ok s
        → (Step p s).changed ≡ true
        → (s.changed ≡ true) ⊎ (work (Step p s) < work s)
    unfolding work
    update_work p s k h e =
        let t = Step p s in
        let g = update-Grows succ uses defines p s h in
        ground (
          arith,
          update_changed succ uses defines p s e,
          flag-after_update succ uses defines p p s,
          flag-before_update succ uses defines p p s,
          point_beq_iff p p,
          h.after_from p,
          h.before_by p,
          falses_mono us s.before t.before g.before,
          falses_mono us s.after t.after g.after,
          falses_strict us s.before t.before p g.before k,
          falses_strict us s.after t.after p g.after k,
        )

    abbrev Within : List Point → Type 0
    Within ps = (p : Point) → contains ps p ≡ true → contains us p ≡ true

    record Swept (ps : List Point) (s t : Live) : Type 0 where
      inv : Ok t
      less : work t < suc (work s)
      progress : t.changed ≡ true → (s.changed ≡ true) ⊎ (work t < work s)
      still : t.changed ≡ false → (t ≡ s) × ((p : Point) → contains ps p ≡ true → Solved s p)

    sweep_lem :
        (ps : List Point) (s : Live) → Within ps → Ok s → Swept ps s (sweep succ uses defines ps s)
    unfolding sweep
    sweep_lem [] s w h = record {
      inv = h;
      less = omega arith;
      progress = inl;
      still = λ e. (refl, λ p k. cc (contains-nil p));
    }
    sweep_lem (p ∷ ps) s w h =
        let r = sweep_lem ps s (λ q k. w q ((contains-cons p ps q).1 (inr k))) h in
        let t = sweep succ uses defines ps s in
        record {
          inv = update-Inv succ uses defines p t r.inv;
          less =
              omega
                (arith, r.less, Grows-work t (Step p t) (update-Grows succ uses defines p t r.inv));
          progress = λ e. ground (
            arith,
            update_work p t (w p (contains_head p ps)) r.inv e,
            r.progress,
            r.less,
            Grows-work t (Step p t) (update-Grows succ uses defines p t r.inv),
          );
          still = λ e.
              let (same, a, b) = update_unchanged succ uses defines p t e in
              let (same', rest) = r.still (subst (λ x. x.changed ≡ false) same e) in
              (
                same ∙ same',
                λ q k. elim ((contains-cons p ps q).0 k) [
                  | inr later_on ↦ rest q later_on
                  | inl here ↦ subst (Solved s) here (
                      subst (λ x. Solved x p) same'
                        (record {
                          after_eq = a;
                          before_eq =
                              b ∙ ap (λ (x : Bool). before_from succ uses defines x p) (sym a);
                        }))
                ],
              );
        }

    work-changed : (s : Live) → work (record s { changed = false }) ≡ work s
    unfolding work
    work-changed s = refl

    record Final (s : Live) : Type 0 where
      inv : Ok s
      solved : (p : Point) → contains us p ≡ true → Solved s p

    iterate_lem :
        (fuel : ℕ) (s : Live) → Ok s → work s < fuel → Final (iterate succ uses defines fuel us s)
    unfolding iterate
    iterate_lem zero s h lt = absurd (omega arith)
    iterate_lem (suc fuel) s h lt =
        let s0 = record s { changed = false } in
        let h0 : Ok s0 = record {
          sound = h.sound;
          after_from = h.after_from;
          before_by = h.before_by;
        } in
        let r = sweep_lem us s0 (λ _ k. k) h0 in
        let t = sweep succ uses defines us s0 in
        elim (Bool-cases t.changed) [
          | inl more ↦
              rw (more, iterate)
                (iterate_lem fuel t r.inv (ground (arith, r.progress more, work-changed s)))
          | inr done ↦
              let (same, eqs) = r.still done in
              rw (done, iterate) (subst Final (sym same) (record { inv = h0; solved = eqs }))
        ]

    work-le : (s : Live) → work s < suc (length us + length us)
    unfolding work
    work-le s = omega (arith, falses-le-length us s.before, falses-le-length us s.after)

flag-all_false : (ps : List Point) (q : Point) → flag (all_false ps) q ≡ false
unfolding all_false flag find
flag-all_false [] q = refl
flag-all_false (p ∷ ps) q = ground (arith, flag-all_false ps q)

module _ (succ : Point → List Point) (uses defines : Point → Bool) (us : List Point)
    (bounded : (p q : Point) → contains (succ p) q ≡ true → contains us q ≡ true) where
  -- At a fixed point nothing that is live is missed.
  live_complete :
      (s : Live)
      → Final succ uses defines us s
      → {p : Point} → LiveAt succ uses defines p
      → contains us p ≡ true
      → flag s.before p ≡ true
  live_complete s h (used {p} u) k = ground (arith, (h.solved p k).before_eq)
  live_complete s h (later {p} {q} d n l) k =
      let rest = live_complete s h l (bounded p q n) in
      let ahead = (any_flag_iff s.before (succ p)).1 (q, n, rest) in
      ground (arith, (h.solved p k).before_eq, (h.solved p k).after_eq)

  solved_fixed_point :
      (fuel : ℕ)
      → length us + length us < fuel
      → Final succ uses defines us (fixed_point succ uses defines fuel us)
  unfolding fixed_point
  solved_fixed_point fuel lt =
      let start : Live = record { before = all_false us; after = all_false us; changed = true } in
      iterate_lem succ uses defines us fuel start
        (record {
          sound = λ p e. absurd (cc (flag-all_false us p));
          after_from = λ p e. absurd (cc (flag-all_false us p));
          before_by = λ p e. absurd (cc (flag-all_false us p));
        })
        (omega (arith, work-le succ uses defines us start))

  pub flag-before_fixed_point :
      (fuel : ℕ) (p : Point)
      → length us + length us < fuel
      → contains us p ≡ true
      → (flag (fixed_point succ uses defines fuel us).before p ≡ true) ↔ LiveAt succ uses defines p
  flag-before_fixed_point fuel p lt k =
      let h = solved_fixed_point fuel lt in
      (h.inv.sound p, λ l. live_complete (fixed_point succ uses defines fuel us) h l k)

  pub flag-after_fixed_point :
      (fuel : ℕ) (p : Point)
      → length us + length us < fuel
      → contains us p ≡ true
      → (flag (fixed_point succ uses defines fuel us).after p ≡ true)
        ↔ LiveBehind succ uses defines p
  flag-after_fixed_point fuel p lt k =
      let h = solved_fixed_point fuel lt in
      let s = fixed_point succ uses defines fuel us in
      (
        λ e.
            let (q, n, f) = (any_flag_iff s.before (succ p)).0 (h.inv.after_from p e) in
            (q, n, h.inv.sound q f),
        λ (q, n, l).
            (h.solved p k).after_eq
            ∙ (any_flag_iff s.before (succ p)).1 (q, n, live_complete s h l (bounded p q n)),
      )
