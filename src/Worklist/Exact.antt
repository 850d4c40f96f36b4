-- ===== src/Worklist/Exact.antt =====
-- The propagation ends, and its result is exactly the set of points with a path from the start on
-- which no inner point is a kill point.
use ubel_stratum.Common.{
  ℕ, zero, suc, ◌+◌, ◌<◌, Bool, true, false, List, [], ◌∷◌, ◌≡◌, refl, ap, ◌⊎◌, ◌↔◌, inl, inr,
  arith, length, length-append, contains, contains-cons, contains-append, contains-nil,
  contains_head, missing, missing-le-length, missing_insert, Bool-cases, subst, sym, List-cases,
}
use ubel_stratum.Points.{Point, point_eq}
use ubel_stratum.Worklist.{Search, push_new, push_all, round, drain, propagate}

module _ (succ : Point → List Point) (kill : Point → Bool) (from : Point) where
  pub data Flows : Point → Type 0 where
    first : {q : Point} → contains (succ from) q ≡ true → Flows q
    onward : {p q : Point} → Flows p → kill p ≡ false → contains (succ p) q ≡ true → Flows q

-- What pushing points does to the two sets.
pub record Pushed (ps : List Point) (s t : Search) : Type 0 where
  pub reaches_iff :
      (q : Point)
      → (contains t.reaches q ≡ true) ↔ ((contains s.reaches q ≡ true) ⊎ (contains ps q ≡ true))
  pub queued_iff :
      (q : Point)
      → (contains t.worklist q ≡ true)
        ↔ ((contains s.worklist q ≡ true) ⊎ (contains ps q ≡ true) × (contains s.reaches q ≡ false))

push_new_lem : (p : Point) (s : Search) → Pushed (p ∷ []) s (push_new p s)
unfolding push_new
push_new_lem p s = record {
  reaches_iff =
      λ q. ground (arith, contains-cons p [] q, contains-nil q, contains-cons p s.reaches q);
  queued_iff = λ q. ground (
    arith,
    contains-cons p [] q,
    contains-nil q,
    contains-append s.worklist (p ∷ []) q,
    ap (contains s.reaches),
  );
}

push_all_lem : (ps : List Point) (s : Search) → Pushed ps s (push_all ps s)
unfolding push_all
push_all_lem [] s = record {
  reaches_iff = λ q. ground (arith, contains-nil q);
  queued_iff = λ q. ground (arith, contains-nil q);
}
push_all_lem (p ∷ ps) s =
    let one = push_new_lem p s in
    let rest = push_all_lem ps (push_new p s) in
    record {
      reaches_iff = λ q. ground (
        arith,
        one.reaches_iff q,
        rest.reaches_iff q,
        contains-cons p ps q,
        contains-cons p [] q,
        contains-nil q,
      );
      queued_iff = λ q. ground (
        arith,
        one.reaches_iff q,
        one.queued_iff q,
        rest.queued_iff q,
        contains-cons p ps q,
        contains-cons p [] q,
        contains-nil q,
      );
    }

abbrev work : List Point → Search → ℕ
work us s = missing us s.reaches + length s.worklist

work-push_new :
    (us : List Point) (p : Point) (s : Search)
    → contains us p ≡ true
    → work us (push_new p s) < suc (work us s)
unfolding push_new
work-push_new us p s h =
    ground (arith, missing_insert us s.reaches p h, length-append s.worklist (p ∷ []))

work-push_all :
    (us : List Point) (ps : List Point) (s : Search)
    → ((q : Point) → contains ps q ≡ true → contains us q ≡ true)
    → work us (push_all ps s) < suc (work us s)
unfolding push_all
work-push_all us [] s h = omega arith
work-push_all us (p ∷ ps) s h = omega (
  arith,
  work-push_new us p s (h p (contains_head p ps)),
  work-push_all us ps (push_new p s) (λ q k. h q ((contains-cons p ps q).1 (inr k))),
)

module _ (succ : Point → List Point) (kill : Point → Bool) (from : Point) where
  record Inv (s : Search) : Type 0 where
    sound : (q : Point) → contains s.reaches q ≡ true → Flows succ kill from q
    start : (q : Point) → contains (succ from) q ≡ true → contains s.reaches q ≡ true
    queued : (q : Point) → contains s.worklist q ≡ true → contains s.reaches q ≡ true
    closed :
        (p q : Point)
        → contains s.reaches p ≡ true
        → kill p ≡ false
        → contains (succ p) q ≡ true
        → (contains s.worklist p ≡ true) ⊎ (contains s.reaches q ≡ true)

  Inv-start : Inv (push_all (succ from) (record { reaches = []; worklist = [] }))
  Inv-start =
      let l = push_all_lem (succ from) (record { reaches = []; worklist = [] }) in
      record {
        sound = λ q e. elim ((l.reaches_iff q).0 e) [
          | inl never ↦ absurd (cc (contains-nil q))
          | inr k ↦ first k
        ];
        start = λ q e. (l.reaches_iff q).1 (inr e);
        queued = λ q e. ground (arith, l.reaches_iff q, l.queued_iff q, contains-nil q);
        closed =
            λ p q e live k. inl (ground (arith, l.reaches_iff p, l.queued_iff p, contains-nil p));
      }

  Inv-round :
      (s : Search) (p : Point) (rest : List Point)
      → s.worklist ≡ p ∷ rest
      → Inv s
      → Inv (round succ kill p (record s { worklist = rest }))
  unfolding round
  Inv-round s p rest e h = elim (Bool-cases (kill p)) [
    | inl killed ↦
        rw (killed, round)
          (record {
            sound = h.sound;
            start = h.start;
            queued = λ q k. h.queued q ((front q).1 (inr k));
            closed = λ a q m open_a k. elim (h.closed a q m open_a k) [
              | inr done ↦ inr done
              | inl waits ↦ elim ((front a).0 waits) [
                | inr later ↦ inl later
                | inl same ↦ absurd (cc (ap kill same))
              ]
            ];
          })
    | inr live ↦
        let l = push_all_lem (succ p) (record s { worklist = rest }) in
        rw (live, round)
          (record {
            sound = λ q k. elim ((l.reaches_iff q).0 k) [
              | inl old ↦ h.sound q old
              | inr new ↦ onward (h.sound p (h.queued p ((front p).1 (inl refl)))) live new
            ];
            start = λ q k. (l.reaches_iff q).1 (inl (h.start q k));
            queued = λ q k. ground (arith, l.reaches_iff q, l.queued_iff q, h.queued q, front q);
            closed = λ a q m open_a k. elim (Bool-cases (contains s.reaches a)) [
              | inr new ↦ inl (ground (arith, l.reaches_iff a, l.queued_iff a))
              | inl old ↦ elim (h.closed a q old open_a k) [
                | inr done ↦ inr ((l.reaches_iff q).1 (inl done))
                | inl waits ↦ elim ((front a).0 waits) [
                  | inr later ↦ inl ((l.queued_iff a).1 (inl later))
                  | inl same ↦ inr (
                      (l.reaches_iff q).1
                        (inr (subst (λ x. contains (succ x) q ≡ true) (sym same) k)))
                ]
              ]
            ];
          })
  ]
    where
      front : (q : Point) → (contains s.worklist q ≡ true) ↔ ((p ≡ q) ⊎ (contains rest q ≡ true))
      front q = rw e (contains-cons p rest q)

  complete :
      (s : Search)
      → Inv s
      → s.worklist ≡ []
      → {q : Point} → Flows succ kill from q
      → contains s.reaches q ≡ true
  complete s h e (first {q} k) = h.start q k
  complete s h e (onward {p} {q} f live k) = elim (h.closed p q (complete s h e f) live k) [
    | inr done ↦ done
    | inl waits ↦ absurd (cc (contains-nil p, ap (λ w. contains w p) e))
  ]

  module _ (us : List Point)
      (bounded : (p q : Point) → contains (succ p) q ≡ true → contains us q ≡ true) where
    work-round : (p : Point) (s : Search) → work us (round succ kill p s) < suc (work us s)
    unfolding round
    work-round p s = ground (arith, work-push_all us (succ p) s (bounded p))

    drain_ends :
        (fuel : ℕ) (s : Search)
        → Inv s
        → work us s < suc fuel
        → Inv (drain succ kill fuel s) × ((drain succ kill fuel s).worklist ≡ [])
    unfolding drain
    drain_ends zero s h lt = (h, empty s.worklist (omega arith))
      where
        empty : (w : List Point) → length w < 1 → w ≡ []
        empty [] _ = refl
        empty (x ∷ w) k = absurd (omega arith)
    drain_ends (suc fuel) s h lt = elim (List-cases s.worklist) [
      | inl done ↦ rw (done, drain) (h, done)
      | inr (p, rest, e) ↦
          let s' = record s { worklist = rest } in
          rw (e, drain)
            (drain_ends fuel (round succ kill p s') (Inv-round s p rest e h)
              (omega (arith, work-round p s', ap length e)))
    ]

    pub contains-propagate :
        (fuel : ℕ)
        → length us < suc fuel
        → (q : Point)
        → (contains (propagate succ kill fuel from).reaches q ≡ true) ↔ Flows succ kill from q
    unfolding propagate
    contains-propagate fuel lt q =
        let s = push_all (succ from) (record { reaches = []; worklist = [] }) in
        let (h, e) = drain_ends fuel s Inv-start (
          omega (
            arith,
            work-push_all us (succ from) (record { reaches = []; worklist = [] }) (bounded from),
            missing-le-length us [],
          )) in
        (h.sound q, complete (drain succ kill fuel s) h e)
