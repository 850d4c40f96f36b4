-- ===== src/MoveCheck/Uses.antt =====
-- The move check against paths in the graph.
use ubel_stratum.Common.{
  true, List, [], ◌∷◌, ◌++◌, ◌≡◌, refl, ◌↔◌, inl, inr, arith, length, contains, contains-cons,
  contains-nil, contains_head, list_at, Among, Among-append, Bool-cases, subst, sym,
}
use ubel_stratum.Cfg.{Cfg, IsWellFormed}
use ubel_stratum.Points.{Point, point_eq, succ_points, all_points}
use ubel_stratum.Points.Universe.{succ_points_bounded}
use ubel_stratum.Facts.{Place, place_eq, Facts}
use ubel_stratum.Worklist.Exact.{Flows, contains-propagate}
use ubel_stratum.MoveFacts.{MoveFact, MoveFacts}
use ubel_stratum.MoveCheck.{
  Violation, compute_moved_reaches, Report, violation, report_candidate, report_candidates,
  report_sources, check_place, check_places, check,
}

-- A path leads from the first point to the second, and no point inside it defines the place anew.
abbrev pub StillMoved : Cfg → Facts → Place → Point → Point → Type 0
StillMoved c f place = Flows (succ_points c) (contains (list_at place f.place_defined_at))

-- A use that comes after a move: why a violation is reported.
pub record UseAfterMove (c : Cfg) (f : Facts) (place : Place) (all : List MoveFact) (v : Violation)
    (at : Point) : Type 0 where
  pub source : MoveFact
  pub candidate : MoveFact
  pub source_among : Among source all
  pub candidate_among : Among candidate all
  pub still_moved : StillMoved c f place source.point candidate.point
  pub at_point : candidate.point ≡ at
  pub reported : violation place source candidate ≡ v

module _ (c : Cfg) (w : IsWellFormed c) (f : Facts) where
  -- In a well-formed graph, with the definitions of a place as kill points, `compute_moved_reaches`
  -- ends with exactly the points where the value may still be moved.
  pub contains-compute_moved_reaches :
      (place : Place) (from q : Point)
      → (contains (compute_moved_reaches c from (list_at place f.place_defined_at)) q ≡ true)
        ↔ StillMoved c f place from q
  unfolding compute_moved_reaches
  contains-compute_moved_reaches place from q =
      contains-propagate (succ_points c) (contains (list_at place f.place_defined_at)) from
        (all_points c) (succ_points_bounded c w) (length (all_points c)) (omega arith) q

  module _ (place : Place) (all : List MoveFact) where
    record Sound (r : Report) : Type 0 where
      explained :
          (v : Violation) → Among v r.violations → (p : Point) × UseAfterMove c f place all v p
      logged :
          (p : Point)
          → contains r.already_reported p ≡ true
          → (v : Violation) × Among v r.violations × UseAfterMove c f place all v p

    -- What scanning candidates for one source, or sources for all candidates, gives.
    record Extends (r t : Report) : Type 0 where
      sound : Sound t
      grows :
          (p : Point) → contains r.already_reported p ≡ true → contains t.already_reported p ≡ true

    Extends-trans : (r s t : Report) → Extends r s → Extends s t → Extends r t
    Extends-trans r s t a b = record { sound = b.sound; grows = λ p k. b.grows p (a.grows p k) }

    Extends-refl : (r : Report) → Sound r → Extends r r
    Extends-refl r h = record { sound = h; grows = λ p k. k }

    abbrev reaches_of : MoveFact → List Point
    reaches_of source = compute_moved_reaches c source.point (list_at place f.place_defined_at)

    added :
        (source candidate : MoveFact) (r : Report)
        → Among source all
        → Among candidate all
        → contains (reaches_of source) candidate.point ≡ true
        → Sound r
        → Extends r (record {
          already_reported = candidate.point ∷ r.already_reported;
          violations = r.violations ++ violation place source candidate ∷ [];
        })
    added source candidate r hs hc k h =
        let v = violation place source candidate in
        let why : UseAfterMove c f place all v candidate.point = record {
          source = source;
          candidate = candidate;
          source_among = hs;
          candidate_among = hc;
          still_moved = (contains-compute_moved_reaches place source.point candidate.point).0 k;
          at_point = refl;
          reported = refl;
        } in
        let last = (Among-append r.violations (v ∷ []) v).1 (inr (inl refl)) in
        record {
          sound = record {
            explained = λ u m. elim ((Among-append r.violations (v ∷ []) u).0 m) [
              | inl old ↦ h.explained u old
              | inr new ↦ elim new [
                | inl same ↦ (
                  candidate.point,
                  subst (λ x. UseAfterMove c f place all x candidate.point) same why,
                )
                | inr never ↦ elim never [ ]
              ]
            ];
            logged = λ p m. elim ((contains-cons candidate.point r.already_reported p).0 m) [
              | inl same ↦ (v, last, subst (UseAfterMove c f place all v) same why)
              | inr old ↦
                  let (u, n, e) = h.logged p old in
                  (u, (Among-append r.violations (v ∷ []) u).1 (inl n), e)
            ];
          };
          grows = λ p m. (contains-cons candidate.point r.already_reported p).1 (inr m);
        }

    report_candidate_lem :
        (source candidate : MoveFact) (r : Report)
        → Among source all
        → Among candidate all
        → Sound r
        → Extends r (report_candidate place (reaches_of source) source candidate r)
          × (contains (reaches_of source) candidate.point ≡ true
              → contains
                  (report_candidate place (reaches_of source) source candidate r).already_reported
                  candidate.point
                ≡ true)
    unfolding report_candidate
    report_candidate_lem source candidate r hs hc h =
        elim (Bool-cases (contains r.already_reported candidate.point)) [
          | inl old ↦ rw (old, report_candidate) (Extends-refl r h, λ _. old)
          | inr new ↦ elim (Bool-cases (contains (reaches_of source) candidate.point)) [
            | inr clear ↦ rw (new, clear, report_candidate) (Extends-refl r h, λ k. cc)
            | inl moved ↦
                rw (new, moved, report_candidate)
                  (
                    added source candidate r hs hc moved h,
                    λ _. contains_head candidate.point r.already_reported,
                  )
          ]
        ]

    report_candidates_lem :
        (source : MoveFact) (ms : List MoveFact) (r : Report)
        → Among source all
        → ((n : MoveFact) → Among n ms → Among n all)
        → Sound r
        → Extends r (report_candidates place (reaches_of source) source ms r)
          × ((n : MoveFact)
              → Among n ms
              → StillMoved c f place source.point n.point
              → contains
                  (report_candidates place (reaches_of source) source ms r).already_reported
                  n.point
                ≡ true)
    unfolding report_candidates
    report_candidates_lem source [] r hs sub h = (Extends-refl r h, λ n m. elim m [ ])
    report_candidates_lem source (m ∷ ms) r hs sub h =
        let r1 = report_candidate place (reaches_of source) source m r in
        let (e1, hit) = report_candidate_lem source m r hs (sub m (inl refl)) h in
        let (e2, hits) = report_candidates_lem source ms r1 hs (λ n k. sub n (inr k)) e1.sound in
        (
          Extends-trans r r1 (report_candidates place (reaches_of source) source ms r1) e1 e2,
          λ n k s. elim k [
            | inr rest ↦ hits n rest s
            | inl same ↦
                subst
                  (λ (x : MoveFact).
                    contains
                      (report_candidates place (reaches_of source) source ms r1).already_reported
                      x.point
                    ≡ true)
                  same
                  (e2.grows m.point (
                    hit (
                      (contains-compute_moved_reaches place source.point m.point).1 (
                        subst (λ (x : MoveFact). StillMoved c f place source.point x.point)
                          (sym same) s))))
          ],
        )

    report_sources_lem :
        (ms : List MoveFact) (r : Report)
        → ((n : MoveFact) → Among n ms → Among n all)
        → Sound r
        → Extends r (report_sources c (list_at place f.place_defined_at) place all ms r)
          × ((source n : MoveFact)
              → Among source ms
              → Among n all
              → StillMoved c f place source.point n.point
              → contains
                  (report_sources c
                    (list_at place f.place_defined_at)
                    place
                    all
                    ms
                    r).already_reported
                  n.point
                ≡ true)
    unfolding report_sources
    report_sources_lem [] r sub h = (Extends-refl r h, λ s n m. elim m [ ])
    report_sources_lem (m ∷ ms) r sub h =
        let r1 = report_candidates place (reaches_of m) m all r in
        let (e1, hits) = report_candidates_lem m all r (sub m (inl refl)) (λ _ k. k) h in
        let (e2, rest) = report_sources_lem ms r1 (λ n k. sub n (inr k)) e1.sound in
        let t = report_sources c (list_at place f.place_defined_at) place all ms r1 in
        (
          Extends-trans r r1 t e1 e2,
          λ s n k kn fl. elim k [
            | inr later ↦ rest s n later kn fl
            | inl same ↦ e2.grows n.point (
                hits n kn
                  (subst (λ (x : MoveFact). StillMoved c f place x.point n.point) (sym same) fl))
          ],
        )

    start-Sound : Sound (record { already_reported = []; violations = [] })
    start-Sound = record { explained = λ v m. elim m [ ]; logged = λ p k. cc (contains-nil p) }

    at_place :
        (v : Violation)
        → Among v
            (report_sources c
              (list_at place f.place_defined_at)
              place
              all
              all
              (record { already_reported = []; violations = [] })).violations
        → (p : Point) × UseAfterMove c f place all v p
    at_place =
        let start : Report = record { already_reported = []; violations = [] } in
        (report_sources_lem all start (λ _ k. k) start-Sound).0.sound.explained

    found_at :
        (source n : MoveFact)
        → Among source all
        → Among n all
        → StillMoved c f place source.point n.point
        → (v : Violation) × Among v
            (report_sources c
              (list_at place f.place_defined_at)
              place
              all
              all
              (record { already_reported = []; violations = [] })).violations
          × UseAfterMove c f place all v n.point
    found_at source n hs hn fl =
        let start : Report = record { already_reported = []; violations = [] } in
        let (e, hits) = report_sources_lem all start (λ _ k. k) start-Sound in
        e.sound.logged n.point (hits source n hs hn fl)

  module _ (m : MoveFacts) where
    abbrev pub candidates : Place → List MoveFact
    candidates place = list_at place m.moved_at

    Among-check_places :
        (ps : List Place) (v : Violation)
        → Among v (check_places c f m ps)
          ↔ ((place : Place) × Among place ps × Among v (check_place c f m place))
    unfolding check_places
    Among-check_places [] v = (λ k. elim k [ ], λ (p, k, n). elim k [ ])
    Among-check_places (p ∷ ps) v = (
      λ k. elim ((Among-append (check_place c f m p) (check_places c f m ps) v).0 k) [
        | inl here ↦ (p, inl refl, here)
        | inr rest ↦ let (q, n, l) = (Among-check_places ps v).0 rest in (q, inr n, l)
      ],
      λ (q, n, l). (Among-append (check_place c f m p) (check_places c f m ps) v).1 (elim n [
        | inl same ↦ inl (subst (λ x. Among v (check_place c f m x)) (sym same) l)
        | inr rest ↦ inr ((Among-check_places ps v).1 (q, rest, l))
      ]),
    )

    -- In a well-formed graph, every violation of the check is a use of a tracked local that some path leads to from an
    -- earlier move, or from itself round a loop, with no fresh definition in between.
    pub check_sound :
        (v : Violation)
        → Among v (check c f m)
        → (place : Place) × Among place m.tracked_locals
          × (p : Point) × UseAfterMove c f place (candidates place) v p
    unfolding check check_place
    check_sound v k =
        let (place, n, l) = (Among-check_places m.tracked_locals v).0 k in
        let (p, u) = at_place place (candidates place) v l in (place, n, p, u)

    -- In a well-formed graph, a use of a tracked local that a path leads to from a move, with no fresh
    -- definition in between, is reported at its point, with some move that leads to it.
    pub check_complete :
        (place : Place) (source n : MoveFact)
        → Among place m.tracked_locals
        → Among source (candidates place)
        → Among n (candidates place)
        → StillMoved c f place source.point n.point
        → (v : Violation) × Among v (check c f m)
          × UseAfterMove c f place (candidates place) v n.point
    unfolding check check_place
    check_complete place source n k hs hn fl =
        let (v, l, u) = found_at place (candidates place) source n hs hn fl in
        (v, (Among-check_places m.tracked_locals v).1 (place, k, l), u)
