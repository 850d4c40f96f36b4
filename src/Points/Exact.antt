-- ===== src/Points/Exact.antt =====
-- `first_points_of` and `succ_points` compute exactly the points that follow.
use ubel_stratum.Common.{
  ℕ, zero, suc, ◌+◌, ◌<◌, true, false, List, [], ◌∷◌, ◌++◌, ◌≡◌, ◌⊎◌, ◌↔◌, inl, inr, arith, length,
  is_empty, contains, nat_eq, contains-cons, contains-append, contains-nil, contains_head, missing,
  missing-le-length, missing_mono, missing_insert, below, contains-below, length-below, Bool-cases,
  ltb, get_or-out_of_range, subst, sym,
}
use ubel_stratum.Cfg.{BasicBlock, Cfg, block, block_successors}
use ubel_stratum.Points.{
  Point, point_eq, Found, extend_all, first_points_of, entries_of, succ_points,
}
use ubel_stratum.Points.Follows.{Leads, arrive, through, Follows, next_stmt, edge}

module _ (bs : List BasicBlock) where
  -- Nothing is left to explore behind a block.
  record Settled (f : Found) (x : ℕ) : Type 0 where
    here :
        is_empty (block bs x).stmts ≡ false
        → contains f.points (record { block = x; stmt_index = 0 }) ≡ true
    behind :
        is_empty (block bs x).stmts ≡ true
        → (s : ℕ) → contains (block_successors (block bs x)) s ≡ true
        → contains f.seen s ≡ true

  record Explores (b : ℕ) (seen : List ℕ) (f : Found) : Type 0 where
    grows : (x : ℕ) → contains seen x ≡ true → contains f.seen x ≡ true
    root : contains f.seen b ≡ true
    fresh : (x : ℕ) → contains f.seen x ≡ true → (contains seen x ≡ true) ⊎ Settled f x
    sound : (q : Point) → contains f.points q ≡ true → Leads bs b q

  record ExploresAll (ss : List ℕ) (seen : List ℕ) (f : Found) : Type 0 where
    grows : (x : ℕ) → contains seen x ≡ true → contains f.seen x ≡ true
    roots : (s : ℕ) → contains ss s ≡ true → contains f.seen s ≡ true
    fresh : (x : ℕ) → contains f.seen x ≡ true → (contains seen x ≡ true) ⊎ Settled f x
    sound :
        (q : Point) → contains f.points q ≡ true → (s : ℕ) × (contains ss s ≡ true) × Leads bs s q

  abbrev unseen : List ℕ → ℕ
  unseen = missing (below (length bs))

  Settled-mono :
      (f g : Found) (x : ℕ)
      → ((q : Point) → contains f.points q ≡ true → contains g.points q ≡ true)
      → ((s : ℕ) → contains f.seen s ≡ true → contains g.seen s ≡ true)
      → Settled f x
      → Settled g x
  Settled-mono f g x pts grow h = record {
    here = λ e. pts _ (h.here e);
    behind = λ e s m. grow s (h.behind e s m);
  }

  explores_none : (seen : List ℕ) → ExploresAll [] seen (record { points = []; seen = seen })
  explores_none seen = record {
    grows = λ x e. e;
    roots = λ s e. cc (contains-nil s);
    fresh = λ x e. inl e;
    sound = λ q e. absurd (cc (contains-nil q));
  }

  extend_all-Explores :
      (first : ℕ → List ℕ → Found) (m : ℕ)
      → ((b : ℕ) (seen : List ℕ) → unseen seen < m → Explores b seen (first b seen))
      → (ss seen : List ℕ) → unseen seen < m
      → ExploresAll ss seen (extend_all first ss seen)
  unfolding extend_all
  extend_all-Explores first m h [] seen lt = explores_none seen
  extend_all-Explores first m h (s ∷ ss) seen lt =
      let f = first s seen in
      let one = h s seen lt in
      let fewer = missing_mono (below (length bs)) seen f.seen one.grows in
      let rest = extend_all-Explores first m h ss f.seen (omega arith) in
      let g = extend_all first ss f.seen in
      let all : Found = record { points = f.points ++ g.points; seen = g.seen } in
      record {
        grows = λ x e. rest.grows x (one.grows x e);
        roots = λ t e. elim ((contains-cons s ss t).0 e) [
          | inl here ↦ rest.grows t (subst (λ y. contains f.seen y ≡ true) here one.root)
          | inr later ↦ rest.roots t later
        ];
        fresh = λ x e. elim (rest.fresh x e) [
          | inl old ↦ elim (one.fresh x old) [
            | inl older ↦ inl older
            | inr new ↦ inr (
                Settled-mono f all x (λ q k. (contains-append f.points g.points q).1 (inl k))
                  rest.grows new)
          ]
          | inr new ↦ inr (
              Settled-mono g all x (λ q k. (contains-append f.points g.points q).1 (inr k))
                (λ _ k. k) new)
        ];
        sound = λ q e. elim ((contains-append f.points g.points q).0 e) [
          | inl here ↦ (s, contains_head s ss, one.sound q here)
          | inr later ↦
              let (t, k, l) = rest.sound q later in (t, (contains-cons s ss t).1 (inr k), l)
        ];
      }

  no_successors : (b : ℕ) → length bs < suc b → block_successors (block bs b) ≡ []
  unfolding block block_successors
  no_successors b h = rw (get_or-out_of_range bs b _ h)

  -- The calls for the successors of an empty block; out of range there is none.
  explored :
      (fuel b : ℕ) (seen : List ℕ)
      → unseen seen < suc fuel
      → contains seen b ≡ false
      → ((b' : ℕ) (s : List ℕ) → unseen s < fuel → Explores b' s (first_points_of fuel bs b' s))
      → ExploresAll
          (block_successors (block bs b))
          (b ∷ seen)
          (extend_all (first_points_of fuel bs) (block_successors (block bs b)) (b ∷ seen))
  unfolding extend_all
  explored fuel b seen lt new ih = elim (Bool-cases (ltb b (length bs))) [
    | inl inside ↦
        extend_all-Explores (first_points_of fuel bs) fuel ih (block_successors (block bs b))
          (b ∷ seen)
          (omega (
            arith,
            missing_insert (below (length bs)) seen b (contains-below (length bs) b (ground arith))
                new,
          ))
    | inr outside ↦ rw (no_successors b (ground arith)) (explores_none (b ∷ seen))
  ]

  Explores-full :
      (b : ℕ) (seen : List ℕ)
      → is_empty (block bs b).stmts ≡ false
      → Explores b seen
          (record { points = record { block = b; stmt_index = 0 } ∷ []; seen = b ∷ seen })
  Explores-full b seen full =
      let pt : Point = record { block = b; stmt_index = 0 } in
      let f : Found = record { points = pt ∷ []; seen = b ∷ seen } in
      record {
        grows = λ x e. (contains-cons b seen x).1 (inr e);
        root = contains_head b seen;
        fresh = λ x e. elim ((contains-cons b seen x).0 e) [
          | inl same ↦ inr (
              subst (Settled f) same
                (record { here = λ _. contains_head pt []; behind = λ none. cc }))
          | inr old ↦ inl old
        ];
        sound = λ q e. elim ((contains-cons pt [] q).0 e) [
          | inl same ↦ subst (Leads bs b) same (arrive b full)
          | inr no_more ↦ absurd (cc (contains-nil q))
        ];
      }

  first_points_of-Explores :
      (fuel b : ℕ) (seen : List ℕ)
      → unseen seen < fuel
      → Explores b seen (first_points_of fuel bs b seen)
  unfolding first_points_of
  first_points_of-Explores zero b seen lt = absurd (omega arith)
  first_points_of-Explores (suc fuel) b seen lt = elim (Bool-cases (contains seen b)) [
    | inl old ↦
        rw (old, first_points_of)
          (record {
            grows = λ x e. e;
            root = old;
            fresh = λ x e. inl e;
            sound = λ q e. absurd (cc (contains-nil q));
          })
    | inr new ↦ elim (Bool-cases (is_empty (block bs b).stmts)) [
      | inr full ↦ rw (new, full, first_points_of) (Explores-full b seen full)
      | inl empty ↦
          let all = explored fuel b seen lt new (first_points_of-Explores fuel) in
          rw (new, empty, first_points_of)
            (record {
              grows = λ x e. all.grows x ((contains-cons b seen x).1 (inr e));
              root = all.grows b (contains_head b seen);
              fresh = λ x e. elim (all.fresh x e) [
                | inr settled ↦ inr settled
                | inl old ↦ elim ((contains-cons b seen x).0 old) [
                  | inr older ↦ inl older
                  | inl e' ↦ inr (
                      subst (Settled _) e'
                        (record { here = λ full. absurd (cc); behind = λ _ s k. all.roots s k }))
                ]
              ];
              sound = λ q e. let (s, k, l) = all.sound q e in through b s empty k l;
            })
    ]
  ]

  -- Everything seen is settled, so what a chain of empty blocks leads to is found.
  Leads-complete :
      (f : Found)
      → ((x : ℕ) → contains f.seen x ≡ true → Settled f x)
      → {b : ℕ} {q : Point} → Leads bs b q
      → contains f.seen b ≡ true
      → contains f.points q ≡ true
  Leads-complete f all (arrive b full) m = (all b m).here full
  Leads-complete f all (through b s empty k l) m =
      Leads-complete f all l ((all b m).behind empty s k)

  pub contains-first_points_of :
      (b : ℕ) (q : Point)
      → (contains (first_points_of (suc (length bs)) bs b []).points q ≡ true) ↔ Leads bs b q
  contains-first_points_of b q =
      let f = first_points_of (suc (length bs)) bs b [] in
      let e =
        first_points_of-Explores (suc (length bs)) b []
          (omega (arith, missing-le-length (below (length bs)) [], length-below (length bs))) in
      (
        e.sound q,
        λ l.
            Leads-complete f
              (λ x m. elim (e.fresh x m) [
                | inl old ↦ absurd (cc (contains-nil x))
                | inr settled ↦ settled
              ])
              l e.root,
      )

  pub contains-entries_of :
      (ss : List ℕ) (q : Point)
      → (contains (entries_of bs ss) q ≡ true) ↔ ((s : ℕ) × (contains ss s ≡ true) × Leads bs s q)
  unfolding entries_of
  contains-entries_of [] q = (λ e. absurd (cc (contains-nil q)), λ (s, k, l). cc (contains-nil s))
  contains-entries_of (s ∷ ss) q =
      let pts = (first_points_of (suc (length bs)) bs s []).points in
      (
        λ e. elim ((contains-append pts (entries_of bs ss) q).0 e) [
          | inl here ↦ (s, contains_head s ss, (contains-first_points_of s q).0 here)
          | inr later ↦
              let (t, k, l) = (contains-entries_of ss q).0 later in
              (t, (contains-cons s ss t).1 (inr k), l)
        ],
        λ (t, k, l).
            (contains-append pts (entries_of bs ss) q).1 (elim ((contains-cons s ss t).0 k) [
              | inl here ↦
                  inl ((contains-first_points_of s q).1 (subst (λ x. Leads bs x q) (sym here) l))
              | inr later ↦ inr ((contains-entries_of ss q).1 (t, later, l))
            ]),
      )

Follows-inside :
    (c : Cfg) (p : Point)
    → p.stmt_index + 1 < length (block c.blocks p.block).stmts
    → {q : Point} → Follows c p q
    → contains (record { block = p.block; stmt_index = p.stmt_index + 1 } ∷ []) q ≡ true
Follows-inside c p h (next_stmt _) =
    let next : Point = record { block = p.block; stmt_index = p.stmt_index + 1 } in
    contains_head next []
Follows-inside c p h (edge s last k l) = absurd (omega arith)

Follows-edge :
    (c : Cfg) (p : Point)
    → length (block c.blocks p.block).stmts < p.stmt_index + 2
    → {q : Point} → Follows c p q
    → contains (entries_of c.blocks (block_successors (block c.blocks p.block))) q ≡ true
Follows-edge c p h (next_stmt inside) = absurd (omega arith)
Follows-edge c p h (edge {q} s last k l) = (contains-entries_of c.blocks _ q).1 (s, k, l)

-- A point is among `succ_points` of another exactly if it follows it.
pub contains-succ_points :
    (c : Cfg) (p q : Point) → (contains (succ_points c p) q ≡ true) ↔ Follows c p q
unfolding succ_points
contains-succ_points c p q =
    let n = length (block c.blocks p.block).stmts in
    let ss = block_successors (block c.blocks p.block) in
    let next : Point = record { block = p.block; stmt_index = p.stmt_index + 1 } in
    elim (Bool-cases (ltb (p.stmt_index + 1) n)) [
      | inl inside ↦
          rw (inside, succ_points)
            (
              λ e. elim ((contains-cons next [] q).0 e) [
                | inl same ↦ subst (Follows c p) same (next_stmt (ground arith))
                | inr no_more ↦ absurd (cc (contains-nil q))
              ],
              Follows-inside c p (ground arith),
            )
      | inr outside ↦
          rw (outside, succ_points)
            (
              λ e.
                  let (s, k, l) = (contains-entries_of c.blocks ss q).0 e in
                  edge s (ground arith) k l,
              Follows-edge c p (ground arith),
            )
    ]
