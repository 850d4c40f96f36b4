-- ===== src/Points/Universe.antt =====
-- In a graph whose blocks carry their indices, every point that follows another is one of
-- `all_points`.
use ubel_stratum.Common.{
  ℕ, zero, suc, ◌+◌, ◌<◌, true, List, [], ◌∷◌, ◌≡◌, inl, inr, arith, length, get_or, contains,
  contains-cons, contains-append, subst, nat_eq,
}
use ubel_stratum.Ast.{Stmt}
use ubel_stratum.Cfg.{BasicBlock, Cfg, block, dead_block, IsWellFormed}
use ubel_stratum.Points.{Point, point_eq, succ_points, points_of, points_of_blocks, all_points}
use ubel_stratum.Points.Follows.{Leads, arrive, through, Follows, next_stmt, edge}
use ubel_stratum.Points.Exact.{contains-succ_points}

contains-points_of :
    (b i j : ℕ) (ss : List Stmt)
    → j < length ss
    → contains (points_of b i ss) (record { block = b; stmt_index = i + j }) ≡ true
unfolding points_of contains
contains-points_of b i zero (s ∷ ss) h = ground arith
contains-points_of b i (suc j) (s ∷ ss) h =
    let e : (i + 1) + j ≡ i + suc j = omega arith in
    let r =
      subst (λ k. contains (points_of b (i + 1) ss) (record { block = b; stmt_index = k }) ≡ true) e
        (contains-points_of b (i + 1) j ss (omega arith)) in
    (contains-cons (record { block = b; stmt_index = i }) (points_of b (i + 1) ss)
        (record { block = b; stmt_index = i + suc j })).1
      (inr r)
contains-points_of b i j [] h = elim h [ ]

contains-points_of_blocks :
    (bs : List BasicBlock) (i j : ℕ)
    → j < length (get_or bs i dead_block).stmts
    → contains
        (points_of_blocks bs)
        (record { block = (get_or bs i dead_block).id; stmt_index = j })
      ≡ true
unfolding points_of_blocks
contains-points_of_blocks [] i j h = elim h [ ]
contains-points_of_blocks (b ∷ bs) zero j h =
    (contains-append (points_of b.id 0 b.stmts) (points_of_blocks bs)
        (record { block = b.id; stmt_index = j })).1
      (inl (
        subst
          (λ k.
            contains (points_of b.id 0 b.stmts) (record { block = b.id; stmt_index = k }) ≡ true)
          (let e : 0 + j ≡ j = omega arith in e) (contains-points_of b.id 0 j b.stmts h)))
contains-points_of_blocks (b ∷ bs) (suc i) j h =
    (contains-append (points_of b.id 0 b.stmts) (points_of_blocks bs)
        (record { block = (get_or bs i dead_block).id; stmt_index = j })).1
      (inr (contains-points_of_blocks bs i j h))

Leads-in_range :
    {bs : List BasicBlock} {b : ℕ} {q : Point}
    → Leads bs b q
    → q.stmt_index < length (block bs q.block).stmts
Leads-in_range (arrive b full) = ground arith
Leads-in_range (through b s empty k l) = Leads-in_range l

pub Follows-in_range :
    {c : Cfg} {p q : Point} → Follows c p q → q.stmt_index < length (block c.blocks q.block).stmts
Follows-in_range (next_stmt h) = h
Follows-in_range (edge s last k l) = Leads-in_range l

stmt-lt-length : (bs : List BasicBlock) (i j : ℕ) → j < length (block bs i).stmts → i < length bs
unfolding block
stmt-lt-length [] i j h = elim h [ ]
stmt-lt-length (b ∷ bs) zero j h = omega arith
stmt-lt-length (b ∷ bs) (suc i) j h = omega (arith, stmt-lt-length bs i j h)

pub contains-all_points :
    (c : Cfg)
    → IsWellFormed c
    → (q : Point) → q.stmt_index < length (block c.blocks q.block).stmts
    → contains (all_points c) q ≡ true
unfolding all_points block
contains-all_points c w q h =
    subst
      (λ b.
        contains (points_of_blocks c.blocks) (record { block = b; stmt_index = q.stmt_index })
        ≡ true)
      (w.ids q.block (stmt-lt-length c.blocks q.block q.stmt_index h))
      (contains-points_of_blocks c.blocks q.block q.stmt_index h)

pub succ_points_bounded :
    (c : Cfg)
    → IsWellFormed c
    → (p q : Point) → contains (succ_points c p) q ≡ true
    → contains (all_points c) q ≡ true
succ_points_bounded c w p q k =
    contains-all_points c w q (Follows-in_range ((contains-succ_points c p q).0 k))
