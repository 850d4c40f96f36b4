-- ===== src/Points/Follows.antt =====
-- What it means that a point follows another: the next statement of the block, or the first
-- statement of a block that an edge leads to, through any number of blocks without statements.
use ubel_stratum.Common.{ℕ, ◌+◌, ◌<◌, true, false, List, ◌≡◌, length, is_empty, contains, nat_eq}
use ubel_stratum.Cfg.{BasicBlock, Cfg, block, block_successors}
use ubel_stratum.Points.{Point}

pub data Leads (bs : List BasicBlock) : ℕ → Point → Type 0 where
  arrive :
      (b : ℕ)
      → is_empty (block bs b).stmts ≡ false
      → Leads bs b (record { block = b; stmt_index = 0 })
  through :
      {q : Point} (b s : ℕ)
      → is_empty (block bs b).stmts ≡ true
      → contains (block_successors (block bs b)) s ≡ true
      → Leads bs s q
      → Leads bs b q

pub data Follows (c : Cfg) (p : Point) : Point → Type 0 where
  next_stmt :
      p.stmt_index + 1 < length (block c.blocks p.block).stmts
      → Follows c p (record { block = p.block; stmt_index = p.stmt_index + 1 })
  edge :
      {q : Point} (s : ℕ)
      → length (block c.blocks p.block).stmts < p.stmt_index + 2
      → contains (block_successors (block c.blocks p.block)) s ≡ true
      → Leads c.blocks s q
      → Follows c p q
