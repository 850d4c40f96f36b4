-- ===== src/Cfg/Types.antt =====
-- The graph's types, crates/core/src/sema/cfg.rs.
use ubel_stratum.Common.{ℕ, Bool, true, false, List, [], get_or, contains, nat_eq, ◌==◌}
use ubel_stratum.Common.{◌∷◌, ◌≡◌, ◌<◌, length}
use ubel_stratum.Ast.{Stmt}

pub data Terminator : Type 0 where
  goto : ℕ → Terminator
  branch : List ℕ → Terminator
  return_term unreachable : Terminator

pub record BasicBlock : Type 0 where
  pub id : ℕ
  pub stmts : List Stmt
  pub terminator : Terminator

pub record Cfg : Type 0 where
  pub blocks : List BasicBlock
  pub entry : ℕ

abbrev pub dead_block : BasicBlock
dead_block = record { id = 0; stmts = []; terminator = unreachable }

-- `Cfg::block`
unfoldable pub block : List BasicBlock → ℕ → BasicBlock
block bs id = get_or bs id dead_block

-- The test of `Cfg::predecessors`.
targets : Terminator → ℕ → Bool
unfolding contains
targets (goto t) id = t == id
targets (branch ts) id = contains ts id
targets _ id = false

collect_predecessors : ℕ → List BasicBlock → List ℕ
unfolding targets
collect_predecessors id [] = []
collect_predecessors id (b ∷ bs) =
    let rest = collect_predecessors id bs in
    elim (targets b.terminator id) [ true ↦ b.id ∷ rest | false ↦ rest ]

unfoldable pub predecessors : Cfg → ℕ → List ℕ
unfolding collect_predecessors
predecessors c id = collect_predecessors id c.blocks

-- `block_successors` of crates/core/src/sema/borrow_check.rs
unfoldable pub block_successors : BasicBlock → List ℕ
block_successors b = elim b.terminator [ goto t ↦ t ∷ [] | branch ts ↦ ts | _ ↦ [] ]

-- What `build` guarantees: a block stands at its number, and no edge leaves the graph.
pub record IsWellFormed (c : Cfg) : Type 0 where
  pub ids : (i : ℕ) → i < length c.blocks → (block c.blocks i).id ≡ i
  pub targets :
      (i t : ℕ) → contains (block_successors (block c.blocks i)) t ≡ true → t < length c.blocks
