-- ===== src/Cfg/Builder.antt =====
-- The builder of crates/core/src/sema/cfg.rs as a state monad: its methods return `Option`, and `?`
-- stops at `none` with the blocks built so far.
use ubel_stratum.Common.{ℕ, List, [], ◌∷◌, ◌++◌, Option, none, some, length, modify}
use ubel_stratum.Ast.{Stmt}
use ubel_stratum.Cfg.Types.{Terminator, return_term, BasicBlock}

-- The loop last entered stands first in `loop_stack`.
pub record Builder : Type 0 where
  pub blocks : List BasicBlock
  pub loop_stack : List (ℕ × ℕ)

abbrev pub M : Type 0 → Type 0
M A = Builder → Option A × Builder

infixl 5 ◌>>=◌ ◌>>◌
unfoldable pub ◌>>=◌ : {A B : Type 0} → M A → (A → M B) → M B
◌>>=◌ m f b = elim (m b).0 [ none ↦ (none, (m b).1) | some a ↦ f a (m b).1 ]

unfoldable pub ◌>>◌ : {A B : Type 0} → M A → M B → M B
unfolding ◌>>=◌
m >> k = m >>= λ _. k

unfoldable pub pure : {A : Type 0} → A → M A
pure a b = (some a, b)

-- The method stops: `return None`.
unfoldable pub stop : {A : Type 0} → M A
stop b = (none, b)

-- A call whose `Option` is looked at, and not passed on by `?`.
unfoldable pub attempt : {A : Type 0} → M A → M (Option A)
attempt m b = (some (m b).0, (m b).1)

unfoldable pub new_block : M ℕ
new_block b = (
  some (length b.blocks),
  record b {
    blocks = b.blocks ++ record { id = length b.blocks; stmts = []; terminator = return_term } ∷ [];
  },
)

unfoldable pub set_terminator : ℕ → Terminator → M (Unit {0})
set_terminator id term b =
    (some tt, record b { blocks = modify b.blocks id (λ bb. record bb { terminator = term }) })

unfoldable pub push_stmt : ℕ → Stmt → M (Unit {0})
push_stmt id stmt b = (
  some tt,
  record b { blocks = modify b.blocks id (λ bb. record bb { stmts = bb.stmts ++ stmt ∷ [] }) },
)

unfoldable pub push_loop : ℕ → ℕ → M (Unit {0})
push_loop header exit b = (some tt, record b { loop_stack = (header, exit) ∷ b.loop_stack })

unfoldable pub pop_loop : M (Unit {0})
pop_loop b = (some tt, record b { loop_stack = elim b.loop_stack [ [] ↦ [] | _ ∷ r ↦ r ] })

-- `self.loop_stack.last()`
unfoldable pub last_loop : M (Option (ℕ × ℕ))
last_loop b = (some (elim b.loop_stack [ [] ↦ none | l ∷ _ ↦ some l ]), b)
