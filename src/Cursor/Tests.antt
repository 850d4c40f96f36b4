-- ===== src/Cursor/Tests.antt =====
-- Cursors over a few tokens, of which 1 opens, 2 closes and the rest do neither.
use ubel_stratum.Common.{ℕ, ◌<◌, true, List, [], ◌∷◌, ◌≡◌, refl, arith, some, none, nat_eq}
use ubel_stratum.Cursor.Moves.{
  Kind, eof, right_shift, other, Token, Cursor, peek_token, advance, eat_generic_close, skip_loop,
  skip_until, skip_until_any, any_equal, balanced_loop, skip_balanced,
}
use ubel_stratum.Cursor.Skip.{IsValid, StopsAtFirst, skip_until_any-StopsAtFirst}
use ubel_stratum.Cursor.Balanced.{Balanced, empty, plain, block, skip_balanced_lem}
use ubel_stratum.Tests.{at}

abbrev tok : Kind ℕ → Token ℕ
tok k = record { kind = k; span = at 0 }

-- { a } b }
abbrev tokens : List (Token ℕ)
tokens =
    tok (other 1)
    ∷ (tok (other 7) ∷ (tok (other 2) ∷ (tok (other 8) ∷ (tok (other 2) ∷ (tok eof ∷ [])))))

abbrev cursor : ℕ → Cursor ℕ
cursor pos = record { tokens = tokens; pos = pos; split_at = none }

unfoldable methods : Unit {0}
unfolding peek_token advance eat_generic_close skip_loop skip_until skip_until_any balanced_loop
    skip_balanced
methods = tt

-- From behind the first token, to behind its close.
inner : skip_balanced (cursor 1) (other 1) (other 2) ≡ some (cursor 3, true)
unfolding methods
inner = refl

-- From the first token on, the close of the block does not end the skip.
overshoot : skip_balanced (cursor 0) (other 1) (other 2) ≡ some (cursor 5, true)
unfolding methods
overshoot = refl

sync : skip_until_any (cursor 0) (other 8 ∷ (other 2 ∷ [])) ≡ cursor 2
unfolding methods
sync = refl

-- Both halves of a `>>`.
abbrev shifted : Cursor ℕ
shifted = record { tokens = tok right_shift ∷ (tok eof ∷ []); pos = 0; split_at = none }

first_half : (eat_generic_close shifted).0.pos ≡ 0
unfolding methods
first_half = refl

second_half : (eat_generic_close (eat_generic_close shifted).0).0.pos ≡ 1
unfolding methods
second_half = refl

cursor-IsValid : (pos : ℕ) → pos < 6 → IsValid (cursor pos)
cursor-IsValid pos h = record { nonempty = omega arith; ends = refl; in_range = h }

skip_until_any-StopsAtFirst_example :
    StopsAtFirst
      (any_equal (other 8 ∷ (other 2 ∷ [])))
      (cursor 0)
      (skip_until_any (cursor 0) (other 8 ∷ (other 2 ∷ [])))
skip_until_any-StopsAtFirst_example =
    skip_until_any-StopsAtFirst (cursor 0) (other 8 ∷ (other 2 ∷ []))
      (cursor-IsValid 0 (omega arith))

one_block : Balanced (other 1) (other 2) tokens 0 3
one_block =
    block (record { there = refl; is_open = refl; not_close = refl })
      (plain (record { there = refl; not_open = refl; not_close = refl }) empty)
      (record { there = refl; not_open = refl; is_close = refl }) empty

up_to_close : Balanced (other 1) (other 2) tokens 0 4
up_to_close =
    block (record { there = refl; is_open = refl; not_close = refl })
      (plain (record { there = refl; not_open = refl; not_close = refl }) empty)
      (record { there = refl; not_open = refl; is_close = refl })
      (plain (record { there = refl; not_open = refl; not_close = refl }) empty)

skip_balanced_lem_example : skip_balanced (cursor 0) (other 1) (other 2) ≡ some (cursor 5, true)
skip_balanced_lem_example =
    skip_balanced_lem (other 1) (other 2) (cursor 0) 4 (cursor-IsValid 0 (omega arith)) up_to_close
      (record { there = refl; not_open = refl; is_close = refl })
