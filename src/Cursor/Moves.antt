-- ===== src/Cursor/Moves.antt =====
-- `Cursor` of crates/rd_parser/src/cursor.rs. Of `TokenType` the kinds that the cursor itself asks for are
-- written out; the others are a parameter with a test that decides equality. A token's lexeme is left
-- out. `split_at` is `NO_SPLIT` or a position.
use ubel_stratum.Common.{
  ℕ, zero, suc, ◌+◌, ◌-◌, Bool, true, false, ◌||◌, List, [], ◌∷◌, Option, none, some, Eq, nat_eq,
  ◌==◌, length, get_or, ltb, if◌then◌else◌,
}
use ubel_stratum.Ast.{Span}

pub data Kind (K : Type 0) : Type 0 where
  eof greater right_shift : Kind K
  other : K → Kind K

pub record Token (K : Type 0) : Type 0 where
  pub kind : Kind K
  pub span : Span

pub record Cursor (K : Type 0) : Type 0 where
  pub tokens : List (Token K)
  pub pos : ℕ
  pub split_at : Option ℕ

pub data CursorError (K : Type 0) : Type 0 where
  unexpected_token : (expected found : Kind K) (span : Span) → CursorError K
  unexpected_eof : (expected : Kind K) (span : Span) → CursorError K

pub data Expected (K : Type 0) : Type 0 where
  token : Token K → Expected K
  error : CursorError K → Expected K

abbrev pub is_split : Option ℕ → ℕ → Bool
is_split none pos = false
is_split (some p) pos = p == pos

module _ {K : Type 0} ⦃key : Eq K⦄ where
  abbrev pub kind_equal : Kind K → Kind K → Bool
  kind_equal eof eof = true
  kind_equal greater greater = true
  kind_equal right_shift right_shift = true
  kind_equal (other x) (other y) = key.equal x y
  kind_equal _ _ = false

module _ {K : Type 0} where
  abbrev pub is_eof_kind : Kind K → Bool
  is_eof_kind eof = true
  is_eof_kind k = false

  abbrev pub no_token : Token K
  no_token = record { kind = eof; span = record { start = 0; end = 0; line = 0; column = 0 } }

  abbrev pub last_index : Cursor K → ℕ
  last_index c = length c.tokens - 1

  -- `n.min(self.tokens.len() - 1)`
  abbrev pub clamp : Cursor K → ℕ → ℕ
  clamp c n = if ltb n (last_index c) then n else last_index c

  -- An empty slice is a panic in the source.
  unfoldable pub peek_token_nth : Cursor K → ℕ → Token K
  peek_token_nth c n = get_or c.tokens (clamp c (c.pos + n)) no_token

  unfoldable pub peek_token : Cursor K → Token K
  peek_token c = get_or c.tokens (clamp c c.pos) no_token

  abbrev pub peek : Cursor K → Kind K
  peek c = (peek_token c).kind

  unfoldable pub new : List (Token K) → Cursor K
  new tokens = record { tokens = tokens; pos = 0; split_at = none }

  unfoldable pub current_span : Cursor K → Span
  current_span c = (peek_token c).span

  unfoldable pub is_eof : Cursor K → Bool
  unfolding peek_token
  is_eof c = is_eof_kind (peek c)

  unfoldable pub advance : Cursor K → Cursor K
  advance c = if ltb c.pos (last_index c) then record c { pos = c.pos + 1 } else c

  unfoldable pub restore : Cursor K → ℕ → Cursor K
  restore c pos = record c { pos = clamp c pos; split_at = none }

  abbrev pub at_close : Kind K → Bool
  at_close greater = true
  at_close right_shift = true
  at_close k = false

  unfoldable pub at_generic_close : Cursor K → Bool
  at_generic_close c = at_close (peek c)

  abbrev pub close_at : Kind K → Cursor K → Cursor K × Bool
  close_at greater c = (advance c, true)
  close_at right_shift c =
      if is_split c.split_at c.pos
      then (advance (record c { split_at = none }), true)
      else (record c { split_at = some c.pos }, true)
  close_at k c = (c, false)

  unfoldable pub eat_generic_close : Cursor K → Cursor K × Bool
  unfolding peek_token advance
  eat_generic_close c = close_at (peek c) c

module _ {K : Type 0} ⦃key : Eq K⦄ where
  unfoldable pub is_at : Cursor K → Kind K → Bool
  is_at c k = kind_equal (peek c) k

  unfoldable pub eat : Cursor K → Kind K → Cursor K × Bool
  eat c k =
      if kind_equal (peek c) k then (record c { pos = clamp c (c.pos + 1) }, true) else (c, false)

  abbrev pub error_at : Kind K → Token K → CursorError K
  error_at expected found =
      if is_eof_kind found.kind
      then unexpected_eof expected found.span
      else unexpected_token expected found.kind found.span

  unfoldable pub expect : Cursor K → Kind K → Cursor K × Expected K
  expect c k =
      if kind_equal (peek c) k
      then (advance c, token (peek_token c))
      else (c, error (error_at k (peek_token c)))

  abbrev pub error_of : Expected K → Option (CursorError K)
  error_of (token t) = none
  error_of (error e) = some e

  unfoldable pub expect_generic_close : Cursor K → Cursor K × Option (CursorError K)
  unfolding eat_generic_close expect
  expect_generic_close c =
      let eaten = eat_generic_close c in
      if eaten.1
      then (eaten.0, none)
      else (let expected = expect c greater in (expected.0, error_of expected.1))

  -- `pos += 1` until the token is at hand, on fuel.
  unfoldable pub skip_loop : ℕ → (Kind K → Bool) → Cursor K → Cursor K
  skip_loop zero stop c = c
  skip_loop (suc fuel) stop c = elim (is_eof_kind (peek c) || stop (peek c)) [
    | true ↦ c
    | false ↦ skip_loop fuel stop (record c { pos = c.pos + 1 })
  ]

  unfoldable pub skip_until : Cursor K → Kind K → Cursor K
  skip_until c k = skip_loop (length c.tokens) (λ cur. kind_equal cur k) c

  abbrev pub any_equal : List (Kind K) → Kind K → Bool
  any_equal [] cur = false
  any_equal (k ∷ ks) cur = kind_equal cur k || any_equal ks cur

  unfoldable pub skip_until_any : Cursor K → List (Kind K) → Cursor K
  skip_until_any c sync_set = skip_loop (length c.tokens) (any_equal sync_set) c

  -- One round of the loop of `skip_balanced`, over its three tests and the rounds behind it.
  abbrev pub balanced_step :
      (ℕ → Cursor K → Option (Cursor K × Bool))
      → (at_eof opens closes : Bool) → ℕ
      → Cursor K
      → Option (Cursor K × Bool)
  balanced_step rest at_eof opens closes depth c =
      let deeper = if opens then depth + 1 else depth in
      elim at_eof [
        | true ↦ some (c, false)
        | false ↦ elim closes [
          | false ↦ rest deeper (advance c)
          | true ↦ elim (deeper == 0) [
            | true ↦ some (advance c, true)
            | false ↦ rest (deeper - 1) (advance c)
          ]
        ]
      ]

  -- The loop on fuel: its answer, or `none` if the fuel runs out.
  unfoldable pub balanced_loop : ℕ → Kind K → Kind K → ℕ → Cursor K → Option (Cursor K × Bool)
  balanced_loop zero open_kind close_kind depth c = none
  balanced_loop (suc fuel) open_kind close_kind depth c =
      balanced_step (balanced_loop fuel open_kind close_kind) (is_eof_kind (peek c))
        (kind_equal (peek c) open_kind) (kind_equal (peek c) close_kind) depth c

  unfoldable pub skip_balanced : Cursor K → Kind K → Kind K → Option (Cursor K × Bool)
  skip_balanced c open_kind close_kind = balanced_loop (length c.tokens) open_kind close_kind 0 c
