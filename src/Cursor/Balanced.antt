-- ===== src/Cursor/Balanced.antt =====
-- `skip_balanced` against a description of balanced tokens.
use ubel_stratum.Common.{
  ℕ, suc, ◌+◌, ◌-◌, ◌<◌, Bool, true, false, List, ◌≡◌, refl, arith, ap, ◌∙◌, Eq, Option, some,
  length, nat_eq, ◌==◌,
}
use ubel_stratum.Cursor.Moves.{
  Kind, eof, Token, Cursor, is_eof_kind, kind_equal, peek, advance, balanced_step, balanced_loop,
  skip_balanced,
}
use ubel_stratum.Cursor.Skip.{kind_at, IsValid, peek_lem, before_end}

module _ {K : Type 0} ⦃key : Eq K⦄ (open_kind close_kind : Kind K) where
  -- A token that neither opens nor closes, one that opens, and one that closes.
  pub record Plain (k : Kind K) : Type 0 where
    pub there : is_eof_kind k ≡ false
    pub not_open : kind_equal k open_kind ≡ false
    pub not_close : kind_equal k close_kind ≡ false

  pub record Opens (k : Kind K) : Type 0 where
    pub there : is_eof_kind k ≡ false
    pub is_open : kind_equal k open_kind ≡ true
    pub not_close : kind_equal k close_kind ≡ false

  pub record Closes (k : Kind K) : Type 0 where
    pub there : is_eof_kind k ≡ false
    pub not_open : kind_equal k open_kind ≡ false
    pub is_close : kind_equal k close_kind ≡ true

  -- The tokens from one index up to another are balanced.
  pub data Balanced (tokens : List (Token K)) : ℕ → ℕ → Type 0 where
    empty : {i : ℕ} → Balanced tokens i i
    plain : {i j : ℕ} → Plain (kind_at tokens i) → Balanced tokens (suc i) j → Balanced tokens i j
    block :
        {i j k : ℕ}
        → Opens (kind_at tokens i)
        → Balanced tokens (suc i) j
        → Closes (kind_at tokens j)
        → Balanced tokens (suc j) k
        → Balanced tokens i k

  -- A close below the surface.
  deep :
      (rest : ℕ → Cursor K → Option (Cursor K × Bool)) (depth : ℕ) (c : Cursor K)
      → balanced_step rest false false true (depth + 1) c ≡ rest depth (advance c)
  deep rest depth c =
      let not_zero : ((depth + 1) == 0) ≡ false = ground arith in
      let back : depth + 1 - 1 ≡ depth = omega arith in
      pick (some (advance c, true)) (rest (depth + 1 - 1) (advance c)) not_zero
      ∙ ap (λ (d : ℕ). rest d (advance c)) back
    where
      pick :
          (x r : Option (Cursor K × Bool)) {b : Bool}
          → b ≡ false
          → (elim b as (λ t. Option (Cursor K × Bool)) [ true ↦ x | false ↦ r ]) ≡ r
      pick x r e = rw e refl

  module _ (c : Cursor K) (nonempty : 0 < length c.tokens)
      (ends : kind_at c.tokens (length c.tokens - 1) ≡ eof) where
    abbrev at_pos : ℕ → Cursor K
    at_pos i = record c { pos = i }

    abbrev loop : ℕ → ℕ → ℕ → Option (Cursor K × Bool)
    loop fuel depth i = balanced_loop fuel open_kind close_kind depth (at_pos i)

    before : (i : ℕ) → is_eof_kind (kind_at c.tokens i) ≡ false → i < length c.tokens - 1
    before i h = before_end c i nonempty ends h

    seen : (i : ℕ) → is_eof_kind (kind_at c.tokens i) ≡ false → peek (at_pos i) ≡ kind_at c.tokens i
    seen i h = let l = before i h in peek_lem (at_pos i) (omega arith)

    advanced :
        (i : ℕ) → is_eof_kind (kind_at c.tokens i) ≡ false → advance (at_pos i) ≡ at_pos (suc i)
    unfolding advance
    advanced i h = let l = before i h in ground arith

    -- One round at a token that is not `Eof`, from what the tests say.
    round :
        (fuel depth i : ℕ) {opens closes : Bool}
        → is_eof_kind (kind_at c.tokens i) ≡ false
        → kind_equal (kind_at c.tokens i) open_kind ≡ opens
        → kind_equal (kind_at c.tokens i) close_kind ≡ closes
        → loop (suc fuel) depth i
          ≡ balanced_step
              (balanced_loop fuel open_kind close_kind)
              false
              opens
              closes
              depth
              (at_pos i)
    unfolding balanced_loop
    round fuel depth i h o cl =
        let rest = balanced_loop fuel open_kind close_kind in
        ap
          (λ k.
            balanced_step rest (is_eof_kind k) (kind_equal k open_kind) (kind_equal k close_kind)
              depth (at_pos i))
          (seen i h)
        ∙ (λ t. balanced_step rest (h t) (o t) (cl t) depth (at_pos i))

    step-Plain :
        (fuel depth i : ℕ)
        → Plain (kind_at c.tokens i)
        → loop (suc fuel) depth i ≡ loop fuel depth (suc i)
    step-Plain fuel depth i p =
        round fuel depth i p.there p.not_open p.not_close
        ∙ ap (balanced_loop fuel open_kind close_kind depth) (advanced i p.there)

    step-Opens :
        (fuel depth i : ℕ)
        → Opens (kind_at c.tokens i)
        → loop (suc fuel) depth i ≡ loop fuel (depth + 1) (suc i)
    step-Opens fuel depth i p =
        round fuel depth i p.there p.is_open p.not_close
        ∙ ap (balanced_loop fuel open_kind close_kind (depth + 1)) (advanced i p.there)

    step-Closes :
        (fuel depth i : ℕ)
        → Closes (kind_at c.tokens i)
        → loop (suc fuel) (depth + 1) i ≡ loop fuel depth (suc i)
    step-Closes fuel depth i p =
        round fuel (depth + 1) i p.there p.not_open p.is_close
        ∙ deep (balanced_loop fuel open_kind close_kind) depth (at_pos i)
        ∙ ap (balanced_loop fuel open_kind close_kind depth) (advanced i p.there)

    last_close :
        (fuel i : ℕ)
        → Closes (kind_at c.tokens i)
        → loop (suc fuel) 0 i ≡ some (at_pos (suc i), true)
    last_close fuel i p =
        round fuel 0 i p.there p.not_open p.is_close
        ∙ ap (λ (x : Cursor K). some (x, true)) (advanced i p.there)

    -- Balanced tokens are passed at the depth at which they are met.
    pass :
        {i j : ℕ}
        → Balanced c.tokens i j
        → (n : ℕ) × (i + n ≡ j)
          × ((total fuel depth : ℕ) → total ≡ n + fuel → loop total depth i ≡ loop fuel depth j)
    pass {i} empty = (
      0,
      omega arith,
      λ total fuel depth e. let same : total ≡ fuel = omega arith in ap (λ t. loop t depth i) same,
    )
    pass {i} {j} (plain p b) =
        let (n, at, run) = pass b in
        (
          suc n,
          omega arith,
          λ total fuel depth e.
              let more : total ≡ suc (n + fuel) = omega arith in
              ap (λ t. loop t depth i) more
              ∙ (step-Plain (n + fuel) depth i p ∙ run (n + fuel) fuel depth refl),
        )
    pass {i} {j = k} (block {j = m'} o b cl rest) =
        let (n, at, run) = pass b in
        let (m, at', run') = pass rest in
        (
          suc (n + suc m),
          omega arith,
          λ total fuel depth e.
              let more : total ≡ suc (n + suc (m + fuel)) = omega arith in
              ap (λ t. loop t depth i) more
              ∙ (step-Opens (n + suc (m + fuel)) depth i o
                  ∙ (run (n + suc (m + fuel)) (suc (m + fuel)) (depth + 1) refl
                      ∙ (step-Closes (m + fuel) depth m' cl ∙ run' (m + fuel) fuel depth refl))),
        )

  -- On a valid cursor, with balanced tokens from where it stands up to a closing one, `skip_balanced`
  -- ends with true just behind that closing token.
  pub skip_balanced_lem :
      (c : Cursor K) (j : ℕ)
      → IsValid c
      → Balanced c.tokens c.pos j
      → Closes (kind_at c.tokens j)
      → skip_balanced c open_kind close_kind ≡ some (record c { pos = j + 1 }, true)
  unfolding skip_balanced
  skip_balanced_lem c j v b cl =
      let (n, at, run) = pass c v.nonempty v.ends b in
      let l = before c v.nonempty v.ends j cl.there in
      let left : ℕ = length c.tokens - n - 1 in
      run (length c.tokens) (suc left) 0 (omega arith)
      ∙ (last_close c v.nonempty v.ends left j cl
          ∙ ap (λ (p : ℕ). some (record c { pos = p }, true)) (omega arith))
