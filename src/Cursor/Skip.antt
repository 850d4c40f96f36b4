-- ===== src/Cursor/Skip.antt =====
-- Error recovery: `skip_until` and `skip_until_any` stop at the first token that they look for.
use ubel_stratum.Common.{
  ℕ, zero, suc, ◌+◌, ◌-◌, ◌<◌, ◌≤◌, Bool, true, false, ◌||◌, List, ◌≡◌, refl, inl, inr, arith,
  subst, ap, Eq, length, get_or, get_or-out_of_range, Bool-cases,
}
use native.Mathlib.Decide.{dec_lt}
use ubel_stratum.Cursor.Moves.{
  Kind, eof, Token, Cursor, is_eof_kind, no_token, clamp, peek_token, peek, skip_loop, any_equal,
  skip_until_any,
}

module _ {K : Type 0} where
  abbrev pub kind_at : List (Token K) → ℕ → Kind K
  kind_at tokens i = (get_or tokens i no_token).kind

  -- The tokens end with `Eof`, and the cursor stands on one of them.
  pub record IsValid (c : Cursor K) : Type 0 where
    pub nonempty : 0 < length c.tokens
    pub ends : kind_at c.tokens (length c.tokens - 1) ≡ eof
    pub in_range : c.pos < length c.tokens

  clamp_lem : (c : Cursor K) (i : ℕ) → i < length c.tokens → clamp c i ≡ i
  clamp_lem c i h = ground arith

  pub peek_lem : (c : Cursor K) → c.pos < length c.tokens → peek c ≡ kind_at c.tokens c.pos
  unfolding peek_token
  peek_lem c h = ap (kind_at c.tokens) (clamp_lem c c.pos h)

  -- A token that is not `Eof` has one behind it.
  pub before_end :
      (c : Cursor K) (i : ℕ)
      → 0 < length c.tokens
      → kind_at c.tokens (length c.tokens - 1) ≡ eof
      → is_eof_kind (kind_at c.tokens i) ≡ false
      → i < length c.tokens - 1
  before_end c i n e h = elim (dec_lt i (length c.tokens - 1)) [
    | yes l ↦ l
    | no g ↦ elim (dec_lt i (length c.tokens)) [
      | yes l ↦
          let last : length c.tokens - 1 ≡ i = omega arith in
          absurd (cc (h, ap is_eof_kind (subst (λ j. kind_at c.tokens j ≡ eof) last e)))
      | no out ↦
          let none_there : get_or c.tokens i no_token ≡ no_token =
            get_or-out_of_range c.tokens i no_token (omega arith) in
          absurd (cc (h, ap (λ (t : Token K). is_eof_kind t.kind) none_there))
    ]
  ]

  abbrev pub stops_at : (Kind K → Bool) → Kind K → Bool
  stops_at stop k = is_eof_kind k || stop k

  -- The cursor `r` stands on the first token, from that of `c` on, that is `Eof` or stops the loop.
  pub record StopsAtFirst (stop : Kind K → Bool) (c r : Cursor K) : Type 0 where
    pub same : r.tokens ≡ c.tokens
    pub onward : c.pos ≤ r.pos
    pub valid : IsValid r
    pub at : stops_at stop (kind_at c.tokens r.pos) ≡ true
    pub first : (j : ℕ) → c.pos ≤ j → j < r.pos → stops_at stop (kind_at c.tokens j) ≡ false

  stays :
      (stop : Kind K → Bool) (c : Cursor K)
      → IsValid c
      → stops_at stop (kind_at c.tokens c.pos) ≡ true
      → StopsAtFirst stop c c
  stays stop c v e = record {
    same = refl;
    onward = omega arith;
    valid = v;
    at = e;
    first = λ j l g. absurd (omega arith);
  }

  moves :
      (stop : Kind K → Bool) (c r : Cursor K)
      → stops_at stop (kind_at c.tokens c.pos) ≡ false
      → StopsAtFirst stop (record c { pos = c.pos + 1 }) r
      → StopsAtFirst stop c r
  moves stop c r e s = record {
    same = s.same;
    onward = omega (arith, s.onward);
    valid = s.valid;
    at = s.at;
    first = λ j l g. elim (dec_lt c.pos j) [
      | yes later ↦ s.first j (omega arith) g
      | no here ↦
          let is : c.pos ≡ j = omega arith in
          subst (λ i. stops_at stop (kind_at c.tokens i) ≡ false) is e
    ];
  }

module _ {K : Type 0} ⦃key : Eq K⦄ where
  skip_loop-StopsAtFirst :
      (fuel : ℕ) (stop : Kind K → Bool) (c : Cursor K)
      → IsValid c
      → length c.tokens ≤ fuel + c.pos + 1
      → StopsAtFirst stop c (skip_loop fuel stop c)
  unfolding skip_loop
  skip_loop-StopsAtFirst zero stop c v h =
      let last : length c.tokens - 1 ≡ c.pos = omega (arith, v.in_range) in
      stays stop c v (rw (subst (λ i. kind_at c.tokens i ≡ eof) last v.ends) refl)
  skip_loop-StopsAtFirst (suc fuel) stop c v h =
      let seen = peek_lem c v.in_range in
      elim (Bool-cases (stops_at stop (peek c))) [
        | inl done ↦
            rw (done, skip_loop) (stays stop c v (subst (λ k. stops_at stop k ≡ true) seen done))
        | inr more ↦
            let more' = subst (λ k. stops_at stop k ≡ false) seen more in
            let l = before_end c c.pos v.nonempty v.ends (or_left _ _ more') in
            let v' : IsValid (record c { pos = c.pos + 1 }) = record {
              nonempty = v.nonempty;
              ends = v.ends;
              in_range = omega arith;
            } in
            rw (more, skip_loop)
              (moves stop c _ more'
                (skip_loop-StopsAtFirst fuel stop (record c { pos = c.pos + 1 }) v' (omega arith)))
      ]
    where
      or_left : (a b : Bool) → (a || b) ≡ false → a ≡ false
      or_left true b e = absurd (cc)
      or_left false b e = refl

  -- On a valid cursor, `skip_until_any` ends, and leaves the cursor on the first token from where it
  -- stood that is in the set or is `Eof`.
  pub skip_until_any-StopsAtFirst :
      (c : Cursor K) (sync_set : List (Kind K))
      → IsValid c
      → StopsAtFirst (any_equal sync_set) c (skip_until_any c sync_set)
  unfolding skip_until_any
  skip_until_any-StopsAtFirst c sync_set v =
      skip_loop-StopsAtFirst (length c.tokens) (any_equal sync_set) c v (omega arith)
