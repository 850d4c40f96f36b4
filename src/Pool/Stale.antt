-- ===== src/Pool/Stale.antt =====
-- Handles that are held past their release.
use ubel_stratum.Common.{
  ℕ, suc, ◌+◌, ◌%◌, ◌^◌, ◌<◌, ◌≤◌, Bool, true, List, [], ◌∷◌, ◌≡◌, ◌≢◌, ap, sym, subst, ◌∙◌, ◌⊎◌,
  inl, inr, some, arith, nat_eq,
}
use native.Mathlib.Decide.{ℕ_discrete}
use ubel_stratum.Pool.Data.{
  ok, Value, handle, null, void_value, other, PoolData, next_generation, make_room, add_block,
  acquire, release, get, set_growable, set_fifo,
}
use ubel_stratum.Pool.Cells.{
  cell_at, put_at, put_at_self, put_at_other, cell_at-lt, cell_at-append_left,
}
use ubel_stratum.Pool.Valid.{IsValid, make_room_cases, make_room-IsValid}
use ubel_stratum.Pool.Methods.{stored-IsValid, Live, acquire_cases}
use ubel_stratum.Pool.Release.{
  released-IsValid, released, release-Live, release_stale, get_stale, Live-cases,
}

first_tick : (g : ℕ) → next_generation g ≡ (g + 1 + 0) % 2 ^ 64
unfolding next_generation
first_tick g = omega arith

next_tick : (g k : ℕ) → next_generation ((g + 1 + k) % 2 ^ 64) ≡ (g + 1 + suc k) % 2 ^ 64
unfolding next_generation
next_tick g k = omega arith

-- The counter comes back to a value only after 2 ^ 64 steps.
not_yet : (g k n : ℕ) → g < 2 ^ 64 → k ≤ n → n + 1 < 2 ^ 64 → (g + 1 + k) % 2 ^ 64 ≢ g
not_yet g k n b l h e = omega arith

module _ {V : Type 0} where
  -- One operation on the pool that returns.
  pub data Step : PoolData V → PoolData V → Type 0 where
    acquires :
        {p q : PoolData V} {r : Value V} (args : List (Value V))
        → acquire p args ≡ ok (r, q)
        → Step p q
    releases :
        {p q : PoolData V} {r : Value V} (args : List (Value V))
        → release p args ≡ ok (r, q)
        → Step p q
    grows : {p : PoolData V} → Step p (set_growable p)
    reorders : {p : PoolData V} → Step p (set_fifo p)

  -- A history of `n` operations.
  pub data Steps : PoolData V → ℕ → PoolData V → Type 0 where
    start : {p : PoolData V} → Steps p 0 p
    then_step : {p q r : PoolData V} {n : ℕ} → Steps p n q → Step q r → Steps p (suc n) r

  -- The counter of the slot stands where it stood, or one further.
  abbrev Ticks : PoolData V → PoolData V → ℕ → ℕ → Type 0
  Ticks p q i g =
      (cell_at q.generations q.block_size i ≡ some g)
      ⊎ (cell_at q.generations q.block_size i ≡ some (next_generation g))

  abbrev Follows : PoolData V → PoolData V → Type 0
  Follows p q =
      IsValid q × ((i g : ℕ) → cell_at p.generations p.block_size i ≡ some g → Ticks p q i g)

  block-counter :
      (pool : PoolData V) (i g : ℕ)
      → IsValid pool
      → cell_at pool.generations pool.block_size i ≡ some g
      → cell_at (add_block pool).generations (add_block pool).block_size i ≡ some g
  unfolding add_block
  block-counter pool i g w e =
      cell_at-append_left pool.generations _ pool.block_size i w.positive
        (cell_at-lt pool.generations pool.block_size i w.positive e)
      ∙ e

  room-counter :
      (pool : PoolData V) (i g : ℕ)
      → IsValid pool
      → cell_at pool.generations pool.block_size i ≡ some g
      → cell_at (make_room pool).generations (make_room pool).block_size i ≡ some g
  room-counter pool i g w e = elim (make_room_cases pool) [
    | inl (same, why) ↦
        subst (λ (x : PoolData V). cell_at x.generations x.block_size i ≡ some g) (sym same) e
    | inr (grown, why, k) ↦
        subst (λ (x : PoolData V). cell_at x.generations x.block_size i ≡ some g) (sym grown)
          (block-counter pool i g w e)
  ]

  acquire-Follows :
      (p q : PoolData V) (r : Value V) (args : List (Value V))
      → IsValid p
      → acquire p args ≡ ok (r, q)
      → Follows p q
  unfolding acquire
  acquire-Follows p q r [] w e = absurd (cc)
  acquire-Follows p q r (v ∷ args) w e = elim (acquire_cases p v args w) [
    | inl (none_left, done) ↦
        subst (Follows p) (cc (e, done))
          (make_room-IsValid p w, λ i g k. inl (room-counter p i g w k))
    | inr (i, rest, g, s, done) ↦ subst (Follows p) (cc (e, done)) (
      stored-IsValid (make_room p) rest i g v (make_room-IsValid p w) s,
      λ j h k. inl (room-counter p j h w k),
    )
  ]

  released-Follows :
      (p : PoolData V) (i g : ℕ) (v : Value V)
      → IsValid p
      → Live p i g v
      → Follows p (released p i g)
  released-Follows p i g v w l = (
    released-IsValid p i g v w l,
    λ j h k. elim (ℕ_discrete i j) [
      | yes same ↦
          let counted : g ≡ h =
            cc (
              l.current,
              subst (λ x. cell_at p.generations p.block_size x ≡ some h) (sym same) k,
            ) in
          inr (
            subst
              (λ x.
                cell_at (put_at p.generations p.block_size i (next_generation g)) p.block_size x
                ≡ some (next_generation h))
              same
              (put_at_self p.generations p.block_size i (next_generation g) l.current
                ∙ ap (λ (x : ℕ). some (next_generation x)) counted))
      | no apart ↦ inl (put_at_other p.generations p.block_size i j (next_generation g) apart ∙ k)
    ],
  )

  release-Follows :
      (p q : PoolData V) (r : Value V) (args : List (Value V))
      → IsValid p
      → release p args ≡ ok (r, q)
      → Follows p q
  release-Follows p q r (handle i g ∷ args) w e = elim (Live-cases p i g) [
    | inl (v, l) ↦
        subst (Follows p) (cc (e, release-Live p i g v args w l)) (released-Follows p i g v w l)
    | inr dead ↦ subst (Follows p) (cc (e, release_stale p i g args w dead)) (w, λ j h k. inl k)
  ]
  release-Follows p q r [] w e = absurd (unfold release in cc e)
  release-Follows p q r (null ∷ args) w e = absurd (unfold release in cc e)
  release-Follows p q r (void_value ∷ args) w e = absurd (unfold release in cc e)
  release-Follows p q r (other v ∷ args) w e = absurd (unfold release in cc e)

  with_flags :
      (p : PoolData V) (growable fifo : Bool)
      → IsValid p
      → IsValid (record p { growable = growable; fifo = fifo })
  with_flags p growable fifo w = record {
    positive = w.positive;
    slots = w.slots;
    counters = w.counters;
    same_length = w.same_length;
    free = w.free;
    distinct = w.distinct;
  }

  -- Every operation that returns on a valid pool leaves a valid pool.
  Step-Follows : {p q : PoolData V} → IsValid p → Step p q → Follows p q
  unfolding set_growable set_fifo
  Step-Follows w (acquires args e) = acquire-Follows _ _ _ args w e
  Step-Follows w (releases args e) = release-Follows _ _ _ args w e
  Step-Follows w (grows {p}) = (with_flags p true p.fifo w, λ j h k. inl k)
  Step-Follows w (reorders {p}) = (with_flags p p.growable true w, λ j h k. inl k)

  -- Every pool that a history leads to from a valid one is valid.
  pub Steps-IsValid : {p q : PoolData V} {n : ℕ} → IsValid p → Steps p n q → IsValid q
  Steps-IsValid w start = w
  Steps-IsValid w (then_step ss s) = (Step-Follows (Steps-IsValid w ss) s).0

  -- After a release the counter has moved on by one and by at most the length of the history.
  abbrev Moved : PoolData V → ℕ → ℕ → ℕ → Type 0
  Moved q i g n =
      (k : ℕ) × (k ≤ n) × (cell_at q.generations q.block_size i ≡ some ((g + 1 + k) % 2 ^ 64))

  Steps-Moved :
      {p q : PoolData V} (i g : ℕ) {n : ℕ}
      → IsValid p
      → cell_at p.generations p.block_size i ≡ some (next_generation g)
      → Steps p n q
      → Moved q i g n
  Steps-Moved i g w e start = (0, omega arith, e ∙ ap (λ (x : ℕ). some x) (first_tick g))
  Steps-Moved i g w e (then_step ss s) =
      let (k, l, here) = Steps-Moved i g w e ss in
      elim ((Step-Follows (Steps-IsValid w ss) s).1 i _ here) [
        | inl stays ↦ (k, omega arith, stays)
        | inr ticks ↦ (suc k, omega arith, ticks ∙ ap (λ (x : ℕ). some x) (next_tick g k))
      ]

  -- Once a live handle is released from a valid pool, `get` of it answers `null` after every history of
  -- fewer than 2 ^ 64 - 1 operations, whatever was stored in its slot since.
  pub get-released :
      (p : PoolData V) (i g : ℕ) (v r : Value V) (args more : List (Value V)) {q z : PoolData V}
      {n : ℕ}
      → IsValid p
      → g < 2 ^ 64
      → Live p i g v
      → release p (handle i g ∷ args) ≡ ok (r, q)
      → Steps q n z
      → n + 1 < 2 ^ 64
      → get z (handle i g ∷ more) ≡ ok null
  get-released p i g v r args more {q} {z} {n} w b l e ss h =
      let left : released p i g ≡ q = cc (e, release-Live p i g v args w l) in
      let valid = subst IsValid left (released-IsValid p i g v w l) in
      let bumped =
        subst (λ (x : PoolData V). cell_at x.generations x.block_size i ≡ some (next_generation g))
          left (put_at_self p.generations p.block_size i (next_generation g) l.current) in
      let (k, le, here) = Steps-Moved i g valid bumped ss in
      get_stale z i g more (Steps-IsValid valid ss)
        (λ u live. not_yet g k n b le h (cc (here, live.current)))
