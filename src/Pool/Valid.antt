-- ===== src/Pool/Valid.antt =====
-- What holds of a pool between its operations, and that every operation keeps it.
use ubel_stratum.Common.{
  not_true, ℕ, ◌+◌, ◌*◌, ◌%◌, ◌<◌, Bool, true, false, List, [], ◌∷◌, ◌++◌, ◌≡◌, refl, sym, subst,
  ◌∙◌, ◌⊎◌, ◌↔◌, inl, inr, Option, none, some, arith, nat_eq, length, length-append, is_empty,
  contains, contains-append, if◌then◌else◌,
}
use Prim.Native.Nat.{◌/◌}
use native.Mathlib.Decide.{dec_lt}
use ubel_stratum.Pool.Data.{
  ok, Value, PoolData, replicate, count_up, flatten, with_capacity, locate, slot, slot_mut,
  generation, generation_mut, try_grow, free_pop, make_room, add_block, with_rest,
}
use ubel_stratum.Pool.Cells.{
  AllLength, cell_at, put_at, AllLength-append, cell_at-lt, cell_at-append_left, cell_at-append_new,
  length-replicate,
}
use ubel_stratum.Pool.FreeList.{
  Distinct, Pops, Popped, pop-Popped, contains-count_up, count_up-Distinct, append-Distinct,
}

one_block :
    {A : Type 0} (n i : ℕ) (a : A) → 0 < n → i < n → cell_at (replicate n a ∷ []) n i ≡ some a
one_block n i a h l = cell_at-append_new [] n i a h (omega arith) (omega (arith, l))

module _ {V : Type 0} where
  pub record IsValid (pool : PoolData V) : Type 0 where
    pub positive : 0 < pool.block_size
    pub slots : AllLength pool.block_size pool.blocks
    pub counters : AllLength pool.block_size pool.generations
    pub same_length : length pool.generations ≡ length pool.blocks
    -- The free list holds the empty slots.
    pub free :
        (i : ℕ)
        → (contains pool.free_list i ≡ true) ↔ (cell_at pool.blocks pool.block_size i ≡ some none)
    pub distinct : Distinct pool.free_list

  locate_lem :
      (pool : PoolData V) (i : ℕ)
      → 0 < pool.block_size
      → locate pool i ≡ ok (i / pool.block_size, i % pool.block_size)
  unfolding locate
  locate_lem pool i h = ground arith

  pub slot_lem :
      (pool : PoolData V) (i : ℕ)
      → 0 < pool.block_size
      → slot pool i ≡ ok (flatten (cell_at pool.blocks pool.block_size i))
  unfolding slot
  slot_lem pool i h = rw (locate_lem pool i h) refl

  pub generation_lem :
      (pool : PoolData V) (i : ℕ)
      → 0 < pool.block_size
      → generation pool i ≡ ok (cell_at pool.generations pool.block_size i)
  unfolding generation
  generation_lem pool i h = rw (locate_lem pool i h) refl

  pub slot_mut_lem :
      (pool : PoolData V) (i : ℕ) (v : Option (Value V)) {old : Option (Value V)}
      → 0 < pool.block_size
      → cell_at pool.blocks pool.block_size i ≡ some old
      → slot_mut pool i v
        ≡ ok (some (record pool { blocks = put_at pool.blocks pool.block_size i v }))
  unfolding slot_mut
  slot_mut_lem pool i v h e = rw (locate_lem pool i h) (rw e refl)

  pub generation_mut_lem :
      (pool : PoolData V) (i g : ℕ) {old : ℕ}
      → 0 < pool.block_size
      → cell_at pool.generations pool.block_size i ≡ some old
      → generation_mut pool i g
        ≡ ok (some (record pool { generations = put_at pool.generations pool.block_size i g }))
  unfolding generation_mut
  generation_mut_lem pool i g h e = rw (locate_lem pool i h) (rw e refl)

  abbrev pub Taken : PoolData V → Option (ℕ × PoolData V) → Type 0
  Taken pool taken =
      ((pool.free_list ≡ []) × (taken ≡ none))
      ⊎ ((x : ℕ) × (rest : List ℕ) × (taken ≡ some (x, record pool { free_list = rest }))
          × Pops pool.free_list x rest)

  with_rest-Taken :
      (pool : PoolData V) (popped : Option (ℕ × List ℕ))
      → Popped pool.free_list popped
      → Taken pool (with_rest pool popped)
  with_rest-Taken pool popped (inl (e, stop)) = rw stop (inl (e, refl))
  with_rest-Taken pool popped (inr (x, rest, go, p)) = rw go (inr (x, rest, refl, p))

  pub free_pop_cases : (pool : PoolData V) → Taken pool (free_pop pool)
  unfolding free_pop
  free_pop_cases pool = with_rest-Taken pool _ (pop-Popped pool.fifo pool.free_list)

  pub with_capacity-IsValid : (n : ℕ) → 0 < n → IsValid (with_capacity {V = V} n)
  unfolding with_capacity
  with_capacity-IsValid n h = record {
    positive = h;
    slots = (length-replicate n none, tt);
    counters = (length-replicate n 0, tt);
    same_length = refl;
    free = λ i. (
      λ k. one_block n i none h (omega (arith, ((contains-count_up 0 n i).0 k).1)),
      λ e.
          (contains-count_up 0 n i).1
            (omega arith, omega (arith, cell_at-lt (replicate n none ∷ []) n i h e)),
    );
    distinct = count_up-Distinct 0 n;
  }

  free-lt :
      (pool : PoolData V)
      → IsValid pool
      → (i : ℕ) → contains pool.free_list i ≡ true
      → i < length pool.blocks * pool.block_size
  free-lt pool w i k = cell_at-lt pool.blocks pool.block_size i w.positive ((w.free i).0 k)

  pub below_end :
      (pool : PoolData V) (i : ℕ) {a : Option (Value V)} (row : List (Option (Value V)))
      → 0 < pool.block_size
      → cell_at (pool.blocks ++ row ∷ []) pool.block_size i ≡ some a
      → i < length pool.blocks * pool.block_size + pool.block_size
  below_end pool i {a} row h e = grind (
    arith,
    cell_at-lt (pool.blocks ++ row ∷ []) pool.block_size i h e,
    length-append pool.blocks (row ∷ []),
  )

  pub add_block-IsValid : (pool : PoolData V) → IsValid pool → IsValid (add_block pool)
  unfolding add_block
  add_block-IsValid pool w =
      let n = pool.block_size in
      let start = length pool.blocks * pool.block_size in
      record {
        positive = w.positive;
        slots = AllLength-append pool.blocks _ n w.slots (length-replicate n none);
        counters = AllLength-append pool.generations _ n w.counters (length-replicate n 0);
        same_length = omega (
          arith,
          length-append pool.blocks (replicate n none ∷ []),
          length-append pool.generations (replicate n 0 ∷ []),
          w.same_length,
        );
        free = λ i. (
          λ k. elim ((contains-append pool.free_list (count_up start n) i).0 k) [
            | inl old ↦
                cell_at-append_left pool.blocks _ n i w.positive (free-lt pool w i old)
                ∙ (w.free i).0 old
            | inr new ↦
                let r = (contains-count_up start n i).0 new in
                cell_at-append_new pool.blocks n i none w.positive r.0 r.1
          ],
          λ e. (contains-append pool.free_list (count_up start n) i).1 (elim (dec_lt i start) [
            | yes l ↦
                inl ((w.free i).1 (sym (cell_at-append_left pool.blocks _ n i w.positive l) ∙ e))
            | no l ↦
                inr ((contains-count_up start n i).1 (omega arith, below_end pool i _ w.positive e))
          ]),
        );
        distinct =
            append-Distinct pool.free_list (count_up start n) w.distinct (count_up-Distinct start n)
              (λ i k. not_true _ (λ m.
                absurd (omega (arith, ((contains-count_up start n i).0 m).0, free-lt pool w i k))));
      }

  -- A block is added exactly if the free list is empty and the pool may grow.
  abbrev pub Room : PoolData V → Bool → Bool → PoolData V → Type 0
  Room pool exhausted grows room =
      ((room ≡ pool) × ((exhausted ≡ false) ⊎ (grows ≡ false)))
      ⊎ ((room ≡ add_block pool) × (exhausted ≡ true) × (grows ≡ true))

  pick :
      (pool : PoolData V) (exhausted grows : Bool)
      → Room pool exhausted grows (
          if exhausted
          then (if◌then◌else◌ {A = PoolData V × Bool} grows (add_block pool, true) (pool, false)).0
          else pool)
  pick pool true true = inr (refl, refl, refl)
  pick pool true false = inl (refl, inr refl)
  pick pool false grows = inl (refl, inl refl)

  pub make_room_cases :
      (pool : PoolData V) → Room pool (is_empty pool.free_list) pool.growable (make_room pool)
  unfolding make_room try_grow
  make_room_cases pool = pick pool (is_empty pool.free_list) pool.growable

  pub make_room-IsValid : (pool : PoolData V) → IsValid pool → IsValid (make_room pool)
  make_room-IsValid pool w = elim (make_room_cases pool) [
    | inl k ↦ subst IsValid (sym k.0) w
    | inr k ↦ subst IsValid (sym k.0) (add_block-IsValid pool w)
  ]
