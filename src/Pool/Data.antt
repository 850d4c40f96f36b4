-- ===== src/Pool/Data.antt =====
-- `PoolData` of crates/core/src/interpreter/value.rs and the methods of
-- crates/core/src/builtins/instance/pool_methods.rs. A pool is passed on where the source mutates it
-- behind an `Rc<RefCell<…>>`. Of `Value`, the variants that a pool looks at are written out, and the
-- others are a parameter. Indices are ℕ: a pool has as many slots as fit in memory. Generations are
-- `u64` and wrap around.
use ubel_stratum.Common.{
  ℕ, zero, suc, ◌+◌, ◌*◌, ◌%◌, ◌^◌, Bool, true, false, ◌&&◌, List, [], ◌∷◌, ◌++◌, Option, none,
  some, String, nat_eq, ◌==◌, length, is_empty, get_elem?, modify, if◌then◌else◌,
}
use Prim.Native.Nat.{◌/◌}

-- `Signal::Panic`, or a panic of the interpreter itself.
pub data Outcome {ℓ} (A : Type ℓ) : Type ℓ where
  ok : A → Outcome A
  panic : String → Outcome A
  crash : Outcome A

infixl 5 ◌>>=◌
abbrev pub ◌>>=◌ {ℓ κ} : {A : Type ℓ} {B : Type κ} → Outcome A → (A → Outcome B) → Outcome B
ok a >>= f = f a
panic s >>= f = panic s
crash >>= f = crash

pub data Value (V : Type 0) : Type 0 where
  handle : (index generation : ℕ) → Value V
  null : Value V
  void_value : Value V
  other : V → Value V

pub record PoolData (V : Type 0) : Type 0 where
  pub blocks : List (List (Option (Value V)))
  pub generations : List (List ℕ)
  pub free_list : List ℕ
  pub block_size : ℕ
  pub growable : Bool
  pub fifo : Bool

-- `n` times the same.
unfoldable pub replicate : {A : Type 0} → ℕ → A → List A
replicate zero a = []
replicate (suc n) a = a ∷ replicate n a

-- `start..start + n`
unfoldable pub count_up : ℕ → ℕ → List ℕ
count_up start zero = []
count_up start (suc n) = start ∷ count_up (suc start) n

-- `get(b)?.get(o)`
abbrev pub get_cell : {A : Type 0} → List (List A) → ℕ → ℕ → Option A
get_cell rows b o = elim (get_elem? rows b) [ none ↦ none | some row ↦ get_elem? row o ]

abbrev pub set_cell : {A : Type 0} → List (List A) → ℕ → ℕ → A → List (List A)
set_cell rows b o a = modify rows b (λ row. modify row o (λ old. a))

abbrev pub flatten : {A : Type 0} → Option (Option A) → Option A
flatten none = none
flatten (some o) = o

abbrev pub pop_front : List ℕ → Option (ℕ × List ℕ)
pop_front [] = none
pop_front (x ∷ xs) = some (x, xs)

unfoldable pub pop_back : List ℕ → Option (ℕ × List ℕ)
pop_back [] = none
pop_back (x ∷ xs) = elim (pop_back xs) [
  | none ↦ some (x, [])
  | some (last, rest) ↦ some (last, x ∷ rest)
]

-- `wrapping_add(1)` of a `u64`.
unfoldable pub next_generation : ℕ → ℕ
next_generation g = (g + 1) % 2 ^ 64

abbrev pub or_zero : Option ℕ → ℕ
or_zero none = 0
or_zero (some g) = g

-- `Some(generation) == …`
abbrev pub is_generation : Option ℕ → ℕ → Bool
is_generation none g = false
is_generation (some h) g = h == g

module _ {V : Type 0} where
  unfoldable pub with_capacity : ℕ → PoolData V
  unfolding replicate count_up
  with_capacity capacity = record {
    blocks = replicate capacity none ∷ [];
    generations = replicate capacity 0 ∷ [];
    free_list = count_up 0 capacity;
    block_size = capacity;
    growable = false;
    fifo = false;
  }

  -- Division by a block size of 0 is a panic.
  unfoldable pub locate : PoolData V → ℕ → Outcome (ℕ × ℕ)
  locate pool flat_index =
      if pool.block_size == 0
      then crash
      else ok (flat_index / pool.block_size, flat_index % pool.block_size)

  unfoldable pub total_capacity : PoolData V → ℕ
  total_capacity pool = length pool.blocks * pool.block_size

  unfoldable pub slot : PoolData V → ℕ → Outcome (Option (Value V))
  slot pool flat_index = do (b, o) ← locate pool flat_index; ok (flatten (get_cell pool.blocks b o))

  -- A write through `slot_mut`; `none` if there is no such slot.
  unfoldable pub slot_mut : PoolData V → ℕ → Option (Value V) → Outcome (Option (PoolData V))
  slot_mut pool flat_index value = do
    (b, o) ← locate pool flat_index
    ok (elim (get_cell pool.blocks b o) [
      | none ↦ none
      | some old ↦ some (record pool { blocks = set_cell pool.blocks b o value })
    ])

  unfoldable pub generation : PoolData V → ℕ → Outcome (Option ℕ)
  generation pool flat_index = do
    (b, o) ← locate pool flat_index
    ok (get_cell pool.generations b o)

  -- A write through `generation_mut`.
  unfoldable pub generation_mut : PoolData V → ℕ → ℕ → Outcome (Option (PoolData V))
  generation_mut pool flat_index g = do
    (b, o) ← locate pool flat_index
    ok (elim (get_cell pool.generations b o) [
      | none ↦ none
      | some old ↦ some (record pool { generations = set_cell pool.generations b o g })
    ])

  unfoldable pub add_block : PoolData V → PoolData V
  unfolding replicate count_up
  add_block pool = record pool {
    blocks = pool.blocks ++ replicate pool.block_size none ∷ [];
    generations = pool.generations ++ replicate pool.block_size 0 ∷ [];
    free_list = pool.free_list ++ count_up (length pool.blocks * pool.block_size) pool.block_size;
  }

  unfoldable pub try_grow : PoolData V → PoolData V × Bool
  unfolding add_block
  try_grow pool = if pool.growable then (add_block pool, true) else (pool, false)

  abbrev pub with_rest : PoolData V → Option (ℕ × List ℕ) → Option (ℕ × PoolData V)
  with_rest pool none = none
  with_rest pool (some (index, rest)) = some (index, record pool { free_list = rest })

  unfoldable pub free_pop : PoolData V → Option (ℕ × PoolData V)
  unfolding pop_back
  free_pop pool =
      with_rest pool (if pool.fifo then pop_front pool.free_list else pop_back pool.free_list)

  unfoldable pub free_push : PoolData V → ℕ → PoolData V
  free_push pool index = record pool { free_list = pool.free_list ++ index ∷ [] }

  abbrev pub filled : List (Option (Value V)) → List (Value V)
  filled [] = []
  filled (none ∷ cells) = filled cells
  filled (some v ∷ cells) = v ∷ filled cells

  abbrev pub in_order : List (List (Option (Value V))) → List (Value V)
  in_order [] = []
  in_order (row ∷ rows) = filled row ++ in_order rows

  unfoldable pub iter_occupied : PoolData V → List (Value V)
  iter_occupied pool = in_order pool.blocks

  abbrev pub or_null : Option (Value V) → Value V
  or_null none = null
  or_null (some v) = v

  abbrev pub is_some : Option (Value V) → Bool
  is_some none = false
  is_some (some v) = true

  -- `acquire` once a slot is popped.
  unfoldable pub fill :
      Value V → Option (ℕ × PoolData V) → PoolData V → Outcome (Value V × PoolData V)
  fill value none pool = ok (null, pool)
  fill value (some (index, popped)) pool = do
    g ← generation popped index
    written ← slot_mut popped index (some value)
    elim written [ none ↦ crash | some stored ↦ ok (handle index (or_zero g), stored) ]

  -- Exactly one grow attempt per exhausted `acquire`.
  unfoldable pub make_room : PoolData V → PoolData V
  make_room pool = if is_empty pool.free_list then (try_grow pool).0 else pool

  unfoldable pub acquire : PoolData V → List (Value V) → Outcome (Value V × PoolData V)
  acquire pool [] = panic "acquire() needs 1 argument"
  acquire pool (value ∷ args) = fill value (free_pop (make_room pool)) (make_room pool)

  abbrev pub or_same : PoolData V → Option (PoolData V) → PoolData V
  or_same pool none = pool
  or_same pool (some written) = written

  unfoldable pub release_at : PoolData V → ℕ → Outcome (PoolData V)
  release_at pool index = do
    emptied ← slot_mut pool index none
    let pool1 = or_same pool emptied
    g ← generation pool1 index
    bumped ← generation_mut pool1 index (next_generation (or_zero g))
    ok (free_push (or_same pool1 bumped) index)

  unfoldable pub release : PoolData V → List (Value V) → Outcome (Value V × PoolData V)
  release pool (handle index g ∷ args) = do
    current ← generation pool index
    held ← slot pool index
    if is_generation current g && is_some held
        then (do released ← release_at pool index; ok (void_value, released))
        else ok (void_value, pool)
  release pool [] = panic "release() needs a Handle argument"
  release pool (null ∷ args) = panic "release() needs a Handle argument"
  release pool (void_value ∷ args) = panic "release() needs a Handle argument"
  release pool (other v ∷ args) = panic "release() needs a Handle argument"

  unfoldable pub get : PoolData V → List (Value V) → Outcome (Value V)
  get pool (handle index g ∷ args) = do
    current ← generation pool index
    held ← slot pool index
    ok (if is_generation current g then or_null held else null)
  get pool [] = panic "get() needs a Handle argument"
  get pool (null ∷ args) = panic "get() needs a Handle argument"
  get pool (void_value ∷ args) = panic "get() needs a Handle argument"
  get pool (other v ∷ args) = panic "get() needs a Handle argument"

  unfoldable pub set_growable : PoolData V → PoolData V
  set_growable pool = record pool { growable = true }

  unfoldable pub set_fifo : PoolData V → PoolData V
  set_fifo pool = record pool { fifo = true }
