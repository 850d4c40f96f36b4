-- ===== src/Pool/Tests.antt =====
-- A pool of two slots, after the unit tests of crates/core/src/builtins/instance/pool_methods.rs.
use ubel_stratum.Common.{ℕ, false, [], ◌∷◌, ◌≡◌, ◌≢◌, ◌↔◌, subst, refl, none, some, arith, nat_eq}
use ubel_stratum.Pool.Data.{
  ok, crash, Value, handle, null, void_value, other, PoolData, with_capacity, locate, slot,
  slot_mut, generation, generation_mut, add_block, try_grow, free_pop, free_push, fill, make_room,
  acquire, release_at, release, get, set_growable, set_fifo, pop_back, replicate, count_up,
  next_generation, iter_occupied,
}
use ubel_stratum.Pool.Valid.{IsValid, with_capacity-IsValid}
use ubel_stratum.Pool.Methods.{Live, acquire-IsValid}
use ubel_stratum.Pool.Handles.{
  AcquiredOr, IsFull, acquire-Live, acquire-eq-null, release_removes, get_lem,
}
use ubel_stratum.Pool.Stale.{
  Steps, start, then_step, acquires, releases, Steps-IsValid, get-released,
}

abbrev empty_pool : PoolData ℕ
empty_pool = record {
  blocks = (none ∷ (none ∷ [])) ∷ [];
  generations = (0 ∷ (0 ∷ [])) ∷ [];
  free_list = 0 ∷ (1 ∷ []);
  block_size = 2;
  growable = false;
  fifo = false;
}

-- The second slot holds 7.
abbrev one_held : PoolData ℕ
one_held = record empty_pool { blocks = (none ∷ (some (other 7) ∷ [])) ∷ []; free_list = 0 ∷ [] }

abbrev one_released : PoolData ℕ
one_released = record empty_pool { generations = (0 ∷ (1 ∷ [])) ∷ []; free_list = 0 ∷ (1 ∷ []) }

abbrev reused : PoolData ℕ
reused = record one_held {
  generations = (0 ∷ (1 ∷ [])) ∷ [];
  blocks = (none ∷ (some (other 8) ∷ [])) ∷ [];
  free_list = 0 ∷ [];
}

unfoldable methods : Unit {0}
unfolding with_capacity locate slot slot_mut generation generation_mut add_block try_grow free_pop
    free_push fill make_room acquire release_at release get set_growable set_fifo pop_back replicate
    count_up next_generation iter_occupied
methods = tt

made : with_capacity 2 ≡ empty_pool
unfolding methods
made = refl

acquired : acquire empty_pool (other 7 ∷ []) ≡ ok (handle 1 0, one_held)
unfolding methods
acquired = refl

freed : release one_held (handle 1 0 ∷ []) ≡ ok (void_value, one_released)
unfolding methods
freed = refl

acquired_again : acquire one_released (other 8 ∷ []) ≡ ok (handle 1 1, reused)
unfolding methods
acquired_again = refl

stale : get reused (handle 1 0 ∷ []) ≡ ok null
unfolding methods
stale = refl

holes_skipped : iter_occupied one_held ≡ other 7 ∷ []
unfolding methods
holes_skipped = refl

-- A pool of no slots: a handle of another pool divides by zero.
no_slots : get (with_capacity {V = ℕ} 0) (handle 0 0 ∷ []) ≡ crash
unfolding methods
no_slots = refl

later : Steps one_released 1 reused
later = then_step start (acquires (other 8 ∷ []) acquired_again)

reuse : Steps one_held 2 reused
reuse =
    then_step (then_step start (releases (handle 1 0 ∷ []) freed))
      (acquires (other 8 ∷ []) acquired_again)

empty-IsValid : IsValid empty_pool
empty-IsValid = subst IsValid made (with_capacity-IsValid 2 (omega arith))

one_held-IsValid : IsValid one_held
one_held-IsValid =
    let (r, q, e, w) = acquire-IsValid empty_pool (other 7) [] empty-IsValid in
    subst IsValid (cc (e, acquired)) w

held : Live one_held 1 0 (other 7)
held = record { current = refl; holds = refl }

acquire-Live_example :
    ((j h : ℕ) (w : Value ℕ) → Live one_held j h w ↔ AcquiredOr 1 0 (other 7) empty_pool j h w)
    × ((h : ℕ) (w : Value ℕ) → Live empty_pool 1 h w → ⊥)
acquire-Live_example = acquire-Live empty_pool (other 7) [] empty-IsValid acquired

acquire-eq-null_example :
    ((q : PoolData ℕ) × (acquire one_held (other 9 ∷ []) ≡ ok (null, q)))
    ↔ ((one_held.growable ≡ false) × IsFull one_held)
acquire-eq-null_example = acquire-eq-null one_held (other 9) [] one_held-IsValid

release_removes_example :
    (q : PoolData ℕ) × (release one_held (handle 1 0 ∷ []) ≡ ok (void_value, q))
    × ((j h : ℕ) (w : Value ℕ) → Live q j h w ↔ (Live one_held j h w × (1 ≢ j)))
release_removes_example = release_removes one_held 1 0 (other 7) [] one_held-IsValid held

get_lem_example :
    ((v : Value ℕ) → Live one_held 1 0 v → get one_held (handle 1 0 ∷ []) ≡ ok v)
    × (((v : Value ℕ) → Live one_held 1 0 v → ⊥) → get one_held (handle 1 0 ∷ []) ≡ ok null)
get_lem_example = get_lem one_held 1 0 [] one_held-IsValid

acquire-IsValid_example :
    (r : Value ℕ) × (q : PoolData ℕ) × (acquire one_held (other 8 ∷ []) ≡ ok (r, q)) × IsValid q
acquire-IsValid_example = acquire-IsValid one_held (other 8) [] one_held-IsValid

Steps-IsValid_example : IsValid reused
Steps-IsValid_example = Steps-IsValid one_held-IsValid reuse

get-released_example : get reused (handle 1 0 ∷ []) ≡ ok null
get-released_example =
    get-released one_held 1 0 (other 7) void_value [] [] one_held-IsValid (omega arith) held freed
      later (omega arith)
