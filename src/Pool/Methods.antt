-- ===== src/Pool/Methods.antt =====
-- What `acquire` does to a valid pool, case by case, and that it keeps it valid.
use ubel_stratum.Common.{
  ℕ, true, List, [], ◌∷◌, ◌≡◌, refl, sym, subst, ◌∙◌, ◌⊎◌, inl, inr, none, some, nat_eq, contains,
  length-modify,
}
use Prim.Native.Nat.{◌/◌}
use native.Mathlib.Decide.{ℕ_discrete}
use ubel_stratum.Pool.Data.{ok, Value, handle, null, PoolData, fill, make_room, acquire}
use ubel_stratum.Pool.Cells.{
  cell_at, put_at, put_at_self, put_at_other, put_at-AllLength, cell_at-some, cell_at-lt,
}
use ubel_stratum.Pool.FreeList.{Pops}
use ubel_stratum.Pool.Valid.{
  IsValid, make_room-IsValid, free_pop_cases, generation_lem, slot_mut_lem,
}

module _ {V : Type 0} where
  -- The handle is current and its slot holds the value.
  pub record Live (pool : PoolData V) (i g : ℕ) (v : Value V) : Type 0 where
    pub current : cell_at pool.generations pool.block_size i ≡ some g
    pub holds : cell_at pool.blocks pool.block_size i ≡ some (some v)

  -- The pool after the value is stored in a slot taken off the free list.
  abbrev pub stored : PoolData V → List ℕ → ℕ → Value V → PoolData V
  stored room rest i v = record room {
    free_list = rest;
    blocks = put_at room.blocks room.block_size i (some v);
  }

  pub record Stores (room : PoolData V) (rest : List ℕ) (i g : ℕ) : Type 0 where
    pub popped : Pops room.free_list i rest
    pub empty : cell_at room.blocks room.block_size i ≡ some none
    pub current : cell_at room.generations room.block_size i ≡ some g

  pub stored-IsValid :
      (room : PoolData V) (rest : List ℕ) (i g : ℕ) (v : Value V)
      → IsValid room
      → Stores room rest i g
      → IsValid (stored room rest i v)
  stored-IsValid room rest i g v w s = record {
    positive = w.positive;
    slots = put_at-AllLength room.blocks room.block_size i (some v) w.slots;
    counters = w.counters;
    same_length = w.same_length ∙ sym (length-modify room.blocks (i / room.block_size) _);
    free = λ j. elim (ℕ_discrete i j) [
      | yes same ↦
          let full = put_at_self room.blocks room.block_size i (some v) s.empty in
          (
            λ k.
                absurd
                  (cc (s.popped.gone w.distinct, subst (λ x. contains rest x ≡ true) (sym same) k)),
            λ e. absurd (
                cc (
                  full,
                  subst
                      (λ x.
                        cell_at (put_at room.blocks room.block_size i (some v)) room.block_size x
                        ≡ some none)
                      (sym same) e,
                )),
          )
      | no apart ↦
          let (to, from) = s.popped.members j in
          let unchanged = put_at_other room.blocks room.block_size i j (some v) apart in
          (
            λ k. unchanged ∙ (w.free j).0 (from (inr k)),
            λ e. elim (to ((w.free j).1 (sym unchanged ∙ e))) [
              | inl same ↦ absurd (apart same)
              | inr k ↦ k
            ],
          )
    ];
    distinct = s.popped.distinct w.distinct;
  }

  fill_lem :
      (room : PoolData V) (rest : List ℕ) (i g : ℕ) (v : Value V) (pool : PoolData V)
      → IsValid room
      → Stores room rest i g
      → fill v (some (i, record room { free_list = rest })) pool
        ≡ ok (handle i g, stored room rest i v)
  unfolding fill
  fill_lem room rest i g v pool w s =
      let popped : PoolData V = record room { free_list = rest } in
      rw
        (
          generation_lem popped i w.positive,
          slot_mut_lem popped i (some v) w.positive s.empty,
          s.current,
        )
        refl

  Stores-of_pop :
      (room : PoolData V) (rest : List ℕ) (i : ℕ)
      → IsValid room
      → Pops room.free_list i rest
      → (g : ℕ) × Stores room rest i g
  Stores-of_pop room rest i w p =
      let empty = (w.free i).0 ((p.members i).1 (inl refl)) in
      let (g, e) =
        cell_at-some room.generations room.block_size i w.positive w.counters
          (rw w.same_length (cell_at-lt room.blocks room.block_size i w.positive empty)) in
      (g, record { popped = p; empty = empty; current = e })

  -- Either no slot is left and nothing changes but the room made, or a slot is filled.
  pub acquire_cases :
      (pool : PoolData V) (v : Value V) (args : List (Value V))
      → IsValid pool
      → (((make_room pool).free_list ≡ []) × (acquire pool (v ∷ args) ≡ ok (null, make_room pool)))
        ⊎ ((i : ℕ) × (rest : List ℕ) × (g : ℕ) × Stores (make_room pool) rest i g
            × (acquire pool (v ∷ args) ≡ ok (handle i g, stored (make_room pool) rest i v)))
  unfolding acquire
  acquire_cases pool v args w =
      let room = make_room pool in
      let w' = make_room-IsValid pool w in
      elim (free_pop_cases room) [
        | inl (e, stop) ↦ inl (e, rw stop (nothing v room))
        | inr (i, rest, go, p) ↦
            let (g, s) = Stores-of_pop room rest i w' p in
            inr (i, rest, g, s, rw go (fill_lem room rest i g v room w' s))
      ]
    where
      nothing : (v : Value V) (room : PoolData V) → fill v none room ≡ ok (null, room)
      nothing v room = unfold fill in refl

  -- `acquire` of a value on a valid pool returns, and leaves a valid pool.
  pub acquire-IsValid :
      (pool : PoolData V) (v : Value V) (args : List (Value V))
      → IsValid pool
      → (r : Value V) × (q : PoolData V) × (acquire pool (v ∷ args) ≡ ok (r, q)) × IsValid q
  acquire-IsValid pool v args w = elim (acquire_cases pool v args w) [
    | inl (e, done) ↦ (null, make_room pool, done, make_room-IsValid pool w)
    | inr (i, rest, g, s, done) ↦ (
      handle i g,
      stored (make_room pool) rest i v,
      done,
      stored-IsValid (make_room pool) rest i g v (make_room-IsValid pool w) s,
    )
  ]
