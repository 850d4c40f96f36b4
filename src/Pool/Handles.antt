-- ===== src/Pool/Handles.antt =====
-- A pool is a map from live handles to values: `acquire` adds one, `release` removes one, `get` reads.
use ubel_stratum.Common.{
  ℕ, ◌*◌, ◌<◌, false, List, [], ◌∷◌, ◌≡◌, ◌≢◌, refl, ap, sym, subst, ◌∙◌, ◌⊎◌, ◌↔◌, inl, inr,
  Option, none, some, arith, nat_eq, length, is_empty, contains-append, contains-nil, contains_head,
  List-cases,
}
use native.Mathlib.Decide.{dec_lt, ℕ_discrete}
use ubel_stratum.Pool.Data.{
  ok, Value, handle, null, void_value, PoolData, count_up, next_generation, make_room,
  total_capacity, add_block, acquire, release, get,
}
use ubel_stratum.Pool.Cells.{
  cell_at, put_at, put_at_self, put_at_other, cell_at-some, cell_at-lt, cell_at-append_left,
  cell_at-append_new,
}
use ubel_stratum.Pool.FreeList.{contains-count_up}
use ubel_stratum.Pool.Valid.{IsValid, make_room_cases, below_end}
use ubel_stratum.Pool.Methods.{Live, stored, Stores, acquire_cases}
use ubel_stratum.Pool.Release.{released, release-Live, get-Live, get_stale}

module _ {V : Type 0} where
  add_block-Live :
      (pool : PoolData V) (j h : ℕ) (w : Value V)
      → IsValid pool
      → Live (add_block pool) j h w ↔ Live pool j h w
  unfolding add_block
  add_block-Live pool j h w valid = (
    λ l. elim (dec_lt j (length pool.blocks * pool.block_size)) [
      | yes below ↦ record {
        current =
            sym (
              cell_at-append_left pool.generations _ pool.block_size j valid.positive
                (rw valid.same_length below))
            ∙ l.current;
        holds =
            sym (cell_at-append_left pool.blocks _ pool.block_size j valid.positive below)
            ∙ l.holds;
      }
      | no above ↦ absurd (
          cc (
            l.holds,
            cell_at-append_new pool.blocks pool.block_size j none valid.positive (omega arith)
                (below_end pool j _ valid.positive l.holds),
          ))
    ],
    λ l.
        let below = cell_at-lt pool.blocks pool.block_size j valid.positive l.holds in
        record {
          current =
              cell_at-append_left pool.generations _ pool.block_size j valid.positive
                (rw valid.same_length below)
              ∙ l.current;
          holds =
              cell_at-append_left pool.blocks _ pool.block_size j valid.positive below ∙ l.holds;
        },
  )

  make_room-Live :
      (pool : PoolData V) (j h : ℕ) (w : Value V)
      → IsValid pool
      → Live (make_room pool) j h w ↔ Live pool j h w
  make_room-Live pool j h w valid = elim (make_room_cases pool) [
    | inl k ↦ subst (λ room. Live room j h w ↔ Live pool j h w) (sym k.0) (λ l. l, λ l. l)
    | inr k ↦
        subst (λ room. Live room j h w ↔ Live pool j h w) (sym k.0)
          (add_block-Live pool j h w valid)
  ]

  -- The handle and value of an acquisition, or what was live before.
  abbrev pub AcquiredOr : ℕ → ℕ → Value V → PoolData V → ℕ → ℕ → Value V → Type 0
  AcquiredOr i g v pool j h w = ((i ≡ j) × (g ≡ h) × (v ≡ w)) ⊎ Live pool j h w

  stored_self :
      (room : PoolData V) (rest : List ℕ) (i g : ℕ) (v : Value V)
      → Stores room rest i g
      → (h : ℕ) (w : Value V) → Live (stored room rest i v) i h w ↔ AcquiredOr i g v room i h w
  stored_self room rest i g v s h w =
      let full = put_at_self room.blocks room.block_size i (some v) s.empty in
      (
        λ l. inl (refl, cc (s.current, l.current), cc (full, l.holds)),
        λ k. elim k [
          | inl e ↦ record {
            current = s.current ∙ ap (λ (x : ℕ). some x) e.1;
            holds = full ∙ ap (λ (x : Value V). some (some x)) e.2;
          }
          | inr l ↦ absurd (cc (s.empty, l.holds))
        ],
      )

  stored-Live :
      (room : PoolData V) (rest : List ℕ) (i g : ℕ) (v : Value V)
      → Stores room rest i g
      → (j h : ℕ) (w : Value V) → Live (stored room rest i v) j h w ↔ AcquiredOr i g v room j h w
  stored-Live room rest i g v s j h w = elim (ℕ_discrete i j) [
    | yes same ↦
        subst (λ k. Live (stored room rest i v) k h w ↔ AcquiredOr i g v room k h w) same
          (stored_self room rest i g v s h w)
    | no apart ↦
        let unchanged = put_at_other room.blocks room.block_size i j (some v) apart in
        (
          λ l. inr (record { current = l.current; holds = sym unchanged ∙ l.holds }),
          λ k. elim k [
            | inl e ↦ absurd (apart e.0)
            | inr l ↦ record { current = l.current; holds = unchanged ∙ l.holds }
          ],
        )
  ]

  -- A successful `acquire` on a valid pool adds one live handle, which held nothing before, with the
  -- value: what is live afterwards is that handle with that value, and what was live before.
  pub acquire-Live :
      (pool : PoolData V) (v : Value V) (args : List (Value V)) {i g : ℕ} {q : PoolData V}
      → IsValid pool
      → acquire pool (v ∷ args) ≡ ok (handle i g, q)
      → ((j h : ℕ) (w : Value V) → Live q j h w ↔ AcquiredOr i g v pool j h w)
        × ((h : ℕ) (w : Value V) → Live pool i h w → ⊥)
  acquire-Live pool v args {i} {g} {q} valid e = elim (acquire_cases pool v args valid) [
    | inl (none_left, done) ↦ absurd (cc (e, done))
    | inr (i', rest, g', s, done) ↦
        let room = make_room pool in
        let at : i' ≡ i = cc (e, done) in
        let counted : g' ≡ g = cc (e, done) in
        let left : stored room rest i' v ≡ q = cc (e, done) in
        (
          λ j h w.
              let own = stored-Live room rest i' g' v s j h w in
              let same = make_room-Live pool j h w valid in
              (
                λ l. elim (own.0 (subst (λ x. Live x j h w) (sym left) l)) [
                  | inl k ↦ inl (sym at ∙ k.0, sym counted ∙ k.1, k.2)
                  | inr o ↦ inr (same.0 o)
                ],
                λ k.
                    subst (λ x. Live x j h w) left
                      (own.1 (elim k [
                        | inl n ↦ inl (at ∙ n.0, counted ∙ n.1, n.2)
                        | inr o ↦ inr (same.1 o)
                      ])),
              ),
          λ h w l. cc (
            s.empty,
            ((make_room-Live pool i' h w valid).1 (subst (λ x. Live pool x h w) (sym at) l)).holds,
          ),
        )
  ]

  -- Every slot holds a value.
  abbrev pub IsFull : PoolData V → Type 0
  IsFull pool =
      (i : ℕ)
      → i < total_capacity pool
      → (v : Value V) × (cell_at pool.blocks pool.block_size i ≡ some (some v))

  no_free-IsFull : (pool : PoolData V) → IsValid pool → pool.free_list ≡ [] → IsFull pool
  unfolding total_capacity
  no_free-IsFull pool valid e i l =
      read (cell_at-some pool.blocks pool.block_size i valid.positive valid.slots l)
    where
      read :
          (c : Option (Value V)) × (cell_at pool.blocks pool.block_size i ≡ some c)
          → (v : Value V) × (cell_at pool.blocks pool.block_size i ≡ some (some v))
      read (none, k) = absurd (cc (contains-nil i, rw e at ((valid.free i).1 k)))
      read (some v, k) = (v, k)

  IsFull-no_free : (pool : PoolData V) → IsValid pool → IsFull pool → pool.free_list ≡ []
  unfolding total_capacity
  IsFull-no_free pool valid full = elim (List-cases pool.free_list) [
    | inl e ↦ e
    | inr (x, rest, e) ↦
        let empty = (valid.free x).0 (rw e (contains_head x rest)) in
        let (v, k) = full x (cell_at-lt pool.blocks pool.block_size x valid.positive empty) in
        absurd (cc (empty, k))
  ]

  add_block_free : (pool : PoolData V) → IsValid pool → (add_block pool).free_list ≢ []
  unfolding add_block
  add_block_free pool valid e =
      let start = length pool.blocks * pool.block_size in
      let new =
        (contains-count_up start pool.block_size start).1
          (omega arith, omega (arith, valid.positive)) in
      cc (
        contains-nil start,
        rw e at
            ((contains-append pool.free_list (count_up start pool.block_size) start).1 (inr new)),
      )

  exhausted :
      (pool : PoolData V)
      → IsValid pool
      → (make_room pool).free_list ≡ []
      → (pool.growable ≡ false) × IsFull pool
  exhausted pool valid e = elim (make_room_cases pool) [
    | inr (grown, why, k) ↦
        absurd (add_block_free pool valid (subst (λ (x : PoolData V). x.free_list ≡ []) grown e))
    | inl (same, why) ↦
        let none_free : pool.free_list ≡ [] = subst (λ (x : PoolData V). x.free_list ≡ []) same e in
        (
          elim why [
            | inl some_free ↦ absurd (cc (some_free, ap (λ (xs : List ℕ). is_empty xs) none_free))
            | inr fixed ↦ fixed
          ],
          no_free-IsFull pool valid none_free,
        )
  ]

  no_slot :
      (pool : PoolData V)
      → IsValid pool
      → pool.growable ≡ false
      → IsFull pool
      → (i : ℕ) → cell_at (make_room pool).blocks (make_room pool).block_size i ≡ some none
      → ⊥
  unfolding total_capacity
  no_slot pool valid fixed full i empty = elim (make_room_cases pool) [
    | inr (grown, e, grows) ↦ cc (fixed, grows)
    | inl (same, why) ↦
        let here =
          subst (λ (x : PoolData V). cell_at x.blocks x.block_size i ≡ some none) same empty in
        let (v, k) = full i (cell_at-lt pool.blocks pool.block_size i valid.positive here) in
        cc (here, k)
  ]

  -- `acquire` on a valid pool answers `null` exactly if every slot holds a value and the pool may not
  -- grow.
  pub acquire-eq-null :
      (pool : PoolData V) (v : Value V) (args : List (Value V))
      → IsValid pool
      → ((q : PoolData V) × (acquire pool (v ∷ args) ≡ ok (null, q)))
        ↔ ((pool.growable ≡ false) × IsFull pool)
  acquire-eq-null pool v args valid = (
    λ (q, answered). elim (acquire_cases pool v args valid) [
      | inl (e, done) ↦ exhausted pool valid e
      | inr (i, rest, g, s, done) ↦ absurd (cc (answered, done))
    ],
    λ (fixed, full). elim (acquire_cases pool v args valid) [
      | inl (e, done) ↦ (make_room pool, done)
      | inr (i, rest, g, s, done) ↦ absurd (no_slot pool valid fixed full i s.empty)
    ],
  )

  released-Live :
      (pool : PoolData V) (i g : ℕ) (v : Value V)
      → IsValid pool
      → Live pool i g v
      → (j h : ℕ) (w : Value V) → Live (released pool i g) j h w ↔ (Live pool j h w × (i ≢ j))
  released-Live pool i g v valid l j h w = elim (ℕ_discrete i j) [
    | yes same ↦ (
      λ k. absurd (
          cc (
            subst
                (λ x.
                  cell_at (put_at pool.blocks pool.block_size i none) pool.block_size x ≡ some none)
                same (put_at_self pool.blocks pool.block_size i none l.holds),
            k.holds,
          )),
      λ k. absurd (k.1 same),
    )
    | no apart ↦
        let counted = put_at_other pool.generations pool.block_size i j (next_generation g) apart in
        let kept = put_at_other pool.blocks pool.block_size i j none apart in
        (
          λ k. (record { current = sym counted ∙ k.current; holds = sym kept ∙ k.holds }, apart),
          λ k. record { current = counted ∙ k.0.current; holds = kept ∙ k.0.holds },
        )
  ]

  -- `release` of a live handle on a valid pool removes that handle and leaves the others live, with
  -- their values.
  pub release_removes :
      (pool : PoolData V) (i g : ℕ) (v : Value V) (args : List (Value V))
      → IsValid pool
      → Live pool i g v
      → (q : PoolData V) × (release pool (handle i g ∷ args) ≡ ok (void_value, q))
        × ((j h : ℕ) (w : Value V) → Live q j h w ↔ (Live pool j h w × (i ≢ j)))
  release_removes pool i g v args valid l =
      (released pool i g, release-Live pool i g v args valid l, released-Live pool i g v valid l)

  -- `get` on a valid pool reads the value of a live handle, and `null` for any other handle.
  pub get_lem :
      (pool : PoolData V) (i g : ℕ) (args : List (Value V))
      → IsValid pool
      → ((v : Value V) → Live pool i g v → get pool (handle i g ∷ args) ≡ ok v)
        × (((v : Value V) → Live pool i g v → ⊥) → get pool (handle i g ∷ args) ≡ ok null)
  get_lem pool i g args valid = (λ v. get-Live pool i g v args valid, get_stale pool i g args valid)
