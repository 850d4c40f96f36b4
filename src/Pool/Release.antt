-- ===== src/Pool/Release.antt =====
-- What `release` and `get` do to a valid pool, case by case, and that `release` keeps it valid.
use ubel_stratum.Common.{
  beq_refl, not_true, ℕ, true, false, ◌&&◌, List, [], ◌∷◌, ◌++◌, ◌≡◌, ◌≢◌, refl, ap, sym, subst,
  ◌∙◌, ◌⊎◌, inl, inr, Option, none, some, arith, nat_eq, contains, contains-cons, contains-append,
  contains-nil, if◌then◌else◌, length-modify,
}
use Prim.Native.Nat.{◌/◌}
use native.Mathlib.Decide.{ℕ_discrete}
use ubel_stratum.Pool.Data.{
  ok, Value, handle, null, void_value, PoolData, flatten, next_generation, free_push, or_null,
  is_generation, is_some, release_at, release, get,
}
use ubel_stratum.Pool.Cells.{cell_at, put_at, put_at_self, put_at_other, put_at-AllLength}
use ubel_stratum.Pool.FreeList.{append-Distinct}
use ubel_stratum.Pool.Valid.{IsValid, slot_lem, generation_lem, slot_mut_lem, generation_mut_lem}
use ubel_stratum.Pool.Methods.{Live}

old_member :
    (xs : List ℕ) (i j : ℕ) → i ≢ j → contains (xs ++ i ∷ []) j ≡ true → contains xs j ≡ true
old_member xs i j apart k = elim ((contains-append xs (i ∷ []) j).0 k) [
  | inl old ↦ old
  | inr m ↦ elim ((contains-cons i [] j).0 m) [
    | inl same ↦ absurd (apart same)
    | inr never ↦ absurd (cc (never, contains-nil j))
  ]
]

module _ {V : Type 0} where
  -- The pool after the slot is given back.
  abbrev pub released : PoolData V → ℕ → ℕ → PoolData V
  released pool i g = record pool {
    blocks = put_at pool.blocks pool.block_size i none;
    generations = put_at pool.generations pool.block_size i (next_generation g);
    free_list = pool.free_list ++ i ∷ [];
  }

  used :
      (pool : PoolData V) (i : ℕ) (v : Value V)
      → IsValid pool
      → cell_at pool.blocks pool.block_size i ≡ some (some v)
      → contains pool.free_list i ≡ true
      → ⊥
  used pool i v w e k = cc (e, (w.free i).0 k)

  pub released-IsValid :
      (pool : PoolData V) (i g : ℕ) (v : Value V)
      → IsValid pool
      → Live pool i g v
      → IsValid (released pool i g)
  released-IsValid pool i g v w l = record {
    positive = w.positive;
    slots = put_at-AllLength pool.blocks pool.block_size i none w.slots;
    counters = put_at-AllLength pool.generations pool.block_size i (next_generation g) w.counters;
    same_length =
        length-modify pool.generations (i / pool.block_size) _
        ∙ (w.same_length ∙ sym (length-modify pool.blocks (i / pool.block_size) _));
    free = λ j.
        let both = contains-append pool.free_list (i ∷ []) j in
        let last = contains-cons i [] j in
        elim (ℕ_discrete i j) [
          | yes same ↦ (
            λ k.
                subst
                  (λ x.
                    cell_at (put_at pool.blocks pool.block_size i none) pool.block_size x
                    ≡ some none)
                  same (put_at_self pool.blocks pool.block_size i none l.holds),
            λ e. both.1 (inr (last.1 (inl same))),
          )
          | no apart ↦
              let unchanged = put_at_other pool.blocks pool.block_size i j none apart in
              (
                λ k. unchanged ∙ (w.free j).0 (old_member pool.free_list i j apart k),
                λ e. both.1 (inl ((w.free j).1 (sym unchanged ∙ e))),
              )
        ];
    distinct =
        append-Distinct pool.free_list (i ∷ []) w.distinct (contains-nil i, tt)
          (λ j k. not_true _ (λ m. elim ((contains-cons i [] j).0 m) [
            | inl same ↦
                used pool i v w l.holds (subst (λ x. contains pool.free_list x ≡ true) (sym same) k)
            | inr never ↦ cc (never, contains-nil j)
          ]));
  }

  release_at_lem :
      (pool : PoolData V) (i g : ℕ) (v : Value V)
      → IsValid pool
      → Live pool i g v
      → release_at pool i ≡ ok (released pool i g)
  unfolding release_at free_push
  release_at_lem pool i g v w l =
      let emptied : PoolData V = record pool {
        blocks = put_at pool.blocks pool.block_size i none;
      } in
      rw
        (
          slot_mut_lem pool i none w.positive l.holds,
          generation_lem emptied i w.positive,
          l.current,
          generation_mut_lem emptied i (next_generation g) w.positive l.current,
        )
        refl

  pub release-Live :
      (pool : PoolData V) (i g : ℕ) (v : Value V) (args : List (Value V))
      → IsValid pool
      → Live pool i g v
      → release pool (handle i g ∷ args) ≡ ok (void_value, released pool i g)
  unfolding release
  release-Live pool i g v args w l =
      rw
        (
          generation_lem pool i w.positive,
          slot_lem pool i w.positive,
          l.current,
          l.holds,
          beq_refl g,
          release_at_lem pool i g v w l,
        )
        refl

  no_match :
      (c : Option ℕ) (h : Option (Option (Value V))) (g : ℕ)
      → ((v : Value V) → c ≡ some g → h ≡ some (some v) → ⊥)
      → (is_generation c g && is_some (flatten h)) ≡ false
  no_match none h g dead = refl
  no_match (some c) none g dead = ground arith
  no_match (some c) (some none) g dead = ground arith
  no_match (some c) (some (some v)) g dead = ground (arith, dead v)

  reads_null :
      (c : Option ℕ) (h : Option (Option (Value V))) (g : ℕ)
      → ((v : Value V) → c ≡ some g → h ≡ some (some v) → ⊥)
      → (if is_generation c g then or_null (flatten h) else null) ≡ null
  reads_null none h g dead = refl
  reads_null (some c) none g dead = ground arith
  reads_null (some c) (some none) g dead = ground arith
  reads_null (some c) (some (some v)) g dead = ground (arith, dead v)

  -- Any other handle is left alone.
  pub release_stale :
      (pool : PoolData V) (i g : ℕ) (args : List (Value V))
      → IsValid pool
      → ((v : Value V) → Live pool i g v → ⊥)
      → release pool (handle i g ∷ args) ≡ ok (void_value, pool)
  unfolding release
  release_stale pool i g args w dead =
      rw
        (
          generation_lem pool i w.positive,
          slot_lem pool i w.positive,
          no_match (cell_at pool.generations pool.block_size i)
              (cell_at pool.blocks pool.block_size i) g
              (λ v c h. dead v (record { current = c; holds = h })),
        )
        refl

  pub get-Live :
      (pool : PoolData V) (i g : ℕ) (v : Value V) (args : List (Value V))
      → IsValid pool
      → Live pool i g v
      → get pool (handle i g ∷ args) ≡ ok v
  unfolding get
  get-Live pool i g v args w l =
      rw
        (
          generation_lem pool i w.positive,
          slot_lem pool i w.positive,
          l.current,
          l.holds,
          beq_refl g,
        )
        refl

  pub get_stale :
      (pool : PoolData V) (i g : ℕ) (args : List (Value V))
      → IsValid pool
      → ((v : Value V) → Live pool i g v → ⊥)
      → get pool (handle i g ∷ args) ≡ ok null
  unfolding get
  get_stale pool i g args w dead =
      rw (generation_lem pool i w.positive, slot_lem pool i w.positive)
        (ap (λ (r : Value V). ok r)
          (reads_null (cell_at pool.generations pool.block_size i)
            (cell_at pool.blocks pool.block_size i) g
            (λ v c h. dead v (record { current = c; holds = h }))))

  -- Whether a handle is live can be seen.
  pub Live-cases :
      (pool : PoolData V) (i g : ℕ)
      → ((v : Value V) × Live pool i g v) ⊎ ((v : Value V) → Live pool i g v → ⊥)
  Live-cases pool i g =
      seen (cell_at pool.generations pool.block_size i) (cell_at pool.blocks pool.block_size i) refl
        refl
    where
      seen :
          (c : Option ℕ) (h : Option (Option (Value V)))
          → cell_at pool.generations pool.block_size i ≡ c
          → cell_at pool.blocks pool.block_size i ≡ h
          → ((v : Value V) × Live pool i g v) ⊎ ((v : Value V) → Live pool i g v → ⊥)
      seen none h e k = inr (λ v l. cc (e, l.current))
      seen (some c) none e k = inr (λ v l. cc (k, l.holds))
      seen (some c) (some none) e k = inr (λ v l. cc (k, l.holds))
      seen (some c) (some (some v)) e k = elim (ℕ_discrete c g) [
        | yes same ↦ inl (v, record { current = e ∙ ap (λ (x : ℕ). some x) same; holds = k })
        | no apart ↦ inr (λ v l. apart (cc (e, l.current)))
      ]

  -- `release` of any handle on a valid pool returns, and leaves a valid pool.
  pub release-IsValid :
      (pool : PoolData V) (i g : ℕ) (args : List (Value V))
      → IsValid pool
      → (q : PoolData V) × (release pool (handle i g ∷ args) ≡ ok (void_value, q)) × IsValid q
  release-IsValid pool i g args w = elim (Live-cases pool i g) [
    | inl (v, l) ↦
        (released pool i g, release-Live pool i g v args w l, released-IsValid pool i g v w l)
    | inr dead ↦ (pool, release_stale pool i g args w dead, w)
  ]
