-- ===== src/Pool/Cells.antt =====
-- Reading and writing one slot of a list of blocks, by its index over all blocks.
use native.Mathlib.Nat.{div-add-mod', mod-lt, div-eq_of_lt-le}
use native.Mathlib.Decide.{ℕ_discrete}
use ubel_stratum.Common.{
  ℕ, zero, suc, ◌+◌, ◌*◌, ◌%◌, ◌<◌, ◌≤◌, List, [], ◌∷◌, ◌++◌, ◌≡◌, ◌≢◌, refl, ap, sym, subst, ◌∙◌,
  Option, some, arith, nat_eq, length, length-modify, get_elem?, modify,
}
use Prim.Native.Nat.{◌/◌}
use ubel_stratum.Pool.Data.{replicate, get_cell, set_cell}

same_place : (i j n : ℕ) → i / n ≡ j / n → i % n ≡ j % n → i ≡ j
same_place i j n d m =
    sym (div-add-mod' i n)
    ∙ ap (λ (q : ℕ). q * n + i % n) d
    ∙ ap (λ (r : ℕ). j / n * n + r) m
    ∙ div-add-mod' j n

pub div-lt : (i k n : ℕ) → 0 < n → i < k * n → i / n < k
div-lt i k n h l = grind arith

pub lt-mul : (i k n : ℕ) → 0 < n → i / n < k → i < k * n
lt-mul i k n h l = grind arith

-- Every block has the same length.
abbrev pub AllLength : {A : Type 0} → ℕ → List (List A) → Type 0
AllLength n [] = Unit {0}
AllLength n (row ∷ rows) = (length row ≡ n) × AllLength n rows

module _ {A : Type 0} where
  -- `slot(i)` and `generation(i)` for blocks of `n` slots.
  abbrev pub cell_at : List (List A) → ℕ → ℕ → Option A
  cell_at rows n i = get_cell rows (i / n) (i % n)

  abbrev pub put_at : List (List A) → ℕ → ℕ → A → List (List A)
  put_at rows n i a = set_cell rows (i / n) (i % n) a

  get_elem?-modify_self :
      (xs : List A) (i : ℕ) (f : A → A) {a : A}
      → get_elem? xs i ≡ some a
      → get_elem? (modify xs i f) i ≡ some (f a)
  get_elem?-modify_self [] i f e = absurd (cc)
  get_elem?-modify_self (x ∷ xs) zero f e = cc
  get_elem?-modify_self (x ∷ xs) (suc i) f e = get_elem?-modify_self xs i f e

  get_elem?-modify_other :
      (xs : List A) (i j : ℕ) (f : A → A) → i ≢ j → get_elem? (modify xs i f) j ≡ get_elem? xs j
  get_elem?-modify_other [] i j f e = refl
  get_elem?-modify_other (x ∷ xs) zero zero f e = absurd (e refl)
  get_elem?-modify_other (x ∷ xs) zero (suc j) f e = refl
  get_elem?-modify_other (x ∷ xs) (suc i) zero f e = refl
  get_elem?-modify_other (x ∷ xs) (suc i) (suc j) f e =
      get_elem?-modify_other xs i j f (λ s. e (ap suc s))

  get_elem?-append_left :
      (xs ys : List A) (i : ℕ) → i < length xs → get_elem? (xs ++ ys) i ≡ get_elem? xs i
  get_elem?-append_left [] ys i h = elim h [ ]
  get_elem?-append_left (x ∷ xs) ys zero h = refl
  get_elem?-append_left (x ∷ xs) ys (suc i) h = get_elem?-append_left xs ys i (omega arith)

  get_elem?-some : (xs : List A) (i : ℕ) → i < length xs → (a : A) × (get_elem? xs i ≡ some a)
  get_elem?-some [] i h = elim h [ ]
  get_elem?-some (x ∷ xs) zero h = (x, refl)
  get_elem?-some (x ∷ xs) (suc i) h = get_elem?-some xs i (omega arith)

  get_elem?-lt : (xs : List A) (i : ℕ) {a : A} → get_elem? xs i ≡ some a → i < length xs
  get_elem?-lt [] i e = absurd (cc)
  get_elem?-lt (x ∷ xs) zero e = omega arith
  get_elem?-lt (x ∷ xs) (suc i) e = omega (arith, get_elem?-lt xs i e)

  get_elem?-replicate : (n : ℕ) (a : A) (i : ℕ) → i < n → get_elem? (replicate n a) i ≡ some a
  unfolding replicate
  get_elem?-replicate zero a i h = elim h [ ]
  get_elem?-replicate (suc n) a zero h = refl
  get_elem?-replicate (suc n) a (suc i) h = get_elem?-replicate n a i (omega arith)

  pub length-replicate : (n : ℕ) (a : A) → length (replicate n a) ≡ n
  unfolding replicate
  length-replicate zero a = refl
  length-replicate (suc n) a = ap suc (length-replicate n a)

  set_cell_self :
      (rows : List (List A)) (b o : ℕ) (a : A) {old : A}
      → get_cell rows b o ≡ some old
      → get_cell (set_cell rows b o a) b o ≡ some a
  set_cell_self [] b o a e = absurd (cc)
  set_cell_self (row ∷ rows) zero o a e = get_elem?-modify_self row o (λ old. a) e
  set_cell_self (row ∷ rows) (suc b) o a e = set_cell_self rows b o a e

  set_cell_other_row :
      (rows : List (List A)) (b c o p : ℕ) (a : A)
      → b ≢ c
      → get_cell (set_cell rows b o a) c p ≡ get_cell rows c p
  set_cell_other_row [] b c o p a e = refl
  set_cell_other_row (row ∷ rows) zero zero o p a e = absurd (e refl)
  set_cell_other_row (row ∷ rows) zero (suc c) o p a e = refl
  set_cell_other_row (row ∷ rows) (suc b) zero o p a e = refl
  set_cell_other_row (row ∷ rows) (suc b) (suc c) o p a e =
      set_cell_other_row rows b c o p a (λ s. e (ap suc s))

  set_cell_same_row :
      (rows : List (List A)) (b o p : ℕ) (a : A)
      → o ≢ p
      → get_cell (set_cell rows b o a) b p ≡ get_cell rows b p
  set_cell_same_row [] b o p a e = refl
  set_cell_same_row (row ∷ rows) zero o p a e = get_elem?-modify_other row o p (λ old. a) e
  set_cell_same_row (row ∷ rows) (suc b) o p a e = set_cell_same_row rows b o p a e

  AllLength-set_cell :
      (rows : List (List A)) (n b o : ℕ) (a : A)
      → AllLength n rows
      → AllLength n (set_cell rows b o a)
  AllLength-set_cell [] n b o a h = h
  AllLength-set_cell (row ∷ rows) n zero o a h = (length-modify row o (λ old. a) ∙ h.0, h.1)
  AllLength-set_cell (row ∷ rows) n (suc b) o a h = (h.0, AllLength-set_cell rows n b o a h.1)

  pub AllLength-append :
      (rows : List (List A)) (row : List A) (n : ℕ)
      → AllLength n rows
      → length row ≡ n
      → AllLength n (rows ++ row ∷ [])
  AllLength-append [] row n h e = (e, tt)
  AllLength-append (r ∷ rows) row n h e = (h.0, AllLength-append rows row n h.1 e)

  get_cell-some :
      (rows : List (List A)) (n b o : ℕ)
      → AllLength n rows
      → b < length rows
      → o < n
      → (a : A) × (get_cell rows b o ≡ some a)
  get_cell-some [] n b o h l k = elim l [ ]
  get_cell-some (row ∷ rows) n zero o h l k = get_elem?-some row o (omega (arith, h.0))
  get_cell-some (row ∷ rows) n (suc b) o h l k = get_cell-some rows n b o h.1 (omega arith) k

  get_cell-lt :
      (rows : List (List A)) (b o : ℕ) {a : A} → get_cell rows b o ≡ some a → b < length rows
  get_cell-lt [] b o e = absurd (cc)
  get_cell-lt (row ∷ rows) zero o e = omega arith
  get_cell-lt (row ∷ rows) (suc b) o e = omega (arith, get_cell-lt rows b o e)

  get_cell-append_left :
      (rows more : List (List A)) (b o : ℕ)
      → b < length rows
      → get_cell (rows ++ more) b o ≡ get_cell rows b o
  get_cell-append_left [] more b o h = elim h [ ]
  get_cell-append_left (row ∷ rows) more zero o h = refl
  get_cell-append_left (row ∷ rows) more (suc b) o h =
      get_cell-append_left rows more b o (omega arith)

  get_cell-append_last :
      (rows : List (List A)) (row : List A) (o : ℕ)
      → get_cell (rows ++ row ∷ []) (length rows) o ≡ get_elem? row o
  get_cell-append_last [] row o = refl
  get_cell-append_last (r ∷ rows) row o = get_cell-append_last rows row o

  -- Reading back a write.
  pub put_at_self :
      (rows : List (List A)) (n i : ℕ) (a : A) {old : A}
      → cell_at rows n i ≡ some old
      → cell_at (put_at rows n i a) n i ≡ some a
  put_at_self rows n i a e = set_cell_self rows (i / n) (i % n) a e

  -- A write leaves the other slots alone.
  pub put_at_other :
      (rows : List (List A)) (n i j : ℕ) (a : A)
      → i ≢ j
      → cell_at (put_at rows n i a) n j ≡ cell_at rows n j
  put_at_other rows n i j a e = elim (ℕ_discrete (i / n) (j / n)) [
    | no d ↦ set_cell_other_row rows (i / n) (j / n) (i % n) (j % n) a d
    | yes d ↦
        subst (λ b. get_cell (set_cell rows (i / n) (i % n) a) b (j % n) ≡ get_cell rows b (j % n))
          d (set_cell_same_row rows (i / n) (i % n) (j % n) a (λ m. e (same_place i j n d m)))
  ]

  pub put_at-AllLength :
      (rows : List (List A)) (n i : ℕ) (a : A) → AllLength n rows → AllLength n (put_at rows n i a)
  put_at-AllLength rows n i a h = AllLength-set_cell rows n (i / n) (i % n) a h

  pub cell_at-some :
      (rows : List (List A)) (n i : ℕ)
      → 0 < n
      → AllLength n rows
      → i < length rows * n
      → (a : A) × (cell_at rows n i ≡ some a)
  cell_at-some rows n i p h l =
      get_cell-some rows n (i / n) (i % n) h (div-lt i (length rows) n p l) (mod-lt i p)

  pub cell_at-lt :
      (rows : List (List A)) (n i : ℕ) {a : A}
      → 0 < n
      → cell_at rows n i ≡ some a
      → i < length rows * n
  cell_at-lt rows n i p e = lt-mul i (length rows) n p (get_cell-lt rows (i / n) (i % n) e)

  pub cell_at-append_left :
      (rows more : List (List A)) (n i : ℕ)
      → 0 < n
      → i < length rows * n
      → cell_at (rows ++ more) n i ≡ cell_at rows n i
  cell_at-append_left rows more n i p l =
      get_cell-append_left rows more (i / n) (i % n) (div-lt i (length rows) n p l)

  -- The slots of a new block are fresh.
  pub cell_at-append_new :
      (rows : List (List A)) (n i : ℕ) (a : A)
      → 0 < n
      → length rows * n ≤ i
      → i < length rows * n + n
      → cell_at (rows ++ replicate n a ∷ []) n i ≡ some a
  cell_at-append_new rows n i a p l u =
      subst (λ b. get_cell (rows ++ replicate n a ∷ []) b (i % n) ≡ some a)
        (sym (div-eq_of_lt-le n l (grind arith)))
        (get_cell-append_last rows (replicate n a) (i % n)
          ∙ get_elem?-replicate n a (i % n) (mod-lt i p))
