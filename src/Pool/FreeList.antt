-- ===== src/Pool/FreeList.antt =====
-- The free list as a set of indices: what taking one off and adding a block do to it.
use ubel_stratum.Common.{
  ℕ, zero, suc, ◌+◌, ◌<◌, ◌≤◌, Bool, true, false, List, [], ◌∷◌, ◌++◌, ◌≡◌, refl, sym, subst, ◌⊎◌,
  ◌↔◌, inl, inr, Option, none, some, arith, nat_eq, contains, contains-cons, contains-append,
  contains-nil, contains_head, if◌then◌else◌,
}
use ubel_stratum.Pool.Data.{count_up, pop_front, pop_back}

-- No index stands twice in the free list.
abbrev pub Distinct : List ℕ → Type 0
Distinct [] = Unit {0}
Distinct (x ∷ xs) = (contains xs x ≡ false) × Distinct xs

-- The index taken off the list, and the rest.
pub record Pops (xs : List ℕ) (x : ℕ) (rest : List ℕ) : Type 0 where
  pub members : (y : ℕ) → (contains xs y ≡ true) ↔ ((x ≡ y) ⊎ (contains rest y ≡ true))
  pub gone : Distinct xs → contains rest x ≡ false
  pub distinct : Distinct xs → Distinct rest

Pops-first : (x : ℕ) (xs : List ℕ) → Pops (x ∷ xs) x xs
Pops-first x xs = record { members = contains-cons x xs; gone = λ d. d.0; distinct = λ d. d.1 }

Pops-cons :
    {xs : List ℕ} {x last : ℕ} {rest : List ℕ} → Pops xs last rest → Pops (x ∷ xs) last (x ∷ rest)
Pops-cons {xs} {x} {last} {rest} p = record {
  members = λ y. ground (arith, contains-cons x xs y, contains-cons x rest y, p.members y);
  gone = λ d. ground (arith, contains-cons x rest last, p.gone d.1, p.members last, p.members x);
  distinct = λ d. (ground (arith, d.0, p.members x), p.distinct d.1);
}

abbrev pub Popped : List ℕ → Option (ℕ × List ℕ) → Type 0
Popped xs popped =
    ((xs ≡ []) × (popped ≡ none))
    ⊎ ((x : ℕ) × (rest : List ℕ) × (popped ≡ some (x, rest)) × Pops xs x rest)

pop_front-Popped : (xs : List ℕ) → Popped xs (pop_front xs)
pop_front-Popped [] = inl (refl, refl)
pop_front-Popped (x ∷ xs) = inr (x, xs, refl, Pops-first x xs)

pop_back-Popped : (xs : List ℕ) → Popped xs (pop_back xs)
unfolding pop_back
pop_back-Popped [] = inl (refl, refl)
pop_back-Popped (x ∷ xs) = elim (pop_back-Popped xs) [
  | inl (e, stop) ↦
      rw (stop, pop_back)
        (inr (x, [], refl, subst (λ ys. Pops (x ∷ ys) x []) (sym e) (Pops-first x [])))
  | inr (last, rest, go, p) ↦ rw (go, pop_back) (inr (last, x ∷ rest, refl, Pops-cons p))
]

-- Whichever end is popped.
pub pop-Popped :
    (fifo : Bool) (xs : List ℕ) → Popped xs (if fifo then pop_front xs else pop_back xs)
pop-Popped true xs = pop_front-Popped xs
pop-Popped false xs = pop_back-Popped xs

pub contains-count_up :
    (start n i : ℕ) → (contains (count_up start n) i ≡ true) ↔ ((start ≤ i) × (i < start + n))
unfolding count_up
contains-count_up start zero i =
    (λ h. absurd (cc (h, contains-nil i)), λ h. absurd (omega (arith, h.0, h.1)))
contains-count_up start (suc n) i =
    ground
      (arith, contains-cons start (count_up (suc start) n) i, contains-count_up (suc start) n i)

pub count_up-Distinct : (start n : ℕ) → Distinct (count_up start n)
unfolding count_up
count_up-Distinct start zero = tt
count_up-Distinct start (suc n) =
    (ground (arith, contains-count_up (suc start) n start), count_up-Distinct (suc start) n)

pub append-Distinct :
    (xs ys : List ℕ)
    → Distinct xs
    → Distinct ys
    → ((i : ℕ) → contains xs i ≡ true → contains ys i ≡ false)
    → Distinct (xs ++ ys)
append-Distinct [] ys p q h = q
append-Distinct (x ∷ xs) ys p q h = (
  ground (arith, contains-append xs ys x, h x, contains_head x xs, p.0),
  append-Distinct xs ys p.1 q (λ i k. h i ((contains-cons x xs i).1 (inr k))),
)
