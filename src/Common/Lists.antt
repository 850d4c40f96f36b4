-- ===== src/Common/Lists.antt =====
-- Lists measured and indexed by native numbers, and finite sets and maps as lists.
use Prim.Native.Nat.{ℕ, zero, suc, ◌+◌, ◌<◌}
use mathlib.Core.Path.{◌≡◌, refl, ap}
use mathlib.Core.Logic.{◌↔◌, ◌⊎◌, inl, inr}
use mathlib.Core.List.{List, [], ◌∷◌, ◌++◌}
use mathlib.Core.Bool.{Bool, true, false, ◌||◌}
use mathlib.Core.Option.{Option, none, some}
use native.Mathlib.Omega.{arith}
use ubel_stratum.Common.Tests.{Eq, nat_eq, ◌==◌, if◌then◌else◌}

module _ {ℓ} {A : Type ℓ} where
  abbrev pub length : List A → ℕ
  length [] = 0
  length (x ∷ xs) = suc (length xs)

  abbrev pub is_empty : List A → Bool
  is_empty [] = true
  is_empty (x ∷ xs) = false

  abbrev pub get_or : List A → ℕ → A → A
  get_or [] i d = d
  get_or (x ∷ xs) zero d = x
  get_or (x ∷ xs) (suc i) d = get_or xs i d

  abbrev pub get_elem? : List A → ℕ → Option A
  get_elem? [] i = none
  get_elem? (x ∷ xs) zero = some x
  get_elem? (x ∷ xs) (suc i) = get_elem? xs i

  -- A write out of bounds changes nothing.
  abbrev pub modify : List A → ℕ → (A → A) → List A
  modify [] i f = []
  modify (x ∷ xs) zero f = f x ∷ xs
  modify (x ∷ xs) (suc i) f = x ∷ modify xs i f

  pub length-append : (xs ys : List A) → length (xs ++ ys) ≡ length xs + length ys
  length-append [] ys = omega arith
  length-append (x ∷ xs) ys = omega (arith, length-append xs ys)

  pub length-modify : (xs : List A) (i : ℕ) (f : A → A) → length (modify xs i f) ≡ length xs
  length-modify [] i f = refl
  length-modify (x ∷ xs) zero f = refl
  length-modify (x ∷ xs) (suc i) f = ap suc (length-modify xs i f)

-- `HashSet`: a list with a membership test.
module _ {ℓ} {A : Type ℓ} ⦃e : Eq A⦄ where
  unfoldable pub contains : List A → A → Bool
  contains [] a = false
  contains (x ∷ xs) a = x == a || contains xs a

  pub contains-append :
      (xs ys : List A) (a : A)
      → (contains (xs ++ ys) a ≡ true) ↔ ((contains xs a ≡ true) ⊎ (contains ys a ≡ true))
  unfolding contains
  contains-append [] ys a = ground arith
  contains-append (x ∷ xs) ys a = ground (arith, contains-append xs ys a)

  pub contains-cons :
      (x : A) (xs : List A) (a : A)
      → (contains (x ∷ xs) a ≡ true) ↔ ((x ≡ a) ⊎ (contains xs a ≡ true))
  unfolding contains
  contains-cons x xs a = ground (arith, e.equal_iff x a)

  pub contains-nil : (a : A) → contains [] a ≡ false
  unfolding contains
  contains-nil a = refl

  pub contains_head : (x : A) (xs : List A) → contains (x ∷ xs) x ≡ true
  contains_head x xs = (contains-cons x xs x).1 (inl refl)

  -- How many members of a universe are not in the set: what bounds a search.
  unfoldable pub missing : List A → List A → ℕ
  unfolding contains
  missing [] s = 0
  missing (u ∷ us) s = if contains s u then missing us s else suc (missing us s)

  pub missing-le-length : (us s : List A) → missing us s < suc (length us)
  unfolding missing
  missing-le-length [] s = omega arith
  missing-le-length (u ∷ us) s = ground (arith, missing-le-length us s)

  pub missing_mono :
      (us s t : List A)
      → ((a : A) → contains s a ≡ true → contains t a ≡ true)
      → missing us t < suc (missing us s)
  unfolding missing
  missing_mono [] s t h = omega arith
  missing_mono (u ∷ us) s t h = ground (arith, h u, missing_mono us s t h)

  pub missing_cons : (us s : List A) (a : A) → missing us (a ∷ s) < suc (missing us s)
  missing_cons us s a = missing_mono us s (a ∷ s) (λ b h. (contains-cons a s b).1 (inr h))

  pub missing_insert :
      (us s : List A) (a : A)
      → contains us a ≡ true
      → contains s a ≡ false
      → missing us (a ∷ s) < missing us s
  unfolding missing contains
  missing_insert [] s a h n = cc
  missing_insert (u ∷ us) s a h n =
      ground (arith, missing_insert us s a, missing_cons us s a, e.equal_iff a u, e.equal_iff u a)

-- The numbers below `n`.
unfoldable pub below : ℕ → List ℕ
below zero = []
below (suc n) = n ∷ below n

pub contains-below : (n i : ℕ) → i < n → contains (below n) i ≡ true
unfolding below contains
contains-below zero i h = elim h [ ]
contains-below (suc n) i h = ground (arith, contains-below n i)

pub length-below : (n : ℕ) → length (below n) ≡ n
unfolding below
length-below zero = refl
length-below (suc n) = ap suc (length-below n)

pub get_or-out_of_range {ℓ} :
    {A : Type ℓ} (xs : List A) (i : ℕ) (d : A) → length xs < suc i → get_or xs i d ≡ d
get_or-out_of_range [] i d h = refl
get_or-out_of_range (x ∷ xs) zero d h = absurd (omega arith)
get_or-out_of_range (x ∷ xs) (suc i) d h = get_or-out_of_range xs i d (omega arith)

-- Membership, with the place kept.
module _ {A : Type 0} where
  abbrev pub Among : A → List A → Type 0
  Among a [] = ⊥
  Among a (x ∷ xs) = (x ≡ a) ⊎ Among a xs

  pub Among-append : (xs ys : List A) (a : A) → Among a (xs ++ ys) ↔ (Among a xs ⊎ Among a ys)
  Among-append [] ys a = (inr, λ m. elim m [ inl e ↦ elim e [ ] | inr k ↦ k ])
  Among-append (x ∷ xs) ys a = (
    λ m. elim m [
      | inl e ↦ inl (inl e)
      | inr k ↦ elim ((Among-append xs ys a).0 k) [ inl l ↦ inl (inr l) | inr r ↦ inr r ]
    ],
    λ m. elim m [
      | inl l ↦ elim l [ inl e ↦ inl e | inr k ↦ inr ((Among-append xs ys a).1 (inl k)) ]
      | inr r ↦ inr ((Among-append xs ys a).1 (inr r))
    ],
  )

  pub eq_nil_iff_no_Among : (xs : List A) → (xs ≡ []) ↔ ((a : A) → Among a xs → ⊥)
  eq_nil_iff_no_Among [] = (λ e a m. elim m [ ], λ h. refl)
  eq_nil_iff_no_Among (x ∷ xs) = (λ e. absurd (cc), λ h. absurd (h x (inl refl)))

  pub contains-Among : ⦃e : Eq A⦄ (xs : List A) (a : A) → (contains xs a ≡ true) ↔ Among a xs
  unfolding contains
  contains-Among [] a = (λ h. cc, λ m. elim m [ ])
  contains-Among ⦃e⦄ (x ∷ xs) a = (
    λ h. elim ((contains-cons x xs a).0 h) [
      | inl s ↦ inl s
      | inr k ↦ inr ((contains-Among xs a).0 k)
    ],
    λ m.
        (contains-cons x xs a).1
          (elim m [ inl s ↦ inl s | inr k ↦ inr ((contains-Among xs a).1 k) ]),
  )
