-- ===== src/Environment/Variables.antt =====
-- What assignment and definition do to every variable.
use ubel_stratum.Common.{
  ℕ, zero, suc, ◌<◌, ◌≢◌, insert, Bool, true, false, List, [], ◌∷◌, ◌≡◌, refl, ◌&&◌, inl, inr,
  arith, String, string_eq, ◌==◌, Option, none, some, length, find, find-insert, if◌then◌else◌,
  Option-cases, Bool-cases, List-cases, ap, subst,
}
use ubel_stratum.Environment.{Environment, define, get, get_in, set, set_in, depth}

module _ {Value : Type 0} where
  abbrev pub bound : Option Value → Bool
  bound none = false
  bound (some v) = true

  length-set_in :
      (name : String) (value : Value) (ss : List (List (String × Value)))
      → length (set_in name value ss).1 ≡ length ss
  unfolding set_in
  length-set_in name value [] = refl
  length-set_in name value (s ∷ rest) = elim (Option-cases (find name s)) [
    | inl outer ↦ rw (outer, set_in, length) (ap suc (length-set_in name value rest))
    | inr (old, here) ↦ rw (here, set_in, length) refl
  ]

  get-set_in :
      (name x : String) (value : Value) (ss : List (List (String × Value)))
      → get_in x (set_in name value ss).1
        ≡ (if name == x && bound (get_in name ss) then some value else get_in x ss)
  unfolding set_in get_in
  get-set_in name x value [] = ground arith
  get-set_in name x value (s ∷ rest) = elim (Option-cases (find name s)) [
    | inl outer ↦ elim (Bool-cases (name == x)) [
      | inl same ↦
          let there = subst (λ y. find y s ≡ none) ((string_eq.equal_iff name x).0 same) outer in
          rw (outer, set_in, get_in, there) (get-set_in name x value rest)
      | inr other ↦
          let kept = get-set_in name x value rest in
          elim (Option-cases (find x s)) [
            | inl further ↦ rw (outer, set_in, get_in, other, further) (rw other at kept)
            | inr (v, found) ↦ rw (outer, set_in, get_in, other, found) refl
          ]
    ]
    | inr (old, here) ↦ elim (Bool-cases (name == x)) [
      | inl same ↦ rw (here, set_in, get_in, find-insert name x value s, same) refl
      | inr other ↦ rw (here, set_in, get_in, find-insert name x value s, other) refl
    ]
  ]

  set-bound :
      (name : String) (value : Value) (ss : List (List (String × Value)))
      → (set_in name value ss).0 ≡ bound (get_in name ss)
  unfolding set_in get_in
  set-bound name value [] = refl
  set-bound name value (s ∷ rest) = elim (Option-cases (find name s)) [
    | inl outer ↦ rw (outer, set_in, get_in) (set-bound name value rest)
    | inr (old, here) ↦ rw (here, set_in, get_in) refl
  ]

  -- What a name stands for in the scope at a depth, 0 the innermost.
  unfoldable pub variable_in : List (List (String × Value)) → ℕ → String → Option Value
  variable_in [] k x = none
  variable_in (s ∷ rest) zero x = find x s
  variable_in (s ∷ rest) (suc k) x = variable_in rest k x

  abbrev pub variable : Environment Value → ℕ → String → Option Value
  variable e k x = variable_in e.scopes k x

  -- The scopes after one name in one scope has got the value: no other name and no other scope differs.
  abbrev pub Puts :
      ℕ → String → Value → List (List (String × Value)) → List (List (String × Value)) → Type 0
  Puts k name value ss ss' =
      ((x : String) → variable_in ss' k x ≡ (if name == x then some value else variable_in ss k x))
      × ((j : ℕ) (x : String) → j ≢ k → variable_in ss' j x ≡ variable_in ss j x)

  -- What `set` does, by the scopes that have the name: nothing if none has, and else the innermost of
  -- those that have it gets the value.
  pub data Assigned (name : String) (value : Value) (ss : List (List (String × Value)))
      : Bool → List (List (String × Value)) → Type 0 where
    missing : ((k : ℕ) → variable_in ss k name ≡ none) → Assigned name value ss false ss
    owned :
        (k : ℕ) (old : Value) (ss' : List (List (String × Value)))
        → variable_in ss k name ≡ some old
        → ((j : ℕ) → j < k → variable_in ss j name ≡ none)
        → Puts k name value ss ss'
        → Assigned name value ss true ss'

  elsewhere :
      (name : String) (value : Value) (s : List (String × Value))
      (rest : List (List (String × Value))) (j : ℕ) (x : String)
      → j ≢ 0
      → variable_in (insert name value s ∷ rest) j x ≡ variable_in (s ∷ rest) j x
  unfolding variable_in
  elsewhere name value s rest zero x ne = absurd (ne refl)
  elsewhere name value s rest (suc j) x ne = refl

  Puts-innermost :
      (name : String) (value : Value) (s : List (String × Value))
      (rest : List (List (String × Value)))
      → Puts 0 name value (s ∷ rest) (insert name value s ∷ rest)
  unfolding variable_in
  Puts-innermost name value s rest = (λ x. find-insert name x value s, elsewhere name value s rest)

  -- A scope without the name in front.
  further :
      (s : List (String × Value)) (name : String) (value : Value)
      (ss ss' : List (List (String × Value))) (b : Bool)
      → find name s ≡ none
      → Assigned name value ss b ss'
      → Assigned name value (s ∷ ss) b (s ∷ ss')
  unfolding variable_in
  further s name value ss _ _ outer (missing h) = missing (λ k. none_at k)
    where
      none_at : (k : ℕ) → variable_in (s ∷ ss) k name ≡ none
      none_at zero = outer
      none_at (suc k) = h k
  further s name value ss _ _ outer (owned k old ss' here before put) =
      owned (suc k) old (s ∷ ss') here earlier (put.0, others)
    where
      earlier : (j : ℕ) → j < suc k → variable_in (s ∷ ss) j name ≡ none
      earlier zero lt = outer
      earlier (suc j) lt = before j (omega (arith, lt))

      others :
          (j : ℕ) (x : String) → j ≢ suc k → variable_in (s ∷ ss') j x ≡ variable_in (s ∷ ss) j x
      others zero x ne = refl
      others (suc j) x ne = put.1 j x (λ e. ne (ap suc e))

  set_in-Assigned :
      (name : String) (value : Value) (ss : List (List (String × Value)))
      → Assigned name value ss (set_in name value ss).0 (set_in name value ss).1
  unfolding set_in variable_in
  set_in-Assigned name value [] = missing (λ k. refl)
  set_in-Assigned name value (s ∷ rest) = elim (Option-cases (find name s)) [
    | inl outer ↦
        rw (outer, set_in)
          (further s name value rest (set_in name value rest).1 (set_in name value rest).0 outer
            (set_in-Assigned name value rest))
    | inr (old, here) ↦
        rw (here, set_in)
          (owned 0 old (insert name value s ∷ rest) here (λ j lt. absurd (omega (arith, lt)))
            (Puts-innermost name value s rest))
  ]

  -- `set` reports whether some scope has the name. If none has, nothing changes. If some have, the name
  -- gets the value in the innermost of these scopes; no other name and no other scope changes. So `get`
  -- finds the value for the name and the old values for all others, and no scope is opened or closed.
  pub get-set :
      (name x : String) (value : Value) (e : Environment Value)
      → Assigned name value e.scopes (set name value e).0 (set name value e).1.scopes
        × ((set name value e).0 ≡ bound (get name e))
        × (get x (set name value e).1
            ≡ (if name == x && bound (get name e) then some value else get x e))
        × (depth (set name value e).1 ≡ depth e)
  unfolding set get depth
  get-set name x value e = (
    set_in-Assigned name value e.scopes,
    set-bound name value e.scopes,
    get-set_in name x value e.scopes,
    length-set_in name value e.scopes,
  )

  -- Where there is a scope, `define` gives the name the value in the innermost scope, whether or not an
  -- outer scope has the name; no other name and no other scope changes. So `get` finds the value for
  -- the name and the old values for all others, and no scope is opened or closed.
  pub get-define :
      (name x : String) (value : Value) (e : Environment Value)
      → 0 < depth e
      → Puts 0 name value e.scopes (define name value e).scopes
        × (get x (define name value e) ≡ (if name == x then some value else get x e))
        × (depth (define name value e) ≡ depth e)
  unfolding get define get_in depth
  get-define name x value e h = elim (List-cases e.scopes) [
    | inl empty ↦ absurd (ground arith)
    | inr (s, rest, k) ↦ rw k (
      Puts-innermost name value s rest,
      elim (Bool-cases (name == x)) [
        | inl same ↦ rw (get_in, find-insert name x value s, same) refl
        | inr other ↦ rw (get_in, find-insert name x value s, other) refl
      ],
      refl,
    )
  ]
