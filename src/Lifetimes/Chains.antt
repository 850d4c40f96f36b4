-- ===== src/Lifetimes/Chains.antt =====
-- Chains of constraints between lifetimes, the cycles among them, and what an answer of the search says.
use ubel_stratum.Common.{
  true, false, List, [], ◌∷◌, ◌++◌, ◌≡◌, refl, inl, inr, arith, ◌∙◌, String, string_eq, ◌==◌, none,
  some, contains, contains-cons, contains-nil, list_at, Bool-cases, subst, Among,
}
use ubel_stratum.Ast.{Span}
use ubel_stratum.Lifetimes.Cycles.{Graph, Answer, from_name, or_continue}

module _ (adj : Graph) where
  -- An edge to a neighbour, at some span.
  abbrev pub Next : String → String → Type 0
  Next x y = (span : Span) × Among {A = String × Span} (y, span) (list_at x adj)

  -- A list of names, each with an edge to the one behind it, that ends in the given name.
  pub data ChainTo : List String → String → Type 0 where
    single : {x : String} → ChainTo (x ∷ []) x
    link :
        {x y z : String} {rest : List String}
        → Next x y
        → ChainTo (y ∷ rest) z
        → ChainTo (x ∷ (y ∷ rest)) z

  -- A name from which no path goes on for ever.
  pub data Finished : String → Type 0 where
    finish : {x : String} → ((y : String) → Next x y → Finished y) → Finished x

  pub ChainTo-snoc :
      {p : List String} {x y : String} → ChainTo p x → Next x y → ChainTo (p ++ y ∷ []) y
  ChainTo-snoc single n = link n single
  ChainTo-snoc (link m c) n = link m (ChainTo-snoc c n)

  start : (x name : String) (xs : List String) → x ≡ name → from_name name (x ∷ xs) ≡ name ∷ xs
  unfolding from_name
  start x name xs e = ground (arith, string_eq.equal_iff x name)

  skip :
      (x name : String) (xs : List String)
      → (x == name) ≡ false
      → from_name name (x ∷ xs) ≡ from_name name xs
  unfolding from_name
  skip x name xs e = rw (e, from_name) refl

  -- The rest of a chain from a name on it is a chain that starts with the name.
  pub ChainTo-from_name :
      (name : String) {p : List String} {x : String}
      → ChainTo p x
      → contains p name ≡ true
      → (rest : List String) × (from_name name p ≡ name ∷ rest) × ChainTo (name ∷ rest) x
  unfolding from_name
  ChainTo-from_name name (single {x}) k = elim ((contains-cons x [] name).0 k) [
    | inl same ↦ ([], start x name [] same, subst (λ y. ChainTo (y ∷ []) x) same single)
    | inr never ↦ absurd (cc (never, contains-nil name))
  ]
  ChainTo-from_name name (link {x} {y} {z} {rest} n c) k = elim (Bool-cases (x == name)) [
    | inl here ↦
        let same = (string_eq.equal_iff x name).0 here in
        (
          y ∷ rest,
          start x name (y ∷ rest) same,
          subst (λ w. ChainTo (w ∷ (y ∷ rest)) z) same (link n c),
        )
    | inr other ↦ elim ((contains-cons x (y ∷ rest) name).0 k) [
      | inl same ↦ absurd (cc (other, (string_eq.equal_iff x name).1 same))
      | inr later ↦
          let (more, e, c') = ChainTo-from_name name c later in
          (more, skip x name (y ∷ rest) other ∙ e, c')
    ]
  ]

  -- A closed chain: the edge at the span leads from its last name back to its first.
  pub record IsCycle (names : List String) (span : Span) : Type 0 where
    pub first : String
    pub last : String
    pub rest : List String
    pub starts : names ≡ first ∷ rest
    pub chain : ChainTo (first ∷ rest) last
    pub closes : Among {A = String × Span} (first, span) (list_at last adj)

  -- What an answer says: a cycle, or `P` of the names visited.
  abbrev pub Says : (List String → Type 0) → Answer → Type 0
  Says P (none, visited) = P visited
  Says P (some (names, span), visited) = IsCycle names span

  pub Says-or_continue :
      (P Q : List String → Type 0) (r : Answer) (k : List String → Answer)
      → Says P r
      → ((v : List String) → P v → Says Q (k v))
      → Says Q (or_continue r k)
  unfolding or_continue
  Says-or_continue P Q (none, v) k p h = h v p
  Says-or_continue P Q (some c, v) k p h = p

  pub Says-map :
      (P Q : List String → Type 0) (r : Answer)
      → ((v : List String) → P v → Q v)
      → Says P r
      → Says Q r
  Says-map P Q (none, v) f p = f v p
  Says-map P Q (some c, v) f p = p
