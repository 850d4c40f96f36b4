-- ===== src/Lifetimes/Acyclic.antt =====
-- The search finds a cycle exactly if the constraints have one.
use ubel_stratum.Common.{
  true, List, [], ◌∷◌, ◌≡◌, refl, ◌⊎◌, ◌↔◌, inl, inr, String, string_eq, ◌==◌, none, some, contains,
  list_at, push_at, list_at-push_at, length, Among, Among-append, Bool-cases, subst,
}
use ubel_stratum.Ast.{Span}
use ubel_stratum.Lifetimes.Cycles.{Edge, Graph, Answer, adjacency, search_from, find_outlives_cycle}
use ubel_stratum.Lifetimes.Chains.{Next, ChainTo, single, link, Finished, finish, Says}
use ubel_stratum.Lifetimes.Search.{search_from-names}

-- `longer` outlives `shorter` by one constraint or by several.
pub data Outlives (edges : List Edge) : String → String → Type 0 where
  direct : {x y : String} (span : Span) → Among {A = Edge} (x, y, span) edges → Outlives edges x y
  through :
      {x y z : String} (span : Span)
      → Among {A = Edge} (x, y, span) edges
      → Outlives edges y z
      → Outlives edges x z

-- The names that every constraint leads to.
abbrev pub Closed : List String → List Edge → Type 0
Closed names edges =
    (x y : String) (span : Span) → Among {A = Edge} (x, y, span) edges → contains names y ≡ true

Among-push_at :
    (from x : String) (v w : String × Span) (adj : Graph)
    → Among v (list_at x (push_at from w adj)) ↔ (Among v (list_at x adj) ⊎ ((from ≡ x) × (w ≡ v)))
Among-push_at from x v w adj = elim (Bool-cases (from == x)) [
  | inl same ↦
      let e = (string_eq.equal_iff from x).0 same in
      rw (list_at-push_at from x w adj, same)
        (
          λ m. elim ((Among-append (list_at x adj) (w ∷ []) v).0 m) [
            | inl old ↦ inl old
            | inr new ↦ elim new [ inl k ↦ inr (e, k) | inr never ↦ elim never [ ] ]
          ],
          λ m.
              (Among-append (list_at x adj) (w ∷ []) v).1
                (elim m [ inl old ↦ inl old | inr k ↦ inr (inl k.1) ]),
        )
  | inr other ↦
      rw (list_at-push_at from x w adj, other)
        (
          λ m. inl m,
          λ m. elim m [
            | inl old ↦ old
            | inr k ↦ absurd (cc (other, (string_eq.equal_iff from x).1 k.0))
          ],
        )
]

Among-adjacency :
    (edges : List Edge) (adj : Graph) (x y : String) (span : Span)
    → Among {A = String × Span} (y, span) (list_at x (adjacency edges adj))
      ↔ (Among {A = String × Span} (y, span) (list_at x adj) ⊎ Among {A = Edge} (x, y, span) edges)
unfolding adjacency
Among-adjacency [] adj x y span =
    (λ k. inl k, λ k. elim k [ inl h ↦ h | inr never ↦ elim never [ ] ])
Among-adjacency ((from, to, at) ∷ edges) adj x y span =
    let ih = Among-adjacency edges (push_at from (to, at) adj) x y span in
    let step = Among-push_at from x (y, span) (to, at) adj in
    (
      λ k. elim (ih.0 k) [
        | inl h ↦ elim (step.0 h) [
          | inl old ↦ inl old
          | inr e ↦ inr (inl (λ i. (e.0 i, (e.1 i).0, (e.1 i).1)))
        ]
        | inr later ↦ inr (inr later)
      ],
      λ k. ih.1 (elim k [
        | inl old ↦ inl (step.1 (inl old))
        | inr m ↦ elim m [
          | inl e ↦ inl (step.1 (inr (λ i. (e i).0, λ i. ((e i).1, (e i).2))))
          | inr later ↦ inr later
        ]
      ]),
    )

module _ (edges : List Edge) where
  abbrev graph : Graph
  graph = adjacency edges []

  edge_of :
      (x y : String) (span : Span)
      → Among {A = String × Span} (y, span) (list_at x graph) ↔ Among {A = Edge} (x, y, span) edges
  unfolding list_at
  edge_of x y span =
      let r = Among-adjacency edges [] x y span in
      (λ k. elim (r.0 k) [ inl never ↦ elim never [ ] | inr h ↦ h ], λ k. r.1 (inr k))

  Outlives-snoc :
      {x y z : String} (span : Span)
      → Outlives edges x y
      → Among {A = Edge} (y, z, span) edges
      → Outlives edges x z
  Outlives-snoc span (direct s k) m = through s k (direct span m)
  Outlives-snoc span (through s k r) m = through s k (Outlives-snoc span r m)

  no_loop : {x : String} → Finished graph x → Outlives edges x x → ⊥
  no_loop {x} (finish h) (direct s k) = no_loop (h x (s, (edge_of x x s).1 k)) (direct s k)
  no_loop {x} (finish h) (through {y = y} s k r) =
      no_loop (h y (s, (edge_of x y s).1 k)) (Outlives-snoc s r k)

  ends_in :
      (names : List String) {x y : String}
      → Closed names edges
      → Outlives edges x y
      → contains names y ≡ true
  ends_in names {x} {y} c (direct s k) = c x y s k
  ends_in names c (through s k r) = ends_in names c r

  -- A chain and an edge from its last name: its first name outlives where the edge leads.
  along :
      {p : List String} {y z : String}
      → ChainTo graph p y
      → Next graph y z
      → (x : String) × (rest : List String) × (p ≡ x ∷ rest) × Outlives edges x z
  along {z = z} (single {x}) (span, k) = (x, [], refl, direct span ((edge_of x z span).0 k))
  along {z = z} (link {x} {y} {rest} (span, k) c) n =
      let (first, more, e, o) = along c n in
      (
        x,
        y ∷ rest,
        refl,
        through span ((edge_of x y span).0 k) (subst (λ v. Outlives edges v z) (cc e) o),
      )

  -- The names form a loop that an edge at the span closes.
  pub record IsLoop (names : List String) (span : Span) : Type 0 where
    pub first : String
    pub last : String
    pub rest : List String
    pub starts : names ≡ first ∷ rest
    pub chain : ChainTo graph (first ∷ rest) last
    pub closes : Among {A = Edge} (last, first, span) edges

  answer_true :
      (names : List String)
      → (a : Answer) → Says graph (λ v. (x : String) → contains names x ≡ true → Finished graph x) a
      → Closed names edges
      → (a.0 ≡ none) ↔ ((x : String) → Outlives edges x x → ⊥)
  answer_true names (none, visited) all c =
      (λ e x o. no_loop (all x (ends_in names c o)) o, λ h. refl)
  answer_true names (some (found, span), visited) k c = (
    λ e. absurd (cc),
    λ h.
        let (x, rest, e, o) = along k.chain (span, k.closes) in
        absurd (h x (subst (λ v. Outlives edges x v) (cc e) o)),
  )

  searched :
      (names : List String)
      → Closed names edges
      → Says graph
          (λ v. (x : String) → contains names x ≡ true → Finished graph x)
          (search_from graph (length names) names [])
  searched names c =
      search_from-names graph names (λ x y (span, k). c x y span ((edge_of x y span).0 k))

  -- Where the constraints lead to names of the list, the search with one unit of fuel for each name
  -- finds no cycle exactly if no name outlives itself.
  pub find_outlives_cycle-eq-none :
      (names : List String)
      → Closed names edges
      → (find_outlives_cycle names edges ≡ none) ↔ ((x : String) → Outlives edges x x → ⊥)
  unfolding find_outlives_cycle
  find_outlives_cycle-eq-none names c =
      answer_true names (search_from graph (length names) names []) (searched names c) c

  answer-IsLoop :
      (names : List String) (found : List String) (span : Span)
      → (a : Answer) → Says graph (λ v. (x : String) → contains names x ≡ true → Finished graph x) a
      → a.0 ≡ some (found, span)
      → IsLoop found span
  answer-IsLoop names found span (none, visited) all e = absurd (cc)
  answer-IsLoop names found span (some (cycle, at), visited) k e = record {
    first = k.first;
    last = k.last;
    rest = k.rest;
    starts = cc (e, k.starts);
    chain = k.chain;
    closes =
        subst (λ s. Among {A = Edge} (k.last, k.first, s) edges) (cc e)
          ((edge_of k.last k.first at).0 k.closes);
  }

  -- Where the constraints lead to names of the list, the names that the search answers are a chain of
  -- constraints, and a constraint at the answered span leads from the last to the first.
  pub find_outlives_cycle-IsLoop :
      (names : List String) {found : List String} {span : Span}
      → Closed names edges
      → find_outlives_cycle names edges ≡ some (found, span)
      → IsLoop found span
  unfolding find_outlives_cycle
  find_outlives_cycle-IsLoop names {found} {span} c e =
      answer-IsLoop names found span (search_from graph (length names) names []) (searched names c)
        e
