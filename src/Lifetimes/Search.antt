-- ===== src/Lifetimes/Search.antt =====
-- Depth-first search: a name is given up only when no path from it goes on for ever.
use ubel_stratum.Common.{
  ℕ, zero, suc, ◌≤◌, true, false, List, [], ◌∷◌, ◌++◌, ◌≡◌, refl, ◌⊎◌, inl, inr, arith, String,
  string_eq, contains, contains-cons, contains-append, contains-nil, contains_head, length, list_at,
  missing, missing-le-length, missing_mono, missing_insert, Bool-cases, subst, ap, Among,
}
use ubel_stratum.Ast.{Span}
use ubel_stratum.Lifetimes.Cycles.{Graph, Answer, visit_neighbors, dfs_find_cycle, search_from}
use ubel_stratum.Lifetimes.Chains.{
  Next, ChainTo, single, Finished, finish, Says, ChainTo-snoc, ChainTo-from_name, Says-or_continue,
  Says-map,
}

module _ (adj : Graph) where
  -- Between calls: a visited name is on the path or finished, and visited names stay so.
  record Settled (path before after : List String) : Type 0 where
    grows : (x : String) → contains before x ≡ true → contains after x ≡ true
    split : (x : String) → contains after x ≡ true → (contains path x ≡ true) ⊎ Finished adj x

  Settled-refl :
      (path v : List String)
      → ((x : String) → contains v x ≡ true → (contains path x ≡ true) ⊎ Finished adj x)
      → Settled path v v
  Settled-refl path v h = record { grows = λ x k. k; split = h }

  Settled-trans :
      {path a b c : List String} → Settled path a b → Settled path b c → Settled path a c
  Settled-trans s t = record { grows = λ x k. t.grows x (s.grows x k); split = t.split }

  abbrev Split : List String → List String → Type 0
  Split path visited =
      (x : String) → contains visited x ≡ true → (contains path x ≡ true) ⊎ Finished adj x

  not_on_path :
      (path : List String) (x : String)
      → contains path x ≡ false
      → (contains path x ≡ true) ⊎ Finished adj x
      → Finished adj x
  not_on_path path x off (inl on) = absurd (cc (off, on))
  not_on_path path x off (inr f) = f

  entered :
      (path : List String) (node : String) (visited : List String)
      → Split path visited
      → Split (path ++ node ∷ []) (node ∷ visited)
  entered path node visited h x k = elim ((contains-cons node visited x).0 k) [
    | inl same ↦
        inl ((contains-append path (node ∷ []) x).1 (inr ((contains-cons node [] x).1 (inl same))))
    | inr old ↦ elim (h x old) [
      | inl on ↦ inl ((contains-append path (node ∷ []) x).1 (inl on))
      | inr f ↦ inr f
    ]
  ]

  -- The name leaves the path when it is finished.
  left_path :
      (path : List String) (node : String) (visited v : List String)
      → Settled (path ++ node ∷ []) (node ∷ visited) v
      → Finished adj node
      → Settled path visited v × (contains v node ≡ true) × Finished adj node
  left_path path node visited v s f = (
    record {
      grows = λ x k. s.grows x ((contains-cons node visited x).1 (inr k));
      split = λ x k. elim (s.split x k) [
        | inr g ↦ inr g
        | inl on ↦ elim ((contains-append path (node ∷ []) x).0 on) [
          | inl before ↦ inl before
          | inr last ↦ elim ((contains-cons node [] x).0 last) [
            | inl same ↦ inr (subst (Finished adj) same f)
            | inr never ↦ absurd (cc (never, contains-nil x))
          ]
        ]
      ];
    },
    s.grows node (contains_head node visited),
    f,
  )

  -- The names of the program, which every edge stays in.
  module _ (names : List String)
      (closed : (x y : String) → Next adj x y → contains names y ≡ true) where
    -- A call for an unvisited name, and what it promises.
    abbrev Explored : List String → String → List String → List String → Type 0
    Explored path node before after =
        Settled path before after × (contains after node ≡ true) × Finished adj node

    abbrev Explores : ℕ → (String → List String → List String → Answer) → Type 0
    Explores fuel call =
        (node : String) (path visited : List String)
        → ChainTo adj (path ++ node ∷ []) node
        → contains names node ≡ true
        → contains visited node ≡ false
        → missing names visited ≤ fuel
        → ((x : String) → contains visited x ≡ true → (contains path x ≡ true) ⊎ Finished adj x)
        → Says adj (Explored path node visited) (call node path visited)

    -- The neighbours are all finished.
    abbrev AllFinished : List (String × Span) → Type 0
    AllFinished ns =
        (y : String) (span : Span) → Among {A = String × Span} (y, span) ns → Finished adj y

    AllFinished-cons :
        (next : String) (span : Span) (rest : List (String × Span))
        → Finished adj next
        → AllFinished rest
        → AllFinished ((next, span) ∷ rest)
    AllFinished-cons next span rest f all y s a = elim a [
      | inl e ↦ subst (Finished adj) (ap (λ (q : String × Span). q.0) e) f
      | inr k ↦ all y s k
    ]

    visit_neighbors-Says :
        (fuel : ℕ) (call : String → List String → List String → Answer) (node : String)
        (path : List String) (ns : List (String × Span)) (visited : List String)
        → Explores fuel call
        → ChainTo adj path node
        → ((y : String) (span : Span)
            → Among {A = String × Span} (y, span) ns
            → Among {A = String × Span} (y, span) (list_at node adj))
        → missing names visited ≤ fuel
        → ((x : String) → contains visited x ≡ true → (contains path x ≡ true) ⊎ Finished adj x)
        → Says adj
            (λ v. Settled path visited v × AllFinished ns)
            (visit_neighbors call path ns visited)
    unfolding visit_neighbors
    visit_neighbors-Says fuel call node path [] visited ex c sub m h =
        (Settled-refl path visited h, λ y span a. elim a [ ])
    visit_neighbors-Says fuel call node path ((next, span) ∷ rest) visited ex c sub m h =
        let sub' =
          λ (y : String) (s : Span) (a : Among {A = String × Span} (y, s) rest). sub y s (inr a) in
        elim (Bool-cases (contains path next)) [
          | inl on ↦
              let (more, e, c') = ChainTo-from_name adj next c on in
              rw (on, visit_neighbors)
                (record {
                  first = next;
                  last = node;
                  rest = more;
                  starts = e;
                  chain = c';
                  closes = sub next span (inl refl);
                })
          | inr off ↦ elim (Bool-cases (contains visited next)) [
            | inl seen ↦
                rw (off, visit_neighbors, seen)
                  (Says-map adj _ _ (visit_neighbors call path rest visited)
                    (λ v (s, all). (
                      s,
                      AllFinished-cons next span rest (not_on_path path next off (h next seen)) all,
                    ))
                    (visit_neighbors-Says fuel call node path rest visited ex c sub' m h))
            | inr new ↦
                rw (off, visit_neighbors, new)
                  (Says-or_continue adj (Explored path next visited) _ (call next path visited)
                    (visit_neighbors call path rest)
                    (ex next path visited (ChainTo-snoc adj c (span, sub next span (inl refl)))
                      (closed node next (span, sub next span (inl refl))) new m h)
                    (λ v (s, k, f).
                      Says-map adj _ _ (visit_neighbors call path rest v)
                        (λ v' (s', all).
                          (Settled-trans s s', AllFinished-cons next span rest f all))
                        (visit_neighbors-Says fuel call node path rest v ex c sub'
                          (omega (arith, missing_mono names visited v s.grows)) s.split)))
          ]
        ]

    dfs_find_cycle-Explores : (fuel : ℕ) → Explores fuel (dfs_find_cycle adj fuel)
    unfolding dfs_find_cycle
    dfs_find_cycle-Explores zero node path visited c k n m h =
        absurd (omega (arith, missing_insert names visited node k n))
    dfs_find_cycle-Explores (suc fuel) node path visited c k n m h =
        Says-map adj _ _
          (visit_neighbors (dfs_find_cycle adj fuel) (path ++ node ∷ []) (list_at node adj)
            (node ∷ visited))
          (λ v (s, all). left_path path node visited v s (finish (λ y (span, a). all y span a)))
          (visit_neighbors-Says fuel (dfs_find_cycle adj fuel) node (path ++ node ∷ [])
            (list_at node adj) (node ∷ visited) (dfs_find_cycle-Explores fuel) c (λ y span a. a)
            (omega (arith, missing_insert names visited node k n)) (entered path node visited h))

    covered :
        (first : String) (starts v : List String)
        → contains v first ≡ true
        → ((x : String) → contains starts x ≡ true → contains v x ≡ true)
        → (x : String) → contains (first ∷ starts) x ≡ true
        → contains v x ≡ true
    covered first starts v k all x m = elim ((contains-cons first starts x).0 m) [
      | inl same ↦ subst (λ y. contains v y ≡ true) same k
      | inr later ↦ all x later
    ]

    search_from-Says :
        (fuel : ℕ) (starts visited : List String)
        → ((x : String) → contains starts x ≡ true → contains names x ≡ true)
        → missing names visited ≤ fuel
        → ((x : String) → contains visited x ≡ true → (contains [] x ≡ true) ⊎ Finished adj x)
        → Says adj
            (λ v.
              Settled [] visited v
              × ((x : String) → contains starts x ≡ true → contains v x ≡ true))
            (search_from adj fuel starts visited)
    unfolding search_from
    search_from-Says fuel [] visited sub m h =
        (Settled-refl [] visited h, λ x k. absurd (cc (k, contains-nil x)))
    search_from-Says fuel (first ∷ starts) visited sub m h =
        let sub' = λ (x : String) (k : contains starts x ≡ true).
          sub x ((contains-cons first starts x).1 (inr k)) in
        elim (Bool-cases (contains visited first)) [
          | inl seen ↦
              rw (seen, search_from)
                (Says-map adj _ _ (search_from adj fuel starts visited)
                  (λ v (s, all). (s, covered first starts v (s.grows first seen) all))
                  (search_from-Says fuel starts visited sub' m h))
          | inr new ↦
              rw (new, search_from)
                (Says-or_continue adj (Explored [] first visited) _
                  (dfs_find_cycle adj fuel first [] visited) (search_from adj fuel starts)
                  (dfs_find_cycle-Explores fuel first [] visited single
                    (sub first (contains_head first starts)) new m h)
                  (λ v (s, k, f).
                    Says-map adj _ _ (search_from adj fuel starts v)
                      (λ v' (s', all).
                        (Settled-trans s s', covered first starts v' (s'.grows first k) all))
                      (search_from-Says fuel starts v sub'
                        (omega (arith, missing_mono names visited v s.grows)) s.split)))
        ]

    -- The search answers with a cycle, or every name is finished.
    pub search_from-names :
        Says adj
          (λ v. (x : String) → contains names x ≡ true → Finished adj x)
          (search_from adj (length names) names [])
    search_from-names =
        Says-map adj _ _ (search_from adj (length names) names [])
          (λ v (s, all) x k. not_on_path [] x (contains-nil x) (s.split x (all x k)))
          (search_from-Says (length names) names [] (λ x k. k)
            (omega (arith, missing-le-length names [])) (λ x k. absurd (cc (k, contains-nil x))))
