-- ===== src/Outlives/Accepts.antt =====
-- Which sites are accepted.
use ubel_stratum.Common.{
  true, List, [], ◌∷◌, ◌≡◌, refl, ◌⊎◌, ◌↔◌, inl, inr, arith, sym, subst, ap, ◌∙◌, Option, none,
  some, String, string_eq, ◌==◌, find, Among, Bool-cases, Option-cases, if◌then◌else◌,
}
use ubel_stratum.Ast.{Span, Expr, LifetimeConstraint, LifetimeParam, expr_span}
use ubel_stratum.Points.{point_eq}
use ubel_stratum.Lifetimes.WellFormed.{append-eq-nil}
use ubel_stratum.Outlives.Check.{
  Resolved, Pairs, resolve_pairs, emit_if_resolved, check_pairs, check_outlives_constraint,
  check_constraint, check_constraints, check_boundary_site,
}
use ubel_stratum.Outlives.Sites.{
  IsAtHand, Outlasts, emit_e2_violation-eq-nil, is_violated_iff, last_of, latest,
  find-resolve_pairs,
}

-- No lifetime is bound twice.
abbrev pub Distinct : Pairs → Type 0
Distinct [] = Unit {0}
Distinct ((name, e) ∷ pairs) =
    ((e' : Expr) → Among {A = String × Expr} (name, e') pairs → ⊥) × Distinct pairs

some_eq : {x e : Expr} → some x ≡ some e → x ≡ e
some_eq k = cc

last_of-Among :
    (name : String) (pairs : Pairs) {e : Expr}
    → last_of name pairs ≡ some e
    → Among {A = String × Expr} (name, e) pairs
last_of-Among name [] found = absurd (cc)
last_of-Among name ((n, x) ∷ pairs) {e} found = elim (Option-cases (last_of name pairs)) [
  | inr (later, l) ↦
      let same : later ≡ e = (let k : some later ≡ some e = (rw l at found) in cc k) in
      inr (last_of-Among name pairs (l ∙ ap (λ (y : Expr). some y) same))
  | inl l ↦ own pairs (string_eq.equal_iff n name) (rw l at found)
]
  where
    own :
        {n name : String} {x e : Expr} (pairs : Pairs)
        → ((n == name) ≡ true) ↔ (n ≡ name)
        → (if n == name then some x else none) ≡ some e
        → (◌≡◌ {A = String × Expr} (n, x) (name, e)) ⊎ Among {A = String × Expr} (name, e) pairs
    own {n} {name} {x} {e} pairs decides k = elim (Bool-cases (n == name)) [
      | inl same ↦
          let value : some x ≡ some e = (rw same at k) in
          inl (λ i. (decides.0 same i, some_eq value i))
      | inr apart ↦ let none_is : none ≡ some e = (rw apart at k) in absurd (cc none_is)
    ]

last_of-Distinct :
    (name : String) (pairs : Pairs) (e : Expr)
    → Distinct pairs
    → Among {A = String × Expr} (name, e) pairs
    → last_of name pairs ≡ some e
last_of-Distinct name [] e d m = elim m [ ]
last_of-Distinct name ((n, x) ∷ pairs) e d (inl same) = elim (Option-cases (last_of name pairs)) [
  | inl l ↦
      rw (l, (string_eq.equal_iff n name).1 (ap (λ (k : String × Expr). k.0) same))
        (ap (λ (k : String × Expr). some k.1) same)
  | inr (later, l) ↦ absurd (
      d.0 later (
        subst (λ y. Among {A = String × Expr} (y, later) pairs)
          (sym (ap (λ (k : String × Expr). k.0) same)) (last_of-Among name pairs l)))
]
last_of-Distinct name ((n, x) ∷ pairs) e d (inr later) =
    rw (last_of-Distinct name pairs e d.1 later) refl

abbrev pub FoundAtHand : Option Resolved → Type 0
FoundAtHand none = Unit {0}
FoundAtHand (some r) = IsAtHand r

emit_if_resolved-eq-nil :
    (found : Option Resolved) (name : String) (span : Span)
    → (emit_if_resolved found name span ≡ []) ↔ FoundAtHand found
unfolding emit_if_resolved
emit_if_resolved-eq-nil none name span = (λ e. tt, λ h. refl)
emit_if_resolved-eq-nil (some r) name span = emit_e2_violation-eq-nil r name span

check_pairs-eq-nil :
    (resolved : List (String × Resolved)) (pairs : Pairs)
    → (check_pairs resolved pairs ≡ []) ↔ (
        (name : String) (e : Expr)
        → Among {A = String × Expr} (name, e) pairs
        → FoundAtHand (find name resolved))
unfolding check_pairs
check_pairs-eq-nil resolved [] = (λ e name x m. elim m [ ], λ h. refl)
check_pairs-eq-nil resolved ((n, x) ∷ pairs) =
    let both =
      append-eq-nil (emit_if_resolved (find n resolved) n (expr_span x))
        (check_pairs resolved pairs) in
    let own = emit_if_resolved-eq-nil (find n resolved) n (expr_span x) in
    let (to, from) = check_pairs-eq-nil resolved pairs in
    (
      λ e name y m. elim m [
        | inl same ↦
            subst (λ (k : String × Expr). FoundAtHand (find k.0 resolved)) same (own.0 (both.0 e).0)
        | inr later ↦ to (both.0 e).1 name y later
      ],
      λ h. both.1 (own.1 (h n x (inl refl)), from (λ name y m. h name y (inr m))),
    )

abbrev BothOutlast : Option Resolved → Option Resolved → Type 0
BothOutlast none shorter = Unit {0}
BothOutlast (some longer) none = Unit {0}
BothOutlast (some longer) (some shorter) = Outlasts longer shorter

check_outlives-eq-nil :
    (pairs : Pairs) (c : LifetimeConstraint) (longer shorter : Option Resolved)
    → (check_outlives_constraint pairs c longer shorter ≡ []) ↔ BothOutlast longer shorter
unfolding check_outlives_constraint
check_outlives-eq-nil pairs c none shorter = (λ e. tt, λ h. refl)
check_outlives-eq-nil pairs c (some longer) none = (λ e. tt, λ h. refl)
check_outlives-eq-nil pairs c (some longer) (some shorter) =
    let decides = is_violated_iff longer shorter in
    (λ e. decides.0 (ground arith), λ h. rw (decides.1 h) refl)

abbrev ConstraintHolds : List (String × Resolved) → Option LifetimeConstraint → Type 0
ConstraintHolds resolved none = Unit {0}
ConstraintHolds resolved (some c) = BothOutlast (find c.longer resolved) (find c.shorter resolved)

check_constraint-eq-nil :
    (resolved : List (String × Resolved)) (pairs : Pairs) (c : Option LifetimeConstraint)
    → (check_constraint resolved pairs c ≡ []) ↔ ConstraintHolds resolved c
unfolding check_constraint
check_constraint-eq-nil resolved pairs none = (λ e. tt, λ h. refl)
check_constraint-eq-nil resolved pairs (some c) =
    check_outlives-eq-nil pairs c (find c.longer resolved) (find c.shorter resolved)

check_constraints-eq-nil :
    (resolved : List (String × Resolved)) (pairs : Pairs) (declared : List LifetimeParam)
    → (check_constraints resolved pairs declared ≡ [])
      ↔ ((p : LifetimeParam) → Among p declared → ConstraintHolds resolved p.constraint)
unfolding check_constraints
check_constraints-eq-nil resolved pairs [] = (λ e p m. elim m [ ], λ h. refl)
check_constraints-eq-nil resolved pairs (q ∷ declared) =
    let both =
      append-eq-nil (check_constraint resolved pairs q.constraint)
        (check_constraints resolved pairs declared) in
    let own = check_constraint-eq-nil resolved pairs q.constraint in
    let (to, from) = check_constraints-eq-nil resolved pairs declared in
    (
      λ e p m. elim m [
        | inl same ↦
            subst (λ (k : LifetimeParam). ConstraintHolds resolved k.constraint) same
              (own.0 (both.0 e).0)
        | inr later ↦ to (both.0 e).1 p later
      ],
      λ h. both.1 (own.1 (h q (inl refl)), from (λ p m. h p (inr m))),
    )

both_bound :
    {found found' : Option Resolved} {longer shorter : Resolved}
    → found ≡ some longer
    → found' ≡ some shorter
    → BothOutlast found found'
    → Outlasts longer shorter
both_bound {found' = found'} {longer} e e' h =
    subst (BothOutlast (some longer)) e' (subst (λ f. BothOutlast f found') e h)

-- What a site asks of the last value bound to each lifetime: it is at hand, and where both names of a
-- declared constraint are bound, the last value of the longer outlasts the last of the shorter.
pub record LastsAreSound (declared : List LifetimeParam) (pairs : Pairs) (resolve : Expr → Resolved)
    : Type 0 where
  pub at_hand : (name : String) (e : Expr) → last_of name pairs ≡ some e → IsAtHand (resolve e)
  pub outlasts :
      (p : LifetimeParam) (c : LifetimeConstraint) (longer shorter : Expr)
      → Among p declared
      → p.constraint ≡ some c
      → last_of c.longer pairs ≡ some longer
      → last_of c.shorter pairs ≡ some shorter
      → Outlasts (resolve longer) (resolve shorter)

-- What a site asks of its values: each is at hand, and where the values of both names of a declared
-- constraint are bound, the longer outlasts the shorter.
pub record IsSound (declared : List LifetimeParam) (pairs : Pairs) (resolve : Expr → Resolved)
    : Type 0 where
  pub at_hand :
      (name : String) (e : Expr) → Among {A = String × Expr} (name, e) pairs → IsAtHand (resolve e)
  pub outlasts :
      (p : LifetimeParam) (c : LifetimeConstraint) (longer shorter : Expr)
      → Among p declared
      → p.constraint ≡ some c
      → Among {A = String × Expr} (c.longer, longer) pairs
      → Among {A = String × Expr} (c.shorter, shorter) pairs
      → Outlasts (resolve longer) (resolve shorter)

module _ (declared : List LifetimeParam) (pairs : Pairs) (resolve : Expr → Resolved) where
  abbrev resolved : List (String × Resolved)
  resolved = resolve_pairs resolve pairs []

  find_last :
      (name : String) {e : Expr}
      → last_of name pairs ≡ some e
      → find name resolved ≡ some (resolve e)
  find_last name k = find-resolve_pairs resolve pairs [] name ∙ rw k refl

  found_at_hand :
      (name : String)
      → ((e : Expr) → last_of name pairs ≡ some e → IsAtHand (resolve e))
      → FoundAtHand (find name resolved)
  unfolding find
  found_at_hand name h =
      rw (find-resolve_pairs resolve pairs [] name) (at_hand_of (last_of name pairs) h)
    where
      at_hand_of :
          (l : Option Expr)
          → ((e : Expr) → l ≡ some e → IsAtHand (resolve e))
          → FoundAtHand (latest resolve l (find name []))
      at_hand_of none k = tt
      at_hand_of (some l) k = k l refl

  holds_of_sound :
      (found : Option LifetimeConstraint)
      → ((c : LifetimeConstraint) (longer shorter : Expr)
          → found ≡ some c
          → last_of c.longer pairs ≡ some longer
          → last_of c.shorter pairs ≡ some shorter
          → Outlasts (resolve longer) (resolve shorter))
      → ConstraintHolds resolved found
  unfolding find
  holds_of_sound none h = tt
  holds_of_sound (some c) h =
      rw
        (
          find-resolve_pairs resolve pairs [] c.longer,
          find-resolve_pairs resolve pairs [] c.shorter,
        )
        (both (last_of c.longer pairs) (last_of c.shorter pairs) (λ l s le se. h c l s refl le se))
    where
      both :
          (l s : Option Expr)
          → ((longer shorter : Expr)
              → l ≡ some longer
              → s ≡ some shorter
              → Outlasts (resolve longer) (resolve shorter))
          → BothOutlast (latest resolve l (find c.longer [])) (latest resolve s (find c.shorter []))
      both none s k = tt
      both (some l) none k = tt
      both (some l) (some s) k = k l s refl refl

  -- A site is accepted exactly if the last value bound to each lifetime is at hand and, for each declared
  -- constraint of which both names are bound, the last value of the longer outlasts the last of the
  -- shorter. Of the values bound to a lifetime before its last nothing is asked.
  pub check_boundary_site-LastsAreSound :
      (check_boundary_site declared pairs resolve ≡ []) ↔ LastsAreSound declared pairs resolve
  unfolding check_boundary_site
  check_boundary_site-LastsAreSound =
      let outer =
        append-eq-nil (check_pairs resolved pairs) (check_constraints resolved pairs declared) in
      let values = check_pairs-eq-nil resolved pairs in
      let constraints = check_constraints-eq-nil resolved pairs declared in
      (
        λ e. record {
          at_hand = λ name x k.
              subst FoundAtHand (find_last name k)
                (values.0 (outer.0 e).0 name x (last_of-Among name pairs k));
          outlasts = λ p c l s m is lk sk.
              let held = subst (ConstraintHolds resolved) is (constraints.0 (outer.0 e).1 p m) in
              both_bound (find_last c.longer lk) (find_last c.shorter sk) held;
        },
        λ w. outer.1 (
          values.1 (λ name x m. found_at_hand name (w.at_hand name)),
          constraints.1 (λ p m. holds_of_sound p.constraint (λ c l s is. w.outlasts p c l s m is)),
        ),
      )

  module _ (distinct : Distinct pairs) where
    the_last :
        (name : String) (e : Expr)
        → Among {A = String × Expr} (name, e) pairs
        → last_of name pairs ≡ some e
    the_last name e m = last_of-Distinct name pairs e distinct m

    -- Where no lifetime is bound twice, a site is accepted exactly if it is sound.
    pub check_boundary_site-eq-nil :
        (check_boundary_site declared pairs resolve ≡ []) ↔ IsSound declared pairs resolve
    check_boundary_site-eq-nil = (
      λ e.
          let w = check_boundary_site-LastsAreSound.0 e in
          record {
            at_hand = λ name x m. w.at_hand name x (the_last name x m);
            outlasts = λ p c l s m is lm sm.
                w.outlasts p c l s m is (the_last c.longer l lm) (the_last c.shorter s sm);
          },
      λ w. check_boundary_site-LastsAreSound.1 (record {
        at_hand = λ name x k. w.at_hand name x (last_of-Among name pairs k);
        outlasts = λ p c l s m is lk sk.
            w.outlasts p c l s m is (last_of-Among c.longer pairs lk)
              (last_of-Among c.shorter pairs sk);
      }),
    )
