-- ===== src/Lifetimes/WellFormed.antt =====
-- Which `[lifetime …]` lists `check_declaration_well_formed` accepts, of crates/core/src/sema/lifetime_check.rs accepts.
use mathlib.Core.Path.{fun_ext}
use ubel_stratum.Common.{
  true, Bool, List, [], ◌∷◌, ◌++◌, ◌≡◌, refl, ◌⊎◌, ◌↔◌, inl, inr, arith, String, string_eq, Option,
  none, some, contains, Option-cases, sym, subst, ◌∙◌, ap, Among,
}
use ubel_stratum.Ast.{Span, LifetimeConstraint, LifetimeParam}
use ubel_stratum.Lifetimes.Cycles.{Edge, find_outlives_cycle}
use ubel_stratum.Lifetimes.Acyclic.{Outlives, Closed, find_outlives_cycle-eq-none}
use ubel_stratum.Lifetimes.Check.{
  scan_names, keys, names_to_check, check_names, edge_of, scan_constraints, cycle_errors,
  check_declaration_well_formed,
}
use ubel_stratum.Lifetimes.Names.{names, Distinct, declared_names, scan_names-eq-nil}

-- The constraints of a list, as they are written.
abbrev pub edges_with : Option LifetimeConstraint → List Edge → List Edge
edges_with none rest = rest
edges_with (some c) rest = (c.longer, c.shorter, c.span) ∷ rest

abbrev pub constraints : List LifetimeParam → List Edge
constraints [] = []
constraints (p ∷ params) = edges_with p.constraint (constraints params)

-- Both names of a constraint are declared.
abbrev pub BothDeclared : (String → Bool) → Option LifetimeConstraint → Type 0
BothDeclared is_declared none = Unit {0}
BothDeclared is_declared (some c) = (is_declared c.longer ≡ true) × (is_declared c.shorter ≡ true)

abbrev pub AllDeclared : (String → Bool) → List LifetimeParam → Type 0
AllDeclared is_declared [] = Unit {0}
AllDeclared is_declared (p ∷ params) =
    BothDeclared is_declared p.constraint × AllDeclared is_declared params

-- A `[lifetime …]` list: distinct names, constraints between them, and no name that outlives itself.
pub record IsWellFormed (params : List LifetimeParam) : Type 0 where
  pub distinct : Distinct params
  pub constrained : AllDeclared (contains (names params)) params
  pub acyclic : (x : String) → Outlives (constraints params) x x → ⊥

pub append-eq-nil : {A : Type 0} (xs ys : List A) → (xs ++ ys ≡ []) ↔ ((xs ≡ []) × (ys ≡ []))
append-eq-nil [] ys = (λ e. (refl, e), λ e. e.1)
append-eq-nil (x ∷ xs) ys = (λ e. absurd (cc), λ e. absurd (cc (e.0)))

module _ (declared : List String) where
  check_names-eq-nil :
      (c : LifetimeConstraint)
      → (check_names declared c.span (names_to_check c) ≡ [])
        ↔ BothDeclared (contains declared) (some c)
  unfolding check_names
  check_names-eq-nil c = ground (arith, string_eq.equal_iff c.shorter c.longer)

  scan_constraints-eq-nil :
      (params : List LifetimeParam)
      → ((scan_constraints declared params).1 ≡ []) ↔ AllDeclared (contains declared) params
  unfolding scan_constraints
  scan_constraints-eq-nil [] = (λ e. tt, λ d. refl)
  scan_constraints-eq-nil (p ∷ params) = elim (Option-cases p.constraint) [
    | inl e ↦
        let (to, from) = scan_constraints-eq-nil params in
        rw (e, scan_constraints) (λ h. (tt, to h), λ d. from d.1)
    | inr (c, e) ↦
        let (to, from) = scan_constraints-eq-nil params in
        let own = check_names-eq-nil c in
        let both =
          append-eq-nil (check_names declared c.span (names_to_check c))
            (scan_constraints declared params).1 in
        rw (e, scan_constraints)
          (λ h. (own.0 (both.0 h).0, to (both.0 h).1), λ d. both.1 (own.1 d.0, from d.1))
  ]

  edge_of-both :
      (c : LifetimeConstraint)
      → BothDeclared (contains declared) (some c)
      → edge_of declared c ≡ (c.longer, c.shorter, c.span) ∷ []
  unfolding edge_of
  edge_of-both c d = ground arith

  scan_constraints_edges :
      (params : List LifetimeParam)
      → AllDeclared (contains declared) params
      → (scan_constraints declared params).0 ≡ constraints params
  unfolding scan_constraints
  scan_constraints_edges [] d = refl
  scan_constraints_edges (p ∷ params) d = elim (Option-cases p.constraint) [
    | inl e ↦ rw (e, scan_constraints) (scan_constraints_edges params d.1)
    | inr (c, e) ↦
        rw (e, scan_constraints, edge_of-both c (rw e at d.0))
          (ap (λ (r : List Edge). (c.longer, c.shorter, c.span) ∷ r)
            (scan_constraints_edges params d.1))
  ]

constraints-Closed :
    (xs : List String) (params : List LifetimeParam)
    → AllDeclared (contains xs) params
    → Closed xs (constraints params)
constraints-Closed xs [] d x y span m = elim m [ ]
constraints-Closed xs (p ∷ params) d x y span m = elim (Option-cases p.constraint) [
  | inl e ↦ constraints-Closed xs params d.1 x y span (rw e at m)
  | inr (c, e) ↦
      let both : BothDeclared (contains xs) (some c) = (rw e at d.0) in
      let found : (◌≡◌ {A = Edge} (c.longer, c.shorter, c.span) (x, y, span))
          ⊎ Among (x, y, span) (constraints params) =
        (rw e at m) in
      elim found [
        | inl same ↦ subst (λ z. contains xs z ≡ true) (λ i. (same i).1) both.1
        | inr later ↦ constraints-Closed xs params d.1 x y span later
      ]
]

cycle_errors-eq-nil :
    (found : Option (List String × Span)) → (cycle_errors found ≡ []) ↔ (found ≡ none)
unfolding cycle_errors
cycle_errors-eq-nil none = (λ e. refl, λ e. refl)
cycle_errors-eq-nil (some (xs, span)) = (λ e. absurd (cc), λ e. absurd (cc))

-- The names that the checks of types are given are those of the list.
pub check_declaration_names :
    (params : List LifetimeParam) (x : String)
    → contains (check_declaration_well_formed params).0 x ≡ contains (names params) x
unfolding check_declaration_well_formed
check_declaration_names params x = declared_names params x

pub check_declaration-IsWellFormed :
    (params : List LifetimeParam)
    → ((check_declaration_well_formed params).1 ≡ []) ↔ IsWellFormed params
unfolding check_declaration_well_formed
check_declaration-IsWellFormed params =
    let declared = keys (scan_names params []).0 in
    let same : contains declared ≡ contains (names params) = fun_ext (declared_names params) in
    let scanned = scan_constraints declared params in
    let found = find_outlives_cycle declared scanned.0 in
    let outer = append-eq-nil (scan_names params []).1 (scanned.1 ++ cycle_errors found) in
    let inner = append-eq-nil scanned.1 (cycle_errors found) in
    let once = scan_names-eq-nil params in
    let known = scan_constraints-eq-nil declared params in
    let loops = λ (d : AllDeclared (contains declared) params).
      find_outlives_cycle-eq-none (constraints params) declared
        (constraints-Closed declared params d) in
    let edges = λ (d : AllDeclared (contains declared) params).
      ap (find_outlives_cycle declared) (scan_constraints_edges declared params d) in
    (
      λ e.
          let d = known.0 (inner.0 (outer.0 e).1).0 in
          record {
            distinct = once.0 (outer.0 e).0;
            constrained = subst (λ f. AllDeclared f params) same d;
            acyclic =
                (loops d).0
                  (sym (edges d) ∙ (cycle_errors-eq-nil found).0 (inner.0 (outer.0 e).1).1);
          },
      λ w.
          let d = subst (λ f. AllDeclared f params) (sym same) w.constrained in
          outer.1 (
            once.1 w.distinct,
            inner.1 (known.1 d, (cycle_errors-eq-nil found).1 (edges d ∙ (loops d).1 w.acyclic)),
          ),
    )
