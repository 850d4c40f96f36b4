-- ===== src/Outlives/Resolve.antt =====
-- What `resolve_boundary_value` says of a local: the loans bound to it, and whether one of them is live at
-- the site.
use ubel_stratum.Common.{
  ℕ, true, false, List, [], ◌∷◌, ◌≡◌, refl, ◌↔◌, inl, inr, sym, subst, String, string_eq, ◌==◌,
  nat_eq, contains, contains-nil, contains-cons, contains-append, list_at, Among, Bool-cases,
}
use ubel_stratum.Ast.{FunctionDecl}
use ubel_stratum.Cfg.{build}
use ubel_stratum.Cfg.WellFormed.{build-IsWellFormed}
use ubel_stratum.Points.{Point, point_eq}
use ubel_stratum.Facts.{local, place_eq, Loan, collect}
use ubel_stratum.Borrow.{compute_loan_regions}
use ubel_stratum.Borrow.Regions.{InRegion, contains-compute_loan_regions}
use ubel_stratum.Outlives.Check.{
  Resolved, concrete, caller_param, dead, untraced, bound_loans, covering, last_span, resolve_loans,
  resolve_name,
}
use ubel_stratum.Outlives.Program.{caller_of, param_names}

-- A loan of the caller that the local carries.
abbrev pub BoundTo : String → List Loan → Loan → Type 0
BoundTo name loans loan = Among loan loans × (loan.bound_place ≡ local name)

Among-bound_loans :
    (name : String) (loans : List Loan) (loan : Loan)
    → Among loan (bound_loans name loans) ↔ BoundTo name loans loan
unfolding bound_loans
Among-bound_loans name [] loan = (λ m. elim m [ ], λ m. elim m.0 [ ])
Among-bound_loans name (x ∷ loans) loan =
    let (to, from) = Among-bound_loans name loans loan in
    let decides = place_eq.equal_iff x.bound_place (local name) in
    elim (Bool-cases (x.bound_place == local name)) [
      | inl bound ↦
          rw (bound, bound_loans)
            (
              λ m. elim m [
                | inl same ↦ (
                  inl same,
                  subst (λ (l : Loan). l.bound_place ≡ local name) same (decides.0 bound),
                )
                | inr later ↦ (inr (to later).0, (to later).1)
              ],
              λ (m, b). elim m [ inl same ↦ inl same | inr later ↦ inr (from (later, b)) ],
            )
      | inr elsewhere ↦
          rw (elsewhere, bound_loans)
            (
              λ m. (inr (to m).0, (to m).1),
              λ (m, b). elim m [
                | inl same ↦ absurd (
                    cc (
                      elsewhere,
                      decides.1 (subst (λ (l : Loan). l.bound_place ≡ local name) (sym same) b),
                    ))
                | inr later ↦ from (later, b)
              ],
            )
    ]

-- A listed loan whose region holds the site and the point.
abbrev CoveredBy : List (ℕ × List Point) → Point → List Loan → Point → Type 0
CoveredBy regions point loans p =
    (loan : Loan) × Among loan loans
    × (contains (list_at loan.id regions) point ≡ true)
    × (contains (list_at loan.id regions) p ≡ true)

contains-covering :
    (regions : List (ℕ × List Point)) (point : Point) (loans : List Loan) (p : Point)
    → (contains (covering regions point loans) p ≡ true) ↔ CoveredBy regions point loans p
unfolding covering
contains-covering regions point [] p =
    (λ e. absurd (cc (e, contains-nil p)), λ (loan, m, at, r). elim m [ ])
contains-covering regions point (x ∷ loans) p =
    let (to, from) = contains-covering regions point loans p in
    let both = contains-append (list_at x.id regions) (covering regions point loans) p in
    elim (Bool-cases (contains (list_at x.id regions) point)) [
      | inl holds ↦
          rw (holds, covering)
            (
              λ e. elim (both.0 e) [
                | inl own ↦ (x, inl refl, holds, own)
                | inr later ↦ let (loan, m, at, r) = to later in (loan, inr m, at, r)
              ],
              λ (loan, m, at, r). both.1 (elim m [
                | inl same ↦
                    inl
                      (subst (λ (l : Loan). contains (list_at l.id regions) p ≡ true) (sym same) r)
                | inr later ↦ inr (from (loan, later, at, r))
              ]),
            )
      | inr outside ↦
          rw (outside, covering)
            (
              λ e. let (loan, m, at, r) = to e in (loan, inr m, at, r),
              λ (loan, m, at, r). elim m [
                | inl same ↦ absurd (
                    cc (
                      outside,
                      subst (λ (l : Loan). contains (list_at l.id regions) point ≡ true) (sym same)
                          at,
                    ))
                | inr later ↦ from (loan, later, at, r)
              ],
            )
    ]

last_span-Among :
    (first : Loan) (loans : List Loan)
    → (loan : Loan) × Among loan (first ∷ loans) × (loan.span ≡ last_span first.span loans)
unfolding last_span
last_span-Among first [] = (first, inl refl, refl)
last_span-Among first (x ∷ loans) = let (loan, m, e) = last_span-Among x loans in (loan, inr m, e)

-- What the answer for a name at a site means, by the paths of the caller's graph.
abbrev pub Means : FunctionDecl → Point → String → Resolved → Type 0
Means f point name caller_param = contains (param_names f.params) name ≡ true
Means f point name untraced =
    (contains (param_names f.params) name ≡ false)
    × ((loan : Loan) → BoundTo name (collect (build f)).loans loan → ⊥)
Means f point name (dead span) =
    (contains (param_names f.params) name ≡ false)
    × ((loan : Loan) × BoundTo name (collect (build f)).loans loan × (loan.span ≡ span))
    × ((loan : Loan)
        → BoundTo name (collect (build f)).loans loan
        → InRegion (build f) (collect (build f)) loan point
        → ⊥)
Means f point name (concrete region) =
    (contains (param_names f.params) name ≡ false)
    × (contains region point ≡ true)
    × ((p : Point)
        → (contains region p ≡ true) ↔ (
            (loan : Loan) × BoundTo name (collect (build f)).loans loan
            × InRegion (build f) (collect (build f)) loan point
            × InRegion (build f) (collect (build f)) loan p))

module _ (f : FunctionDecl) (point : Point) (name : String) where
  abbrev loans : List Loan
  loans = (collect (build f)).loans

  region_of :
      (loan : Loan) (p : Point)
      → Among loan loans
      → (contains (list_at loan.id (compute_loan_regions (build f) (collect (build f)))) p ≡ true)
        ↔ InRegion (build f) (collect (build f)) loan p
  region_of loan p m = contains-compute_loan_regions (build f) (build-IsWellFormed f) loan p m

  abbrev Covered : Point → Type 0
  Covered p =
      (loan : Loan) × BoundTo name loans loan
      × InRegion (build f) (collect (build f)) loan point
      × InRegion (build f) (collect (build f)) loan p

  covered :
      (p : Point)
      → (contains
            (covering
              (compute_loan_regions (build f) (collect (build f)))
              point
              (bound_loans name loans))
            p
          ≡ true)
        ↔ Covered p
  covered p =
      let (to, from) =
        contains-covering (compute_loan_regions (build f) (collect (build f))) point
          (bound_loans name loans) p in
      (
        λ e.
            let (loan, m, at, r) = to e in
            let b = (Among-bound_loans name loans loan).0 m in
            (loan, b, (region_of loan point b.0).0 at, (region_of loan p b.0).0 r),
        λ (loan, b, at, r). from (
          loan,
          (Among-bound_loans name loans loan).1 b,
          (region_of loan point b.0).1 at,
          (region_of loan p b.0).1 r,
        ),
      )

  resolve_loans-Means :
      (bound : List Loan) (points : List Point)
      → contains (param_names f.params) name ≡ false
      → ((loan : Loan) → Among loan bound ↔ BoundTo name loans loan)
      → ((p : Point) → (contains points p ≡ true) ↔ Covered p)
      → Means f point name (resolve_loans bound points)
  unfolding resolve_loans
  resolve_loans-Means [] points off same region = (off, λ loan b. elim ((same loan).1 b) [ ])
  resolve_loans-Means (x ∷ rest) [] off same region = (
    off,
    let (loan, m, e) = last_span-Among x rest in (loan, (same loan).0 m, e),
    λ loan b at. cc (contains-nil point, (region point).1 (loan, b, at, at)),
  )
  resolve_loans-Means (x ∷ rest) (p ∷ ps) off same region =
      let (loan, b, at, r) = (region p).0 ((contains-cons p ps p).1 (inl refl)) in
      (off, (region point).1 (loan, b, at, at), region)

  -- For every function, site and name, what the name is found to be bound to is what its loans and the
  -- paths of the function's graph say: a parameter of the function if it is one of these; else
  -- nothing known exactly if no loan is bound to the name; else dead, with the span of such a loan,
  -- if the site is in the region of none of them; else the points of the regions, among them, that
  -- hold the site.
  pub resolve_name-Means : Means f point name (resolve_name (caller_of f) point name)
  unfolding resolve_name caller_of
  resolve_name-Means = elim (Bool-cases (contains (param_names f.params) name)) [
    | inl param ↦ rw (param, resolve_name) param
    | inr off ↦
        rw (off, resolve_name)
          (resolve_loans-Means (bound_loans name loans) _ off (Among-bound_loans name loans)
            covered)
  ]
