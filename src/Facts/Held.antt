-- ===== src/Facts/Held.antt =====
-- Which borrows a function's loans hold in a local: those that stand alone as the value of a `let` of
-- one name or of a plain assignment to one.
use ubel_stratum.Common.{
  ℕ, Bool, List, [], ◌∷◌, ◌++◌, ◌≡◌, refl, ◌⊎◌, ◌↔◌, inl, inr, Option, none, some, String, length,
  modify, Among, Among-append, subst, sym, ap, ◌∙◌,
}
use mathlib.Core.List.{append-nil, append_assoc}
use ubel_stratum.Ast.{
  Span, Expr, ident, borrow, assign_expr, assign, Stmt, let_stmt, expr_stmt, ident_target,
  destructure,
}
use ubel_stratum.Cfg.{Cfg}
use ubel_stratum.Points.{Point}
use ubel_stratum.Facts.Walk.{Place, local, unknown, expr_as_place, walk_expr, top_exprs}
use ubel_stratum.Facts.Collect.{
  Loan, Loans, add_loan, add_loans, collect_loans, bind_loan, stmt_bare_borrow_target, if_borrow,
  expr_bare_borrow_target, binding_place, loans_of_stmt, loans_of, located, collect,
}

-- A borrow that a local holds.
pub record Held : Type 0 where
  pub holder : String
  pub place : Place
  pub mutable : Bool
  pub issued_at : Point
  pub span : Span

-- The statement is `let x = &e;` or `x = &e;`, shared or mutable.
unfoldable pub HoldsBorrow : Held → Stmt → Type 0
HoldsBorrow h (let_stmt mu (ident_target y) ty (borrow m e bsp) sp) =
    (y ≡ h.holder) × (expr_as_place e ≡ h.place) × (m ≡ h.mutable) × (bsp ≡ h.span)
HoldsBorrow h (expr_stmt (assign_expr assign (ident y ysp) (borrow m e bsp) asp) sp) =
    (y ≡ h.holder) × (expr_as_place e ≡ h.place) × (m ≡ h.mutable) × (bsp ≡ h.span)
HoldsBorrow h s = ⊥

-- The loan is of this borrow.
pub record IsHeld (h : Held) (l : Loan) : Type 0 where
  pub holder : l.bound_place ≡ local h.holder
  pub place : l.place ≡ h.place
  pub mutable : l.mutable ≡ h.mutable
  pub issued_at : l.issued_at ≡ h.issued_at
  pub span : l.span ≡ h.span

abbrev pub AmongHeld : Held → List Loan → Type 0
AmongHeld h ls = (l : Loan) × Among l ls × IsHeld h l

AmongHeld-append :
    (h : Held) (xs ys : List Loan) → AmongHeld h (xs ++ ys) ↔ (AmongHeld h xs ⊎ AmongHeld h ys)
AmongHeld-append h xs ys = (
  λ (l, m, k). elim ((Among-append xs ys l).0 m) [ inl a ↦ inl (l, a, k) | inr b ↦ inr (l, b, k) ],
  λ d. elim d [
    | inl (l, m, k) ↦ (l, (Among-append xs ys l).1 (inl m), k)
    | inr (l, m, k) ↦ (l, (Among-append xs ys l).1 (inr m), k)
  ],
)

-- No loan of the list is held in a local.
abbrev Unbound : List Loan → Type 0
Unbound [] = Unit {0}
Unbound (l ∷ ls) = (l.bound_place ≡ unknown) × Unbound ls

none_held : (h : Held) (ls : List Loan) → Unbound ls → AmongHeld h ls → ⊥
none_held h [] u (l, m, k) = elim m [ ]
none_held h (x ∷ ls) u (l, m, k) = elim m [
  | inl same ↦ apart (sym u.0 ∙ ap (λ (y : Loan). y.bound_place) same ∙ k.holder)
  | inr rest ↦ none_held h ls u.1 (l, rest, k)
]
  where
    apart : {x : String} → unknown ≡ local x → ⊥
    apart e = cc

-- The loans of the expressions are put behind those there were, and none is held.
record Extends (l l' : Loans) : Type 0 where
  pub added : List Loan
  pub unbound : Unbound added
  pub items : l'.items ≡ l.items ++ added

Unbound-append : (xs ys : List Loan) → Unbound xs → Unbound ys → Unbound (xs ++ ys)
Unbound-append [] ys u v = v
Unbound-append (x ∷ xs) ys u v = (u.0, Unbound-append xs ys u.1 v)

stays : (l : Loans) → Extends l l
stays l = record { added = []; unbound = tt; items = sym (append-nil l.items) }

then : (k l m : Loans) → Extends k l → Extends l m → Extends k m
then k l m a b = record {
  added = a.added ++ b.added;
  unbound = Unbound-append a.added b.added a.unbound b.unbound;
  items =
      b.items
      ∙ ap (λ (xs : List Loan). xs ++ b.added) a.items
      ∙ append_assoc k.items a.added b.added;
}

add_loan-Extends : (at : Point) (e : Expr) (l : Loans) → Extends l (add_loan at e l)
unfolding add_loan
add_loan-Extends at (borrow m e sp) l = record { added = _; unbound = (refl, tt); items = refl }
add_loan-Extends at e l = stays l

add_loans-Extends : (at : Point) (es : List Expr) (l : Loans) → Extends l (add_loans at es l)
unfolding add_loans
add_loans-Extends at [] l = stays l
add_loans-Extends at (e ∷ es) l =
    then l (add_loan at e l) _ (add_loan-Extends at e l) (add_loans-Extends at es (add_loan at e l))

collect_loans-Extends :
    (at : Point) (es : List Expr) (l : Loans) → Extends l (collect_loans at es l)
unfolding collect_loans
collect_loans-Extends at [] l = stays l
collect_loans-Extends at (e ∷ es) l =
    then l (add_loans at (walk_expr e) l) _ (add_loans-Extends at (walk_expr e) l)
      (collect_loans-Extends at es (add_loans at (walk_expr e) l))

modify-append :
    (xs ys : List Loan) (f : Loan → Loan) → modify (xs ++ ys) (length xs) f ≡ xs ++ modify ys 0 f
modify-append [] ys f = refl
modify-append (x ∷ xs) ys f = ap (λ (zs : List Loan). x ∷ zs) (modify-append xs ys f)

Unbound-modify :
    (ls : List Loan) → Unbound ls → Unbound (modify ls 0 (λ l. record l { bound_place = unknown }))
Unbound-modify [] u = tt
Unbound-modify (l ∷ ls) u = (refl, u.1)

kept : (h : Held) (xs ys : List Loan) → Unbound ys → AmongHeld h (xs ++ ys) ↔ AmongHeld h xs
kept h xs ys u = (
  λ m. elim ((AmongHeld-append h xs ys).0 m) [
    | inl old ↦ old
    | inr new ↦ absurd (none_held h ys u new)
  ],
  λ m. (AmongHeld-append h xs ys).1 (inl m),
)

-- A statement that holds no borrow in a local.
kept_stmt :
    (h : Held) (target : Option Place) (l l' : Loans)
    → Extends l l'
    → ((x : String) → target ≡ some (local x) → ⊥)
    → AmongHeld h (bind_loan (length l.items) target l'.items) ↔ AmongHeld h l.items
unfolding bind_loan
kept_stmt h none l l' e ne = rw e.items (kept h l.items e.added e.unbound)
kept_stmt h (some (local x)) l l' e ne = absurd (ne x refl)
kept_stmt h (some unknown) l l' e ne =
    rw (e.items, modify-append l.items e.added (λ (x : Loan). record x { bound_place = unknown }))
      (kept h l.items _ (Unbound-modify e.added e.unbound))

-- The borrow and its holder are those.
abbrev Matches : Held → String → Bool → Expr → Span → Type 0
Matches h y m e sp = (y ≡ h.holder) × (expr_as_place e ≡ h.place) × (m ≡ h.mutable) × (sp ≡ h.span)

abbrev loan_at : Point → String → Bool → Expr → Span → ℕ → Loan
loan_at at y m e sp id = record {
  id = id;
  place = expr_as_place e;
  bound_place = local y;
  mutable = m;
  issued_at = at;
  span = sp;
}

loan_at_iff :
    (h : Held) (at : Point) (y : String) (m : Bool) (e : Expr) (sp : Span) (id : ℕ)
    → IsHeld h (loan_at at y m e sp id) ↔ ((at ≡ h.issued_at) × Matches h y m e sp)
loan_at_iff h at y m e sp id = (
  λ k. (k.issued_at, (cc (k.holder), k.place, k.mutable, k.span)),
  λ (a, (y', p, m', s')). record {
    holder = ap (λ (x : String). local x) y';
    place = p;
    mutable = m';
    issued_at = a;
    span = s';
  },
)

-- A statement that holds a borrow in a local.
held_stmt :
    (h : Held) (at : Point) (y : String) (m : Bool) (e : Expr) (sp : Span) (l : Loans)
    → AmongHeld h (
        bind_loan
          (length l.items)
          (some (local y))
          (add_loans at (walk_expr e) (add_loan at (borrow m e sp) l)).items)
      ↔ (AmongHeld h l.items ⊎ (at ≡ h.issued_at) × Matches h y m e sp)
unfolding bind_loan add_loan
held_stmt h at y m e sp l =
    let bind = λ (x : Loan). record x { bound_place = local y } in
    let x = add_loans-Extends at (walk_expr e) (add_loan at (borrow m e sp) l) in
    let one = loan_at_iff h at y m e sp l.next_id in
    rw (x.items, append_assoc l.items _ x.added, modify-append l.items _ bind)
      (
        λ k. elim ((AmongHeld-append h l.items _).0 k) [
          | inl old ↦ inl old
          | inr (n, m, i) ↦ elim m [
            | inl same ↦ inr (one.0 (subst (IsHeld h) (sym same) i))
            | inr later ↦ absurd (none_held h x.added x.unbound (n, later, i))
          ]
        ],
        λ k. (AmongHeld-append h l.items _).1 (elim k [
          | inl old ↦ inl old
          | inr new ↦ inr (loan_at at y m e sp l.next_id, inl refl, one.1 new)
        ]),
      )

no_target : (value : Expr) (x : String) → if_borrow value none ≡ some (local x) → ⊥
no_target (borrow m e sp) x k = cc
no_target value x k = cc

no_local : (value : Expr) (x : String) → if_borrow value (some unknown) ≡ some (local x) → ⊥
no_local (borrow m e sp) x k = cc
no_local value x k = cc

-- What a statement adds to the loans that are held.
plain_stmt :
    (h : Held) (at : Point) (es : List Expr) (target : Option Place) (l : Loans) {P : Type 0}
    → ((x : String) → target ≡ some (local x) → ⊥)
    → (P → ⊥)
    → AmongHeld h (bind_loan (length l.items) target (collect_loans at es l).items)
      ↔ (AmongHeld h l.items ⊎ (at ≡ h.issued_at) × P)
plain_stmt h at es target l ne none_here =
    let k = kept_stmt h target l (collect_loans at es l) (collect_loans-Extends at es l) ne in
    (λ m. inl (k.0 m), λ d. elim d [ inl old ↦ k.1 old | inr new ↦ absurd (none_here new.1) ])

loans_of_stmt_iff :
    (h : Held) (at : Point) (s : Stmt) (l : Loans)
    → AmongHeld h (loans_of_stmt at s l).items
      ↔ (AmongHeld h l.items ⊎ (at ≡ h.issued_at) × HoldsBorrow h s)
unfolding loans_of_stmt HoldsBorrow collect_loans stmt_bare_borrow_target expr_bare_borrow_target
    binding_place add_loans walk_expr top_exprs expr_as_place
loans_of_stmt_iff h at (let_stmt mu (ident_target y) ty (borrow m e bsp) sp) l =
    held_stmt h at y m e bsp l
loans_of_stmt_iff h at (expr_stmt (assign_expr assign (ident y ysp) (borrow m e bsp) asp) sp) l =
    held_stmt h at y m e bsp l
loans_of_stmt_iff h at (let_stmt mu (destructure pattern) ty value sp) l =
    plain_stmt h at (value ∷ []) (if_borrow value none) l (no_target value) (λ p. p)
loans_of_stmt_iff h at (expr_stmt (assign_expr assign (ident y ysp) value asp) sp) l =
    plain_stmt h at (assign_expr assign (ident y ysp) value asp ∷ []) none l (λ x k. cc) (λ p. p)
loans_of_stmt_iff h at (expr_stmt (assign_expr assign target value asp) sp) l =
    plain_stmt h at (assign_expr assign target value asp ∷ []) (if_borrow value (some unknown)) l
      (no_local value) (λ p. p)
loans_of_stmt_iff h at s l =
    plain_stmt h at (top_exprs s) (stmt_bare_borrow_target s) l (λ x e. cc) (λ p. p)

loans_of_iff :
    (h : Held) (ss : List (Point × Stmt)) (l : Loans)
    → AmongHeld h (loans_of ss l).items ↔ (
        AmongHeld h l.items
        ⊎ ((s : Stmt) × Among {A = Point × Stmt} (h.issued_at, s) ss × HoldsBorrow h s))
unfolding loans_of
loans_of_iff h [] l = (inl, λ d. elim d [ inl m ↦ m | inr k ↦ elim k.1 [ ] ])
loans_of_iff h ((at, s) ∷ rest) l =
    let r = loans_of_iff h rest (loans_of_stmt at s l) in
    let one = loans_of_stmt_iff h at s l in
    (
      λ m. elim (r.0 m) [
        | inr (t, k, b) ↦ inr (t, inr k, b)
        | inl k ↦ elim (one.0 k) [
          | inl old ↦ inl old
          | inr new ↦ inr (s, inl (ap (λ (x : Point). (x, s)) new.0), new.1)
        ]
      ],
      λ d. elim d [
        | inl old ↦ r.1 (inl (one.1 (inl old)))
        | inr (t, k, b) ↦ elim k [
          | inr later ↦ r.1 (inr (t, later, b))
          | inl same ↦ r.1 (
              inl (
                one.1 (
                  inr (
                    ap (λ (x : Point × Stmt). x.0) same,
                    subst (HoldsBorrow h) (sym (ap (λ (x : Point × Stmt). x.1) same)) b,
                  ))))
        ]
      ],
    )

-- The loans of a function that a local holds are exactly the borrows that stand alone as the value of a
-- `let` of that local or of a plain assignment to it.
pub AmongHeld-collect :
    (c : Cfg) (h : Held)
    → AmongHeld h (collect c).loans
      ↔ ((s : Stmt) × Among {A = Point × Stmt} (h.issued_at, s) (located c) × HoldsBorrow h s)
unfolding collect
AmongHeld-collect c h =
    let r = loans_of_iff h (located c) (record { items = []; next_id = 0 }) in
    (λ m. elim (r.0 m) [ inl (l, never, k) ↦ elim never [ ] | inr s ↦ s ], λ s. r.1 (inr s))
