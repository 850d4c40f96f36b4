-- ===== src/Facts/Numbered.antt =====
-- The loans of a function are numbered in the order in which they are collected.
use ubel_stratum.Common.{
  ℕ, zero, suc, ◌+◌, ◌≤◌, List, [], ◌∷◌, ◌++◌, ◌≡◌, refl, inl, inr, arith, Option, none, some,
  length, length-append, length-modify, modify, Among, subst,
}
use ubel_stratum.Ast.{Expr, borrow, Stmt}
use ubel_stratum.Cfg.{Cfg}
use ubel_stratum.Points.{Point}
use ubel_stratum.Facts.Walk.{Place, walk_expr, top_exprs}
use ubel_stratum.Facts.Collect.{
  Loan, Loans, add_loan, add_loans, collect_loans, bind_loan, stmt_bare_borrow_target,
  loans_of_stmt, loans_of, located, collect,
}

-- The identifiers count up from `k`.
abbrev pub Numbered : ℕ → List Loan → Type 0
Numbered k [] = Unit
Numbered k (l ∷ ls) = (l.id ≡ k) × Numbered (suc k) ls

Numbered-append :
    (k : ℕ) (ls : List Loan) (l : Loan)
    → Numbered k ls
    → l.id ≡ k + length ls
    → Numbered k (ls ++ l ∷ [])
Numbered-append k [] l h e = (omega arith, tt)
Numbered-append k (x ∷ ls) l h e = (h.0, Numbered-append (suc k) ls l h.1 (omega arith))

Numbered-modify :
    (k i : ℕ) (ls : List Loan) (target : Place)
    → Numbered k ls
    → Numbered k (modify ls i (λ l. record l { bound_place = target }))
Numbered-modify k i [] target h = tt
Numbered-modify k zero (x ∷ ls) target h = h
Numbered-modify k (suc i) (x ∷ ls) target h = (h.0, Numbered-modify (suc k) i ls target h.1)

pub record Counted (l : Loans) : Type 0 where
  pub numbered : Numbered 0 l.items
  pub next : l.next_id ≡ length l.items

add_loan-Counted : (at : Point) (e : Expr) (l : Loans) → Counted l → Counted (add_loan at e l)
unfolding add_loan
add_loan-Counted at (borrow m e sp) l h = record {
  numbered = Numbered-append 0 l.items _ h.numbered (omega (arith, h.next));
  next = omega (
    arith,
    h.next,
    length-append l.items (
        record {
          id = l.next_id;
          place = _;
          bound_place = _;
          mutable = m;
          issued_at = at;
          span = sp;
        }
        ∷ []),
  );
}
add_loan-Counted at e l h = h

add_loans-Counted :
    (at : Point) (es : List Expr) (l : Loans) → Counted l → Counted (add_loans at es l)
unfolding add_loans
add_loans-Counted at [] l h = h
add_loans-Counted at (e ∷ es) l h =
    add_loans-Counted at es (add_loan at e l) (add_loan-Counted at e l h)

collect_loans-Counted :
    (at : Point) (es : List Expr) (l : Loans) → Counted l → Counted (collect_loans at es l)
unfolding collect_loans
collect_loans-Counted at [] l h = h
collect_loans-Counted at (e ∷ es) l h =
    collect_loans-Counted at es (add_loans at (walk_expr e) l)
      (add_loans-Counted at (walk_expr e) l h)

bind_loan-Counted :
    (i : ℕ) (target : Option Place) (l : Loans)
    → Counted l
    → Counted (record l { items = bind_loan i target l.items })
unfolding bind_loan
bind_loan-Counted i none l h = record { numbered = h.numbered; next = h.next }
bind_loan-Counted i (some target) l h = record {
  numbered = Numbered-modify 0 i l.items target h.numbered;
  next =
      omega
        (arith, h.next, length-modify l.items i (λ (x : Loan). record x { bound_place = target }));
}

loans_of-Counted : (ss : List (Point × Stmt)) (l : Loans) → Counted l → Counted (loans_of ss l)
unfolding loans_of loans_of_stmt
loans_of-Counted [] l h = h
loans_of-Counted ((at, s) ∷ rest) l h = loans_of-Counted rest _ (
    bind_loan-Counted (length l.items) (stmt_bare_borrow_target s)
      (collect_loans at (top_exprs s) l) (collect_loans-Counted at (top_exprs s) l h))

-- A loan's identifier is its index in the list of the function's loans, so no two loans share one.
pub collect-Numbered : (c : Cfg) → Numbered 0 (collect c).loans
unfolding collect
collect-Numbered c =
    (loans_of-Counted (located c) (record { items = []; next_id = 0 })
      (record { numbered = tt; next = refl })).numbered

pub Numbered-le : (k : ℕ) (ls : List Loan) (l : Loan) → Numbered k ls → Among l ls → k ≤ l.id
Numbered-le k [] l h m = elim m [ ]
Numbered-le k (x ∷ ls) l h m = elim m [
  | inl same ↦ subst (λ (y : Loan). k ≤ y.id) same (omega (arith, h.0))
  | inr rest ↦ omega (arith, Numbered-le (suc k) ls l h.1 rest)
]
