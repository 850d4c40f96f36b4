-- ===== src/Analysis/Accepts.antt =====
-- What it means that a program passes the borrow check and the move check.
use ubel_stratum.Common.{
  true, List, [], ◌∷◌, ◌++◌, ◌≡◌, refl, ◌↔◌, inl, inr, arith, Among, Among-append, subst, sym, ap,
  ◌∙◌, String, if◌then◌else◌, list_at, Bool-cases,
}
use ubel_stratum.Ast.{Program, function, FunctionDecl, TierAnnotation, low, is_low}
use ubel_stratum.Cfg.{build}
use ubel_stratum.Cfg.WellFormed.{build-IsWellFormed}
use ubel_stratum.Facts.{Place, place_eq, Facts, collect, Loan}
use ubel_stratum.Points.{Point}
use ubel_stratum.Analysis.Rules.{InTheWay, Conflict-InTheWay, InTheWay-Conflict}
use ubel_stratum.Facts.Held.{Held}
use ubel_stratum.MoveFacts.{MoveFact, MoveFacts, collect_with, user_method_names}
use ubel_stratum.Borrow
use ubel_stratum.Borrow.Conflicts.{Conflict, Among-check as Among-borrow_check}
use ubel_stratum.MoveCheck
use ubel_stratum.MoveCheck.Uses.{StillMoved, check_sound, check_complete}
use ubel_stratum.Analysis.{accepted, after_moves, after_borrows, check_low_tier}

empty_iff : {A : Type 0} (xs : List A) → (xs ≡ []) ↔ ((v : A) → Among v xs → ⊥)
empty_iff [] = (λ _ v m. elim m [ ], λ _. refl)
empty_iff (x ∷ xs) = (λ e. cc, λ h. absurd (h x (inl refl)))

-- A function of the program that the checks look at.
pub record IsLowFunction (program : Program) (decl : FunctionDecl) : Type 0 where
  pub among : Among (function decl) program
  pub tier : decl.tier ≡ low

is_low_iff : (t : TierAnnotation) → (is_low t ≡ true) ↔ (t ≡ low)
is_low_iff t = ground arith

-- The violations of a list of items, one list for each function of the LOW tier.
module _ {V : Type 0} (of : FunctionDecl → List V) where
  unfoldable pub gather : Program → List V
  gather [] = []
  gather (function f ∷ items) = (if is_low f.tier then of f else []) ++ gather items
  gather (item ∷ items) = gather items

  abbrev pub Gathered : Program → V → Type 0
  Gathered program v = (decl : FunctionDecl) × IsLowFunction program decl × Among v (of decl)

  Among-if_low :
      (decl : FunctionDecl) (v : V)
      → Among v (if is_low decl.tier then of decl else []) ↔ ((decl.tier ≡ low) × Among v (of decl))
  Among-if_low decl v = elim (Bool-cases (is_low decl.tier)) [
    | inl lo ↦ rw (lo, if◌then◌else◌) (λ m. ((is_low_iff decl.tier).0 lo, m), λ (e, m). m)
    | inr up ↦ rw (up, if◌then◌else◌) (λ m. elim m [ ], λ (e, m). cc ((is_low_iff decl.tier).1 e))
  ]

  Among-gather : (program : Program) (v : V) → Among v (gather program) ↔ Gathered program v
  unfolding gather
  Among-gather [] v = (λ m. elim m [ ], λ (d, l, m). absurd (elim l.among [ ]))
  Among-gather (function f ∷ items) v = (
    λ m. elim ((Among-append (if is_low f.tier then of f else []) (gather items) v).0 m) [
      | inl here ↦
          let (e, k) = (Among-if_low f v).0 here in (f, record { among = inl refl; tier = e }, k)
      | inr rest ↦
          let (d, l, k) = (Among-gather items v).0 rest in
          (d, record { among = inr l.among; tier = l.tier }, k)
    ],
    λ (d, l, m).
        (Among-append (if is_low f.tier then of f else []) (gather items) v).1 (elim l.among [
          | inl same ↦
              let e : f ≡ d = function_inj f d same in
              inl (
                (Among-if_low f v).1 (
                  ap (λ (x : FunctionDecl). x.tier) e ∙ l.tier,
                  subst (λ x. Among v (of x)) (sym e) m,
                ))
          | inr rest ↦ inr ((Among-gather items v).1 (d, record { among = rest; tier = l.tier }, m))
        ]),
  )
    where
      function_inj : (a b : FunctionDecl) → function a ≡ function b → a ≡ b
      function_inj a b e = cc
  Among-gather (i ∷ items) v = (
    λ m.
        let (d, l, k) = (Among-gather items v).0 m in
        (d, record { among = inr l.among; tier = l.tier }, k),
    λ (d, l, m). elim l.among [
      | inl same ↦ absurd (cc same)
      | inr rest ↦ (Among-gather items v).1 (d, record { among = rest; tier = l.tier }, m)
    ],
  )

borrow-gather :
    (program : Program) → Borrow.check_program program ≡ gather Borrow.check_function program
unfolding Borrow.check_program gather
borrow-gather [] = refl
borrow-gather (function f ∷ items) =
    ap (λ vs. Borrow.if_low f (Borrow.check_function f) ++ vs) (borrow-gather items)
borrow-gather (i ∷ items) = borrow-gather items

moves-gather :
    (names : List String) (program : Program)
    → MoveCheck.check_items names program
      ≡ gather (λ f. MoveCheck.check_function_with f names) program
unfolding MoveCheck.check_items gather
moves-gather names [] = refl
moves-gather names (function f ∷ items) =
    ap (λ vs. MoveCheck.if_low f (MoveCheck.check_function_with f names) ++ vs)
      (moves-gather names items)
moves-gather names (i ∷ items) = moves-gather names items

-- The facts of a function.
abbrev pub loan_facts : FunctionDecl → Facts
loan_facts decl = collect (build decl)

abbrev pub move_facts : Program → FunctionDecl → MoveFacts
move_facts program decl = collect_with (build decl) (user_method_names program)

borrow_function :
    (d : FunctionDecl) (v : Borrow.Violation)
    → Among v (Borrow.check_function d)
      ↔ ((loan : Loan) × Among loan (loan_facts d).loans × Conflict (build d) (loan_facts d) loan v)
unfolding Borrow.check_function
borrow_function d v = Among-borrow_check (build d) (build-IsWellFormed d) (collect (build d)) v

pub Among-borrow_program :
    (program : Program) (v : Borrow.Violation)
    → Among v (Borrow.check_program program) ↔ (
        (decl : FunctionDecl) × IsLowFunction program decl
        × (loan : Loan) × Among loan (loan_facts decl).loans
        × Conflict (build decl) (loan_facts decl) loan v)
Among-borrow_program program v =
    let g = Among-gather Borrow.check_function program v in
    (
      λ m.
          let (d, l, k) = g.0 (subst (Among v) (borrow-gather program) m) in
          let (loan, n, x) = (borrow_function d v).0 k in (d, l, loan, n, x),
      λ (d, l, loan, n, x).
          subst (Among v) (sym (borrow-gather program))
            (g.1 (d, l, (borrow_function d v).1 (loan, n, x))),
    )

-- The uses by value of a tracked local of a function.
abbrev pub uses_by_value : Program → FunctionDecl → Place → List MoveFact
uses_by_value program decl place = list_at place (move_facts program decl).moved_at

-- A use that some path leads to from a move, in a function that the check looks at.
pub record MovedUse (program : Program) : Type 0 where
  pub decl : FunctionDecl
  pub is_low_function : IsLowFunction program decl
  pub place : Place
  pub tracked : Among place (move_facts program decl).tracked_locals
  pub source : MoveFact
  pub candidate : MoveFact
  pub source_among : Among source (uses_by_value program decl place)
  pub candidate_among : Among candidate (uses_by_value program decl place)
  pub still_moved : StillMoved (build decl) (loan_facts decl) place source.point candidate.point

-- A program has no move violation exactly if no use by value of a tracked local in a LOW-tier
-- function can come after another, or after itself, with no fresh definition in between.
pub move_program-nil :
    (program : Program) → (MoveCheck.check_program program ≡ []) ↔ (MovedUse program → ⊥)
unfolding MoveCheck.check_program MoveCheck.check_function_with
move_program-nil program =
    let names = user_method_names program in
    let of = λ (f : FunctionDecl). MoveCheck.check_function_with f names in
    (
      λ e u.
          let (v, k, _) =
            check_complete (build u.decl) (build-IsWellFormed u.decl) (collect (build u.decl))
              (move_facts program u.decl) u.place u.source u.candidate u.tracked u.source_among
              u.candidate_among u.still_moved in
          (empty_iff (MoveCheck.check_items names program)).0 e v (
            subst (Among v) (sym (moves-gather names program))
              ((Among-gather of program v).1 (u.decl, u.is_low_function, k))),
      λ never. (empty_iff (MoveCheck.check_items names program)).1 (λ v m.
          let (d, l, k) =
            (Among-gather of program v).0 (subst (Among v) (moves-gather names program) m) in
          let (place, n, p, u) =
            check_sound (build d) (build-IsWellFormed d) (collect (build d)) (move_facts program d)
              v k in
          never (record {
            decl = d;
            is_low_function = l;
            place = place;
            tracked = n;
            source = u.source;
            candidate = u.candidate;
            source_among = u.source_among;
            candidate_among = u.candidate_among;
            still_moved = u.still_moved;
          })),
    )

-- A mutable borrow that is in the way of an access, in a function that the check looks at.
pub record BorrowConflict (program : Program) : Type 0 where
  pub decl : FunctionDecl
  pub is_low_function : IsLowFunction program decl
  pub borrow : Held
  pub point : Point
  pub in_the_way : InTheWay (build decl) borrow point

pub check_low_tier-accepted :
    (program : Program)
    → (check_low_tier program ≡ accepted) ↔ ((BorrowConflict program → ⊥) × (MovedUse program → ⊥))
unfolding check_low_tier after_borrows after_moves
check_low_tier-accepted program = (
  λ e.
      let (b, m) =
        accepted_parts (Borrow.check_program program) (MoveCheck.check_program program) e in
      (
        λ x.
            let (loan, issued, v, k) =
              InTheWay-Conflict (build x.decl) x.borrow x.point x.in_the_way in
            (empty_iff (Borrow.check_program program)).0 b v
              ((Among-borrow_program program v).1 (x.decl, x.is_low_function, loan, issued, k)),
        (move_program-nil program).0 m,
      ),
  λ (no_borrow, no_move).
      let b = (empty_iff (Borrow.check_program program)).1 (λ v k.
        let (d, l, loan, n, x) = (Among-borrow_program program v).0 k in
        let (h, p, w) = Conflict-InTheWay (build d) loan v n x in
        no_borrow
          (record { decl = d; is_low_function = l; borrow = h; point = p; in_the_way = w })) in
      rw (b, after_borrows) (rw ((move_program-nil program).1 no_move, after_moves) refl),
)
  where
    accepted_parts :
        (bs : List Borrow.Violation) (ms : List MoveCheck.Violation)
        → after_borrows bs ms ≡ accepted
        → (bs ≡ []) × (ms ≡ [])
    accepted_parts [] [] e = (refl, refl)
    accepted_parts [] (m ∷ ms) e = cc
    accepted_parts (b ∷ bs) ms e = cc
