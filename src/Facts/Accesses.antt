-- ===== src/Facts/Accesses.antt =====
-- What a statement does to a local, read off the syntax tree: reading it, assigning it without reading
-- it, and binding it. The tests of crates/core/src/sema/facts.rs against these.
use ubel_stratum.Common.{
  Bool, true, false, ◌≡◌, ◌≢◌, refl, ◌||◌, ◌↔◌, inl, inr, arith, String, string_eq, ◌==◌, some,
  Bool-cases, if◌then◌else◌, Among, list_at, nat_eq,
}
use ubel_stratum.Ast.{ident, assign_expr, Stmt, let_stmt, expr_stmt, ident_target}
use ubel_stratum.Cfg.{Cfg}
use ubel_stratum.Points.{Point, point_eq}
use ubel_stratum.Facts.Walk.{
  Place, local, unknown, place_eq, expr_as_place, expr_reads_place, stmt_reads_place,
}
use ubel_stratum.Facts.Collect.{
  Loan, Access, reassign, conflict, reads_or_none, access_expr, access_stmt, classify_access, known,
  expr_defines_place, binding_place, stmt_defines_place, located, collect,
}
use ubel_stratum.Facts.Occurs.{Occurs, Mentions, expr_reads_place_iff, stmt_reads_place_iff}
use ubel_stratum.Facts.Touches.{TouchedAt, Among-touched}
use ubel_stratum.Facts.Defined.{Among-defined}

-- The statement reads the local: it mentions it, other than as the target of an assignment.
unfoldable pub Reads : String → Stmt → Type 0
Reads x (expr_stmt (assign_expr op (ident y ysp) value asp) sp) = Occurs x value
Reads x s = Mentions x s

-- The statement is an assignment, plain or compound, to the local, and its value does not mention it.
unfoldable pub Overwrites : String → Stmt → Type 0
Overwrites x (expr_stmt (assign_expr op (ident y ysp) value asp) sp) =
    (y ≡ x) × (Occurs x value → ⊥)
Overwrites x s = ⊥

-- The statement is a `let` of the local alone, or an assignment, plain or compound, to it.
unfoldable pub Binds : String → Stmt → Type 0
Binds x (let_stmt m (ident_target y) ty e sp) = y ≡ x
Binds x (expr_stmt (assign_expr op (ident y ysp) value asp) sp) = y ≡ x
Binds x s = ⊥

-- Of a place that is not a local alone nothing is known.
abbrev pub Of : (String → Stmt → Type 0) → Place → Stmt → Type 0
Of Does (local x) s = Does x s
Of Does unknown s = ⊥

same_local : (y x : String) → (some (local y) ≡ some (local x)) ↔ (y ≡ x)
same_local y x = ground arith

stmt_defines_place_iff :
    (x : String) (s : Stmt) → (stmt_defines_place s ≡ some (local x)) ↔ Binds x s
unfolding stmt_defines_place Binds expr_defines_place binding_place expr_as_place
stmt_defines_place_iff x (let_stmt m (ident_target y) ty e sp) = same_local y x
stmt_defines_place_iff x (expr_stmt (assign_expr op (ident y ysp) value asp) sp) = same_local y x
stmt_defines_place_iff x s = (λ e. cc, λ h. absurd h)

decided : {P : Type 0} (b : Bool) → ((b ≡ true) ↔ P) → (reads_or_none b ≡ conflict) ↔ P
decided true k = (λ e. k.0 refl, λ h. refl)
decided false k = (λ e. absurd (cc), λ h. absurd (cc (k.1 h)))

never_reassign : (b : Bool) → (reads_or_none b ≡ reassign) ↔ ⊥
never_reassign true = (λ e. cc, λ h. absurd h)
never_reassign false = (λ e. cc, λ h. absurd h)

plain_reads :
    (x : String) (s : Stmt)
    → (reads_or_none (stmt_reads_place s (local x)) ≡ conflict) ↔ Mentions x s
plain_reads x s = decided (stmt_reads_place s (local x)) (stmt_reads_place_iff x s)

-- What `access_expr` answers at an assignment, from the tests on its target and on its value.
abbrev at_assignment : Bool → Bool → Access
at_assignment same value =
    if same
    then (if value then conflict else reassign)
    else reads_or_none ((same || value) || false)

assignment_reads :
    {P : Type 0} (same value : Bool)
    → ((value ≡ true) ↔ P)
    → (at_assignment same value ≡ conflict) ↔ P
assignment_reads same true k =
    (λ e. k.0 refl, λ h. elim (Bool-cases same) [ inl is ↦ rw is refl | inr other ↦ rw other refl ])
assignment_reads same false k = (λ e. absurd (ground arith), λ h. absurd (cc (k.1 h)))

assignment_overwrites :
    {P Q : Type 0} (same value : Bool)
    → ((same ≡ true) ↔ Q)
    → ((value ≡ true) ↔ P)
    → (at_assignment same value ≡ reassign) ↔ (Q × (P → ⊥))
assignment_overwrites true true q p = (λ e. absurd (cc), λ h. absurd (h.1 (p.0 refl)))
assignment_overwrites true false q p = (λ e. (q.0 refl, λ h. cc (p.1 h)), λ h. refl)
assignment_overwrites false value q p = (λ e. absurd (ground arith), λ h. absurd (cc (q.1 h.0)))

access-Reads : (x : String) (s : Stmt) → (access_stmt s (local x) ≡ conflict) ↔ Reads x s
unfolding access_stmt access_expr Reads expr_as_place expr_reads_place
access-Reads x (expr_stmt (assign_expr op (ident y ysp) value asp) sp) =
    assignment_reads (y == x) (expr_reads_place value (local x)) (expr_reads_place_iff x value)
access-Reads x s = plain_reads x s

access-Overwrites : (x : String) (s : Stmt) → (access_stmt s (local x) ≡ reassign) ↔ Overwrites x s
unfolding access_stmt access_expr Overwrites expr_as_place expr_reads_place
access-Overwrites x (expr_stmt (assign_expr op (ident y ysp) value asp) sp) =
    assignment_overwrites (y == x) (expr_reads_place value (local x)) (string_eq.equal_iff y x)
      (expr_reads_place_iff x value)
access-Overwrites x s = never_reassign (stmt_reads_place s (local x))

classify-Reads :
    (s : Stmt) (place : Place) → (classify_access s place ≡ conflict) ↔ Of Reads place s
unfolding classify_access
classify-Reads s (local x) = access-Reads x s
classify-Reads s unknown = (λ e. cc, λ h. absurd h)

classify-Overwrites :
    (s : Stmt) (place : Place) → (classify_access s place ≡ reassign) ↔ Of Overwrites place s
unfolding classify_access
classify-Overwrites s (local x) = access-Overwrites x s
classify-Overwrites s unknown = (λ e. cc, λ h. absurd h)

-- A statement at the point, other than the one at the issuing point, does this to the place.
pub record AccessedAt (c : Cfg) (place : Place) (issued_at : Point) (Does : String → Stmt → Type 0)
    (p : Point) : Type 0 where
  pub stmt : Stmt
  pub among : Among {A = Point × Stmt} (p, stmt) (located c)
  pub elsewhere : p ≢ issued_at
  pub access : Of Does place stmt

accessed :
    (c : Cfg) (l : Loan) (a : Access) (Does : String → Stmt → Type 0) (p : Point)
    → ((s : Stmt) → (classify_access s l.place ≡ a) ↔ Of Does l.place s)
    → TouchedAt (located c) l a p ↔ AccessedAt c l.place l.issued_at Does p
accessed c l a Does p k = (
  λ t. record {
    stmt = t.stmt;
    among = t.among;
    elsewhere = t.elsewhere;
    access = (k t.stmt).0 t.access;
  },
  λ t. record {
    stmt = t.stmt;
    among = t.among;
    elsewhere = t.elsewhere;
    access = (k t.stmt).1 t.access;
  },
)

pub Among-loan_points :
    (c : Cfg) (l : Loan) (p : Point)
    → Among l (collect c).loans
    → (Among p (list_at l.id (collect c).loan_invalidated_at)
        ↔ AccessedAt c l.place l.issued_at Reads p)
      × (Among p (list_at l.id (collect c).loan_killed_at)
          ↔ AccessedAt c l.place l.issued_at Overwrites p)
Among-loan_points c l p m =
    let touched = Among-touched c l p m in
    let reads = accessed c l conflict Reads p (λ s. classify-Reads s l.place) in
    let kills = accessed c l reassign Overwrites p (λ s. classify-Overwrites s l.place) in
    (
      (λ k. reads.0 (touched.0.0 k), λ k. touched.0.1 (reads.1 k)),
      (λ k. kills.0 (touched.1.0 k), λ k. touched.1.1 (kills.1 k)),
    )

known_place : (p : Place) → known p ≡ some unknown → ⊥
known_place (local x) e = cc
known_place unknown e = cc

defines_known : (s : Stmt) → stmt_defines_place s ≡ some unknown → ⊥
unfolding stmt_defines_place expr_defines_place binding_place
defines_known (let_stmt m (ident_target y) ty e sp) k = cc
defines_known (expr_stmt (assign_expr op target value asp) sp) k =
    known_place (expr_as_place target) k
defines_known s k = cc

define_iff : (s : Stmt) (place : Place) → (stmt_defines_place s ≡ some place) ↔ Of Binds place s
define_iff s (local x) = stmt_defines_place_iff x s
define_iff s unknown = (λ e. defines_known s e, λ h. absurd h)

-- A statement at the point binds the place.
abbrev pub BoundAt : Cfg → Place → Point → Type 0
BoundAt c place p = (s : Stmt) × Among {A = Point × Stmt} (p, s) (located c) × Of Binds place s

-- `place_defined_at` of a function holds for a local exactly the points of the statements that are a
-- `let` of that local alone or an assignment to it, plain or compound, and for any other place none.
pub Among-place_defined_at :
    (c : Cfg) (place : Place) (p : Point)
    → Among p (list_at place (collect c).place_defined_at) ↔ BoundAt c place p
Among-place_defined_at c place p =
    let defined = Among-defined c place p in
    (
      λ k. let (s, m, d) = defined.0 k in (s, m, (define_iff s place).0 d),
      λ (s, m, b). defined.1 (s, m, (define_iff s place).1 b),
    )
