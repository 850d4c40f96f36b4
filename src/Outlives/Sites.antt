-- ===== src/Outlives/Sites.antt =====
-- `check_boundary_site` of crates/core/src/sema/outlives_check.rs: the report for the values that one call or
-- struct literal binds to lifetimes, over the way in which a value is resolved.
use ubel_stratum.Common.{
  true, false, List, [], ◌∷◌, ◌≡◌, refl, ◌↔◌, inl, inr, arith, subst, ◌∙◌, Option, none, some,
  String, string_eq, ◌==◌, contains, contains-cons, contains-nil, find, insert, find-insert,
  Bool-cases, if◌then◌else◌,
}
use ubel_stratum.Ast.{Span, Expr}
use ubel_stratum.Points.{Point, point_eq}
use ubel_stratum.Outlives.Check.{
  Resolved, concrete, caller_param, dead, untraced, Pairs, emit_e2_violation, is_subset,
  is_violated, resolve_pairs,
}

-- A value that may be bound: it is at hand at the site.
abbrev pub IsAtHand : Resolved → Type 0
IsAtHand (concrete region) = Unit {0}
IsAtHand caller_param = Unit {0}
IsAtHand (dead span) = ⊥
IsAtHand untraced = ⊥

-- A value at hand outlasts another: a parameter outlasts all, and a region the regions within it.
abbrev pub Outlasts : Resolved → Resolved → Type 0
Outlasts (concrete lr) (concrete sr) = (p : Point) → contains sr p ≡ true → contains lr p ≡ true
Outlasts (concrete lr) caller_param = ⊥
Outlasts (concrete lr) (dead span) = Unit {0}
Outlasts (concrete lr) untraced = Unit {0}
Outlasts caller_param shorter = Unit {0}
Outlasts (dead span) shorter = Unit {0}
Outlasts untraced shorter = Unit {0}

pub emit_e2_violation-eq-nil :
    (r : Resolved) (name : String) (span : Span) → (emit_e2_violation r name span ≡ []) ↔ IsAtHand r
unfolding emit_e2_violation
emit_e2_violation-eq-nil (concrete region) name span = (λ e. tt, λ h. refl)
emit_e2_violation-eq-nil caller_param name span = (λ e. tt, λ h. refl)
emit_e2_violation-eq-nil (dead loan_span) name span = (λ e. absurd (cc), λ h. elim h [ ])
emit_e2_violation-eq-nil untraced name span = (λ e. absurd (cc), λ h. elim h [ ])

is_subset_iff :
    (ps region : List Point)
    → (is_subset ps region ≡ true) ↔ ((p : Point) → contains ps p ≡ true → contains region p ≡ true)
unfolding is_subset
is_subset_iff [] region = (λ e p m. absurd (cc (m, contains-nil p)), λ h. refl)
is_subset_iff (q ∷ ps) region =
    let (to, from) = is_subset_iff ps region in
    (
      λ e p m. elim ((contains-cons q ps p).0 m) [
        | inl same ↦ subst (λ x. contains region x ≡ true) same (ground arith)
        | inr later ↦ to (ground arith) p later
      ],
      λ h.
          let first = h q ((contains-cons q ps q).1 (inl refl)) in
          let rest = from (λ p m. h p ((contains-cons q ps p).1 (inr m))) in rw (first, rest) refl,
    )

pub is_violated_iff :
    (longer shorter : Resolved) → (is_violated longer shorter ≡ false) ↔ Outlasts longer shorter
unfolding is_violated
is_violated_iff (dead span) shorter = (λ e. tt, λ h. refl)
is_violated_iff untraced shorter = (λ e. tt, λ h. refl)
is_violated_iff caller_param shorter = (λ e. tt, λ h. refl)
is_violated_iff (concrete lr) (dead span) = (λ e. tt, λ h. refl)
is_violated_iff (concrete lr) untraced = (λ e. tt, λ h. refl)
is_violated_iff (concrete lr) caller_param = (λ e. absurd (cc), λ h. elim h [ ])
is_violated_iff (concrete lr) (concrete sr) =
    let (to, from) = is_subset_iff sr lr in (λ e. to (ground arith), λ h. rw (from h) refl)

-- The value of the last pair with the name.
abbrev pub last_of : String → Pairs → Option Expr
last_of name [] = none
last_of name ((n, e) ∷ pairs) = elim (last_of name pairs) [
  | some later ↦ some later
  | none ↦ if n == name then some e else none
]

abbrev pub latest : (Expr → Resolved) → Option Expr → Option Resolved → Option Resolved
latest resolve none r = r
latest resolve (some e) r = some (resolve e)

pub find-resolve_pairs :
    (resolve : Expr → Resolved) (pairs : Pairs) (m : List (String × Resolved)) (name : String)
    → find name (resolve_pairs resolve pairs m) ≡ latest resolve (last_of name pairs) (find name m)
unfolding resolve_pairs
find-resolve_pairs resolve [] m name = refl
find-resolve_pairs resolve ((n, e) ∷ pairs) m name =
    find-resolve_pairs resolve pairs (insert n (resolve e) m) name ∙ step (last_of name pairs)
  where
    step :
        (later : Option Expr)
        → latest resolve later (find name (insert n (resolve e) m))
          ≡ latest resolve
              (elim later [ some e' ↦ some e' | none ↦ if n == name then some e else none ])
              (find name m)
    step (some e') = refl
    step none = elim (Bool-cases (n == name)) [
      | inl same ↦ rw (find-insert n name (resolve e) m, same) refl
      | inr apart ↦ rw (find-insert n name (resolve e) m, apart) refl
    ]
