-- ===== src/Facts/Defined.antt =====
-- `place_defined_at` holds exactly the points where `stmt_defines_place` answers the place.
use ubel_stratum.Common.{
  List, [], ◌∷◌, ◌≡◌, ◌⊎◌, ◌↔◌, inl, inr, Option, none, some, Among, Among-append, list_at,
  list_at-push_at, Bool-cases, ap, ◌∙◌, if◌then◌else◌, ◌==◌,
}
use mathlib.Core.Option.{some_inj}
use ubel_stratum.Ast.{Stmt}
use ubel_stratum.Cfg.{Cfg}
use ubel_stratum.Points.{Point}
use ubel_stratum.Facts.Walk.{Place, place_eq, place_beq_iff}
use ubel_stratum.Facts.Collect.{define_at, definitions, stmt_defines_place, located, collect}

abbrev pub DefinesAt : List (Point × Stmt) → Place → Point → Type 0
DefinesAt ss place p =
    (s : Stmt) × Among {A = Point × Stmt} (p, s) ss × (stmt_defines_place s ≡ some place)

Among-define_at :
    (at : Point) (o : Option Place) (m : List (Place × List Point)) (place : Place) (p : Point)
    → Among p (list_at place (define_at at o m))
      ↔ (Among p (list_at place m) ⊎ (o ≡ some place) × (at ≡ p))
unfolding define_at
Among-define_at at none m place p = (inl, λ k. elim k [ inl h ↦ h | inr h ↦ cc h.0 ])
Among-define_at at (some x) m place p = elim (Bool-cases (x == place)) [
  | inl same ↦
      rw (list_at-push_at, same, if◌then◌else◌)
        (
          λ k. elim ((Among-append (list_at place m) (at ∷ []) p).0 k) [
            | inl h ↦ inl h
            | inr h ↦ elim h [
              | inl e ↦ inr (ap {B = Option Place} some ((place_beq_iff x place).0 same), e)
              | inr never ↦ elim never [ ]
            ]
          ],
          λ k.
              (Among-append (list_at place m) (at ∷ []) p).1
                (elim k [ inl h ↦ inl h | inr h ↦ inr (inl h.1) ]),
        )
  | inr other ↦
      rw (list_at-push_at, other, if◌then◌else◌)
        (
          inl,
          λ k. elim k [
            | inl h ↦ h
            | inr h ↦ cc (other, (place_beq_iff x place).1 (some_inj.0 h.0))
          ],
        )
]

Among-definitions :
    (ss : List (Point × Stmt)) (m : List (Place × List Point)) (place : Place) (p : Point)
    → Among p (list_at place (definitions ss m))
      ↔ (Among p (list_at place m) ⊎ DefinesAt ss place p)
unfolding definitions
Among-definitions [] m place p = (inl, λ k. elim k [ inl h ↦ h | inr h ↦ elim h.1 [ ] ])
Among-definitions ((at, s) ∷ rest) m place p =
    let r = Among-definitions rest (define_at at (stmt_defines_place s) m) place p in
    let d = Among-define_at at (stmt_defines_place s) m place p in
    (
      λ k. elim (r.0 k) [
        | inr h ↦ inr (h.0, inr h.1, h.2)
        | inl h ↦ elim (d.0 h) [
          | inl old ↦ inl old
          | inr new ↦ inr (s, inl (ap (λ (x : Point). (x, s)) new.1), new.0)
        ]
      ],
      λ k. elim k [
        | inl old ↦ r.1 (inl (d.1 (inl old)))
        | inr h ↦ elim h.1 [
          | inr later ↦ r.1 (inr (h.0, later, h.2))
          | inl same ↦ r.1 (
              inl (
                d.1 (
                  inr (
                    ap (λ (x : Point × Stmt). stmt_defines_place x.1) same ∙ h.2,
                    ap (λ (x : Point × Stmt). x.0) same,
                  ))))
        ]
      ],
    )

-- `place_defined_at` of a function holds exactly the points where `stmt_defines_place` answers the place.
pub Among-defined :
    (c : Cfg) (place : Place) (p : Point)
    → Among p (list_at place (collect c).place_defined_at) ↔ DefinesAt (located c) place p
unfolding collect list_at
Among-defined c place p =
    let r = Among-definitions (located c) [] place p in
    (λ k. elim (r.0 k) [ inl never ↦ elim never [ ] | inr h ↦ h ], λ h. r.1 (inr h))
