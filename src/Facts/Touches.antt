-- ===== src/Facts/Touches.antt =====
-- `loan_killed_at` and `loan_invalidated_at` hold exactly the points, other than the loan's own, that
-- `classify_access` answers `reassign` and `conflict` for.
use ubel_stratum.Common.{
  ℕ, suc, ◌<◌, true, List, [], ◌∷◌, ◌≡◌, ◌≢◌, refl, ◌⊎◌, ◌↔◌, inl, inr, arith, Among, Among-append,
  list_at, push_at, list_at-push_at, Bool-cases, subst, sym, ap, ◌∙◌, if◌then◌else◌, ◌==◌, nat_eq,
  nat_beq_iff,
}
use ubel_stratum.Ast.{Stmt}
use ubel_stratum.Cfg.{Cfg}
use ubel_stratum.Points.{Point, point_eq, point_beq_iff}
use ubel_stratum.Facts.Collect.{
  Loan, Access, no_access, reassign, conflict, classify_access, Touched, touch, touched_by,
  touched_by_all, located, collect,
}
use ubel_stratum.Facts.Numbered.{Numbered, collect-Numbered, Numbered-le}

-- A statement at the point, which is not where the loan is issued, has the access.
pub record TouchedAt (ss : List (Point × Stmt)) (l : Loan) (a : Access) (p : Point) : Type 0 where
  pub stmt : Stmt
  pub among : Among {A = Point × Stmt} (p, stmt) ss
  pub elsewhere : p ≢ l.issued_at
  pub access : classify_access stmt l.place ≡ a

-- The lists at an identifier, one for each kind of access.
abbrev recorded : Access → ℕ → Touched → List Point
recorded no_access id t = []
recorded reassign id t = list_at id t.killed
recorded conflict id t = list_at id t.invalidated

Among-pushed :
    (id : ℕ) (at p : Point) (m : List (ℕ × List Point))
    → Among p (list_at id (push_at id at m)) ↔ (Among p (list_at id m) ⊎ (at ≡ p))
Among-pushed id at p m =
    let e : (id == id) ≡ true = (nat_beq_iff id id).1 refl in
    rw (list_at-push_at, e, if◌then◌else◌)
      (
        λ k. elim ((Among-append (list_at id m) (at ∷ []) p).0 k) [
          | inl h ↦ inl h
          | inr h ↦ elim h [ inl same ↦ inr same | inr never ↦ elim never [ ] ]
        ],
        λ k.
            (Among-append (list_at id m) (at ∷ []) p).1
              (elim k [ inl h ↦ inl h | inr h ↦ inr (inl h) ]),
      )

-- The two kinds that are recorded.
IsRecorded : Access → Type 0
IsRecorded a = a ≢ no_access

Among-touch :
    (id : ℕ) (at p : Point) (a b : Access) (t : Touched)
    → b ≢ no_access
    → Among p (recorded b id (touch id at a t)) ↔ (Among p (recorded b id t) ⊎ (a ≡ b) × (at ≡ p))
unfolding touch
Among-touch id at p a no_access t r = absurd (r refl)
Among-touch id at p no_access reassign t r = (inl, λ k. elim k [ inl h ↦ h | inr h ↦ cc h.0 ])
Among-touch id at p reassign reassign t r = (
  λ k. elim ((Among-pushed id at p t.killed).0 k) [ inl h ↦ inl h | inr h ↦ inr (refl, h) ],
  λ k. (Among-pushed id at p t.killed).1 (elim k [ inl h ↦ inl h | inr h ↦ inr h.1 ]),
)
Among-touch id at p conflict reassign t r = (inl, λ k. elim k [ inl h ↦ h | inr h ↦ cc h.0 ])
Among-touch id at p no_access conflict t r = (inl, λ k. elim k [ inl h ↦ h | inr h ↦ cc h.0 ])
Among-touch id at p reassign conflict t r = (inl, λ k. elim k [ inl h ↦ h | inr h ↦ cc h.0 ])
Among-touch id at p conflict conflict t r = (
  λ k. elim ((Among-pushed id at p t.invalidated).0 k) [ inl h ↦ inl h | inr h ↦ inr (refl, h) ],
  λ k. (Among-pushed id at p t.invalidated).1 (elim k [ inl h ↦ inl h | inr h ↦ inr h.1 ]),
)

touch_other :
    (id id' : ℕ) (at : Point) (a b : Access) (t : Touched)
    → id ≢ id'
    → recorded b id' (touch id at a t) ≡ recorded b id' t
unfolding touch
touch_other id id' at no_access b t ne = refl
touch_other id id' at reassign no_access t ne = refl
touch_other id id' at reassign conflict t ne = refl
touch_other id id' at conflict no_access t ne = refl
touch_other id id' at conflict reassign t ne = refl
touch_other id id' at reassign reassign t ne = ground (arith, list_at-push_at id id' at t.killed)
touch_other id id' at conflict conflict t ne =
    ground (arith, list_at-push_at id id' at t.invalidated)

-- One statement of the second loop.
step : Loan → Point × Stmt → Touched → Touched
step l x t = if x.0 == l.issued_at then t else touch l.id x.0 (classify_access x.1 l.place) t

Among-step :
    (l : Loan) (at p : Point) (s : Stmt) (b : Access) (t : Touched)
    → b ≢ no_access
    → Among p (recorded b l.id (step l (at, s) t)) ↔ (
        Among p (recorded b l.id t)
        ⊎ (at ≢ l.issued_at) × (classify_access s l.place ≡ b) × (at ≡ p))
unfolding step
Among-step l at p s b t r = elim (Bool-cases (at == l.issued_at)) [
  | inl here ↦
      rw (here, if◌then◌else◌)
        (
          inl,
          λ k. elim k [ inl h ↦ h | inr h ↦ absurd (h.0 ((point_beq_iff at l.issued_at).0 here)) ],
        )
  | inr away ↦
      let u = Among-touch l.id at p (classify_access s l.place) b t r in
      rw (away, if◌then◌else◌)
        (
          λ k. elim (u.0 k) [
            | inl h ↦ inl h
            | inr h ↦ inr (λ e. cc (away, (point_beq_iff at l.issued_at).1 e), h.0, h.1)
          ],
          λ k. u.1 (elim k [ inl h ↦ inl h | inr h ↦ inr (h.1, h.2) ]),
        )
]

Among-touched_by :
    (l : Loan) (ss : List (Point × Stmt)) (p : Point) (b : Access) (t : Touched)
    → b ≢ no_access
    → Among p (recorded b l.id (touched_by l ss t))
      ↔ (Among p (recorded b l.id t) ⊎ TouchedAt ss l b p)
unfolding touched_by step
Among-touched_by l [] p b t r = (inl, λ k. elim k [ inl h ↦ h | inr h ↦ elim h.among [ ] ])
Among-touched_by l ((at, s) ∷ rest) p b t r =
    let ih = Among-touched_by l rest p b (step l (at, s) t) r in
    let one = Among-step l at p s b t r in
    (
      λ k. elim (ih.0 k) [
        | inr h ↦ inr (record {
          stmt = h.stmt;
          among = inr h.among;
          elsewhere = h.elsewhere;
          access = h.access;
        })
        | inl h ↦ elim (one.0 h) [
          | inl old ↦ inl old
          | inr new ↦ inr (record {
            stmt = s;
            among = inl (ap (λ (x : Point). (x, s)) new.2);
            elsewhere = subst (λ x. x ≢ l.issued_at) new.2 new.0;
            access = new.1;
          })
        ]
      ],
      λ k. elim k [
        | inl old ↦ ih.1 (inl (one.1 (inl old)))
        | inr h ↦ elim h.among [
          | inr later ↦ ih.1 (
              inr (record {
                stmt = h.stmt;
                among = later;
                elsewhere = h.elsewhere;
                access = h.access;
              }))
          | inl same ↦
              let e : at ≡ p = ap (λ (x : Point × Stmt). x.0) same in
              ih.1 (
                inl (
                  one.1 (
                    inr (
                      subst (λ x. x ≢ l.issued_at) (sym e) h.elsewhere,
                      ap (λ (x : Point × Stmt). classify_access x.1 l.place) same ∙ h.access,
                      e,
                    ))))
        ]
      ],
    )

touched_by_other :
    (l : Loan) (ss : List (Point × Stmt)) (id : ℕ) (b : Access) (t : Touched)
    → l.id ≢ id
    → recorded b id (touched_by l ss t) ≡ recorded b id t
unfolding touched_by step
touched_by_other l [] id b t ne = refl
touched_by_other l ((at, s) ∷ rest) id b t ne =
    touched_by_other l rest id b (step l (at, s) t) ne ∙ elim (Bool-cases (at == l.issued_at)) [
      | inl here ↦ rw (here, if◌then◌else◌) refl
      | inr away ↦
          rw (away, if◌then◌else◌) (touch_other l.id id at (classify_access s l.place) b t ne)
    ]

touched_by_all_other :
    (ls : List Loan) (ss : List (Point × Stmt)) (k id : ℕ) (b : Access) (t : Touched)
    → Numbered k ls
    → id < k
    → recorded b id (touched_by_all ls ss t) ≡ recorded b id t
unfolding touched_by_all
touched_by_all_other [] ss k id b t n lt = refl
touched_by_all_other (l ∷ ls) ss k id b t n lt =
    touched_by_all_other ls ss (suc k) id b (touched_by l ss t) n.1 (omega arith)
    ∙ touched_by_other l ss id b t (omega (arith, n.0))

Among-touched_by_all :
    (ls : List Loan) (ss : List (Point × Stmt)) (k : ℕ) (l : Loan) (p : Point) (b : Access)
    (t : Touched)
    → b ≢ no_access
    → Numbered k ls
    → Among l ls
    → Among p (recorded b l.id (touched_by_all ls ss t))
      ↔ (Among p (recorded b l.id t) ⊎ TouchedAt ss l b p)
unfolding touched_by_all
Among-touched_by_all [] ss k l p b t r n m = elim m [ ]
Among-touched_by_all (x ∷ ls) ss k l p b t r n (inl same) =
    subst
      (λ (y : Loan).
        Among p (recorded b y.id (touched_by_all ls ss (touched_by x ss t)))
        ↔ (Among p (recorded b y.id t) ⊎ TouchedAt ss y b p))
      same
      (rw (touched_by_all_other ls ss (suc k) x.id b (touched_by x ss t) n.1 (omega (arith, n.0)))
        (Among-touched_by x ss p b t r))
Among-touched_by_all (x ∷ ls) ss k l p b t r n (inr rest) =
    let ne : x.id ≢ l.id = omega (arith, n.0, Numbered-le (suc k) ls l n.1 rest) in
    subst
      (λ (ps : List Point).
        Among p (recorded b l.id (touched_by_all ls ss (touched_by x ss t)))
        ↔ (Among p ps ⊎ TouchedAt ss l b p))
      (touched_by_other x ss l.id b t ne)
      (Among-touched_by_all ls ss (suc k) l p b (touched_by x ss t) r n.1 rest)

-- For each loan of a function, the two lists against `classify_access` of the other statements.
pub Among-touched :
    (c : Cfg) (l : Loan) (p : Point)
    → Among l (collect c).loans
    → (Among p (list_at l.id (collect c).loan_invalidated_at) ↔ TouchedAt (located c) l conflict p)
      × (Among p (list_at l.id (collect c).loan_killed_at) ↔ TouchedAt (located c) l reassign p)
unfolding collect list_at
Among-touched c l p m =
    let none : Touched = record { killed = []; invalidated = [] } in
    let n = collect-Numbered c in
    let ls = (collect c).loans in
    let i = Among-touched_by_all ls (located c) 0 l p conflict none (λ e. cc e) n m in
    let r = Among-touched_by_all ls (located c) 0 l p reassign none (λ e. cc e) n m in
    (
      (λ k. elim (i.0 k) [ inl never ↦ elim never [ ] | inr h ↦ h ], λ h. i.1 (inr h)),
      (λ k. elim (r.0 k) [ inl never ↦ elim never [ ] | inr h ↦ h ], λ h. r.1 (inr h)),
    )
