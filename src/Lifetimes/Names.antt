-- ===== src/Lifetimes/Names.antt =====
-- The names that a `[lifetime …]` list declares, and which lists the first loop accepts.
use ubel_stratum.Common.{
  not_true, true, false, List, [], ◌∷◌, ◌≡◌, ◌≢◌, refl, ◌⊎◌, ◌↔◌, inl, inr, arith, String,
  string_eq, none, some, contains, contains-cons, contains-nil, contains_head, find, insert,
  Bool-cases, Option-cases, sym, subst,
}
use ubel_stratum.Ast.{Span, LifetimeParam}
use ubel_stratum.Lifetimes.Check.{scan_names, keys}

abbrev pub names : List LifetimeParam → List String
names [] = []
names (p ∷ params) = p.name ∷ names params

-- No two parameters have one name.
abbrev pub Distinct : List LifetimeParam → Type 0
Distinct [] = Unit {0}
Distinct (p ∷ params) = (contains (names params) p.name ≡ false) × Distinct params

keys-insert :
    (k x : String) (span : Span) (m : List (String × Span))
    → (contains (keys (insert k span m)) x ≡ true) ↔ ((k ≡ x) ⊎ (contains (keys m) x ≡ true))
unfolding keys insert contains
keys-insert k x span [] = ground (arith, string_eq.equal_iff k x)
keys-insert k x span ((j, w) ∷ m) = ground (
  arith,
  string_eq.equal_iff k x,
  string_eq.equal_iff j k,
  string_eq.equal_iff j x,
  keys-insert k x span m,
)

find-keys :
    (k : String) (m : List (String × Span)) → (find k m ≡ none) ↔ (contains (keys m) k ≡ false)
unfolding keys find contains
find-keys k [] = ground arith
find-keys k ((j, w) ∷ m) = ground (arith, find-keys k m)

fresh :
    (k x : String) (span : Span) (m : List (String × Span))
    → contains (keys (insert k span m)) x ≡ false
    → (k ≢ x) × (contains (keys m) x ≡ false)
fresh k x span m h = (
  λ e. cc (h, (keys-insert k x span m).1 (inl e)),
  elim (Bool-cases (contains (keys m) x)) [
    | inl t ↦ absurd (cc (h, (keys-insert k x span m).1 (inr t)))
    | inr f ↦ f
  ],
)

keys-scan_names :
    (params : List LifetimeParam) (m : List (String × Span)) (x : String)
    → (contains (keys (scan_names params m).0) x ≡ true)
      ↔ ((contains (keys m) x ≡ true) ⊎ (contains (names params) x ≡ true))
unfolding scan_names
keys-scan_names [] m x =
    (λ h. inl h, λ h. elim h [ inl k ↦ k | inr n ↦ absurd (cc (n, contains-nil x)) ])
keys-scan_names (p ∷ params) m x = elim (Option-cases (find p.name m)) [
  | inl e ↦
      let ih = keys-scan_names params (insert p.name p.span m) x in
      let ki = keys-insert p.name x p.span m in
      let cn = contains-cons p.name (names params) x in
      rw (e, scan_names)
        (
          λ h. elim (ih.0 h) [
            | inl k ↦ elim (ki.0 k) [ inl s ↦ inr (cn.1 (inl s)) | inr o ↦ inl o ]
            | inr l ↦ inr (cn.1 (inr l))
          ],
          λ h. ih.1 (elim h [
            | inl o ↦ inl (ki.1 (inr o))
            | inr n ↦ elim (cn.0 n) [ inl s ↦ inl (ki.1 (inl s)) | inr l ↦ inr l ]
          ]),
        )
  | inr (first, e) ↦
      let ih = keys-scan_names params m x in
      let cn = contains-cons p.name (names params) x in
      let seen : contains (keys m) p.name ≡ true = known p.name first m e in
      rw (e, scan_names)
        (
          λ h. elim (ih.0 h) [ inl k ↦ inl k | inr l ↦ inr (cn.1 (inr l)) ],
          λ h. ih.1 (elim h [
            | inl o ↦ inl o
            | inr n ↦ elim (cn.0 n) [ inl s ↦ inl (rw (← s) seen) | inr l ↦ inr l ]
          ]),
        )
]
  where
    known :
        (k : String) (span : Span) (m : List (String × Span))
        → find k m ≡ some span
        → contains (keys m) k ≡ true
    known k span m e = elim (Bool-cases (contains (keys m) k)) [
      | inl t ↦ t
      | inr f ↦ absurd (cc (e, (find-keys k m).1 f))
    ]

only_once :
    (k : String) (params : List LifetimeParam) (m : List (String × Span)) (span : Span)
    → ((x : String)
        → contains (names params) x ≡ true
        → contains (keys (insert k span m)) x ≡ false)
    → contains (names params) k ≡ false
only_once k params m span off = not_true _ (λ t. (fresh k k span m (off k t)).0 refl)

scan_names-Distinct :
    (params : List LifetimeParam) (m : List (String × Span))
    → ((scan_names params m).1 ≡ []) ↔ (
        Distinct params
        × ((x : String) → contains (names params) x ≡ true → contains (keys m) x ≡ false))
unfolding scan_names
scan_names-Distinct [] m = (λ h. (tt, λ x k. absurd (cc (k, contains-nil x))), λ h. refl)
scan_names-Distinct (p ∷ params) m = elim (Option-cases (find p.name m)) [
  | inr (first, e) ↦
      rw (e, scan_names)
        (
          λ h. absurd (cc),
          λ (d, off).
              absurd
                (cc (e, (find-keys p.name m).1 (off p.name (contains_head p.name (names params))))),
        )
  | inl e ↦
      let (to_list, of_list) = scan_names-Distinct params (insert p.name p.span m) in
      let split = λ (x : String). contains-cons p.name (names params) x in
      rw (e, scan_names)
        (
          λ h.
              let (d, off) = to_list h in
              (
                (only_once p.name params m p.span off, d),
                λ x k. elim ((split x).0 k) [
                  | inl same ↦
                      subst (λ y. contains (keys m) y ≡ false) same ((find-keys p.name m).0 e)
                  | inr later ↦ (fresh p.name x p.span m (off x later)).1
                ],
              ),
          λ (d, off). of_list (
            d.1,
            λ x k. not_true _ (λ t. elim ((keys-insert p.name x p.span m).0 t) [
              | inl same ↦ cc (d.0, subst (λ y. contains (names params) y ≡ true) (sym same) k)
              | inr old ↦ cc (old, off x ((split x).1 (inr k)))
            ]),
          ),
        )
]

-- The names declared are those of the list.
pub declared_names :
    (params : List LifetimeParam) (x : String)
    → contains (keys (scan_names params []).0) x ≡ contains (names params) x
unfolding keys
declared_names params x = ground (arith, keys-scan_names params [] x, contains-nil x)

pub scan_names-eq-nil :
    (params : List LifetimeParam) → ((scan_names params []).1 ≡ []) ↔ Distinct params
unfolding keys
scan_names-eq-nil params = (
  λ e. ((scan_names-Distinct params []).0 e).0,
  λ d. (scan_names-Distinct params []).1 (d, λ x k. contains-nil x),
)
