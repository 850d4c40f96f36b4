-- ===== src/Lifetimes/Mentions.antt =====
-- What `check_type_lifetimes` reports: the undeclared lifetimes of the references within a type.
use ubel_stratum.Common.{
  false, Bool, List, ◌≡◌, refl, ◌⊎◌, ◌↔◌, inl, inr, String, string_eq, Option, none, some, contains,
  Among, Among-append, Bool-cases, subst, sym,
}
use ubel_stratum.Ast.{
  Span, Ty, Types, primitive, list_ty, set_ty, queue_ty, stack_ty, inline_list_ty, task,
  dictionary_ty, named, tuple_ty, array_ty, slice, fallible, optional, reference, function_ty,
  infer, none_ty, cons_ty,
}
use ubel_stratum.Lifetimes.Check.{
  LifetimeError, undeclared_lifetime, check_lifetime_name, check_type_lifetimes, check_types,
}

abbrev pub OneOf : Ty → Types → Type 0
OneOf u none_ty = ⊥
OneOf u (cons_ty t ts) = (t ≡ u) ⊎ OneOf u ts

-- `u` is an immediate part of the type.
abbrev pub PartOf : Ty → Ty → Type 0
PartOf u (primitive p span) = ⊥
PartOf u (list_ty t span) = OneOf u t
PartOf u (set_ty t span) = OneOf u t
PartOf u (queue_ty t span) = OneOf u t
PartOf u (stack_ty t span) = OneOf u t
PartOf u (inline_list_ty t span) = OneOf u t
PartOf u (task t span) = OneOf u t
PartOf u (dictionary_ty kv span) = OneOf u kv
PartOf u (named path args span) = OneOf u args
PartOf u (tuple_ty elems span) = OneOf u elems
PartOf u (array_ty n elem span) = elem ≡ u
PartOf u (slice t span) = t ≡ u
PartOf u (fallible t span) = t ≡ u
PartOf u (optional t span) = t ≡ u
PartOf u (reference mutable lifetime inner span) = inner ≡ u
PartOf u (function_ty params return_type is_async span) = OneOf u params ⊎ OneOf u return_type
PartOf u (infer span) = ⊥

-- `u` stands in the type, at any depth.
pub data Within (u : Ty) : Ty → Type 0 where
  here : Within u u
  inside : {v t : Ty} → PartOf v t → Within u v → Within u t

-- The type names the lifetime, at the span of a reference within it.
pub record Mentions (t : Ty) (name : String) (span : Span) : Type 0 where
  pub mutable : Bool
  pub inner : Ty
  pub within : Within (reference mutable (some name) inner span) t

Mentions-inside :
    {u t : Ty} {name : String} {span : Span}
    → PartOf u t
    → Mentions u name span
    → Mentions t name span
Mentions-inside p m = record { mutable = m.mutable; inner = m.inner; within = inside p m.within }

-- An error for a lifetime that `P` says is named, and that is not declared.
abbrev pub Undeclared : (String → Span → Type 0) → List String → LifetimeError → Type 0
Undeclared P declared e =
    (name : String) × (span : Span) × P name span
    × (contains declared name ≡ false)
    × (e ≡ undeclared_lifetime name span)

Undeclared-map :
    (P Q : String → Span → Type 0) (declared : List String) (e : LifetimeError)
    → ((name : String) (span : Span) → P name span → Q name span)
    → Undeclared P declared e
    → Undeclared Q declared e
Undeclared-map P Q declared e f (name, span, p, no_decl, same) =
    (name, span, f name span p, no_decl, same)

module _ (declared : List String) (e : LifetimeError) where
  abbrev InTypes : Types → Type 0
  InTypes ts = (u : Ty) × OneOf u ts × Undeclared (Mentions u) declared e

  from_types :
      (ts : Types) (t : Ty)
      → ((u : Ty) → OneOf u ts → PartOf u t)
      → InTypes ts
      → Undeclared (Mentions t) declared e
  from_types ts t f (u, o, r) =
      Undeclared-map (Mentions u) (Mentions t) declared e (λ name span m. Mentions-inside (f u o) m)
        r

  from_inner :
      (u t : Ty)
      → PartOf u t
      → Undeclared (Mentions u) declared e
      → Undeclared (Mentions t) declared e
  from_inner u t p r =
      Undeclared-map (Mentions u) (Mentions t) declared e (λ name span m. Mentions-inside p m) r

  named_here :
      (mutable : Bool) (lifetime : Option String) (inner : Ty) (span : Span)
      → Among e (check_lifetime_name declared lifetime span)
      → Undeclared (Mentions (reference mutable lifetime inner span)) declared e
  unfolding check_lifetime_name
  named_here mutable none inner span m = elim m [ ]
  named_here mutable (some name) inner span m = elim (Bool-cases (contains declared name)) [
    | inl k ↦ let never : ⊥ = (rw k at m) in absurd never
    | inr k ↦
        let found : (undeclared_lifetime name span ≡ e) ⊎ ⊥ = (rw k at m) in
        elim found [
          | inl same ↦
              (name, span, record { mutable = mutable; inner = inner; within = here }, k, sym same)
          | inr never ↦ elim never [ ]
        ]
  ]

  mutual
    unfolding check_type_lifetimes

    reported_type :
        (t : Ty) → Among e (check_type_lifetimes declared t) → Undeclared (Mentions t) declared e
    reported_type (primitive p span) m = elim m [ ]
    reported_type (list_ty t span) m = from_types t _ (λ u o. o) (reported_types t m)
    reported_type (set_ty t span) m = from_types t _ (λ u o. o) (reported_types t m)
    reported_type (queue_ty t span) m = from_types t _ (λ u o. o) (reported_types t m)
    reported_type (stack_ty t span) m = from_types t _ (λ u o. o) (reported_types t m)
    reported_type (inline_list_ty t span) m = from_types t _ (λ u o. o) (reported_types t m)
    reported_type (task t span) m = from_types t _ (λ u o. o) (reported_types t m)
    reported_type (dictionary_ty kv span) m = from_types kv _ (λ u o. o) (reported_types kv m)
    reported_type (named path args span) m = from_types args _ (λ u o. o) (reported_types args m)
    reported_type (tuple_ty elems span) m = from_types elems _ (λ u o. o) (reported_types elems m)
    reported_type (array_ty n elem span) m = from_inner elem _ refl (reported_type elem m)
    reported_type (slice t span) m = from_inner t _ refl (reported_type t m)
    reported_type (fallible t span) m = from_inner t _ refl (reported_type t m)
    reported_type (optional t span) m = from_inner t _ refl (reported_type t m)
    reported_type (reference mutable lifetime inner span) m =
        elim ((Among-append (check_lifetime_name declared lifetime span)
            (check_type_lifetimes declared inner) e).0
          m) [
            | inl own ↦ named_here mutable lifetime inner span own
            | inr later ↦ from_inner inner _ refl (reported_type inner later)
          ]
    reported_type (function_ty params return_type is_async span) m =
        elim ((Among-append (check_types declared params) (check_types declared return_type) e).0
          m) [
            | inl p ↦ from_types params _ (λ u o. inl o) (reported_types params p)
            | inr r ↦ from_types return_type _ (λ u o. inr o) (reported_types return_type r)
          ]
    reported_type (infer span) m = elim m [ ]

    reported_types : (ts : Types) → Among e (check_types declared ts) → InTypes ts
    reported_types none_ty m = elim m [ ]
    reported_types (cons_ty t ts) m =
        elim ((Among-append (check_type_lifetimes declared t) (check_types declared ts) e).0 m) [
          | inl p ↦ (t, inl refl, reported_type t p)
          | inr r ↦ let (u, o, k) = reported_types ts r in (u, inr o, k)
        ]

  of_types :
      (u : Ty) (ts : Types)
      → OneOf u ts
      → Among e (check_type_lifetimes declared u)
      → Among e (check_types declared ts)
  unfolding check_types
  of_types u none_ty o m = elim o [ ]
  of_types u (cons_ty t ts) o m =
      (Among-append (check_type_lifetimes declared t) (check_types declared ts) e).1 (elim o [
        | inl same ↦ inl (subst (λ v. Among e (check_type_lifetimes declared v)) (sym same) m)
        | inr later ↦ inr (of_types u ts later m)
      ])

  of_same :
      (u t : Ty)
      → t ≡ u
      → Among e (check_type_lifetimes declared u)
      → Among e (check_type_lifetimes declared t)
  of_same u t same m = subst (λ v. Among e (check_type_lifetimes declared v)) (sym same) m

  of_part :
      (u t : Ty)
      → PartOf u t
      → Among e (check_type_lifetimes declared u)
      → Among e (check_type_lifetimes declared t)
  unfolding check_type_lifetimes
  of_part u (primitive p span) o m = elim o [ ]
  of_part u (list_ty t span) o m = of_types u t o m
  of_part u (set_ty t span) o m = of_types u t o m
  of_part u (queue_ty t span) o m = of_types u t o m
  of_part u (stack_ty t span) o m = of_types u t o m
  of_part u (inline_list_ty t span) o m = of_types u t o m
  of_part u (task t span) o m = of_types u t o m
  of_part u (dictionary_ty kv span) o m = of_types u kv o m
  of_part u (named path args span) o m = of_types u args o m
  of_part u (tuple_ty elems span) o m = of_types u elems o m
  of_part u (array_ty n elem span) o m = of_same u elem o m
  of_part u (slice t span) o m = of_same u t o m
  of_part u (fallible t span) o m = of_same u t o m
  of_part u (optional t span) o m = of_same u t o m
  of_part u (reference mutable lifetime inner span) o m =
      (Among-append (check_lifetime_name declared lifetime span)
          (check_type_lifetimes declared inner) e).1
        (inr (of_same u inner o m))
  of_part u (function_ty params return_type is_async span) o m =
      (Among-append (check_types declared params) (check_types declared return_type) e).1
        (elim o [ inl p ↦ inl (of_types u params p m) | inr r ↦ inr (of_types u return_type r m) ])
  of_part u (infer span) o m = elim o [ ]

  of_within :
      {u t : Ty}
      → Within u t
      → Among e (check_type_lifetimes declared u)
      → Among e (check_type_lifetimes declared t)
  of_within here m = m
  of_within {u} {t} (inside {v} p w) m = of_part v t p (of_within w m)

  of_name :
      (name : String) (span : Span)
      → contains declared name ≡ false
      → e ≡ undeclared_lifetime name span
      → Among e (check_lifetime_name declared (some name) span)
  unfolding check_lifetime_name
  of_name name span k same = rw k (inl (sym same))

  -- Exactly the undeclared lifetimes of the references in the type are reported, each where it stands.
  pub check_type_lifetimes_exact :
      (t : Ty) → Among e (check_type_lifetimes declared t) ↔ Undeclared (Mentions t) declared e
  unfolding check_type_lifetimes
  check_type_lifetimes_exact t = (
    reported_type t,
    λ (name, span, m, k, same). of_within m.within (
        (Among-append (check_lifetime_name declared (some name) span)
            (check_type_lifetimes declared m.inner) e).1
          (inl (of_name name span k same))),
  )
