-- ===== src/Lifetimes/Accepts.antt =====
-- Which programs `check` of crates/core/src/sema/lifetime_check.rs accepts.
use ubel_stratum.Common.{
  true, List, [], ◌∷◌, ◌++◌, ◌≡◌, ◌≢◌, refl, ◌⊎◌, ◌↔◌, inl, inr, String, string_eq, Option, none,
  some, contains, Bool-cases, sym, subst, ◌∙◌, Among, eq_nil_iff_no_Among,
}
use ubel_stratum.Ast.{
  Span, Ty, LifetimeParam, ParamKind, FunctionDecl, FieldDecl, StructMember, field_member,
  method_member, property_member, StructDecl, Item, function, struct_item, impl_item, extend_item,
  enum_item, trait_item, const_item, static_item, type_alias, Program, ReturnType,
}
use ubel_stratum.Lifetimes.Check.{
  check_declaration_well_formed, check_type_lifetimes, check_optional, param_type, check_params,
  check_return, check_function, check_members, check_struct, check_item, check,
}
use ubel_stratum.Lifetimes.Mentions.{Mentions, check_type_lifetimes_exact}
use ubel_stratum.Lifetimes.Names.{names}
use ubel_stratum.Lifetimes.WellFormed.{
  IsWellFormed, append-eq-nil, check_declaration_names, check_declaration-IsWellFormed,
}

-- Every lifetime that the type names is a name of the list.
abbrev pub Declares : List LifetimeParam → Ty → Type 0
Declares params t =
    (name : String) (span : Span) → Mentions t name span → contains (names params) name ≡ true

-- The types of a function's signature: a parameter's, or the returned one.
abbrev pub ParamHasType : ParamKind → Ty → Type 0
ParamHasType p t = param_type p ≡ some t

abbrev pub IsSignatureType : FunctionDecl → Ty → Type 0
IsSignatureType f t =
    ((p : ParamKind) × Among p f.params × ParamHasType p t)
    ⊎ ((rt : ReturnType) × (f.return_type ≡ some rt) × (rt.ty ≡ t))

abbrev pub IsFieldType : StructDecl → Ty → Type 0
IsFieldType s t = (field : FieldDecl) × Among (field_member field) s.members × (field.ty ≡ t)

-- The rules for one item: a function and its signature, a struct and its fields.
abbrev pub ItemIsWellFormed : Item → Type 0
ItemIsWellFormed (function f) =
    IsWellFormed f.lifetime_params × ((t : Ty) → IsSignatureType f t → Declares f.lifetime_params t)
ItemIsWellFormed (struct_item s) =
    IsWellFormed s.lifetime_params × ((t : Ty) → IsFieldType s t → Declares s.lifetime_params t)
ItemIsWellFormed (impl_item methods) = Unit {0}
ItemIsWellFormed (extend_item methods) = Unit {0}
ItemIsWellFormed enum_item = Unit {0}
ItemIsWellFormed trait_item = Unit {0}
ItemIsWellFormed const_item = Unit {0}
ItemIsWellFormed static_item = Unit {0}
ItemIsWellFormed type_alias = Unit {0}

type-eq-nil :
    (declared : List String) (t : Ty)
    → (check_type_lifetimes declared t ≡ [])
      ↔ ((name : String) (span : Span) → Mentions t name span → contains declared name ≡ true)
type-eq-nil declared t =
    let none_in = eq_nil_iff_no_Among (check_type_lifetimes declared t) in
    (
      λ e name span m. elim (Bool-cases (contains declared name)) [
        | inl k ↦ k
        | inr k ↦
            absurd
              (none_in.0 e _ ((check_type_lifetimes_exact declared _ t).1 (name, span, m, k, refl)))
      ],
      λ h. none_in.1 (λ e m.
          let (name, span, m', k, same) = (check_type_lifetimes_exact declared e t).0 m in
          cc (k, h name span m')),
    )

module _ (declared : List String) where
  -- All types of a kind are checked without an error.
  abbrev AllClean : (Ty → Type 0) → Type 0
  AllClean P = (t : Ty) → P t → check_type_lifetimes declared t ≡ []

  check_optional-eq-nil :
      (o : Option Ty) → (check_optional declared o ≡ []) ↔ AllClean (λ t. o ≡ some t)
  unfolding check_optional
  check_optional-eq-nil none = (λ e t same. absurd (cc), λ all. refl)
  check_optional-eq-nil (some u) = (
    λ e t same. let is : u ≡ t = cc in subst (λ v. check_type_lifetimes declared v ≡ []) is e,
    λ all. all u refl,
  )

  check_params-eq-nil :
      (params : List ParamKind)
      → (check_params declared params ≡ [])
        ↔ AllClean (λ t. (p : ParamKind) × Among p params × ParamHasType p t)
  unfolding check_params
  check_params-eq-nil [] = (λ e t (p, m, h). elim m [ ], λ all. refl)
  check_params-eq-nil (p ∷ params) =
      let both =
        append-eq-nil (check_optional declared (param_type p)) (check_params declared params) in
      let (to, from) = check_params-eq-nil params in
      let own = check_optional-eq-nil (param_type p) in
      (
        λ e t (q, m, h). elim m [
          | inl same ↦ own.0 (both.0 e).0 t (subst (λ k. ParamHasType k t) (sym same) h)
          | inr later ↦ to (both.0 e).1 t (q, later, h)
        ],
        λ all.
            both.1
              (own.1 (λ t h. all t (p, inl refl, h)), from (λ t (q, m, h). all t (q, inr m, h))),
      )

  check_return-eq-nil :
      (rt : Option ReturnType)
      → (check_return declared rt ≡ [])
        ↔ AllClean (λ t. (r : ReturnType) × (rt ≡ some r) × (r.ty ≡ t))
  unfolding check_return
  check_return-eq-nil none = (λ e t (r, never, s). absurd (cc), λ all. refl)
  check_return-eq-nil (some rt) = (
    λ e t (r, same, is). subst (λ u. check_type_lifetimes declared u ≡ []) (ap_ty rt r same ∙ is) e,
    λ all. all rt.ty (rt, refl, refl),
  )
    where
      ap_ty : (a b : ReturnType) → some a ≡ some b → a.ty ≡ b.ty
      ap_ty a b e = cc

  same_type : (f g : FieldDecl) → field_member f ≡ field_member g → f.ty ≡ g.ty
  same_type f g e = cc

  skip :
      (m : StructMember) (members : List StructMember)
      → ((f : FieldDecl) → m ≢ field_member f)
      → (check_members declared members ≡ [])
        ↔ AllClean (λ t. (field : FieldDecl) × Among (field_member field) members × (field.ty ≡ t))
      → (check_members declared members ≡ [])
        ↔ AllClean
            (λ t. (field : FieldDecl) × Among (field_member field) (m ∷ members) × (field.ty ≡ t))
  skip m members no_field (to, from) = (
    λ e t (field, m, h). elim m [
      | inl same ↦ absurd (no_field field same)
      | inr later ↦ to e t (field, later, h)
    ],
    λ all. from (λ t (field, m, h). all t (field, inr m, h)),
  )

  check_members-eq-nil :
      (members : List StructMember)
      → (check_members declared members ≡ [])
        ↔ AllClean (λ t. (field : FieldDecl) × Among (field_member field) members × (field.ty ≡ t))
  unfolding check_members
  check_members-eq-nil [] = (λ e t (field, m, h). elim m [ ], λ all. refl)
  check_members-eq-nil (field_member f ∷ members) =
      let both =
        append-eq-nil (check_type_lifetimes declared f.ty) (check_members declared members) in
      let (to, from) = check_members-eq-nil members in
      (
        λ e t (field, m, h). elim m [
          | inl same ↦
              subst (λ u. check_type_lifetimes declared u ≡ []) (same_type f field same ∙ h)
                (both.0 e).0
          | inr later ↦ to (both.0 e).1 t (field, later, h)
        ],
        λ all.
            both.1
              (all f.ty (f, inl refl, refl), from (λ t (field, m, h). all t (field, inr m, h))),
      )
  check_members-eq-nil (method_member d ∷ members) =
      skip _ members (λ f e. cc) (check_members-eq-nil members)
  check_members-eq-nil (property_member ∷ members) =
      skip _ members (λ f e. cc) (check_members-eq-nil members)

  AllClean-Declares :
      (P : Ty → Type 0) (params : List LifetimeParam)
      → ((x : String) → contains declared x ≡ contains (names params) x)
      → AllClean P ↔ ((t : Ty) → P t → Declares params t)
  AllClean-Declares P params same = (
    λ h t p name span m. sym (same name) ∙ (type-eq-nil declared t).0 (h t p) name span m,
    λ h t p. (type-eq-nil declared t).1 (λ name span m. same name ∙ h t p name span m),
  )

check_function-eq-nil : (f : FunctionDecl) → (check_function f ≡ []) ↔ ItemIsWellFormed (function f)
unfolding check_function
check_function-eq-nil f =
    let declared = (check_declaration_well_formed f.lifetime_params).0 in
    let same = check_declaration_names f.lifetime_params in
    let list = check_declaration-IsWellFormed f.lifetime_params in
    let outer =
      append-eq-nil (check_declaration_well_formed f.lifetime_params).1
        (check_params declared f.params ++ check_return declared f.return_type) in
    let inner =
      append-eq-nil (check_params declared f.params) (check_return declared f.return_type) in
    let params = check_params-eq-nil declared f.params in
    let returned = check_return-eq-nil declared f.return_type in
    let types = AllClean-Declares declared (IsSignatureType f) f.lifetime_params same in
    (
      λ e. (
        list.0 (outer.0 e).0,
        types.0 (λ t p. elim p [
          | inl q ↦ params.0 (inner.0 (outer.0 e).1).0 t q
          | inr q ↦ returned.0 (inner.0 (outer.0 e).1).1 t q
        ]),
      ),
      λ (w, h). outer.1 (
        list.1 w,
        inner.1 (params.1 (λ t q. types.1 h t (inl q)), returned.1 (λ t q. types.1 h t (inr q))),
      ),
    )

check_struct-eq-nil : (s : StructDecl) → (check_struct s ≡ []) ↔ ItemIsWellFormed (struct_item s)
unfolding check_struct
check_struct-eq-nil s =
    let declared = (check_declaration_well_formed s.lifetime_params).0 in
    let list = check_declaration-IsWellFormed s.lifetime_params in
    let outer =
      append-eq-nil (check_declaration_well_formed s.lifetime_params).1
        (check_members declared s.members) in
    let members = check_members-eq-nil declared s.members in
    let types =
      AllClean-Declares declared (IsFieldType s) s.lifetime_params
        (check_declaration_names s.lifetime_params) in
    (
      λ e. (list.0 (outer.0 e).0, types.0 (members.0 (outer.0 e).1)),
      λ (w, h). outer.1 (list.1 w, members.1 (types.1 h)),
    )

check_item-eq-nil : (item : Item) → (check_item item ≡ []) ↔ ItemIsWellFormed item
unfolding check_item
check_item-eq-nil (function f) = check_function-eq-nil f
check_item-eq-nil (struct_item s) = check_struct-eq-nil s
check_item-eq-nil (impl_item methods) = (λ e. tt, λ w. refl)
check_item-eq-nil (extend_item methods) = (λ e. tt, λ w. refl)
check_item-eq-nil enum_item = (λ e. tt, λ w. refl)
check_item-eq-nil trait_item = (λ e. tt, λ w. refl)
check_item-eq-nil const_item = (λ e. tt, λ w. refl)
check_item-eq-nil static_item = (λ e. tt, λ w. refl)
check_item-eq-nil type_alias = (λ e. tt, λ w. refl)

-- The lifetime check reports nothing exactly if each item of the program is well formed: the names
-- of its `[lifetime …]` list are distinct, its constraints are between these names and make no name
-- outlive itself, and every lifetime named at any depth of a type of its signature or its fields is
-- one of them.
pub check-eq-nil :
    (program : Program)
    → (check program ≡ []) ↔ ((item : Item) → Among item program → ItemIsWellFormed item)
unfolding check
check-eq-nil [] = (λ e item m. elim m [ ], λ all. refl)
check-eq-nil (item ∷ items) =
    let both = append-eq-nil (check_item item) (check items) in
    let (to, from) = check-eq-nil items in
    let own = check_item-eq-nil item in
    (
      λ e other m. elim m [
        | inl same ↦ subst ItemIsWellFormed same (own.0 (both.0 e).0)
        | inr later ↦ to (both.0 e).1 other later
      ],
      λ all. both.1 (own.1 (all item (inl refl)), from (λ other m. all other (inr m))),
    )
