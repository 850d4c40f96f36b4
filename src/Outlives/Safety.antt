-- ===== src/Outlives/Safety.antt =====
-- What a program that `check_program` accepts guarantees at a call.
use ubel_stratum.Common.{
  Bool, true, false, List, [], ◌∷◌, ◌≡◌, ◌⊎◌, inl, inr, subst, some, String, string_eq, is_empty,
  contains, find, Among, if◌then◌else◌,
}
use ubel_stratum.Ast.{
  Span, Expr, ident, call, Args, Stmt, FunctionDecl, function, struct_item, impl_item, extend_item,
  enum_item, trait_item, const_item, static_item, type_alias, Program,
}
use ubel_stratum.Cfg.{build}
use ubel_stratum.Points.{Point, point_eq}
use ubel_stratum.Facts.{Loan, collect, top_exprs, located}
use ubel_stratum.Borrow.Regions.{InRegion}
use ubel_stratum.Lifetimes.WellFormed.{append-eq-nil}
use ubel_stratum.Outlives.Check.{
  Violation, Resolved, concrete, caller_param, dead, untraced, Caller, resolve_name, resolve_place,
  resolve_boundary_value, check_boundary_site,
}
use ubel_stratum.Outlives.Program.{
  tier_is_checked, find_boundary_sites, call_pairs, Functions, Structs, look_up, check_callee,
  check_site, check_sites, check_exprs, check_points, param_names, caller_of, check_function,
  function_table, struct_table, check_functions, check_program,
}
use ubel_stratum.Outlives.Resolve.{BoundTo, Means, resolve_name-Means}
use ubel_stratum.Outlives.Sites.{IsAtHand, last_of}
use ubel_stratum.Outlives.Accepts.{LastsAreSound, check_boundary_site-LastsAreSound}

of_else : (b : Bool) (vs : List Violation) → b ≡ false → (if b then [] else vs) ≡ [] → vs ≡ []
of_else true vs no_test k = absurd (cc)
of_else false vs no_test k = k

same_function : {g f : FunctionDecl} → function g ≡ function f → g ≡ f
same_function e = cc

module _ (functions : Functions) (structs : Structs) where
  sites_clean :
      (resolve : Expr → Resolved) (es : List Expr) (e : Expr)
      → check_sites functions structs resolve es ≡ []
      → Among e es
      → check_site functions structs resolve e ≡ []
  unfolding check_sites
  sites_clean resolve [] e k m = elim m [ ]
  sites_clean resolve (x ∷ es) e k m =
      let both =
        (append-eq-nil (check_site functions structs resolve x)
            (check_sites functions structs resolve es)).0
          k in
      elim m [
        | inl same ↦ subst (λ y. check_site functions structs resolve y ≡ []) same both.0
        | inr later ↦ sites_clean resolve es e both.1 later
      ]

  exprs_clean :
      (resolve : Expr → Resolved) (es : List Expr) (e : Expr)
      → check_exprs functions structs resolve es ≡ []
      → Among e es
      → check_sites functions structs resolve (find_boundary_sites e) ≡ []
  unfolding check_exprs
  exprs_clean resolve [] e k m = elim m [ ]
  exprs_clean resolve (x ∷ es) e k m =
      let both =
        (append-eq-nil (check_sites functions structs resolve (find_boundary_sites x))
            (check_exprs functions structs resolve es)).0
          k in
      elim m [
        | inl same ↦
            subst (λ y. check_sites functions structs resolve (find_boundary_sites y) ≡ []) same
              both.0
        | inr later ↦ exprs_clean resolve es e both.1 later
      ]

  points_clean :
      (caller : Caller) (ps : List (Point × Stmt)) (point : Point) (stmt : Stmt)
      → check_points functions structs caller ps ≡ []
      → Among {A = Point × Stmt} (point, stmt) ps
      → check_exprs functions structs (resolve_boundary_value caller point) (top_exprs stmt) ≡ []
  unfolding check_points
  points_clean caller [] point stmt k m = elim m [ ]
  points_clean caller ((q, s) ∷ ps) point stmt k m =
      let both =
        (append-eq-nil
            (check_exprs functions structs (resolve_boundary_value caller q) (top_exprs s))
            (check_points functions structs caller ps)).0
          k in
      elim m [
        | inl same ↦
            subst
              (λ (x : Point × Stmt).
                check_exprs functions structs (resolve_boundary_value caller x.0) (top_exprs x.1)
                ≡ [])
              same both.0
        | inr later ↦ points_clean caller ps point stmt both.1 later
      ]

  functions_clean :
      (items : Program) (f : FunctionDecl)
      → check_functions functions structs items ≡ []
      → Among (function f) items
      → tier_is_checked f.tier ≡ true
      → check_function functions structs f ≡ []
  unfolding check_functions
  functions_clean [] f k m t = elim m [ ]
  functions_clean (function g ∷ items) f k m t =
      let both =
        (append-eq-nil (if tier_is_checked g.tier then check_function functions structs g else [])
            (check_functions functions structs items)).0
          k in
      elim m [
        | inl same ↦
            let is : g ≡ f = same_function same in
            let own =
              subst
                (λ (h : FunctionDecl).
                  (if tier_is_checked h.tier then check_function functions structs h else []) ≡ [])
                is both.0 in
            rw t at own
        | inr later ↦ functions_clean items f both.1 later t
      ]
  functions_clean (struct_item s ∷ items) f k m t = elim m [
    | inl same ↦ absurd (cc same)
    | inr later ↦ functions_clean items f k later t
  ]
  functions_clean (impl_item ms ∷ items) f k m t = elim m [
    | inl same ↦ absurd (cc same)
    | inr later ↦ functions_clean items f k later t
  ]
  functions_clean (extend_item ms ∷ items) f k m t = elim m [
    | inl same ↦ absurd (cc same)
    | inr later ↦ functions_clean items f k later t
  ]
  functions_clean (enum_item ∷ items) f k m t = elim m [
    | inl same ↦ absurd (cc same)
    | inr later ↦ functions_clean items f k later t
  ]
  functions_clean (trait_item ∷ items) f k m t = elim m [
    | inl same ↦ absurd (cc same)
    | inr later ↦ functions_clean items f k later t
  ]
  functions_clean (const_item ∷ items) f k m t = elim m [
    | inl same ↦ absurd (cc same)
    | inr later ↦ functions_clean items f k later t
  ]
  functions_clean (static_item ∷ items) f k m t = elim m [
    | inl same ↦ absurd (cc same)
    | inr later ↦ functions_clean items f k later t
  ]
  functions_clean (type_alias ∷ items) f k m t = elim m [
    | inl same ↦ absurd (cc same)
    | inr later ↦ functions_clean items f k later t
  ]

  -- A call of a known function with lifetimes.
  callee_clean :
      (resolve : Expr → Resolved) (name : String) (nsp sp : Span) (args : Args) (g : FunctionDecl)
      → find name functions ≡ some g
      → is_empty g.lifetime_params ≡ false
      → check_site functions structs resolve (call (ident name nsp) args sp) ≡ []
      → check_boundary_site g.lifetime_params (call_pairs g.lifetime_params g.params args) resolve
        ≡ []
  unfolding check_site look_up check_callee
  callee_clean resolve name nsp sp args g e lifetimes k =
      of_else (is_empty g.lifetime_params) _ lifetimes
        (subst (λ o. check_callee o args resolve ≡ []) e k)

-- The site of a call in a function of the program.
pub record CallsAt (program : Program) (f : FunctionDecl) (point : Point) (name : String)
    (args : Args) : Type 0 where
  pub item : Among (function f) program
  pub checked : tier_is_checked f.tier ≡ true
  pub stmt : Stmt
  pub expr : Expr
  pub name_span : Span
  pub span : Span
  pub located_at : Among {A = Point × Stmt} (point, stmt) (located (build f))
  pub in_stmt : Among expr (top_exprs stmt)
  pub in_expr : Among (call (ident name name_span) args span) (find_boundary_sites expr)

-- A local at a site is a parameter of the caller, or a loan bound to it is live there.
abbrev pub IsBacked : FunctionDecl → Point → String → Type 0
IsBacked f point x =
    (contains (param_names f.params) x ≡ true)
    ⊎ ((loan : Loan) × BoundTo x (collect (build f)).loans loan
        × InRegion (build f) (collect (build f)) loan point)

backed :
    (f : FunctionDecl) (point : Point) (x : String) (r : Resolved)
    → Means f point x r
    → IsAtHand r
    → IsBacked f point x
backed f point x caller_param m h = inl m
backed f point x (concrete region) m h =
    let (loan, b, at, r) = (m.2 point).0 m.1 in inr (loan, b, at)
backed f point x (dead span) m h = elim h [ ]
backed f point x untraced m h = elim h [ ]

-- In a program that the outlives pass accepts, the last values bound at a call are sound.
pub calls-LastsAreSound :
    (program : Program) (f g : FunctionDecl) (point : Point) (name : String) (args : Args)
    → check_program program ≡ []
    → CallsAt program f point name args
    → find name (function_table program []) ≡ some g
    → is_empty g.lifetime_params ≡ false
    → LastsAreSound g.lifetime_params
        (call_pairs g.lifetime_params g.params args)
        (resolve_boundary_value (caller_of f) point)
unfolding check_program check_function
calls-LastsAreSound program f g point name args k at e lifetimes =
    let fs = function_table program [] in
    let ss = struct_table program [] in
    let clean = functions_clean fs ss program f k at.item at.checked in
    let stmts =
      points_clean fs ss (caller_of f) (located (build f)) point at.stmt clean at.located_at in
    let resolve = resolve_boundary_value (caller_of f) point in
    let exprs = exprs_clean fs ss resolve (top_exprs at.stmt) at.expr stmts at.in_stmt in
    let site = sites_clean fs ss resolve (find_boundary_sites at.expr) _ exprs at.in_expr in
    (check_boundary_site-LastsAreSound g.lifetime_params
        (call_pairs g.lifetime_params g.params args) resolve).0
      (callee_clean fs ss resolve name at.name_span at.span args g e lifetimes site)

pub check_program-IsBacked :
    (program : Program) (f g : FunctionDecl) (point : Point) (name : String) (args : Args)
    → check_program program ≡ []
    → CallsAt program f point name args
    → find name (function_table program []) ≡ some g
    → is_empty g.lifetime_params ≡ false
    → (lifetime x : String) (sp : Span)
    → last_of lifetime (call_pairs g.lifetime_params g.params args) ≡ some (ident x sp)
    → IsBacked f point x
unfolding resolve_boundary_value resolve_place
check_program-IsBacked program f g point name args k at e lifetimes lifetime x sp last =
    backed f point x (resolve_name (caller_of f) point x) (resolve_name-Means f point x) (
      (calls-LastsAreSound program f g point name args k at e lifetimes).at_hand lifetime
        (ident x sp) last)
