-- ===== src/Facts/Occurs.antt =====
-- Where a name stands in an expression and in a statement, read off the syntax tree, and that the
-- tests of crates/core/src/sema/facts.rs find it there.
use ubel_stratum.Common.{
  Bool, true, false, List, [], ◌∷◌, ◌++◌, ◌||◌, ◌≡◌, refl, ◌⊎◌, ◌↔◌, inl, inr, arith, String,
  string_eq, ◌==◌, Bool-cases,
}
use ubel_stratum.Ast.{
  Expr, lit, ident, self_expr, bin_op, unary_op, assign_expr, pipe, call, field, index, chain_field,
  chain_method, try_expr, await, deref, borrow, tuple, array, dict, anon_object, struct_lit, lambda,
  block_expr, if_expr, match_expr, or_else, as_expr, short_decl, Exprs, no_exprs, cons_expr, Args,
  no_args, positional, named_arg, DictEntries, no_entries, dict_entry, FieldInits, no_fields,
  field_init, OrElseFallback, fallback_expr, fallback_continue, fallback_break, fallback_return,
  fallback_return_value, mk_if, ElifBranches, no_elifs, elif_branch, UsingBindings, no_bindings,
  using_binding, Stmt, let_stmt, expr_stmt, return_void, return_value, fail, if_stmt, match_stmt,
  for_stmt, while_stmt, loop_stmt, break_void, break_value, continue_stmt, with_stmt, using_stmt,
  extract_stmt, defer_stmt, try_stmt, try_catch_stmt, unsafe_stmt,
}
use ubel_stratum.Facts.Walk.{
  local, place_eq, expr_as_place, walk_expr, walk_exprs, walk_args, walk_entries, walk_fields,
  walk_fallback, elif_conditions, binding_values, top_exprs, node_reads, any_reads,
  expr_reads_place, exprs_read_place, stmt_reads_place,
}

-- The name is written in the expression, outside lambdas, blocks, `if` and `match`.
unfoldable mutual
  pub Occurs : String → Expr → Type 0
  Occurs x (ident y sp) = y ≡ x
  Occurs x (lit l sp) = ⊥
  Occurs x (self_expr sp) = ⊥
  Occurs x (bin_op op l r sp) = Occurs x l ⊎ Occurs x r
  Occurs x (unary_op op e sp) = Occurs x e
  Occurs x (assign_expr op t v sp) = Occurs x t ⊎ Occurs x v
  Occurs x (pipe l r sp) = Occurs x l ⊎ Occurs x r
  Occurs x (call f args sp) = Occurs x f ⊎ OccursInArgs x args
  Occurs x (field t y sp) = Occurs x t
  Occurs x (index t i sp) = Occurs x t ⊎ Occurs x i
  Occurs x (chain_field t y sp) = Occurs x t
  Occurs x (chain_method t y args sp) = Occurs x t ⊎ OccursInArgs x args
  Occurs x (try_expr e sp) = Occurs x e
  Occurs x (await e sp) = Occurs x e
  Occurs x (deref e sp) = Occurs x e
  Occurs x (borrow m e sp) = Occurs x e
  Occurs x (tuple es sp) = OccursInExprs x es
  Occurs x (array es sp) = OccursInExprs x es
  Occurs x (dict ds sp) = OccursInEntries x ds
  Occurs x (anon_object fs sp) = OccursInFields x fs
  Occurs x (struct_lit p fs sp) = OccursInFields x fs
  Occurs x (lambda ps b sp) = ⊥
  Occurs x (block_expr b sp) = ⊥
  Occurs x (if_expr i sp) = ⊥
  Occurs x (match_expr e arms sp) = ⊥
  Occurs x (or_else e f sp) = Occurs x e ⊎ OccursInFallback x f
  Occurs x (as_expr e t sp) = Occurs x e
  Occurs x (short_decl y e sp) = Occurs x e

  pub OccursInExprs : String → Exprs → Type 0
  OccursInExprs x no_exprs = ⊥
  OccursInExprs x (cons_expr e es) = Occurs x e ⊎ OccursInExprs x es

  pub OccursInArgs : String → Args → Type 0
  OccursInArgs x no_args = ⊥
  OccursInArgs x (positional e sp rest) = Occurs x e ⊎ OccursInArgs x rest
  OccursInArgs x (named_arg y e sp rest) = Occurs x e ⊎ OccursInArgs x rest

  pub OccursInEntries : String → DictEntries → Type 0
  OccursInEntries x no_entries = ⊥
  OccursInEntries x (dict_entry k v sp rest) = Occurs x k ⊎ (Occurs x v ⊎ OccursInEntries x rest)

  pub OccursInFields : String → FieldInits → Type 0
  OccursInFields x no_fields = ⊥
  OccursInFields x (field_init y e sp rest) = Occurs x e ⊎ OccursInFields x rest

  pub OccursInFallback : String → OrElseFallback → Type 0
  OccursInFallback x (fallback_expr e) = Occurs x e
  OccursInFallback x (fallback_return_value e) = Occurs x e
  OccursInFallback x fallback_continue = ⊥
  OccursInFallback x fallback_break = ⊥
  OccursInFallback x fallback_return = ⊥

unfoldable pub OccursInElifs : String → ElifBranches → Type 0
OccursInElifs x no_elifs = ⊥
OccursInElifs x (elif_branch e b sp rest) = Occurs x e ⊎ OccursInElifs x rest

unfoldable pub OccursInBindings : String → UsingBindings → Type 0
OccursInBindings x no_bindings = ⊥
OccursInBindings x (using_binding m y e sp rest) = Occurs x e ⊎ OccursInBindings x rest

-- The name is written in the statement itself, outside the blocks that stand in it.
unfoldable pub Mentions : String → Stmt → Type 0
Mentions x (let_stmt m t ty e sp) = Occurs x e
Mentions x (expr_stmt e sp) = Occurs x e
Mentions x (return_void sp) = ⊥
Mentions x (return_value e sp) = Occurs x e
Mentions x (break_void sp) = ⊥
Mentions x (break_value e sp) = Occurs x e
Mentions x (fail e sp) = Occurs x e
Mentions x (defer_stmt e sp) = Occurs x e
Mentions x (if_stmt (mk_if e b elifs els isp) sp) = Occurs x e ⊎ OccursInElifs x elifs
Mentions x (match_stmt e arms sp) = Occurs x e
Mentions x (for_stmt t e b sp) = Occurs x e
Mentions x (while_stmt e b sp) = Occurs x e
Mentions x (using_stmt us b sp) = OccursInBindings x us
Mentions x (extract_stmt p e sp) = Occurs x e
Mentions x (loop_stmt b sp) = ⊥
Mentions x (continue_stmt sp) = ⊥
Mentions x (with_stmt a b sp) = ⊥
Mentions x (try_stmt b sp) = ⊥
Mentions x (try_catch_stmt b y c sp) = ⊥
Mentions x (unsafe_stmt b sp) = ⊥

never : (false ≡ true) ↔ ⊥
never = (λ e. cc, λ h. absurd h)

either :
    {P Q : Type 0} (b c : Bool) → ((b ≡ true) ↔ P) → ((c ≡ true) ↔ Q) → ((b || c) ≡ true) ↔ (P ⊎ Q)
either true c p q = (λ e. inl (p.0 e), λ h. refl)
either false c p q = (λ e. inr (q.0 e), λ h. elim h [ inl l ↦ cc (p.1 l) | inr r ↦ q.1 r ])

any_reads-append :
    (x : String) (es fs : List Expr)
    → any_reads (local x) (es ++ fs) ≡ (any_reads (local x) es || any_reads (local x) fs)
unfolding any_reads
any_reads-append x [] fs = refl
any_reads-append x (e ∷ es) fs = ground (arith, any_reads-append x es fs)

both :
    {P Q : Type 0} (x : String) (es fs : List Expr)
    → ((any_reads (local x) es ≡ true) ↔ P)
    → ((any_reads (local x) fs ≡ true) ↔ Q)
    → (any_reads (local x) (es ++ fs) ≡ true) ↔ (P ⊎ Q)
both x es fs p q =
    rw (any_reads-append x es fs) (either (any_reads (local x) es) (any_reads (local x) fs) p q)

place-Occurs : (x : String) (e : Expr) → (expr_as_place e == local x) ≡ true → Occurs x e
unfolding expr_as_place Occurs
place-Occurs x (ident y sp) k = (string_eq.equal_iff y x).0 k
place-Occurs x e k = absurd (cc)

borrowed :
    (x : String) (e : Expr)
    → ((any_reads (local x) (walk_expr e) ≡ true) ↔ Occurs x e)
    → (((expr_as_place e == local x) || any_reads (local x) (walk_expr e)) ≡ true) ↔ Occurs x e
borrowed x e inner = (
  λ k. elim (Bool-cases (expr_as_place e == local x)) [
    | inl same ↦ place-Occurs x e same
    | inr other ↦ inner.0 (rw other at k)
  ],
  λ h. ground (arith, inner.1 h),
)

named : (x y : String) → (((y == x) || false) ≡ true) ↔ (y ≡ x)
named x y = let k = string_eq.equal_iff y x in (λ t. k.0 (ground arith), λ h. ground (arith, k.1 h))

mutual
  unfolding any_reads node_reads walk_expr Occurs

  any_reads-walk_expr :
      (x : String) (e : Expr) → (any_reads (local x) (walk_expr e) ≡ true) ↔ Occurs x e
  any_reads-walk_expr x (lit l sp) = never
  any_reads-walk_expr x (self_expr sp) = never
  any_reads-walk_expr x (lambda ps b sp) = never
  any_reads-walk_expr x (block_expr b sp) = never
  any_reads-walk_expr x (if_expr i sp) = never
  any_reads-walk_expr x (match_expr e arms sp) = never
  any_reads-walk_expr x (ident y sp) = named x y
  any_reads-walk_expr x (unary_op op e sp) = any_reads-walk_expr x e
  any_reads-walk_expr x (field t y sp) = any_reads-walk_expr x t
  any_reads-walk_expr x (chain_field t y sp) = any_reads-walk_expr x t
  any_reads-walk_expr x (try_expr e sp) = any_reads-walk_expr x e
  any_reads-walk_expr x (await e sp) = any_reads-walk_expr x e
  any_reads-walk_expr x (deref e sp) = any_reads-walk_expr x e
  any_reads-walk_expr x (as_expr e t sp) = any_reads-walk_expr x e
  any_reads-walk_expr x (short_decl y e sp) = any_reads-walk_expr x e
  any_reads-walk_expr x (borrow m e sp) = borrowed x e (any_reads-walk_expr x e)
  any_reads-walk_expr x (bin_op op l r sp) =
      both x (walk_expr l) (walk_expr r) (any_reads-walk_expr x l) (any_reads-walk_expr x r)
  any_reads-walk_expr x (assign_expr op t v sp) =
      both x (walk_expr t) (walk_expr v) (any_reads-walk_expr x t) (any_reads-walk_expr x v)
  any_reads-walk_expr x (pipe l r sp) =
      both x (walk_expr l) (walk_expr r) (any_reads-walk_expr x l) (any_reads-walk_expr x r)
  any_reads-walk_expr x (index t i sp) =
      both x (walk_expr t) (walk_expr i) (any_reads-walk_expr x t) (any_reads-walk_expr x i)
  any_reads-walk_expr x (call f args sp) =
      both x (walk_expr f) (walk_args args) (any_reads-walk_expr x f) (any_reads-walk_args x args)
  any_reads-walk_expr x (chain_method t y args sp) =
      both x (walk_expr t) (walk_args args) (any_reads-walk_expr x t) (any_reads-walk_args x args)
  any_reads-walk_expr x (or_else e f sp) =
      both x (walk_expr e) (walk_fallback f) (any_reads-walk_expr x e) (any_reads-walk_fallback x f)
  any_reads-walk_expr x (tuple es sp) = any_reads-walk_exprs x es
  any_reads-walk_expr x (array es sp) = any_reads-walk_exprs x es
  any_reads-walk_expr x (dict ds sp) = any_reads-walk_entries x ds
  any_reads-walk_expr x (anon_object fs sp) = any_reads-walk_fields x fs
  any_reads-walk_expr x (struct_lit p fs sp) = any_reads-walk_fields x fs

  any_reads-walk_exprs :
      (x : String) (e : Exprs) → (any_reads (local x) (walk_exprs e) ≡ true) ↔ OccursInExprs x e
  any_reads-walk_exprs x no_exprs = never
  any_reads-walk_exprs x (cons_expr e es) =
      both x (walk_expr e) (walk_exprs es) (any_reads-walk_expr x e) (any_reads-walk_exprs x es)

  any_reads-walk_args :
      (x : String) (e : Args) → (any_reads (local x) (walk_args e) ≡ true) ↔ OccursInArgs x e
  any_reads-walk_args x no_args = never
  any_reads-walk_args x (positional e sp rest) =
      both x (walk_expr e) (walk_args rest) (any_reads-walk_expr x e) (any_reads-walk_args x rest)
  any_reads-walk_args x (named_arg y e sp rest) =
      both x (walk_expr e) (walk_args rest) (any_reads-walk_expr x e) (any_reads-walk_args x rest)

  any_reads-walk_entries :
      (x : String) (e : DictEntries)
      → (any_reads (local x) (walk_entries e) ≡ true) ↔ OccursInEntries x e
  any_reads-walk_entries x no_entries = never
  any_reads-walk_entries x (dict_entry k v sp rest) =
      both x (walk_expr k) (walk_expr v ++ walk_entries rest) (any_reads-walk_expr x k) (
        both x (walk_expr v) (walk_entries rest) (any_reads-walk_expr x v)
          (any_reads-walk_entries x rest))

  any_reads-walk_fields :
      (x : String) (e : FieldInits)
      → (any_reads (local x) (walk_fields e) ≡ true) ↔ OccursInFields x e
  any_reads-walk_fields x no_fields = never
  any_reads-walk_fields x (field_init y e sp rest) =
      both x (walk_expr e) (walk_fields rest) (any_reads-walk_expr x e)
        (any_reads-walk_fields x rest)

  any_reads-walk_fallback :
      (x : String) (e : OrElseFallback)
      → (any_reads (local x) (walk_fallback e) ≡ true) ↔ OccursInFallback x e
  any_reads-walk_fallback x (fallback_expr e) = any_reads-walk_expr x e
  any_reads-walk_fallback x (fallback_return_value e) = any_reads-walk_expr x e
  any_reads-walk_fallback x fallback_continue = never
  any_reads-walk_fallback x fallback_break = never
  any_reads-walk_fallback x fallback_return = never

-- `expr_reads_place` finds a name exactly where it is written.
pub expr_reads_place_iff :
    (x : String) (e : Expr) → (expr_reads_place e (local x) ≡ true) ↔ Occurs x e
unfolding expr_reads_place
expr_reads_place_iff x e = any_reads-walk_expr x e

single : (x : String) (e : Expr) → (exprs_read_place (e ∷ []) (local x) ≡ true) ↔ Occurs x e
unfolding exprs_read_place
single x e =
    let k = expr_reads_place_iff x e in (λ t. k.0 (ground arith), λ h. ground (arith, k.1 h))

elifs_read :
    (x : String) (bs : ElifBranches)
    → (exprs_read_place (elif_conditions bs) (local x) ≡ true) ↔ OccursInElifs x bs
unfolding exprs_read_place elif_conditions OccursInElifs
elifs_read x no_elifs = never
elifs_read x (elif_branch e b sp rest) =
    either (expr_reads_place e (local x)) (exprs_read_place (elif_conditions rest) (local x))
      (expr_reads_place_iff x e) (elifs_read x rest)

bindings_read :
    (x : String) (us : UsingBindings)
    → (exprs_read_place (binding_values us) (local x) ≡ true) ↔ OccursInBindings x us
unfolding exprs_read_place binding_values OccursInBindings
bindings_read x no_bindings = never
bindings_read x (using_binding m y e sp rest) =
    either (expr_reads_place e (local x)) (exprs_read_place (binding_values rest) (local x))
      (expr_reads_place_iff x e) (bindings_read x rest)

none_read : (x : String) → (exprs_read_place [] (local x) ≡ true) ↔ ⊥
unfolding exprs_read_place
none_read x = never

condition_read :
    (x : String) (e : Expr) (elifs : ElifBranches)
    → (exprs_read_place (e ∷ elif_conditions elifs) (local x) ≡ true)
      ↔ (Occurs x e ⊎ OccursInElifs x elifs)
unfolding exprs_read_place
condition_read x e elifs =
    either (expr_reads_place e (local x)) (exprs_read_place (elif_conditions elifs) (local x))
      (expr_reads_place_iff x e) (elifs_read x elifs)

-- `stmt_reads_place` finds a name exactly where the statement itself mentions it.
pub stmt_reads_place_iff :
    (x : String) (s : Stmt) → (stmt_reads_place s (local x) ≡ true) ↔ Mentions x s
unfolding stmt_reads_place top_exprs Mentions
stmt_reads_place_iff x (let_stmt m t ty e sp) = single x e
stmt_reads_place_iff x (expr_stmt e sp) = single x e
stmt_reads_place_iff x (return_value e sp) = single x e
stmt_reads_place_iff x (break_value e sp) = single x e
stmt_reads_place_iff x (fail e sp) = single x e
stmt_reads_place_iff x (defer_stmt e sp) = single x e
stmt_reads_place_iff x (match_stmt e arms sp) = single x e
stmt_reads_place_iff x (for_stmt t e b sp) = single x e
stmt_reads_place_iff x (while_stmt e b sp) = single x e
stmt_reads_place_iff x (extract_stmt p e sp) = single x e
stmt_reads_place_iff x (return_void sp) = none_read x
stmt_reads_place_iff x (break_void sp) = none_read x
stmt_reads_place_iff x (loop_stmt b sp) = none_read x
stmt_reads_place_iff x (continue_stmt sp) = none_read x
stmt_reads_place_iff x (with_stmt a b sp) = none_read x
stmt_reads_place_iff x (try_stmt b sp) = none_read x
stmt_reads_place_iff x (try_catch_stmt b y c sp) = none_read x
stmt_reads_place_iff x (unsafe_stmt b sp) = none_read x
stmt_reads_place_iff x (using_stmt us b sp) = bindings_read x us
stmt_reads_place_iff x (if_stmt (mk_if e b elifs els isp) sp) = condition_read x e elifs
