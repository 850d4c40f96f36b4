-- ===== src/Facts/Walk.antt =====
-- Places and expression walking, crates/core/src/sema/facts.rs, over `walk_expr` and
-- `walk_arg_kind` of crates/core/src/ast/visitor.rs. A walk is the list of the expressions that the
-- source's callback is called on, in that order.
use ubel_stratum.Common.{
  Bool, true, false, ◌||◌, ◌≡◌, ◌↔◌, List, [], ◌∷◌, ◌++◌, String, Eq, ◌==◌, string_eq, arith,
}
use ubel_stratum.Ast.{
  Expr, lit, ident, self_expr, bin_op, unary_op, assign_expr, pipe, call, field, index, chain_field,
  chain_method, try_expr, await, deref, borrow, tuple, array, dict, anon_object, struct_lit, lambda,
  block_expr, if_expr, match_expr, or_else, as_expr, short_decl, Exprs, no_exprs, cons_expr, Args,
  no_args, positional, named_arg, DictEntries, no_entries, dict_entry, FieldInits, no_fields,
  field_init, OrElseFallback, fallback_expr, fallback_continue, fallback_break, fallback_return,
  fallback_return_value, IfExpr, mk_if, ElifBranches, no_elifs, elif_branch, UsingBindings,
  no_bindings, using_binding, Stmt, let_stmt, expr_stmt, return_void, return_value, fail, if_stmt,
  match_stmt, for_stmt, while_stmt, loop_stmt, break_void, break_value, continue_stmt, with_stmt,
  using_stmt, extract_stmt, defer_stmt, try_stmt, try_catch_stmt, unsafe_stmt,
}

pub data Place : Type 0 where
  local : String → Place
  unknown : Place

abbrev pub place_beq : Place → Place → Bool
place_beq (local x) (local y) = x == y
place_beq unknown unknown = true
place_beq _ _ = false

pub place_beq_iff : (p q : Place) → (place_beq p q ≡ true) ↔ (p ≡ q)
place_beq_iff (local x) (local y) = ground (arith, string_eq.equal_iff x y)
place_beq_iff (local x) unknown = ground arith
place_beq_iff unknown (local y) = ground arith
place_beq_iff unknown unknown = ground arith

instance abbrev pub place_eq : Eq Place
place_eq = record { equal = place_beq; equal_iff = place_beq_iff }

abbrev pub is_unknown : Place → Bool
is_unknown unknown = true
is_unknown (local x) = false

unfoldable pub expr_as_place : Expr → Place
expr_as_place (ident name sp) = local name
expr_as_place _ = unknown

-- `ScopedExprWalker`: a lambda, a block, an `if` and a `match` are not descended into.
unfoldable mutual
  pub walk_expr : Expr → List Expr
  walk_expr (lit l sp) = lit l sp ∷ []
  walk_expr (ident x sp) = ident x sp ∷ []
  walk_expr (self_expr sp) = self_expr sp ∷ []
  walk_expr (bin_op op l r sp) = bin_op op l r sp ∷ (walk_expr l ++ walk_expr r)
  walk_expr (unary_op op e sp) = unary_op op e sp ∷ walk_expr e
  walk_expr (assign_expr op t v sp) = assign_expr op t v sp ∷ (walk_expr t ++ walk_expr v)
  walk_expr (pipe l r sp) = pipe l r sp ∷ (walk_expr l ++ walk_expr r)
  walk_expr (call f args sp) = call f args sp ∷ (walk_expr f ++ walk_args args)
  walk_expr (field t x sp) = field t x sp ∷ walk_expr t
  walk_expr (index t i sp) = index t i sp ∷ (walk_expr t ++ walk_expr i)
  walk_expr (chain_field t x sp) = chain_field t x sp ∷ walk_expr t
  walk_expr (chain_method t x args sp) = chain_method t x args sp ∷ (walk_expr t ++ walk_args args)
  walk_expr (try_expr e sp) = try_expr e sp ∷ walk_expr e
  walk_expr (await e sp) = await e sp ∷ walk_expr e
  walk_expr (deref e sp) = deref e sp ∷ walk_expr e
  walk_expr (borrow m e sp) = borrow m e sp ∷ walk_expr e
  walk_expr (tuple es sp) = tuple es sp ∷ walk_exprs es
  walk_expr (array es sp) = array es sp ∷ walk_exprs es
  walk_expr (dict ds sp) = dict ds sp ∷ walk_entries ds
  walk_expr (anon_object fs sp) = anon_object fs sp ∷ walk_fields fs
  walk_expr (struct_lit p fs sp) = struct_lit p fs sp ∷ walk_fields fs
  walk_expr (lambda ps b sp) = lambda ps b sp ∷ []
  walk_expr (block_expr b sp) = block_expr b sp ∷ []
  walk_expr (if_expr i sp) = if_expr i sp ∷ []
  walk_expr (match_expr e arms sp) = match_expr e arms sp ∷ []
  walk_expr (or_else e f sp) = or_else e f sp ∷ (walk_expr e ++ walk_fallback f)
  walk_expr (as_expr e t sp) = as_expr e t sp ∷ walk_expr e
  walk_expr (short_decl x e sp) = short_decl x e sp ∷ walk_expr e

  pub walk_exprs : Exprs → List Expr
  walk_exprs no_exprs = []
  walk_exprs (cons_expr e es) = walk_expr e ++ walk_exprs es

  pub walk_args : Args → List Expr
  walk_args no_args = []
  walk_args (positional e sp rest) = walk_expr e ++ walk_args rest
  walk_args (named_arg x e sp rest) = walk_expr e ++ walk_args rest

  pub walk_entries : DictEntries → List Expr
  walk_entries no_entries = []
  walk_entries (dict_entry k v sp rest) = walk_expr k ++ (walk_expr v ++ walk_entries rest)

  pub walk_fields : FieldInits → List Expr
  walk_fields no_fields = []
  walk_fields (field_init x e sp rest) = walk_expr e ++ walk_fields rest

  pub walk_fallback : OrElseFallback → List Expr
  walk_fallback (fallback_expr e) = walk_expr e
  walk_fallback (fallback_return_value e) = walk_expr e
  walk_fallback fallback_continue = []
  walk_fallback fallback_break = []
  walk_fallback fallback_return = []

abbrev pub condition : IfExpr → Expr
condition (mk_if e b elifs els sp) = e

abbrev pub elif_branches : IfExpr → ElifBranches
elif_branches (mk_if e b elifs els sp) = elifs

unfoldable pub elif_conditions : ElifBranches → List Expr
elif_conditions no_elifs = []
elif_conditions (elif_branch e b sp rest) = e ∷ elif_conditions rest

unfoldable pub binding_values : UsingBindings → List Expr
binding_values no_bindings = []
binding_values (using_binding m x e sp rest) = e ∷ binding_values rest

-- `for_each_top_expr`, as the list of the expressions.
unfoldable pub top_exprs : Stmt → List Expr
unfolding elif_conditions binding_values
top_exprs (let_stmt m t ty e sp) = e ∷ []
top_exprs (expr_stmt e sp) = e ∷ []
top_exprs (return_void sp) = []
top_exprs (return_value e sp) = e ∷ []
top_exprs (break_void sp) = []
top_exprs (break_value e sp) = e ∷ []
top_exprs (fail e sp) = e ∷ []
top_exprs (defer_stmt e sp) = e ∷ []
top_exprs (if_stmt i sp) = condition i ∷ elif_conditions (elif_branches i)
top_exprs (match_stmt e arms sp) = e ∷ []
top_exprs (for_stmt t e b sp) = e ∷ []
top_exprs (while_stmt e b sp) = e ∷ []
top_exprs (using_stmt us b sp) = binding_values us
top_exprs (extract_stmt p e sp) = e ∷ []
top_exprs (loop_stmt b sp) = []
top_exprs (continue_stmt sp) = []
top_exprs (with_stmt a b sp) = []
top_exprs (try_stmt b sp) = []
top_exprs (try_catch_stmt b x c sp) = []
top_exprs (unsafe_stmt b sp) = []

-- The callback of `expr_reads_place`.
unfoldable pub node_reads : Place → Expr → Bool
unfolding expr_as_place
node_reads p (ident x sp) = local x == p
node_reads p (borrow m e sp) = expr_as_place e == p
node_reads p _ = false

unfoldable pub any_reads : Place → List Expr → Bool
unfolding node_reads
any_reads p [] = false
any_reads p (e ∷ es) = node_reads p e || any_reads p es

unfoldable pub expr_reads_place : Expr → Place → Bool
unfolding any_reads walk_expr
expr_reads_place e p = any_reads p (walk_expr e)

unfoldable pub exprs_read_place : List Expr → Place → Bool
unfolding expr_reads_place
exprs_read_place [] p = false
exprs_read_place (e ∷ es) p = expr_reads_place e p || exprs_read_place es p

unfoldable pub stmt_reads_place : Stmt → Place → Bool
unfolding exprs_read_place top_exprs
stmt_reads_place s p = exprs_read_place (top_exprs s) p
