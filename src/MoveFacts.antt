-- ===== src/MoveFacts.antt =====
-- crates/core/src/sema/move_facts.rs: the locals that own a `Unique` and their uses by value.
use ubel_stratum.Common.{
  Bool, true, false, ◌&&◌, ◌||◌, List, [], ◌∷◌, ◌++◌, Option, some, String, string_eq, ◌==◌,
  contains, push_at, if◌then◌else◌, is_empty,
}
use ubel_stratum.Ast.{
  Span, Ty, named, Expr, lit, ident, self_expr, bin_op, unary_op, assign_expr, pipe, call, field,
  index, chain_field, chain_method, try_expr, await, deref, borrow, tuple, array, dict, anon_object,
  struct_lit, lambda, block_expr, if_expr, match_expr, or_else, as_expr, short_decl, Exprs,
  no_exprs, cons_expr, Args, no_args, positional, named_arg, DictEntries, no_entries, dict_entry,
  FieldInits, no_fields, field_init, OrElseFallback, fallback_expr, fallback_continue,
  fallback_break, fallback_return, fallback_return_value, BindingTarget, ident_target, Stmt,
  let_stmt, ParamKind, self_val, self_mut, self_ref, self_ref_mut, MethodDecl, StructMember,
  method_member, Item, struct_item, impl_item, extend_item, Program,
}
use ubel_stratum.Builtins.{is_builtin_instance_method_name}
use ubel_stratum.Cfg.{Cfg}
use ubel_stratum.Points.{Point}
use ubel_stratum.Facts.{Place, local, place_eq, top_exprs, located}

pub record MoveFact : Type 0 where
  pub place : Place
  pub point : Point
  pub span : Span

pub record MoveFacts : Type 0 where
  pub tracked_locals : List Place
  pub moved_at : List (Place × List MoveFact)

-- `HashSet::insert`
unfoldable pub insert_name : String → List String → List String
unfolding contains
insert_name x xs = if contains xs x then xs else x ∷ xs

abbrev pub is_self : ParamKind → Bool
is_self self_val = true
is_self self_mut = true
is_self self_ref = true
is_self self_ref_mut = true
is_self _ = false

abbrev pub has_self : List ParamKind → Bool
has_self [] = false
has_self (p ∷ ps) = is_self p

unfoldable pub add_method : MethodDecl → List String → List String
unfolding insert_name
add_method m out = if has_self m.params then insert_name m.name out else out

unfoldable pub add_methods : List MethodDecl → List String → List String
unfolding add_method
add_methods [] out = out
add_methods (m ∷ ms) out = add_methods ms (add_method m out)

unfoldable pub add_members : List StructMember → List String → List String
unfolding add_method
add_members [] out = out
add_members (method_member m ∷ ms) out = add_members ms (add_method m out)
add_members (member ∷ ms) out = add_members ms out

unfoldable pub add_item : Item → List String → List String
unfolding add_members add_methods
add_item (struct_item s) out = add_members s.members out
add_item (extend_item ms) out = add_methods ms out
add_item (impl_item ms) out = add_methods ms out
add_item item out = out

unfoldable pub add_items : Program → List String → List String
unfolding add_item
add_items [] out = out
add_items (i ∷ is) out = add_items is (add_item i out)

unfoldable pub user_method_names : Program → List String
unfolding add_items
user_method_names program = add_items program []

abbrev pub is_unique_path : List String → Bool
is_unique_path (x ∷ []) = x == "Unique"
is_unique_path _ = false

unfoldable pub is_unique_type : Option Ty → Bool
is_unique_type (some (named path args sp)) = is_unique_path path
is_unique_type _ = false

unfoldable pub is_unique_ident : Expr → Bool
is_unique_ident (ident name sp) = name == "Unique"
is_unique_ident e = false

unfoldable pub is_unique_new : Expr → Bool
unfolding is_unique_ident
is_unique_new (field target x sp) = if x == "new" then is_unique_ident target else false
is_unique_new e = false

unfoldable pub is_unique_new_call : Expr → Bool
unfolding is_unique_new
is_unique_new_call (call callee args sp) = is_unique_new callee
is_unique_new_call e = false

unfoldable pub is_unique_tracked : Option Ty → Expr → Bool
unfolding is_unique_type is_unique_new_call
is_unique_tracked ty value = is_unique_type ty || is_unique_new_call value

abbrev pub is_ident : Expr → Bool
is_ident (ident x sp) = true
is_ident e = false

-- The receiver of an exempt method call is no use when it is a bare name; `moves` are the uses
-- that the walk of the callee finds.
unfoldable pub callee_moves : (String → Bool) → Expr → List (String × Span) → List (String × Span)
callee_moves exempt (field target x sp) moves = if exempt x && is_ident target then [] else moves
callee_moves exempt callee moves = moves

-- `MoveExprWalker`: the names that its callback is called on, with their spans, in that order.
unfoldable mutual
  pub walk_moves : (String → Bool) → Expr → List (String × Span)
  walk_moves ex (lit l sp) = []
  walk_moves ex (ident x sp) = (x, sp) ∷ []
  walk_moves ex (self_expr sp) = []
  walk_moves ex (bin_op op l r sp) = walk_moves ex l ++ walk_moves ex r
  walk_moves ex (unary_op op e sp) = walk_moves ex e
  walk_moves ex (assign_expr op t v sp) = walk_moves ex v
  walk_moves ex (pipe l r sp) = walk_moves ex l ++ walk_moves ex r
  walk_moves ex (call f args sp) = callee_moves ex f (walk_moves ex f) ++ walk_move_args ex args
  walk_moves ex (field t x sp) = walk_moves ex t
  walk_moves ex (index t i sp) = walk_moves ex t ++ walk_moves ex i
  walk_moves ex (chain_field t x sp) = walk_moves ex t
  walk_moves ex (chain_method t x args sp) = walk_moves ex t ++ walk_move_args ex args
  walk_moves ex (try_expr e sp) = walk_moves ex e
  walk_moves ex (await e sp) = walk_moves ex e
  walk_moves ex (deref e sp) = walk_moves ex e
  walk_moves ex (borrow m e sp) = []
  walk_moves ex (tuple es sp) = walk_move_exprs ex es
  walk_moves ex (array es sp) = walk_move_exprs ex es
  walk_moves ex (dict ds sp) = walk_move_entries ex ds
  walk_moves ex (anon_object fs sp) = walk_move_fields ex fs
  walk_moves ex (struct_lit p fs sp) = walk_move_fields ex fs
  walk_moves ex (lambda ps b sp) = []
  walk_moves ex (block_expr b sp) = []
  walk_moves ex (if_expr i sp) = []
  walk_moves ex (match_expr e arms sp) = []
  walk_moves ex (or_else e f sp) = walk_moves ex e ++ walk_move_fallback ex f
  walk_moves ex (as_expr e t sp) = walk_moves ex e
  walk_moves ex (short_decl x e sp) = walk_moves ex e

  pub walk_move_exprs : (String → Bool) → Exprs → List (String × Span)
  walk_move_exprs ex no_exprs = []
  walk_move_exprs ex (cons_expr e es) = walk_moves ex e ++ walk_move_exprs ex es

  pub walk_move_args : (String → Bool) → Args → List (String × Span)
  walk_move_args ex no_args = []
  walk_move_args ex (positional e sp rest) = walk_moves ex e ++ walk_move_args ex rest
  walk_move_args ex (named_arg x e sp rest) = walk_moves ex e ++ walk_move_args ex rest

  pub walk_move_entries : (String → Bool) → DictEntries → List (String × Span)
  walk_move_entries ex no_entries = []
  walk_move_entries ex (dict_entry k v sp rest) =
      walk_moves ex k ++ (walk_moves ex v ++ walk_move_entries ex rest)

  pub walk_move_fields : (String → Bool) → FieldInits → List (String × Span)
  walk_move_fields ex no_fields = []
  walk_move_fields ex (field_init x e sp rest) = walk_moves ex e ++ walk_move_fields ex rest

  pub walk_move_fallback : (String → Bool) → OrElseFallback → List (String × Span)
  walk_move_fallback ex (fallback_expr e) = walk_moves ex e
  walk_move_fallback ex (fallback_return_value e) = walk_moves ex e
  walk_move_fallback ex fallback_continue = []
  walk_move_fallback ex fallback_break = []
  walk_move_fallback ex fallback_return = []

unfoldable pub insert_place : Place → List Place → List Place
unfolding contains
insert_place p ps = if contains ps p then ps else p ∷ ps

abbrev pub track_binding : BindingTarget → Bool → List Place → List Place
track_binding (ident_target x) true ps = insert_place (local x) ps
track_binding b t ps = ps

unfoldable pub track_stmt : Stmt → List Place → List Place
unfolding is_unique_tracked insert_place
track_stmt (let_stmt m b ty e sp) ps = track_binding b (is_unique_tracked ty e) ps
track_stmt s ps = ps

-- The first walk.
unfoldable pub track : List (Point × Stmt) → List Place → List Place
unfolding track_stmt
track [] ps = ps
track ((at, s) ∷ rest) ps = track rest (track_stmt s ps)

unfoldable pub add_move :
    List Place → Point → String × Span → List (Place × List MoveFact) → List (Place × List MoveFact)
unfolding contains push_at
add_move tracked at u m =
    if contains tracked (local u.0)
    then push_at (local u.0) (record { place = local u.0; point = at; span = u.1 }) m
    else m

unfoldable pub add_moves :
    List Place
    → Point
    → List (String × Span)
    → List (Place × List MoveFact)
    → List (Place × List MoveFact)
unfolding add_move
add_moves tracked at [] m = m
add_moves tracked at (u ∷ us) m = add_moves tracked at us (add_move tracked at u m)

unfoldable pub uses_of : (String → Bool) → List Expr → List (String × Span)
unfolding walk_moves
uses_of ex [] = []
uses_of ex (e ∷ es) = walk_moves ex e ++ uses_of ex es

-- The second walk.
unfoldable pub moves :
    (String → Bool)
    → List Place
    → List (Point × Stmt)
    → List (Place × List MoveFact)
    → List (Place × List MoveFact)
unfolding add_moves uses_of top_exprs
moves ex tracked [] m = m
moves ex tracked ((at, s) ∷ rest) m =
    moves ex tracked rest (add_moves tracked at (uses_of ex (top_exprs s)) m)

abbrev pub exempt : List String → String → Bool
exempt user_methods x = is_builtin_instance_method_name x || contains user_methods x

unfoldable pub collect_with : Cfg → List String → MoveFacts
unfolding track moves located is_builtin_instance_method_name
collect_with c user_methods =
    let tracked = track (located c) [] in
    if is_empty tracked then record { tracked_locals = []; moved_at = [] } else record {
      tracked_locals = tracked;
      moved_at = moves (exempt user_methods) tracked (located c) [];
    }
