-- ===== src/Outlives/Program.antt =====
-- The boundary sites of a function, and the pass over a program, crates/core/src/sema/outlives_check.rs.
use ubel_stratum.Common.{
  Bool, true, false, ◌||◌, List, [], ◌∷◌, ◌++◌, Option, none, some, String, string_eq, ◌==◌, nat_eq,
  is_empty, find, insert, if◌then◌else◌,
}
use ubel_stratum.Ast.{
  TierAnnotation, low, mid, high, Ty, reference, Expr, ident, call, struct_lit, Args, no_args,
  positional, named_arg, FieldInits, no_fields, field_init, Stmt, LifetimeParam, ParamKind,
  named_param, FunctionDecl, StructMember, field_member, method_member, property_member, StructDecl,
  function, struct_item, Program,
}
use ubel_stratum.Cfg.{build}
use ubel_stratum.Points.{Point, point_eq}
use ubel_stratum.Facts.{place_eq, collect, walk_expr, top_exprs, located}
use ubel_stratum.Borrow.{compute_loan_regions}
use ubel_stratum.Outlives.Check.{
  Violation, Resolved, Caller, Pairs, resolve_boundary_value, check_boundary_site,
}

abbrev pub tier_is_checked : TierAnnotation → Bool
tier_is_checked low = true
tier_is_checked mid = true
tier_is_checked high = false

-- `ExprKind::Call` and `ExprKind::StructLit`.
unfoldable pub is_boundary_site : Expr → Bool
is_boundary_site (call callee args sp) = true
is_boundary_site (struct_lit path inits sp) = true
is_boundary_site e = false

unfoldable pub only_sites : List Expr → List Expr
unfolding is_boundary_site
only_sites [] = []
only_sites (e ∷ es) = if is_boundary_site e then e ∷ only_sites es else only_sites es

unfoldable pub find_boundary_sites : Expr → List Expr
unfolding walk_expr only_sites
find_boundary_sites e = only_sites (walk_expr e)

unfoldable pub declares : List LifetimeParam → String → Bool
declares [] name = false
declares (p ∷ params) name = p.name == name || declares params name

-- The declared lifetime of a `&L T`.
unfoldable pub type_lifetime : List LifetimeParam → Option Ty → Option String
unfolding declares
type_lifetime declared (some (reference mutable (some l) inner sp)) =
    if declares declared l then some l else none
type_lifetime declared ty = none

unfoldable pub param_lifetime : List LifetimeParam → ParamKind → Option String
unfolding type_lifetime
param_lifetime declared (named_param mutable name ty default) = type_lifetime declared ty
param_lifetime declared p = none

abbrev pub with_pair : Option String → Expr → Pairs → Pairs
with_pair none e pairs = pairs
with_pair (some l) e pairs = (l, e) ∷ pairs

unfoldable pub call_pairs : List LifetimeParam → List ParamKind → Args → Pairs
unfolding param_lifetime
call_pairs declared [] args = []
call_pairs declared (p ∷ params) no_args = []
call_pairs declared (p ∷ params) (positional e sp args) =
    with_pair (param_lifetime declared p) e (call_pairs declared params args)
call_pairs declared (p ∷ params) (named_arg name e sp args) = call_pairs declared params args

-- The tables of the program.
abbrev pub Functions : Type 0
Functions = List (String × FunctionDecl)

abbrev pub Structs : Type 0
Structs = List (String × StructDecl)

abbrev pub called_name : Expr → Option String
called_name (ident name sp) = some name
called_name e = none

unfoldable pub look_up : {A : Type 0} → Option String → List (String × A) → Option A
unfolding find
look_up none table = none
look_up (some name) table = find name table

unfoldable pub check_callee : Option FunctionDecl → Args → (Expr → Resolved) → List Violation
unfolding call_pairs check_boundary_site
check_callee none args resolve = []
check_callee (some g) args resolve =
    if is_empty g.lifetime_params
    then []
    else check_boundary_site g.lifetime_params (call_pairs g.lifetime_params g.params args) resolve

unfoldable pub find_field : String → FieldInits → Option Expr
find_field name no_fields = none
find_field name (field_init field_name e sp inits) =
    if field_name == name then some e else find_field name inits

abbrev pub with_field : Option String → Option Expr → Pairs → Pairs
with_field lifetime none pairs = pairs
with_field lifetime (some e) pairs = with_pair lifetime e pairs

unfoldable pub struct_pairs : List LifetimeParam → List StructMember → FieldInits → Pairs
unfolding type_lifetime find_field
struct_pairs declared [] inits = []
struct_pairs declared (field_member f ∷ members) inits =
    with_field (type_lifetime declared (some f.ty)) (find_field f.name inits)
      (struct_pairs declared members inits)
struct_pairs declared (method_member m ∷ members) inits = struct_pairs declared members inits
struct_pairs declared (property_member ∷ members) inits = struct_pairs declared members inits

-- `path[0]` of a path of one name.
abbrev pub single_name : List String → Option String
single_name (name ∷ []) = some name
single_name path = none

unfoldable pub check_literal : Option StructDecl → FieldInits → (Expr → Resolved) → List Violation
unfolding struct_pairs check_boundary_site
check_literal none inits resolve = []
check_literal (some s) inits resolve =
    if is_empty s.lifetime_params
    then []
    else check_boundary_site s.lifetime_params (struct_pairs s.lifetime_params s.members inits)
        resolve

-- `check_call` and `check_struct_lit`.
unfoldable pub check_site : Functions → Structs → (Expr → Resolved) → Expr → List Violation
unfolding look_up check_callee check_literal
check_site functions structs resolve (call callee args sp) =
    check_callee (look_up (called_name callee) functions) args resolve
check_site functions structs resolve (struct_lit path inits sp) =
    check_literal (look_up (single_name path) structs) inits resolve
check_site functions structs resolve e = []

unfoldable pub check_sites : Functions → Structs → (Expr → Resolved) → List Expr → List Violation
unfolding check_site
check_sites functions structs resolve [] = []
check_sites functions structs resolve (e ∷ es) =
    check_site functions structs resolve e ++ check_sites functions structs resolve es

unfoldable pub check_exprs : Functions → Structs → (Expr → Resolved) → List Expr → List Violation
unfolding check_sites find_boundary_sites
check_exprs functions structs resolve [] = []
check_exprs functions structs resolve (e ∷ es) =
    check_sites functions structs resolve (find_boundary_sites e)
    ++ check_exprs functions structs resolve es

unfoldable pub check_points : Functions → Structs → Caller → List (Point × Stmt) → List Violation
unfolding check_exprs top_exprs resolve_boundary_value
check_points functions structs caller [] = []
check_points functions structs caller ((point, stmt) ∷ rest) =
    check_exprs functions structs (resolve_boundary_value caller point) (top_exprs stmt)
    ++ check_points functions structs caller rest

unfoldable pub param_names : List ParamKind → List String
param_names [] = []
param_names (named_param mutable name ty default ∷ params) = name ∷ param_names params
param_names (p ∷ params) = param_names params

unfoldable pub caller_of : FunctionDecl → Caller
unfolding param_names build collect compute_loan_regions
caller_of f = record {
  param_names = param_names f.params;
  facts = collect (build f);
  regions = compute_loan_regions (build f) (collect (build f));
}

unfoldable pub check_function : Functions → Structs → FunctionDecl → List Violation
unfolding check_points caller_of located build
check_function functions structs f =
    check_points functions structs (caller_of f) (located (build f))

unfoldable pub function_table : Program → Functions → Functions
unfolding insert
function_table [] table = table
function_table (function f ∷ items) table = function_table items (insert f.name f table)
function_table (item ∷ items) table = function_table items table

unfoldable pub struct_table : Program → Structs → Structs
unfolding insert
struct_table [] table = table
struct_table (struct_item s ∷ items) table = struct_table items (insert s.name s table)
struct_table (item ∷ items) table = struct_table items table

unfoldable pub check_functions : Functions → Structs → Program → List Violation
unfolding check_function
check_functions functions structs [] = []
check_functions functions structs (function f ∷ items) =
    (if tier_is_checked f.tier then check_function functions structs f else [])
    ++ check_functions functions structs items
check_functions functions structs (item ∷ items) = check_functions functions structs items

unfoldable pub check_program : Program → List Violation
unfolding function_table struct_table check_functions
check_program program =
    check_functions (function_table program []) (struct_table program []) program
