-- ===== src/Ast/Syntax.antt =====
-- crates/core/src/ast/expressions.rs, statements.rs, patterns.rs and literals.rs.
-- Floating-point literals are kept as their bit patterns. No modelled pass looks into a pattern.
use ubel_stratum.Common.{ℕ, Bool, List, Option, String}
use ubel_stratum.Ast.Base.{Span, BinOp, UnaryOp, AssignOp, IntSuffix}
use ubel_stratum.Ast.TypeKind.{Ty}

pub data NumericBase : Type 0 where
  hex hex_upper octal binary : NumericBase

pub data Align : Type 0 where
  left right center : Align

pub record FormatSpec : Type 0 where
  pub fill : Option ℕ
  pub align : Option Align
  pub sign_plus : Bool
  pub alternate : Bool
  pub zero_pad : Bool
  pub width : Option ℕ
  pub precision : Option ℕ
  pub debug : Bool
  pub base : Option NumericBase

-- The left side of `extract` and of a destructuring `let`; the lists of a tuple, an array and a
-- struct pattern, the last with `none` for a shorthand field.
mutual
  pub data DestructurePattern : Type 0 where
    ident_d : String → DestructurePattern
    tuple_d : DestructureElements → Span → DestructurePattern
    array_d : DestructureElements → Option (Option String) → Span → DestructurePattern
    struct_d : FieldDestructures → Span → DestructurePattern

  pub data DestructureElements : Type 0 where
    end_d : DestructureElements
    bind_d : String → DestructureElements → DestructureElements
    wildcard_d : DestructureElements → DestructureElements
    nested_d : DestructurePattern → DestructureElements → DestructureElements

  pub data FieldDestructures : Type 0 where
    end_f : FieldDestructures
    shorthand_f : String → Span → FieldDestructures → FieldDestructures
    field_f : String → DestructurePattern → Span → FieldDestructures → FieldDestructures

pub data BindingTarget : Type 0 where
  ident_target : String → BindingTarget
  destructure : DestructurePattern → BindingTarget

pub record LambdaParam : Type 0 where
  pub name : String
  pub ty : Option Ty
  pub span : Span

pub data SizeUnit : Type 0 where
  bytes kb mb gb : SizeUnit

mutual
  pub data Expr : Type 0 where
    lit : Literal → Span → Expr
    ident : String → Span → Expr
    self_expr : Span → Expr
    bin_op : BinOp → Expr → Expr → Span → Expr
    unary_op : UnaryOp → Expr → Span → Expr
    assign_expr : AssignOp → Expr → Expr → Span → Expr
    pipe : Expr → Expr → Span → Expr
    call : Expr → Args → Span → Expr
    field : Expr → String → Span → Expr
    index : Expr → Expr → Span → Expr
    chain_field : Expr → String → Span → Expr
    chain_method : Expr → String → Args → Span → Expr
    try_expr await deref : Expr → Span → Expr
    borrow : Bool → Expr → Span → Expr
    tuple array : Exprs → Span → Expr
    dict : DictEntries → Span → Expr
    anon_object : FieldInits → Span → Expr
    struct_lit : List String → FieldInits → Span → Expr
    lambda : List LambdaParam → BranchBody → Span → Expr
    block_expr : Stmts → Span → Expr
    if_expr : IfExpr → Span → Expr
    match_expr : Expr → MatchArms → Span → Expr
    or_else : Expr → OrElseFallback → Span → Expr
    as_expr : Expr → Ty → Span → Expr
    short_decl : String → Expr → Span → Expr

  pub data Literal : Type 0 where
    int_lit : Bool → ℕ → Literal
    typed_int : ℕ → IntSuffix → Literal
    float_lit double_lit : ℕ → Literal
    str_lit verbatim_str : String → Literal
    interpolated_str interpolated_verbatim_str : InterpolationParts → Literal
    char_lit : ℕ → Literal
    bool_lit : Bool → Literal
    null : Literal

  pub data InterpolationParts : Type 0 where
    no_parts : InterpolationParts
    text_part : String → InterpolationParts → InterpolationParts
    expr_part : Expr → Option FormatSpec → InterpolationParts → InterpolationParts

  pub data Exprs : Type 0 where
    no_exprs : Exprs
    cons_expr : Expr → Exprs → Exprs

  pub data Args : Type 0 where
    no_args : Args
    positional : Expr → Span → Args → Args
    named_arg : String → Expr → Span → Args → Args

  pub data DictEntries : Type 0 where
    no_entries : DictEntries
    dict_entry : Expr → Expr → Span → DictEntries → DictEntries

  -- `ObjectField` and `FieldInit` have the same fields.
  pub data FieldInits : Type 0 where
    no_fields : FieldInits
    field_init : String → Expr → Span → FieldInits → FieldInits

  -- `LambdaBody`, `IfBranchBody` and `MatchArmBody` have the same two shapes.
  pub data BranchBody : Type 0 where
    block_body : Stmts → Span → BranchBody
    expr_body : Expr → BranchBody

  -- condition, body, `elif` branches, `else` body
  pub data IfExpr : Type 0 where
    mk_if : Expr → BranchBody → ElifBranches → ElseBody → Span → IfExpr

  pub data ElifBranches : Type 0 where
    no_elifs : ElifBranches
    elif_branch : Expr → BranchBody → Span → ElifBranches → ElifBranches

  pub data ElseBody : Type 0 where
    no_else : ElseBody
    else_body : BranchBody → ElseBody

  pub data MatchArms : Type 0 where
    no_arms : MatchArms
    match_arm : Pattern → Guard → BranchBody → Span → MatchArms → MatchArms

  pub data Guard : Type 0 where
    no_guard : Guard
    guard : Expr → Guard

  pub data OrElseFallback : Type 0 where
    fallback_expr : Expr → OrElseFallback
    fallback_continue fallback_break fallback_return : OrElseFallback
    fallback_return_value : Expr → OrElseFallback

  pub data Pattern : Type 0 where
    wildcard : Span → Pattern
    literal_pattern : Literal → Span → Pattern
    ident_pattern : String → Bool → Span → Pattern
    tuple_pattern : Patterns → Span → Pattern
    array_pattern : Patterns → Option (Option String) → Span → Pattern
    struct_pattern : Option String → FieldPatterns → Span → Pattern
    enum_pattern : List String → Span → Pattern
    enum_tuple_pattern : List String → Patterns → Span → Pattern
    enum_struct_pattern : List String → FieldPatterns → Span → Pattern
    range_pattern : Literal → Literal → Bool → Span → Pattern
    or_pattern : Patterns → Span → Pattern
    extract_pattern : FieldPatterns → Span → Pattern

  pub data Patterns : Type 0 where
    no_patterns : Patterns
    cons_pattern : Pattern → Patterns → Patterns

  pub data FieldPatterns : Type 0 where
    no_field_patterns : FieldPatterns
    shorthand_pattern : String → Span → FieldPatterns → FieldPatterns
    field_pattern : String → Pattern → Span → FieldPatterns → FieldPatterns

  pub data Stmt : Type 0 where
    let_stmt : Bool → BindingTarget → Option Ty → Expr → Span → Stmt
    expr_stmt : Expr → Span → Stmt
    return_void : Span → Stmt
    return_value fail : Expr → Span → Stmt
    if_stmt : IfExpr → Span → Stmt
    match_stmt : Expr → MatchArms → Span → Stmt
    for_stmt : BindingTarget → Expr → Stmts → Span → Stmt
    while_stmt : Expr → Stmts → Span → Stmt
    loop_stmt : Stmts → Span → Stmt
    break_void continue_stmt : Span → Stmt
    break_value : Expr → Span → Stmt
    with_stmt : AllocatorKind → Stmts → Span → Stmt
    using_stmt : UsingBindings → Stmts → Span → Stmt
    extract_stmt : DestructurePattern → Expr → Span → Stmt
    defer_stmt : Expr → Span → Stmt
    try_stmt : Stmts → Span → Stmt
    try_catch_stmt : Stmts → Option String → Stmts → Span → Stmt
    unsafe_stmt : Stmts → Span → Stmt

  -- A `Block`; its span stands with the statement that holds it.
  pub data Stmts : Type 0 where
    end_block : Stmts
    cons_stmt : Stmt → Stmts → Stmts

  pub data UsingBindings : Type 0 where
    no_bindings : UsingBindings
    using_binding : Bool → String → Expr → Span → UsingBindings → UsingBindings

  pub data AllocatorKind : Type 0 where
    arena_size : Expr → AllocatorKind
    arena_with_unit : ℕ → SizeUnit → AllocatorKind
    pool : Ty → Expr → AllocatorKind
    gc heap : AllocatorKind

-- `stmt.span`
unfoldable pub stmt_span : Stmt → Span
stmt_span (let_stmt m b t e sp) = sp
stmt_span (expr_stmt e sp) = sp
stmt_span (return_void sp) = sp
stmt_span (return_value e sp) = sp
stmt_span (fail e sp) = sp
stmt_span (if_stmt i sp) = sp
stmt_span (match_stmt e arms sp) = sp
stmt_span (for_stmt t e b sp) = sp
stmt_span (while_stmt e b sp) = sp
stmt_span (loop_stmt b sp) = sp
stmt_span (break_void sp) = sp
stmt_span (continue_stmt sp) = sp
stmt_span (break_value e sp) = sp
stmt_span (with_stmt a b sp) = sp
stmt_span (using_stmt us b sp) = sp
stmt_span (extract_stmt p e sp) = sp
stmt_span (defer_stmt e sp) = sp
stmt_span (try_stmt b sp) = sp
stmt_span (try_catch_stmt b x c sp) = sp
stmt_span (unsafe_stmt b sp) = sp

-- `expr.span`
unfoldable pub expr_span : Expr → Span
expr_span (lit u sp) = sp
expr_span (ident u sp) = sp
expr_span (self_expr sp) = sp
expr_span (bin_op u v w sp) = sp
expr_span (unary_op u v sp) = sp
expr_span (assign_expr u v w sp) = sp
expr_span (pipe u v sp) = sp
expr_span (call u v sp) = sp
expr_span (field u v sp) = sp
expr_span (index u v sp) = sp
expr_span (chain_field u v sp) = sp
expr_span (chain_method u v w sp) = sp
expr_span (try_expr u sp) = sp
expr_span (await u sp) = sp
expr_span (deref u sp) = sp
expr_span (borrow u v sp) = sp
expr_span (tuple u sp) = sp
expr_span (array u sp) = sp
expr_span (dict u sp) = sp
expr_span (anon_object u sp) = sp
expr_span (struct_lit u v sp) = sp
expr_span (lambda u v sp) = sp
expr_span (block_expr u sp) = sp
expr_span (if_expr u sp) = sp
expr_span (match_expr u v sp) = sp
expr_span (or_else u v sp) = sp
expr_span (as_expr u v sp) = sp
expr_span (short_decl u v sp) = sp
