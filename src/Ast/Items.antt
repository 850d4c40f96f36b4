-- ===== src/Ast/Items.antt =====
-- crates/core/src/ast/declarations.rs and root.rs, and the lifetime parameters of common.rs: what the
-- modelled passes read of an item. Attributes and generic parameters are left out.
use ubel_stratum.Common.{Bool, List, Option, String}
use ubel_stratum.Ast.Base.{TierAnnotation, Visibility, Span}
use ubel_stratum.Ast.TypeKind.{Ty}
use ubel_stratum.Ast.Syntax.{Expr, Stmts}

-- `longer outlives shorter`.
pub record LifetimeConstraint : Type 0 where
  pub longer : String
  pub shorter : String
  pub span : Span

pub record LifetimeParam : Type 0 where
  pub name : String
  pub constraint : Option LifetimeConstraint
  pub span : Span

-- A named parameter: whether it is mutable, its name, its type and its default.
pub data ParamKind : Type 0 where
  named_param : Bool → String → Option Ty → Option Expr → ParamKind
  discard : Option Ty → ParamKind
  self_val self_mut self_ref self_ref_mut : ParamKind

pub record ReturnType : Type 0 where
  pub ty : Ty
  pub is_fallible : Bool

pub record MethodDecl : Type 0 where
  pub name : String
  pub params : List ParamKind

pub record FunctionDecl : Type 0 where
  pub tier : TierAnnotation
  pub visibility : Visibility
  pub is_async : Bool
  pub name : String
  pub lifetime_params : List LifetimeParam
  pub params : List ParamKind
  pub return_type : Option ReturnType
  pub body : Stmts
  pub span : Span

pub record FieldDecl : Type 0 where
  pub visibility : Visibility
  pub name : String
  pub ty : Ty
  pub span : Span

pub data StructMember : Type 0 where
  field_member : FieldDecl → StructMember
  method_member : MethodDecl → StructMember
  property_member : StructMember

pub record StructDecl : Type 0 where
  pub visibility : Visibility
  pub is_edge : Bool
  pub name : String
  pub lifetime_params : List LifetimeParam
  pub members : List StructMember
  pub span : Span

pub data Item : Type 0 where
  function : FunctionDecl → Item
  struct_item : StructDecl → Item
  impl_item extend_item : List MethodDecl → Item
  enum_item trait_item const_item static_item type_alias : Item

abbrev pub Program : Type 0
Program = List Item
