-- ===== src/Lifetimes/Check.antt =====
-- The rest of crates/core/src/sema/lifetime_check.rs: the checks of one declaration, of the types in
-- it, and of the items of a program. `declared` is a hash set, here in the order of the declaration.
use ubel_stratum.Common.{
  List, [], ◌∷◌, ◌++◌, ◌&&◌, String, string_eq, ◌==◌, Option, none, some, contains, find, insert,
  if◌then◌else◌,
}
use ubel_stratum.Ast.{
  Span, Ty, Types, primitive, list_ty, set_ty, queue_ty, stack_ty, inline_list_ty, task,
  dictionary_ty, named, tuple_ty, array_ty, slice, fallible, optional, reference, function_ty,
  infer, none_ty, cons_ty, LifetimeConstraint, LifetimeParam, ParamKind, named_param, discard,
  self_val, self_mut, self_ref, self_ref_mut, ReturnType, FunctionDecl, StructMember, field_member,
  method_member, property_member, StructDecl, Item, function, struct_item, impl_item, extend_item,
  enum_item, trait_item, const_item, static_item, type_alias, Program,
}
use ubel_stratum.Lifetimes.Cycles.{Edge, find_outlives_cycle}

pub data LifetimeError : Type 0 where
  duplicate_lifetime_param : (name : String) (first_span dup_span : Span) → LifetimeError
  undeclared_lifetime : (name : String) (span : Span) → LifetimeError
  outlives_cycle : (names : List String) (span : Span) → LifetimeError

-- `first_seen` after the first loop, and the errors of the loop.
unfoldable pub scan_names :
    List LifetimeParam → List (String × Span) → List (String × Span) × List LifetimeError
unfolding find insert
scan_names [] first_seen = (first_seen, [])
scan_names (p ∷ params) first_seen = elim (find p.name first_seen) [
  | some first_span ↦
      let rest = scan_names params first_seen in
      (rest.0, duplicate_lifetime_param p.name first_span p.span ∷ rest.1)
  | none ↦ scan_names params (insert p.name p.span first_seen)
]

unfoldable pub keys : List (String × Span) → List String
keys [] = []
keys ((k, span) ∷ m) = k ∷ keys m

abbrev pub names_to_check : LifetimeConstraint → List String
names_to_check c = if c.shorter == c.longer then c.longer ∷ [] else c.longer ∷ (c.shorter ∷ [])

unfoldable pub check_names : List String → Span → List String → List LifetimeError
unfolding contains
check_names declared span [] = []
check_names declared span (name ∷ names) =
    if contains declared name
    then check_names declared span names
    else undeclared_lifetime name span ∷ check_names declared span names

unfoldable pub edge_of : List String → LifetimeConstraint → List Edge
unfolding contains
edge_of declared c =
    if contains declared c.longer && contains declared c.shorter
    then (c.longer, c.shorter, c.span) ∷ []
    else []

-- The second loop: its edges and its errors.
unfoldable pub scan_constraints : List String → List LifetimeParam → List Edge × List LifetimeError
unfolding check_names edge_of
scan_constraints declared [] = ([], [])
scan_constraints declared (p ∷ params) =
    let rest = scan_constraints declared params in
    elim p.constraint [
      | none ↦ rest
      | some c ↦
          (edge_of declared c ++ rest.0, check_names declared c.span (names_to_check c) ++ rest.1)
    ]

unfoldable pub cycle_errors : Option (List String × Span) → List LifetimeError
cycle_errors none = []
cycle_errors (some (cycle, span)) = outlives_cycle cycle span ∷ []

-- The declared names, and the errors.
unfoldable pub check_declaration_well_formed : List LifetimeParam → List String × List LifetimeError
unfolding scan_names keys scan_constraints find_outlives_cycle cycle_errors
check_declaration_well_formed params =
    let seen = scan_names params [] in
    let declared = keys seen.0 in
    let scanned = scan_constraints declared params in
    (declared, seen.1 ++ (scanned.1 ++ cycle_errors (find_outlives_cycle declared scanned.0)))

unfoldable pub check_lifetime_name : List String → Option String → Span → List LifetimeError
unfolding contains
check_lifetime_name declared none span = []
check_lifetime_name declared (some name) span =
    if contains declared name then [] else undeclared_lifetime name span ∷ []

unfoldable mutual
  unfolding check_lifetime_name

  pub check_type_lifetimes : List String → Ty → List LifetimeError
  check_type_lifetimes declared (primitive p span) = []
  check_type_lifetimes declared (list_ty t span) = check_types declared t
  check_type_lifetimes declared (set_ty t span) = check_types declared t
  check_type_lifetimes declared (queue_ty t span) = check_types declared t
  check_type_lifetimes declared (stack_ty t span) = check_types declared t
  check_type_lifetimes declared (inline_list_ty t span) = check_types declared t
  check_type_lifetimes declared (task t span) = check_types declared t
  check_type_lifetimes declared (dictionary_ty kv span) = check_types declared kv
  check_type_lifetimes declared (named path args span) = check_types declared args
  check_type_lifetimes declared (tuple_ty elems span) = check_types declared elems
  check_type_lifetimes declared (array_ty n elem span) = check_type_lifetimes declared elem
  check_type_lifetimes declared (slice t span) = check_type_lifetimes declared t
  check_type_lifetimes declared (fallible t span) = check_type_lifetimes declared t
  check_type_lifetimes declared (optional t span) = check_type_lifetimes declared t
  check_type_lifetimes declared (reference mutable lifetime inner span) =
      check_lifetime_name declared lifetime span ++ check_type_lifetimes declared inner
  check_type_lifetimes declared (function_ty params return_type is_async span) =
      check_types declared params ++ check_types declared return_type
  check_type_lifetimes declared (infer span) = []

  pub check_types : List String → Types → List LifetimeError
  check_types declared none_ty = []
  check_types declared (cons_ty t ts) = check_type_lifetimes declared t ++ check_types declared ts

unfoldable pub check_optional : List String → Option Ty → List LifetimeError
unfolding check_type_lifetimes
check_optional declared none = []
check_optional declared (some t) = check_type_lifetimes declared t

abbrev pub param_type : ParamKind → Option Ty
param_type (named_param is_mut name ty default) = ty
param_type (discard ty) = ty
param_type self_val = none
param_type self_mut = none
param_type self_ref = none
param_type self_ref_mut = none

unfoldable pub check_params : List String → List ParamKind → List LifetimeError
unfolding check_optional
check_params declared [] = []
check_params declared (p ∷ params) =
    check_optional declared (param_type p) ++ check_params declared params

unfoldable pub check_return : List String → Option ReturnType → List LifetimeError
unfolding check_type_lifetimes
check_return declared none = []
check_return declared (some rt) = check_type_lifetimes declared rt.ty

unfoldable pub check_function : FunctionDecl → List LifetimeError
unfolding check_declaration_well_formed check_params check_return
check_function f =
    let (declared, errors) = check_declaration_well_formed f.lifetime_params in
    errors ++ (check_params declared f.params ++ check_return declared f.return_type)

unfoldable pub check_members : List String → List StructMember → List LifetimeError
unfolding check_type_lifetimes
check_members declared [] = []
check_members declared (field_member field ∷ members) =
    check_type_lifetimes declared field.ty ++ check_members declared members
check_members declared (method_member m ∷ members) = check_members declared members
check_members declared (property_member ∷ members) = check_members declared members

unfoldable pub check_struct : StructDecl → List LifetimeError
unfolding check_declaration_well_formed check_members
check_struct s =
    let (declared, errors) = check_declaration_well_formed s.lifetime_params in
    errors ++ check_members declared s.members

unfoldable pub check_item : Item → List LifetimeError
unfolding check_function check_struct
check_item (function f) = check_function f
check_item (struct_item s) = check_struct s
check_item (impl_item methods) = []
check_item (extend_item methods) = []
check_item enum_item = []
check_item trait_item = []
check_item const_item = []
check_item static_item = []
check_item type_alias = []

unfoldable pub check : Program → List LifetimeError
unfolding check_item
check [] = []
check (item ∷ items) = check_item item ++ check items
