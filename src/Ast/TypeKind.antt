-- ===== src/Ast/TypeKind.antt =====
-- crates/core/src/ast/types.rs.
use ubel_stratum.Common.{ℕ, Bool, List, Option, String}
use ubel_stratum.Ast.Base.{Span}

pub data Primitive : Type 0 where
  int uint long ulong short ushort byte ubyte float double : Primitive
  bool char str void i8 i16 i32 i64 u8 u16 u32 u64 f32 f64 isize usize : Primitive

-- A container's `Option<&Type>` is a list of no type or of one; `Types` also serves the slices.
mutual
  pub data Ty : Type 0 where
    primitive : Primitive → Span → Ty
    list_ty set_ty queue_ty stack_ty inline_list_ty task : Types → Span → Ty
    dictionary_ty : Types → Span → Ty
    named : List String → Types → Span → Ty
    tuple_ty : Types → Span → Ty
    array_ty : ℕ → Ty → Span → Ty
    slice fallible optional : Ty → Span → Ty
    reference : Bool → Option String → Ty → Span → Ty
    function_ty : Types → Types → Bool → Span → Ty
    infer : Span → Ty

  pub data Types : Type 0 where
    none_ty : Types
    cons_ty : Ty → Types → Types
