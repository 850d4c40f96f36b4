-- ===== src/Ast/Base.antt =====
-- crates/core/src/ast/common.rs, and `Span` and `IntSuffix` of crates/core/src/lexer/token.rs.
use ubel_stratum.Common.{ℕ, Bool, true, false}

pub record Span : Type 0 where
  pub start : ℕ
  pub end : ℕ
  pub line : ℕ
  pub column : ℕ

pub data Visibility : Type 0 where
  private_vis public_vis : Visibility

pub data TierAnnotation : Type 0 where
  high mid low : TierAnnotation

abbrev pub is_low : TierAnnotation → Bool
is_low low = true
is_low _ = false

pub data BinOp : Type 0 where
  add sub mul div rem : BinOp
  bit_and bit_or bit_xor shl shr : BinOp
  eq ne lt le gt ge : BinOp
  and or range range_incl : BinOp

pub data UnaryOp : Type 0 where
  neg bit_not not await_op : UnaryOp

pub data AssignOp : Type 0 where
  assign add_assign sub_assign mul_assign div_assign rem_assign : AssignOp
  bit_and_assign bit_or_assign bit_xor_assign shl_assign shr_assign : AssignOp

pub data IntSuffix : Type 0 where
  i8 i16 i32 i64 u8 u16 u32 u64 isize usize : IntSuffix
