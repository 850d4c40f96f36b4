-- ===== src/Common.antt =====
-- The names that the other modules share: the libraries', passed on, and those of the children.
mod Tests
mod Lists
mod Maps
pub use Tests.*
pub use Lists.{
  length, is_empty, get_or, get_elem?, modify, length-append, length-modify, contains-append,
  contains-cons, contains-nil, contains_head, missing-le-length, missing_mono, missing_cons,
  missing_insert, contains-below, length-below, get_or-out_of_range, Among, Among-append,
  contains-Among, eq_nil_iff_no_Among,
}
unfoldable pub use Lists.{contains, missing, below}
pub use Maps.{find-insert, list_at-push_at, list_at-insert}
unfoldable pub use Maps.{find, insert, list_at, push_at}
pub use Prim.Native.Nat.{ℕ, zero, suc, ◌+◌, ◌-◌, ◌*◌, ◌%◌, ◌^◌, ◌≤◌, ◌<◌}
pub use Prim.Native.String.{String}
pub use mathlib.Core.Path.{◌≡◌, refl, subst, sym, ap, ◌∙◌}
pub use mathlib.Core.Logic.{◌≢◌, ◌↔◌, ◌⊎◌, inl, inr}
pub use mathlib.Core.Bool.{Bool, true, false, not, ◌&&◌, ◌||◌}
pub use mathlib.Core.Option.{Option, none, some}
pub use mathlib.Core.List.{List, [], ◌∷◌, ◌++◌, map, reverse, foldl}
pub use native.Mathlib.Omega.{arith}
