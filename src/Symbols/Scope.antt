-- ===== src/Symbols/Scope.antt =====
-- `Scope`: one flat map from names to definitions.
use ubel_stratum.Common.{
  ℕ, Bool, true, false, List, [], String, string_eq, Option, none, some, find, insert,
}

pub record Scope : Type 0 where
  pub bindings : List (String × ℕ)

unfoldable pub new : Scope
new = record { bindings = [] }

unfoldable pub define : String → ℕ → Scope → Scope
define name id s = record { bindings = insert name id s.bindings }

unfoldable pub get : String → Scope → Option ℕ
get name s = find name s.bindings

unfoldable pub contains : String → Scope → Bool
contains name s = elim (find name s.bindings) [ none ↦ false | some _ ↦ true ]
