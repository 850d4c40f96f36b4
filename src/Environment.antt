-- ===== src/Environment.antt =====
-- crates/core/src/interpreter/env.rs: the lexical environment of the interpreter, the innermost scope
-- first. The interpreter's values (crates/core/src/interpreter/value.rs) are a parameter.
pub mod Variables
mod Tests
use ubel_stratum.Common.{
  ℕ, Bool, true, false, List, [], ◌∷◌, String, string_eq, Option, none, some, length, find, insert,
}

module _ (Value : Type 0) where
  pub record Environment : Type 0 where
    pub scopes : List (List (String × Value))

module _ {Value : Type 0} where
  unfoldable pub push : Environment Value → Environment Value
  push e = record { scopes = [] ∷ e.scopes }

  unfoldable pub pop : Environment Value → Environment Value
  pop e = record { scopes = elim e.scopes [ [] ↦ [] | _ ∷ rest ↦ rest ] }

  unfoldable pub new : Environment Value
  unfolding push
  new = push (record { scopes = [] })

  -- With no scope, nothing is defined.
  unfoldable pub define : String → Value → Environment Value → Environment Value
  define name value e = record {
    scopes = elim e.scopes [ [] ↦ [] | s ∷ rest ↦ insert name value s ∷ rest ];
  }

  unfoldable pub get_in : String → List (List (String × Value)) → Option Value
  get_in name [] = none
  get_in name (s ∷ rest) =
      let outer = get_in name rest in elim (find name s) [ none ↦ outer | some v ↦ some v ]

  unfoldable pub get : String → Environment Value → Option Value
  get name e = get_in name e.scopes

  -- The scopes with the value put into the first of them that has the name, and whether one has.
  unfoldable pub set_in :
      String → Value → List (List (String × Value)) → Bool × List (List (String × Value))
  set_in name value [] = (false, [])
  set_in name value (s ∷ rest) =
      let outer = set_in name value rest in
      elim (find name s) [
        | none ↦ (outer.0, s ∷ outer.1)
        | some _ ↦ (true, insert name value s ∷ rest)
      ]

  unfoldable pub set : String → Value → Environment Value → Bool × Environment Value
  set name value e =
      ((set_in name value e.scopes).0, record { scopes = (set_in name value e.scopes).1 })

  unfoldable pub depth : Environment Value → ℕ
  depth e = length e.scopes
