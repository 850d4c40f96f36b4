-- ===== src/Symbols/Stack.antt =====
-- `ScopeStack`: the scopes that name resolution is in, the innermost first.
use ubel_stratum.Common.{
  ℕ, zero, suc, List, [], ◌∷◌, ◌≡◌, String, string_eq, ◌==◌, Option, none, some, length,
  if◌then◌else◌,
}
use ubel_stratum.Symbols.Scope
use ubel_stratum.Symbols.Scope.{Scope}

pub record ScopeStack : Type 0 where
  pub scopes : List Scope

unfoldable pub push : ScopeStack → ScopeStack
push s = record { scopes = Scope.new ∷ s.scopes }

unfoldable pub pop : ScopeStack → ScopeStack
pop s = record { scopes = elim s.scopes [ [] ↦ [] | _ ∷ rest ↦ rest ] }

-- The result and the stack after the call; `none` where the source panics, on an empty stack.
unfoldable pub define : String → ℕ → ScopeStack → Option (Option ℕ × ScopeStack)
define name id s = elim s.scopes [
  | [] ↦ none
  | scope ∷ rest ↦
      if Scope.contains name scope
      then some (Scope.get name scope, s)
      else some (none, record { scopes = Scope.define name id scope ∷ rest })
]

unfoldable pub resolve_in : String → List Scope → Option ℕ
resolve_in name [] = none
resolve_in name (scope ∷ rest) =
    let outer = resolve_in name rest in
    elim (Scope.get name scope) [ none ↦ outer | some id ↦ some id ]

unfoldable pub resolve : String → ScopeStack → Option ℕ
unfolding resolve_in
resolve name s = resolve_in name s.scopes

unfoldable pub depth : ScopeStack → ℕ
depth s = length s.scopes

-- What a name stands for in the scope at a depth, 0 the innermost.
unfoldable pub declared_in : List Scope → ℕ → String → Option ℕ
declared_in [] k x = none
declared_in (scope ∷ rest) zero x = Scope.get x scope
declared_in (scope ∷ rest) (suc k) x = declared_in rest k x

abbrev pub declared : ScopeStack → ℕ → String → Option ℕ
declared s k x = declared_in s.scopes k x

-- What one call of `define` does: either the name is in the innermost scope, and the call returns what
-- it stands for there and changes nothing; or the name is not in the innermost scope, whatever the
-- outer ones have, and it now is, while all other names of this scope and all names of the outer ones
-- are as before.
pub data Defined (name : String) (id : ℕ) (s : ScopeStack) : Option ℕ → ScopeStack → Type 0 where
  duplicate : (old : ℕ) → declared s 0 name ≡ some old → Defined name id s (some old) s
  entered :
      (s' : ScopeStack)
      → declared s 0 name ≡ none
      → ((x : String) → declared s' 0 x ≡ (if name == x then some id else declared s 0 x))
      → ((k : ℕ) (x : String) → declared s' (suc k) x ≡ declared s (suc k) x)
      → ((x : String) → resolve x s' ≡ (if name == x then some id else resolve x s))
      → depth s' ≡ depth s
      → Defined name id s none s'

-- What name resolution does to the stack between entering a scope and leaving it: it defines names,
-- and enters and leaves further scopes.
pub data Balanced : ScopeStack → ScopeStack → Type 0 where
  stay : {s : ScopeStack} → Balanced s s
  defining :
      {s s' s'' : ScopeStack} (name : String) (id : ℕ) (old : Option ℕ)
      → Balanced s s'
      → define name id s' ≡ some (old, s'')
      → Balanced s s''
  nested : {s s' s'' : ScopeStack} → Balanced s s' → Balanced (push s') s'' → Balanced s (pop s'')
