-- ===== src/Symbols/Scoping.antt =====
-- Lexical scoping: what `define` changes, and that leaving a scope undoes what happened in it.
use ubel_stratum.Common.{
  ℕ, ◌<◌, List, ◌∷◌, ◌≡◌, refl, inl, inr, arith, String, string_eq, ◌==◌, Option, none, some,
  if◌then◌else◌, find, find-insert, Option-cases, List-cases, ◌∙◌, sym, subst, ap, Bool-cases,
}
use mathlib.Core.Option.{some_inj}
use ubel_stratum.Symbols.Scope
use ubel_stratum.Symbols.Scope.{Scope}
use ubel_stratum.Symbols.Stack.{
  ScopeStack, push, pop, define, resolve, resolve_in, depth, Defined, duplicate, entered, Balanced,
  stay, defining, nested, declared_in,
}

resolve-define :
    (name x : String) (id : ℕ) (scope : Scope) (rest : List Scope)
    → resolve x (record { scopes = Scope.define name id scope ∷ rest })
      ≡ (if name == x then some id else resolve x (record { scopes = scope ∷ rest }))
unfolding resolve Scope.get Scope.define resolve_in
resolve-define name x id scope rest = elim (Bool-cases (name == x)) [
  | inl same ↦
      rw (find-insert name x id scope.bindings, resolve, resolve_in, Scope.get, Scope.define, same)
        refl
  | inr other ↦
      rw (find-insert name x id scope.bindings, resolve, resolve_in, Scope.get, Scope.define, other)
        refl
]

define_scopes :
    (name : String) (id : ℕ) (scope : Scope) (rest : List Scope)
    → (r : Option ℕ × ScopeStack) × (define name id (record { scopes = scope ∷ rest }) ≡ some r)
      × Defined name id (record { scopes = scope ∷ rest }) r.0 r.1
unfolding define depth Scope.contains Scope.define Scope.get declared_in
define_scopes name id scope rest = elim (Option-cases (find name scope.bindings)) [
  | inl fresh ↦ (
    (none, record { scopes = Scope.define name id scope ∷ rest }),
    rw (fresh, define, Scope.contains) refl,
    entered _ fresh (λ x. find-insert name x id scope.bindings) (λ k x. refl)
        (λ x. resolve-define name x id scope rest) refl,
  )
  | inr (old, k) ↦ (
    (some old, record { scopes = scope ∷ rest }),
    rw (k, define, Scope.contains, Scope.get) refl,
    duplicate old k,
  )
]

-- On a stack that is not empty, `define` returns. If the innermost scope has the name, it returns what
-- the name stands for there and changes nothing. If not, even if an outer scope has the name, it enters
-- the name into the innermost scope: there that name, and no other, changes, the outer scopes keep all
-- their names, and `resolve` finds the new definition for the name and the old ones for all others.
pub define-Defined :
    (name : String) (id : ℕ) (s : ScopeStack)
    → 0 < depth s
    → (r : Option ℕ × ScopeStack) × (define name id s ≡ some r) × Defined name id s r.0 r.1
unfolding depth
define-Defined name id s h = elim (List-cases s.scopes) [
  | inl empty ↦ absurd (ground arith)
  | inr (scope, rest, e) ↦
      subst
        (λ (ss : List Scope).
          (r : Option ℕ × ScopeStack) × (define name id (record { scopes = ss }) ≡ some r)
          × Defined name id (record { scopes = ss }) r.0 r.1)
        (sym e) (define_scopes name id scope rest)
]

pop-define :
    (name : String) (id : ℕ) (s s' : ScopeStack) (old : Option ℕ)
    → define name id s ≡ some (old, s')
    → pop s' ≡ pop s
unfolding define pop
pop-define name id s s' old e = elim (List-cases s.scopes) [
  | inl empty ↦ absurd (cc (rw empty at e))
  | inr (scope, rest, k) ↦ elim (Bool-cases (Scope.contains name scope)) [
    | inl here ↦
        ap (λ (r : Option ℕ × ScopeStack). pop r.1) (sym (some_inj.0 (rw (k, here) at e)))
        ∙ rw k refl
    | inr gone ↦
        ap (λ (r : Option ℕ × ScopeStack). pop r.1) (sym (some_inj.0 (rw (k, gone) at e)))
        ∙ rw k refl
  ]
]

pop-kept : (s s' : ScopeStack) → Balanced s s' → pop s' ≡ pop s
unfolding pop push
pop-kept s _ stay = refl
pop-kept s s' (defining {s' = t} name id old k e) = pop-define name id t s' old e ∙ pop-kept s t k
pop-kept s _ (nested {s' = t} {s'' = u} k l) = ap pop (pop-kept (push t) u l) ∙ pop-kept s t k

-- Whatever is done in a scope, leaving it gives the stack as it was before entering.
pub pop-Balanced : (s s' : ScopeStack) → Balanced (push s) s' → pop s' ≡ s
unfolding pop push
pop-Balanced s s' k = pop-kept (push s) s' k
