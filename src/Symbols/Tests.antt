-- ===== src/Symbols/Tests.antt =====
-- A table of two definitions, and a scope in which one of them is shadowed.
use ubel_stratum.Common.{
  ℕ, suc, zero, ◌+◌, [], ◌∷◌, ◌<◌, ◌≡◌, refl, arith, String, Option, none, some, nat_beq,
  if◌then◌else◌,
}
use ubel_stratum.Ast.{Span, public_vis}
use ubel_stratum.Symbols.Table
use ubel_stratum.Symbols.Table.{
  SymbolTable, IsIndexed, lookup-insert, new-IsIndexed, insert-IsIndexed,
}
use ubel_stratum.Symbols.Scope
use ubel_stratum.Symbols.Stack.{
  ScopeStack, push, pop, define, depth, Defined, Balanced, stay, defining,
}
use ubel_stratum.Symbols.Scoping.{define-Defined, pop-Balanced}

abbrev nowhere : Span
nowhere = record { start = 0; end = 0; line = 0; column = 0 }

abbrev one : SymbolTable
one = (Table.insert "f" Table.enum_def nowhere public_vis Table.new).1

lookup-insert_example :
    (Table.lookup
        (Table.insert "g" Table.const nowhere public_vis one).0
        (Table.insert "g" Table.const nowhere public_vis one).1
      ≡ some (Table.entry "g" Table.const nowhere public_vis one))
    × (Table.lookup 0 (Table.insert "g" Table.const nowhere public_vis one).1 ≡ (
        if nat_beq 0 (Table.insert "g" Table.const nowhere public_vis one).0
        then some (Table.entry "g" Table.const nowhere public_vis one)
        else Table.lookup 0 one))
    × (Table.len (Table.insert "g" Table.const nowhere public_vis one).1 ≡ Table.len one + 1)
lookup-insert_example = lookup-insert "g" Table.const nowhere public_vis one 0

insert-IsIndexed_example : IsIndexed one
insert-IsIndexed_example =
    insert-IsIndexed "f" Table.enum_def nowhere public_vis Table.new new-IsIndexed

abbrev outer : ScopeStack
outer = record { scopes = record { bindings = ("x", 3) ∷ [] } ∷ [] }

not_empty : 0 < depth outer
unfolding depth
not_empty = omega arith

-- `x` shadowed in a scope of its own.
abbrev inner : ScopeStack
inner = record { scopes = record { bindings = ("x", 4) ∷ [] } ∷ outer.scopes }

shadowing : define "x" 4 (push outer) ≡ some (none, inner)
unfolding define push Scope.contains Scope.define Scope.new ubel_stratum.Common.find
    ubel_stratum.Common.insert
shadowing = refl

inner_reached : Balanced (push outer) inner
inner_reached = defining "x" 4 none stay shadowing

define-Defined_example :
    (r : Option ℕ × ScopeStack) × (define "y" 7 outer ≡ some r) × Defined "y" 7 outer r.0 r.1
define-Defined_example = define-Defined "y" 7 outer not_empty

pop-Balanced_example : pop inner ≡ outer
pop-Balanced_example = pop-Balanced outer inner inner_reached
