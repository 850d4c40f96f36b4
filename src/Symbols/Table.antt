-- ===== src/Symbols/Table.antt =====
-- `SymbolTable`: a list of definitions, each under its own index.
use ubel_stratum.Common.{
  ℕ, zero, suc, ◌+◌, ◌<◌, Bool, List, [], ◌∷◌, ◌++◌, ◌≡◌, refl, arith, String, Option, some, length,
  length-append, get_elem?, if◌then◌else◌, nat_beq, Bool-cases, inl, inr, ◌∙◌, subst,
}
use mathlib.Core.Option.{some_inj}
use ubel_stratum.Ast.{Span, Visibility, TierAnnotation}

pub data DefKind : Type 0 where
  builtin_type : DefKind
  function : TierAnnotation → Bool → DefKind
  struct_def : Bool → DefKind
  enum_def trait_def type_alias : DefKind
  field variant : ℕ → DefKind
  method : ℕ → TierAnnotation → DefKind
  param : ℕ → DefKind
  local_def : Bool → DefKind
  const static : DefKind
  type_param lifetime_param : ℕ → DefKind
  import : List String → DefKind
  builtin : DefKind

pub record Def : Type 0 where
  pub id : ℕ
  pub name : String
  pub kind : DefKind
  pub defined_at : Span
  pub visibility : Visibility

pub record SymbolTable : Type 0 where
  pub defs : List Def

unfoldable pub new : SymbolTable
new = record { defs = [] }

unfoldable pub insert : String → DefKind → Span → Visibility → SymbolTable → ℕ × SymbolTable
insert name kind defined_at visibility t =
    let id = length t.defs in
    let d : Def = record {
      id = id;
      name = name;
      kind = kind;
      defined_at = defined_at;
      visibility = visibility;
    } in
    (id, record { defs = t.defs ++ d ∷ [] })

-- `none` where the source panics.
unfoldable pub lookup : ℕ → SymbolTable → Option Def
lookup id t = get_elem? t.defs id

unfoldable pub len : SymbolTable → ℕ
len t = length t.defs

-- What is stored at an index carries that index, and the indices in range are those of `len`.
pub record IsIndexed (t : SymbolTable) : Type 0 where
  pub own : (i : ℕ) (d : Def) → lookup i t ≡ some d → d.id ≡ i
  pub full : (i : ℕ) → i < len t → (d : Def) × (lookup i t ≡ some d)

get_elem?-append :
    (ds : List Def) (d : Def) (i : ℕ)
    → get_elem? (ds ++ d ∷ []) i ≡ (if nat_beq i (length ds) then some d else get_elem? ds i)
get_elem?-append [] d zero = refl
get_elem?-append [] d (suc i) = ground arith
get_elem?-append (x ∷ ds) d zero = ground arith
get_elem?-append (x ∷ ds) d (suc i) = ground (arith, get_elem?-append ds d i)

-- The empty table is indexed.
pub new-IsIndexed : IsIndexed new
unfolding new lookup len
new-IsIndexed = record { own = λ i d e. absurd (cc e); full = λ i h. elim h [ ] }

module _ (name : String) (kind : DefKind) (at : Span) (vis : Visibility) (t : SymbolTable) where
  -- What `insert` enters.
  abbrev pub entry : Def
  entry = record { id = len t; name = name; kind = kind; defined_at = at; visibility = vis }

  -- `insert` returns an identifier under which `lookup` finds the definition as given, finds every
  -- other identifier as before, and makes the table one longer.
  pub lookup-insert :
      (i : ℕ)
      → (lookup (insert name kind at vis t).0 (insert name kind at vis t).1 ≡ some entry)
        × (lookup i (insert name kind at vis t).1
            ≡ (if nat_beq i (insert name kind at vis t).0 then some entry else lookup i t))
        × (len (insert name kind at vis t).1 ≡ len t + 1)
  unfolding insert lookup len
  lookup-insert i = (
    get_elem?-append t.defs entry (length t.defs) ∙ ground arith,
    get_elem?-append t.defs entry i,
    length-append t.defs (entry ∷ []),
  )

  -- `insert` keeps a table indexed: every definition carries the index it stands at, and no index
  -- below `len` is missing.
  pub insert-IsIndexed : IsIndexed t → IsIndexed (insert name kind at vis t).1
  unfolding insert lookup len
  insert-IsIndexed w = record {
    own = λ i d e. elim (Bool-cases (nat_beq i (length t.defs))) [
      | inl last ↦
          subst (λ (x : Def). x.id ≡ i)
            (some_inj.0 (rw (get_elem?-append t.defs entry i, last) at e)) (ground arith)
      | inr old ↦ w.own i d (rw (get_elem?-append t.defs entry i, old) at e)
    ];
    full = λ i h. elim (Bool-cases (nat_beq i (length t.defs))) [
      | inl last ↦ (entry, get_elem?-append t.defs entry i ∙ rw last refl)
      | inr old ↦
          let count = length-append t.defs (entry ∷ []) in
          let (d, e) = w.full i (ground arith) in (d, get_elem?-append t.defs entry i ∙ rw old e)
    ];
  }
