-- ===== src/Lifetimes/Cycles.antt =====
-- `find_outlives_cycle` and `dfs_find_cycle` of crates/core/src/sema/lifetime_check.rs.
-- `path` and `on_path` hold the same names and are popped before a call returns `None`, so they are
-- one argument; `visited` is handed on. A call makes further calls only after it has put a new name
-- into `visited`, which bounds the fuel. `names` is a hash set, visited here in the list's order.
use ubel_stratum.Common.{
  ℕ, zero, suc, true, false, List, [], ◌∷◌, ◌++◌, String, string_eq, ◌==◌, Option, none, some,
  contains, length, list_at, push_at, if◌then◌else◌,
}
use ubel_stratum.Ast.{Span}

-- `(longer, shorter, span)`
abbrev pub Edge : Type 0
Edge = String × String × Span

abbrev pub Graph : Type 0
Graph = List (String × List (String × Span))

-- A cycle, if one is found, and `visited`.
abbrev pub Answer : Type 0
Answer = Option (List String × Span) × List String

unfoldable pub adjacency : List Edge → Graph → Graph
unfolding push_at
adjacency [] adj = adj
adjacency ((from, to, span) ∷ edges) adj = adjacency edges (push_at from (to, span) adj)

-- `path[start_idx..]`, from the first position of the name.
unfoldable pub from_name : String → List String → List String
from_name name [] = []
from_name name (x ∷ xs) = if x == name then x ∷ xs else from_name name xs

-- `if let Some(found) = … { return Some(found); }`
unfoldable pub or_continue : Answer → (List String → Answer) → Answer
or_continue (some found, visited) rest = (some found, visited)
or_continue (none, visited) rest = rest visited

-- The loop over the neighbours, over the call that is made for each.
unfoldable pub visit_neighbors :
    (String → List String → List String → Answer)
    → List String
    → List (String × Span)
    → List String
    → Answer
unfolding from_name or_continue contains
visit_neighbors call path [] visited = (none, visited)
visit_neighbors call path ((next, span) ∷ rest) visited = elim (contains path next) [
  | true ↦ (some (from_name next path, span), visited)
  | false ↦ elim (contains visited next) [
    | true ↦ visit_neighbors call path rest visited
    | false ↦ or_continue (call next path visited) (λ v. visit_neighbors call path rest v)
  ]
]

unfoldable pub dfs_find_cycle : Graph → ℕ → String → List String → List String → Answer
unfolding visit_neighbors list_at
dfs_find_cycle adj zero node path visited = (none, visited)
dfs_find_cycle adj (suc fuel) node path visited =
    visit_neighbors (dfs_find_cycle adj fuel) (path ++ node ∷ []) (list_at node adj)
      (node ∷ visited)

unfoldable pub search_from : Graph → ℕ → List String → List String → Answer
unfolding dfs_find_cycle
search_from adj fuel [] visited = (none, visited)
search_from adj fuel (start ∷ names) visited = elim (contains visited start) [
  | true ↦ search_from adj fuel names visited
  | false ↦
      or_continue (dfs_find_cycle adj fuel start [] visited) (λ v. search_from adj fuel names v)
]

unfoldable pub find_outlives_cycle : List String → List Edge → Option (List String × Span)
unfolding adjacency search_from
find_outlives_cycle names edges = (search_from (adjacency edges []) (length names) names []).0
