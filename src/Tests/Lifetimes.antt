-- ===== src/Tests/Lifetimes.antt =====
-- Functions with `[lifetime …]` lists, after the unit tests of crates/core/src/sema/lifetime_check.rs.
use ubel_stratum.Common.{
  true, subst, false, [], List, ◌∷◌, ◌≡◌, ◌↔◌, inl, inr, refl, none, some, String, string_eq,
  contains, Among,
}
use ubel_stratum.Ast.{
  Ty, primitive, int, reference, optional, FunctionDecl, LifetimeParam, named_param, low,
  private_vis, Program, Item, function, end_block,
}
use ubel_stratum.Lifetimes.Cycles.{Edge, find_outlives_cycle}
use ubel_stratum.Lifetimes.Acyclic.{
  Outlives, IsLoop, Closed, find_outlives_cycle-eq-none, find_outlives_cycle-IsLoop,
}
use ubel_stratum.Lifetimes.Check.{
  undeclared_lifetime, outlives_cycle, duplicate_lifetime_param, check_type_lifetimes, check,
}
use ubel_stratum.Lifetimes.Mentions.{Mentions, Undeclared, check_type_lifetimes_exact}
use ubel_stratum.Lifetimes.Accepts.{ItemIsWellFormed, check-eq-nil}
use ubel_stratum.Tests.{at}

abbrev lifetime_l : LifetimeParam
lifetime_l = record { name = "L"; constraint = none; span = at 1 }

-- M where L outlives M
abbrev lifetime_m : LifetimeParam
lifetime_m = record {
  name = "M";
  constraint = some (record { longer = "L"; shorter = "M"; span = at 2 });
  span = at 2;
}

-- N where M outlives L
abbrev lifetime_n : LifetimeParam
lifetime_n = record {
  name = "N";
  constraint = some (record { longer = "M"; shorter = "L"; span = at 3 });
  span = at 3;
}

-- (&L int)?
abbrev ref_to : String → Ty
ref_to name = optional (reference false (some name) (primitive int (at 0)) (at 4)) (at 0)

abbrev with_lifetimes : List LifetimeParam → Ty → FunctionDecl
with_lifetimes params ty = record {
  tier = low;
  visibility = private_vis;
  is_async = false;
  name = "f";
  lifetime_params = params;
  params = named_param false "x" (some ty) none ∷ [];
  return_type = none;
  body = end_block;
  span = at 0;
}

accepted : check (function (with_lifetimes (lifetime_l ∷ (lifetime_m ∷ [])) (ref_to "M")) ∷ []) ≡ []
unfolding check
accepted = refl

undeclared :
    check (function (with_lifetimes (lifetime_l ∷ []) (ref_to "M")) ∷ [])
    ≡ undeclared_lifetime "M" (at 4) ∷ []
unfolding check
undeclared = refl

cyclic :
    check
      (function (with_lifetimes (lifetime_l ∷ (lifetime_m ∷ (lifetime_n ∷ []))) (ref_to "M")) ∷ [])
    ≡ outlives_cycle ("L" ∷ ("M" ∷ [])) (at 3) ∷ []
unfolding check
cyclic = refl

duplicated :
    check (function (with_lifetimes (lifetime_l ∷ (lifetime_l ∷ [])) (ref_to "L")) ∷ [])
    ≡ duplicate_lifetime_param "L" (at 1) (at 1) ∷ []
unfolding check
duplicated = refl

abbrev one_edge : List Edge
one_edge = ("L", "M", at 2) ∷ []

abbrev two_edges : List Edge
two_edges = ("L", "M", at 2) ∷ (("M", "L", at 3) ∷ [])

abbrev both_names : List String
both_names = "L" ∷ ("M" ∷ [])

one_edge-Closed : Closed both_names one_edge
unfolding contains
one_edge-Closed x y span (inl e) = subst (λ z. contains both_names z ≡ true) (λ i. (e i).1) refl
one_edge-Closed x y span (inr never) = elim never [ ]

find_outlives_cycle-eq-none_example :
    (find_outlives_cycle both_names one_edge ≡ none) ↔ ((x : String) → Outlives one_edge x x → ⊥)
find_outlives_cycle-eq-none_example =
    find_outlives_cycle-eq-none one_edge both_names one_edge-Closed

two_edges-Closed : Closed both_names two_edges
unfolding contains
two_edges-Closed x y span (inl e) = subst (λ z. contains both_names z ≡ true) (λ i. (e i).1) refl
two_edges-Closed x y span (inr (inl e)) =
    subst (λ z. contains both_names z ≡ true) (λ i. (e i).1) refl
two_edges-Closed x y span (inr (inr never)) = elim never [ ]

loop_found : find_outlives_cycle both_names two_edges ≡ some (both_names, at 3)
unfolding find_outlives_cycle
loop_found = refl

find_outlives_cycle-IsLoop_example : IsLoop two_edges both_names (at 3)
find_outlives_cycle-IsLoop_example =
    find_outlives_cycle-IsLoop two_edges both_names two_edges-Closed loop_found

check_type_lifetimes_exact_example :
    Among (undeclared_lifetime "M" (at 4)) (check_type_lifetimes ("L" ∷ []) (ref_to "M"))
    ↔ Undeclared (Mentions (ref_to "M")) ("L" ∷ []) (undeclared_lifetime "M" (at 4))
check_type_lifetimes_exact_example =
    check_type_lifetimes_exact ("L" ∷ []) (undeclared_lifetime "M" (at 4)) (ref_to "M")

abbrev two_functions : Program
two_functions =
    function (with_lifetimes (lifetime_l ∷ (lifetime_m ∷ [])) (ref_to "M"))
    ∷ (function (with_lifetimes (lifetime_l ∷ []) (ref_to "M")) ∷ [])

check-eq-nil_example :
    (check two_functions ≡ []) ↔ ((item : Item) → Among item two_functions → ItemIsWellFormed item)
check-eq-nil_example = check-eq-nil two_functions
