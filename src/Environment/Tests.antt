-- ===== src/Environment/Tests.antt =====
-- An environment with a variable in its outer scope.
use ubel_stratum.Common.{
  ℕ, [], ◌∷◌, ◌≡◌, ◌<◌, arith, some, String, string_eq, ◌==◌, ◌&&◌, if◌then◌else◌,
}
use ubel_stratum.Environment.{Environment, define, get, set, depth}
use ubel_stratum.Environment.Variables.{bound, Assigned, Puts, get-set, get-define}

abbrev two_scopes : Environment ℕ
two_scopes = record { scopes = [] ∷ (("x", 3) ∷ []) ∷ [] }

abbrev known : String
known = "x"

abbrev other : String
other = "y"

in_scope : 0 < depth two_scopes
unfolding depth
in_scope = omega arith

get-set_example :
    Assigned known 5 two_scopes.scopes (set known 5 two_scopes).0 (set known 5 two_scopes).1.scopes
    × ((set known 5 two_scopes).0 ≡ bound (get known two_scopes))
    × (get other (set known 5 two_scopes).1
        ≡ (if known == other && bound (get known two_scopes) then some 5 else get other two_scopes))
    × (depth (set known 5 two_scopes).1 ≡ depth two_scopes)
get-set_example = get-set known other 5 two_scopes

get-define_example :
    Puts 0 known 7 two_scopes.scopes (define known 7 two_scopes).scopes
    × (get known (define known 7 two_scopes)
        ≡ (if known == known then some 7 else get known two_scopes))
    × (depth (define known 7 two_scopes) ≡ depth two_scopes)
get-define_example = get-define known known 7 two_scopes in_scope
