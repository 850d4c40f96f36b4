-- ===== src/Common/Maps.antt =====
-- `HashMap` as an association list: `insert` replaces, `entry(…).or_default().push(…)` appends.
use mathlib.Core.Path.{◌≡◌, refl}
use mathlib.Core.List.{List, [], ◌∷◌, ◌++◌}
use mathlib.Core.Option.{Option, none, some}
use native.Mathlib.Omega.{arith}
use ubel_stratum.Common.Tests.{Eq, ◌==◌, if◌then◌else◌}

module _ {ℓ κ} {K : Type ℓ} {V : Type κ} ⦃e : Eq K⦄ where
  unfoldable pub find : K → List (K × V) → Option V
  find k [] = none
  find k ((j, v) ∷ m) = if j == k then some v else find k m

  unfoldable pub insert : K → V → List (K × V) → List (K × V)
  insert k v [] = (k, v) ∷ []
  insert k v ((j, w) ∷ m) = if j == k then (k, v) ∷ m else (j, w) ∷ insert k v m

  pub find-insert :
      (k j : K) (v : V) (m : List (K × V))
      → find j (insert k v m) ≡ (if k == j then some v else find j m)
  unfolding find insert
  find-insert k j v [] = refl
  find-insert k j v ((i, w) ∷ m) =
      ground (arith, e.equal_iff k j, e.equal_iff i k, e.equal_iff i j, find-insert k j v m)

-- The list at a key; a missing key has none.
module _ {ℓ κ} {K : Type ℓ} {V : Type κ} ⦃e : Eq K⦄ where
  unfoldable pub list_at : K → List (K × List V) → List V
  list_at k [] = []
  list_at k ((j, v) ∷ m) = if j == k then v else list_at k m

  unfoldable pub push_at : K → V → List (K × List V) → List (K × List V)
  push_at k v [] = (k, v ∷ []) ∷ []
  push_at k v ((j, w) ∷ m) = if j == k then (j, w ++ v ∷ []) ∷ m else (j, w) ∷ push_at k v m

  pub list_at-push_at :
      (k j : K) (v : V) (m : List (K × List V))
      → list_at j (push_at k v m) ≡ (if k == j then list_at j m ++ v ∷ [] else list_at j m)
  unfolding list_at push_at
  list_at-push_at k j v [] = refl
  list_at-push_at k j v ((i, w) ∷ m) =
      ground (arith, e.equal_iff k j, e.equal_iff i k, e.equal_iff i j, list_at-push_at k j v m)

  pub list_at-insert :
      (k j : K) (vs : List V) (m : List (K × List V))
      → list_at j (insert k vs m) ≡ (if k == j then vs else list_at j m)
  unfolding list_at insert
  list_at-insert k j vs [] = refl
  list_at-insert k j vs ((i, w) ∷ m) =
      ground (arith, e.equal_iff k j, e.equal_iff i k, e.equal_iff i j, list_at-insert k j vs m)
