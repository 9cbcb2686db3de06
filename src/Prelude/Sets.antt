-- ===== src/Prelude/Sets.antt =====
-- `std::set` of keys: a list without repetitions, whose order is immaterial.
use mathlib.Core.Path.{◌≡◌}
use mathlib.Core.Bool.{Bool, false, ◌||◌}
use mathlib.Core.List.{List, [], ◌∷◌}
use native.Mathlib.Omega.{arith}
use planning_service.Prelude.Tests.{if◌then◌else◌}
use planning_service.Prelude.Keys.{Key, same_key, same_key_iff}

module _ {ℓ} {K : Type ℓ} ⦃key : Key K⦄ where
  -- `set.count(k)`
  unfoldable pub contains : K → List K → Bool
  contains k [] = false
  contains k (j ∷ s) = same_key j k || contains k s

  -- `set.insert(k)`: nothing happens where the key is present.
  unfoldable pub insert : K → List K → List K
  insert k s = if contains k s then s else k ∷ s

  -- `set.erase(k)`
  unfoldable pub erase : K → List K → List K
  erase k [] = []
  erase k (j ∷ s) = let rest = erase k s in if same_key j k then rest else j ∷ rest

  pub contains-insert :
      (k j : K) (s : List K) → contains j (insert k s) ≡ (same_key k j || contains j s)
  unfolding insert contains
  contains-insert k j s = ground (arith, same_key_iff k j)

  pub contains-erase :
      (k j : K) (s : List K)
      → contains j (erase k s) ≡ (if same_key k j then false else contains j s)
  unfolding erase contains
  contains-erase k j [] = ground arith
  contains-erase k j (i ∷ s) =
      ground (arith, contains-erase k j s, same_key_iff i k, same_key_iff i j, same_key_iff k j)
