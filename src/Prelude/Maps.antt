-- ===== src/Prelude/Maps.antt =====
-- `std::map`: an association list in which no key stands twice, whose order is immaterial.
use mathlib.Core.Path.{◌≡◌, refl}
use mathlib.Core.Bool.{Bool, true, false, ◌||◌}
use mathlib.Core.List.{List, [], ◌∷◌}
use mathlib.Core.Option.{Option, none, some}
use Prim.Native.Nat.{suc}
use native.Mathlib.Omega.{arith}
use planning_service.Prelude.Tests.{if◌then◌else◌, Option-cases}
use planning_service.Prelude.Lists.{length}
use mathlib.Core.Logic.{inl, inr}
use planning_service.Prelude.Keys.{Key, same_key, same_key_iff}

module _ {ℓ κ} {K : Type ℓ} {V : Type κ} ⦃key : Key K⦄ where
  -- `map.count(k)`
  unfoldable pub has_key : K → List (K × V) → Bool
  has_key k [] = false
  has_key k ((j, v) ∷ m) = same_key j k || has_key k m

  -- `map.at(k)`: `none` where the source's `at` throws.
  unfoldable pub lookup : K → List (K × V) → Option V
  lookup k [] = none
  lookup k ((j, v) ∷ m) = if same_key j k then some v else lookup k m

  -- `map.emplace(k, v)`: nothing happens where the key is present.
  unfoldable pub emplace : K → V → List (K × V) → List (K × V)
  emplace k v m = if has_key k m then m else (k, v) ∷ m

  -- `map.erase(k)`
  unfoldable pub erase : K → List (K × V) → List (K × V)
  erase k [] = []
  erase k ((j, v) ∷ m) = let rest = erase k m in if same_key j k then rest else (j, v) ∷ rest

  -- No key stands twice.
  abbrev pub Distinct : List (K × V) → Type 0
  Distinct [] = Unit
  Distinct ((k, v) ∷ m) = (has_key k m ≡ false) × Distinct m

  pub has_key-lookup : (k : K) (m : List (K × V)) (v : V) → lookup k m ≡ some v → has_key k m ≡ true
  unfolding has_key lookup
  has_key-lookup k [] v e = ground arith
  has_key-lookup k ((j, w) ∷ m) v e = ground (arith, has_key-lookup k m v)

  pub lookup_none : (k : K) (m : List (K × V)) → has_key k m ≡ false → lookup k m ≡ none
  unfolding has_key lookup
  lookup_none k [] e = refl
  lookup_none k ((j, w) ∷ m) e = ground (arith, lookup_none k m)

  pub lookup-some :
      (k : K) (m : List (K × V)) → has_key k m ≡ true → (v : V) × (lookup k m ≡ some v)
  unfolding has_key lookup
  lookup-some k m h = elim (Option-cases (lookup k m)) [
    | inr found ↦ found
    | inl e ↦ absurd (none-has_key k m e h)
  ]
    where
      none-has_key : (k : K) (m : List (K × V)) → lookup k m ≡ none → has_key k m ≡ true → ⊥
      none-has_key k [] e h = ground arith
      none-has_key k ((j, v) ∷ m) e h = ground (arith, none-has_key k m)

  pub has_key-emplace :
      (k j : K) (v : V) (m : List (K × V))
      → has_key j (emplace k v m) ≡ (same_key k j || has_key j m)
  unfolding has_key emplace
  has_key-emplace k j v m = ground (arith, same_key_iff k j)

  pub has_key-erase :
      (k j : K) (m : List (K × V))
      → has_key j (erase k m) ≡ (if same_key k j then false else has_key j m)
  unfolding has_key erase
  has_key-erase k j [] = ground arith
  has_key-erase k j ((i, v) ∷ m) =
      ground (arith, has_key-erase k j m, same_key_iff i k, same_key_iff i j, same_key_iff k j)

  pub lookup-emplace :
      (k j : K) (v : V) (m : List (K × V))
      → has_key k m ≡ false
      → lookup j (emplace k v m) ≡ (if same_key k j then some v else lookup j m)
  unfolding lookup emplace
  lookup-emplace k j v m e = ground arith

  pub lookup-erase :
      (k j : K) (m : List (K × V))
      → lookup j (erase k m) ≡ (if same_key k j then none else lookup j m)
  unfolding lookup erase
  lookup-erase k j [] = ground arith
  lookup-erase k j ((i, v) ∷ m) =
      ground (arith, lookup-erase k j m, same_key_iff i k, same_key_iff i j, same_key_iff k j)

  -- `map[k] = v`
  unfoldable pub store : K → V → List (K × V) → List (K × V)
  store k v m = (k, v) ∷ erase k m

  pub lookup-store :
      (k j : K) (v : V) (m : List (K × V))
      → lookup j (store k v m) ≡ (if same_key k j then some v else lookup j m)
  unfolding lookup store
  lookup-store k j v m = ground (arith, lookup-erase k j m)

  pub erase-Distinct : (k : K) (m : List (K × V)) → Distinct m → Distinct (erase k m)
  unfolding erase
  erase-Distinct k [] d = tt
  erase-Distinct k ((j, v) ∷ m) d = ground (arith, erase-Distinct k m d.1, has_key-erase k j m)

  pub emplace-Distinct : (k : K) (v : V) (m : List (K × V)) → Distinct m → Distinct (emplace k v m)
  unfolding emplace
  emplace-Distinct k v m d = ground arith

  pub erase_absent : (k : K) (m : List (K × V)) → has_key k m ≡ false → erase k m ≡ m
  unfolding has_key erase
  erase_absent k [] e = refl
  erase_absent k ((j, v) ∷ m) e = ground (arith, erase_absent k m)

  pub length-erase :
      (k : K) (m : List (K × V))
      → Distinct m
      → has_key k m ≡ true
      → suc (length (erase k m)) ≡ length m
  unfolding has_key erase
  length-erase k [] d e = ground arith
  length-erase k ((j, v) ∷ m) d e =
      ground (arith, length-erase k m d.1, erase_absent k m, same_key_iff j k)
