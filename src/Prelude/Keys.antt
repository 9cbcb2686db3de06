-- ===== src/Prelude/Keys.antt =====
-- Keys that the containers compare: an equality test that decides equality.
use Prim.Native.Nat.{ℕ}
use Prim.Native.String.{String}
use mathlib.Core.Path.{◌≡◌}
use mathlib.Core.Logic.{◌↔◌}
use mathlib.Core.Bool.{Bool, true}
use text.Mathlib.Text.{◌==◌ as str_eq}
use text.Mathlib.TextEquality.{eq_iff}
use planning_service.Prelude.Tests.{◌==◌ as nat_eq, ==_iff}

pub record Key {ℓ} (K : Type ℓ) : Type ℓ where
  pub same : K → K → Bool
  pub same_iff : (a b : K) → (same a b ≡ true) ↔ (a ≡ b)

abbrev pub same_key {ℓ} : {K : Type ℓ} ⦃key : Key K⦄ → K → K → Bool
same_key ⦃key⦄ = key.same

pub same_key_iff {ℓ} : {K : Type ℓ} ⦃key : Key K⦄ (a b : K) → (same_key a b ≡ true) ↔ (a ≡ b)
same_key_iff ⦃key⦄ = key.same_iff

instance abbrev pub number_key : Key ℕ
number_key = record { same = nat_eq; same_iff = ==_iff }

instance abbrev pub text_key : Key String
text_key = record { same = str_eq; same_iff = eq_iff }
