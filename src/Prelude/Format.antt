-- ===== src/Prelude/Format.antt =====
-- Texts that the program formats: joined texts, and numbers in decimal.
use Prim.Native.Nat.{ℕ, zero, suc, ◌/◌, ◌%◌}
use Prim.Native.String.{String}
use Prim.Native.String
use mathlib.Core.List.{[], ◌∷◌}
use mathlib.Core.Option.{Option}
use mathlib.Core.Option
use planning_service.Prelude.Tests.{ltb, if◌then◌else◌}
use planning_service.Prelude.Lists.{get_elem?}

infixr 65 ◌<>◌
unfoldable pub ◌<>◌ : String → String → String
s <> t = String.◌++◌ s t

digit : ℕ → String
digit n =
    Option.get_or (get_elem? ("0" ∷ "1" ∷ "2" ∷ "3" ∷ "4" ∷ "5" ∷ "6" ∷ "7" ∷ "8" ∷ "9" ∷ []) n) ""

-- `fuel` digits at most are printed; a number has no more digits than its value and one.
decimal_digits : ℕ → ℕ → String
unfolding digit
decimal_digits zero n = ""
decimal_digits (suc fuel) n =
    let rest = decimal_digits fuel (n / 10) <> digit (n % 10) in if ltb n 10 then digit n else rest

-- `std::to_string`, and `{}` of fmt at a number.
unfoldable pub decimal : ℕ → String
unfolding decimal_digits ◌<>◌
decimal n = decimal_digits (suc n) n

two_digits : String
two_digits = decimal 42
