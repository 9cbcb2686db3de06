-- ===== src/Motion/Approaches/Invariant.antt =====
-- What holds in every state of the tasks of try_multiple_approaches.h.
use planning_service.Prelude.{ℕ, ◌+◌, ◌<◌, ◌≡◌, ◌⊎◌, Bool, true, false, Option, none, some}
use planning_service.Prelude.Tasks.{how_many, count_one}
use planning_service.Motion.Approaches.{
  Attempt, succeeds, fails, raises, Expected, value, unexpected, Shared, Task, pushed, calling,
  succeeded, setting_value, failed, counting, last, setting_error, stopped, gave_up,
}

module _ {ℓ} {R : Type ℓ} where
  abbrev pub is_setting : Task R → Bool
  is_setting (setting_value r) = true
  is_setting setting_error = true
  is_setting _ = false

  -- Past its `fetch_sub`.
  abbrev pub is_counted : Task R → Bool
  is_counted last = true
  is_counted setting_error = true
  is_counted gave_up = true
  is_counted _ = false

  abbrev pub is_last : Task R → Bool
  is_last last = true
  is_last _ = false

  abbrev pub count_set : Option (Expected R) → ℕ
  count_set none = 0
  count_set (some x) = 1

  abbrev pub Failed : Attempt R → Type ℓ
  Failed (succeeds r) = ⊥ × Unit
  Failed (fails t) = Unit
  Failed (raises t) = Unit

  -- What the place of a task says of its approach.
  abbrev pub Fact : Attempt R → Task R → Type ℓ
  Fact a pushed = Unit
  Fact a calling = Unit
  Fact a stopped = Unit
  Fact a (succeeded r) = a ≡ succeeds r
  Fact a (setting_value r) = a ≡ succeeds r
  Fact a (failed t) = Failed a
  Fact a counting = Failed a
  Fact a last = Failed a
  Fact a setting_error = Failed a
  Fact a gave_up = Failed a

module _ {ℓ} {R : Type ℓ} (n : ℕ) (attempt : ℕ → Attempt R) where
  -- A value comes from an approach that succeeded, and an error says that none did.
  abbrev pub IsJustified : Option (Expected R) → Type ℓ
  IsJustified none = Unit
  IsJustified (some (value r)) = (i : ℕ) × (i < n) × (attempt i ≡ succeeds r)
  IsJustified (some (unexpected t)) = (i : ℕ) → i < n → Failed (attempt i)

  pub record Inv (m : Shared R) (task : ℕ → Task R) : Type ℓ where
    pub setters : how_many is_setting n task + count_set m.result_promise ≡ count_one m.has_value
    pub counted : m.approaches_remaining + how_many is_counted n task ≡ n
    pub seen : (i : ℕ) → task i ≡ stopped → m.has_value ≡ true
    pub pending :
        0 < n → (m.has_value ≡ true) ⊎ (0 < m.approaches_remaining) ⊎ (0 < how_many is_last n task)
    pub lone_last : (i : ℕ) → task i ≡ last → m.approaches_remaining ≡ 0
    pub lone_setter : (i : ℕ) → task i ≡ setting_error → m.approaches_remaining ≡ 0
    pub facts : (i : ℕ) → Fact (attempt i) (task i)
    pub justified : IsJustified m.result_promise
