-- ===== src/Motion/Approaches.antt =====
-- planning_service/motion/planning/try_multiple_approaches.h. Task `i` of the thread pool tries
-- approach `i`. A task takes one access to a shared variable at a time, and the tasks interleave
-- in any order, so a pool with any number of threads is covered.
pub mod Invariant
pub mod Steps
pub mod Outcome
use planning_service.Prelude.{
  ℕ, ◌-◌, ◌<◌, ◌≡◌, ◌≢◌, String, Bool, true, false, List, [], ◌∷◌, ◌++◌, Option, none, some,
}
use planning_service.Prelude.Tasks.{replace}
use planning_service.Prelude.Format.{◌<>◌, decimal}

-- How a call of an approach ends.
pub data Attempt {ℓ} (R : Type ℓ) : Type ℓ where
  succeeds : R → Attempt R
  fails raises : String → Attempt R

-- `std::expected<R, std::string>`
pub data Expected {ℓ} (R : Type ℓ) : Type ℓ where
  value : R → Expected R
  unexpected : String → Expected R

-- The variables that the tasks share.
pub record Shared {ℓ} (R : Type ℓ) : Type ℓ where
  pub has_value : Bool
  pub approaches_remaining : ℕ
  pub error_messages : List String
  pub result_promise : Option (Expected R)

-- Where a task stands.
pub data Task {ℓ} (R : Type ℓ) : Type ℓ where
  -- before the load of `has_value`, and before the call of the approach
  pushed calling : Task R
  -- the approach succeeded: before the exchange of `has_value`, and before `set_value`
  succeeded setting_value : R → Task R
  -- the approach failed: before its message is kept, and before `fetch_sub`
  failed : String → Task R
  counting : Task R
  -- `fetch_sub` returned 1: before the exchange of `has_value`, and before `set_value`
  last setting_error : Task R
  -- ended without `fetch_sub`, and ended after it
  stopped gave_up : Task R

-- The text of an error message, the number of its approach first.
abbrev pub failure_text : ℕ → String → String
failure_text i text = "Approach " <> decimal i <> " failed: " <> text

abbrev pub exception_text : ℕ → String → String
exception_text i text = "Approach " <> decimal i <> " threw exception: " <> text

pub joined : List String → String
joined [] = ""
joined (msg ∷ msgs) = msg <> "\n" <> joined msgs

-- What `set_value` throws where the promise has its value already.
abbrev pub already_satisfied : String
already_satisfied = "Promise already satisfied"

-- One step of task `i`, whose approach ends as `a` says.
pub data Move {ℓ} {R : Type ℓ} (i : ℕ) (a : Attempt R) (m : Shared R)
    : Task R → Shared R → Task R → Type ℓ where
  load_true : m.has_value ≡ true → Move i a m pushed m stopped
  load_false : m.has_value ≡ false → Move i a m pushed m calling
  call_succeeds : {r : R} → a ≡ succeeds r → Move i a m calling m (succeeded r)
  call_fails : {t : String} → a ≡ fails t → Move i a m calling m (failed (failure_text i t))
  call_raises : {t : String} → a ≡ raises t → Move i a m calling m (failed (exception_text i t))
  exchange_first :
      {r : R}
      → m.has_value ≡ false
      → Move i a m (succeeded r) (record m { has_value = true }) (setting_value r)
  exchange_late : {r : R} → m.has_value ≡ true → Move i a m (succeeded r) m stopped
  set_value :
      {r : R}
      → m.result_promise ≡ none
      → Move i a m (setting_value r) (record m { result_promise = some (value r) }) stopped
  set_value_twice :
      {r : R} {x : Expected R}
      → m.result_promise ≡ some x
      → Move i a m (setting_value r) m (failed (exception_text i already_satisfied))
  keep_message :
      {t : String}
      → Move i a m (failed t) (record m { error_messages = m.error_messages ++ t ∷ [] }) counting
  fetch_last :
      m.approaches_remaining ≡ 1 → Move i a m counting (record m { approaches_remaining = 0 }) last
  fetch_other :
      m.approaches_remaining ≢ 1
      → Move i a m counting (record m { approaches_remaining = m.approaches_remaining - 1 }) gave_up
  last_first : m.has_value ≡ false → Move i a m last (record m { has_value = true }) setting_error
  last_late : m.has_value ≡ true → Move i a m last m gave_up
  set_error :
      m.result_promise ≡ none
      → Move i a m setting_error
          (record m { result_promise = some (unexpected (joined m.error_messages)) })
          gave_up
  set_error_twice :
      {x : Expected R}
      → m.result_promise ≡ some x
      → Move i a m setting_error m (failed (exception_text i already_satisfied))

pub record System {ℓ} (R : Type ℓ) : Type ℓ where
  pub shared : Shared R
  pub task : ℕ → Task R

-- The start: as many tasks as approaches are pushed.
abbrev pub init {ℓ} : {R : Type ℓ} → ℕ → System R
init n = record {
  shared = record {
    has_value = false;
    approaches_remaining = n;
    error_messages = [];
    result_promise = none;
  };
  task = λ _. pushed;
}

module _ {ℓ} {R : Type ℓ} (n : ℕ) (attempt : ℕ → Attempt R) where
  pub data Step (s : System R) : System R → Type ℓ where
    pick :
        (i : ℕ) {m : Shared R} {t : Task R}
        → i < n
        → Move i (attempt i) s.shared (s.task i) m t
        → Step s (record { shared = m; task = replace s.task i t })

  pub data Reach : System R → Type ℓ where
    start : Reach (init n)
    next : {s t : System R} → Reach s → Step s t → Reach t

-- The future has a result once the promise does; until then `get()` waits.
abbrev pub is_ended {ℓ} : {R : Type ℓ} → Task R → Bool
is_ended stopped = true
is_ended gave_up = true
is_ended _ = false
