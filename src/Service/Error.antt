-- ===== src/Service/Error.antt =====
-- planning_service/service/types/error.h, and the exceptions that the service classes throw.
use planning_service.Prelude.{String, ◌≡◌, refl, ◌⊎◌, inl, inr}

pub data ServiceErrorCode : Type 0 where
  none unknown queue_empty queue_capacity_reached duplicate_id : ServiceErrorCode
  job_capacity_reached job_start_failed context_not_found context_invalid : ServiceErrorCode
  result_not_ready result_not_found iris_generation_failed : ServiceErrorCode
  unknown_planning_failure start_in_violation goal_in_violation : ServiceErrorCode
  job_thread_invalidated job_thread_exception job_type_unsupported deprecated_api : ServiceErrorCode

pub record ServiceError : Type 0 where
  pub code : ServiceErrorCode
  pub msg : String

-- `std::expected<A, ServiceError>`
pub data Expected {ℓ} (A : Type ℓ) : Type ℓ where
  value : A → Expected A
  unexpected : ServiceError → Expected A

-- The classes of exception that are told apart by a handler, each with what `what()` returns.
pub data Exception : Type 0 where
  queue_empty_error queue_at_capacity_error future_error : Exception
  runtime_error : String → Exception

abbrev pub what : Exception → String
what queue_empty_error = "Queue was queried for element, but is empty"
what queue_at_capacity_error = "Queue is at maximum capacity"
what future_error = "No associated state"
what (runtime_error text) = text

-- How a call ends: it returns a value, or it throws.
pub data Outcome {ℓ} (A : Type ℓ) : Type ℓ where
  returns : A → Outcome A
  throws : Exception → Outcome A

pub Outcome-cases {ℓ} :
    {A : Type ℓ} (o : Outcome A) → ((a : A) × (o ≡ returns a)) ⊎ ((e : Exception) × (o ≡ throws e))
Outcome-cases (returns a) = inl (a, refl)
Outcome-cases (throws e) = inr (e, refl)
