-- ===== src/Service/JobRunner.antt =====
-- planning_service/service/utils/job_runner.h. Each method holds the runner's mutex for its whole
-- body, so it is one step; the threads that `std::async` starts run beside the methods and end by
-- `complete`. The map from ids to futures is an association list.
pub mod Bounds
pub mod Retrieval
use planning_service.Prelude.{
  ℕ, zero, suc, String, Bool, true, false, not, List, [], ◌∷◌, Option, none, some, length, leb,
  ◌==◌, if◌then◌else◌, text_key, same_key,
}
use planning_service.Prelude.Int.{ℤ, pos, negsuc}
use planning_service.Prelude.Format.{◌<>◌}
use planning_service.Prelude.Maps.{has_key, lookup, emplace, erase}
use planning_service.Service.Error.{
  Expected, unexpected, Outcome, returns, throws, Exception, what, future_error, runtime_error,
  job_thread_invalidated, job_thread_exception,
}

-- What a thread of `std::async` leaves in its future: the returned value, or what it threw.
pub data Ended {ℓ} (R : Type ℓ) : Type ℓ where
  result : Expected R → Ended R
  exception : Exception → Ended R

-- `std::future`: its thread runs, its thread has ended, or it has no shared state (`valid()` fails).
pub data Future {ℓ} (R : Type ℓ) : Type ℓ where
  running : Future R
  ready : Ended R → Future R
  no_state : Future R

pub record JobRunner {ℓ} (R : Type ℓ) : Type ℓ where
  pub capacity : ℕ
  pub active_jobs : List (String × Future R)

-- How a wait goes: it is over, or it blocks its caller, with the mutex held.
pub data Wait : Type 0 where
  over blocks : Wait

-- The ids at which a test holds; the test's exception leaves the loop.
abbrev pub add_if : String → Outcome Bool → Outcome (List String) → Outcome (List String)
add_if id (throws e) rest = throws e
add_if id (returns b) (throws e) = throws e
add_if id (returns b) (returns ids) = returns (if b then id ∷ ids else ids)

abbrev pub count_unless : Outcome Bool → Outcome ℕ → Outcome ℕ
count_unless (throws e) rest = throws e
count_unless (returns b) (throws e) = throws e
count_unless (returns b) (returns n) = returns (if b then n else suc n)

abbrev pub no_job : String → Exception
no_job id = runtime_error ("No job with ID " <> id <> " found!")

module _ {ℓ} {R : Type ℓ} where
  unfoldable pub make : ℤ → Outcome (JobRunner R)
  make (negsuc n) = throws (runtime_error "JobRunner must have positive nonzero maximum size!")
  make (pos n) =
      if n == 0
      then throws (runtime_error "JobRunner must have positive nonzero maximum size!")
      else returns (record { capacity = n; active_jobs = [] })

  -- common/misc_utils.h: `wait_for(0) == ready`. Without a shared state `wait_for` throws.
  unfoldable pub future_result_ready : Future R → Outcome Bool
  future_result_ready running = returns false
  future_result_ready (ready e) = returns true
  future_result_ready no_state = throws future_error

  unfoldable pub completed : List (String × Future R) → Outcome (List String)
  unfolding future_result_ready
  completed [] = returns []
  completed ((id, job) ∷ jobs) = add_if id (future_result_ready job) (completed jobs)

  unfoldable pub get_completed_job_ids : JobRunner R → Outcome (List String)
  get_completed_job_ids r = completed r.active_jobs

  unfoldable pub count_unready : List (String × Future R) → Outcome ℕ
  unfolding future_result_ready
  count_unready [] = returns 0
  count_unready ((id, job) ∷ jobs) = count_unless (future_result_ready job) (count_unready jobs)

  unfoldable pub num_jobs_in_progress : JobRunner R → Outcome ℕ
  num_jobs_in_progress r = count_unready r.active_jobs

  unfoldable pub result_is_ready : JobRunner R → String → Outcome Bool
  result_is_ready r id = elim (lookup id r.active_jobs) [
    | none ↦ throws (no_job id)
    | some job ↦ future_result_ready job
  ]

  abbrev pub invalidated : String → Expected R
  invalidated id = unexpected (record {
    code = job_thread_invalidated;
    msg = "JobManager:RetrieveResult: Thread at ID " <> id <> " has been invalidated!";
  })

  abbrev pub thrown : String → Exception → Expected R
  thrown id e = unexpected (record {
    code = job_thread_exception;
    msg = "JobManager:RetrieveResult: Thread at ID " <> id <> " threw an exception: " <> what e;
  })

  -- The test of `valid()`, and `get()` in its handler. The readiness test, which stands before it,
  -- keeps a running future out, for which `get()` would wait.
  collect : JobRunner R → String → Future R → Outcome (Expected R × JobRunner R)
  collect r id no_state = returns (invalidated id, r)
  collect r id running = throws (runtime_error ("Job " <> id <> " is not ready!"))
  collect r id (ready (result v)) = returns (v, record r { active_jobs = erase id r.active_jobs })
  collect r id (ready (exception e)) =
      returns (thrown id e, record r { active_jobs = erase id r.active_jobs })

  -- The readiness test of `retrieve_result`, with what follows it.
  collect_ready :
      JobRunner R → String → Future R → Outcome Bool → Outcome (Expected R × JobRunner R)
  collect_ready r id job (throws e) = throws e
  collect_ready r id job (returns false) = throws (runtime_error ("Job " <> id <> " is not ready!"))
  collect_ready r id job (returns true) = collect r id job

  unfoldable pub retrieve_result : JobRunner R → String → Outcome (Expected R × JobRunner R)
  unfolding future_result_ready collect collect_ready
  retrieve_result r id = elim (lookup id r.active_jobs) [
    | none ↦ throws (no_job id)
    | some job ↦ collect_ready r id job (future_result_ready job)
  ]

  unfoldable pub wait_for_result : JobRunner R → String → Option ℕ → Outcome Wait
  wait_for_result r id timeout_ms = elim (lookup id r.active_jobs) [
    | none ↦ throws (no_job id)
    | some no_state ↦ throws future_error
    | some (ready e) ↦ returns over
    | some running ↦ elim timeout_ms [ none ↦ returns blocks | some ms ↦ returns over ]
  ]

  -- `std::async` starts the job's thread at once.
  unfoldable pub insert_new_job : JobRunner R → String → Outcome (JobRunner R)
  insert_new_job r id =
      if has_key id r.active_jobs
      then throws (runtime_error ("Job with ID " <> id <> " has already been started"))
      else if leb r.capacity (length r.active_jobs)
      then throws (runtime_error "Already at maximum number of active jobs!")
      else returns (record r { active_jobs = emplace id running r.active_jobs })

  unfoldable pub size : JobRunner R → ℕ
  size r = length r.active_jobs

  unfoldable pub is_empty : JobRunner R → Bool
  is_empty r = elim r.active_jobs [ [] ↦ true | _ ∷ _ ↦ false ]

  unfoldable pub has_job : JobRunner R → String → Bool
  has_job r id = has_key id r.active_jobs

  unfoldable pub clear : JobRunner R → JobRunner R
  clear r = record r { active_jobs = [] }

  -- The end of a job's thread, which is no method of the class: a running future becomes ready.
  abbrev pub finish : Ended R → Future R → Future R
  finish e running = ready e
  finish e (ready e') = ready e'
  finish e no_state = no_state

  unfoldable pub finish_at : String → Ended R → List (String × Future R) → List (String × Future R)
  finish_at id e [] = []
  finish_at id e ((j, job) ∷ jobs) =
      (j, if same_key j id then finish e job else job) ∷ finish_at id e jobs

  unfoldable pub complete : JobRunner R → String → Ended R → JobRunner R
  unfolding finish_at
  complete r id e = record r { active_jobs = finish_at id e r.active_jobs }
