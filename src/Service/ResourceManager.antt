-- ===== src/Service/ResourceManager.antt =====
-- planning_service/service/utils/resource_manager.h. Each method is one step here: the calls of a
-- manager follow one another, and `ResourceManager/Overlap` is about calls that overlap. The registry
-- of the manager is not part of the state, since no method of this class changes it; the pause at
-- the end of a round of `Run` is left out.
pub mod Orderly
pub mod Rounds
pub mod Drain
pub mod Overlap
use planning_service.Prelude.Int.{ℤ}
use planning_service.Prelude.Maps.{lookup}
use planning_service.Prelude.{
  ℕ, zero, suc, some, text_key, length, ◌≤◌, String, Bool, true, false, ◌||◌, leb, ◌==◌,
  if◌then◌else◌, ◌≡◌, ◌⊎◌,
}
use planning_service.Prelude.Format.{◌<>◌, decimal}
use planning_service.Service.Error.{
  Expected, value, unexpected, Outcome, returns, throws, Exception, what, queue_empty_error,
  queue_capacity_reached, duplicate_id, job_capacity_reached, queue_empty, unknown,
}
use planning_service.Service.RequestQueue
use planning_service.Service.RequestQueue.{RequestQueue, Request}
use planning_service.Service.JobRunner
use planning_service.Service.JobRunner.{JobRunner, running}
use planning_service.Service.JobRunner.Bounds.{IsSound}

pub record ResourceManager {ℓ κ} (P : Type ℓ) (R : Type κ) : Type (ℓ ⊔ κ) where
  pub request_queue : RequestQueue P
  pub job_runner : JobRunner R
  pub stop_triggered : Bool

-- What a derived class adds, the two virtual methods. `StartJobImpl` may return or throw, and the
-- runner that it leaves is the one that it was given, or that one with the request's job inserted;
-- where it throws, it has not inserted the job. `Cleanup` ends without an exception on a sound
-- runner, keeps it sound, starts no job and removes none whose thread still runs.
pub record Derived {ℓ κ} (P : Type ℓ) (R : Type κ) : Type (ℓ ⊔ κ) where
  pub start_job_impl : Request P → JobRunner R → Outcome (Expected Bool × JobRunner R)
  pub start_job_impl_inserts :
      (request : Request P) (r r' : JobRunner R) (x : Expected Bool)
      → start_job_impl request r ≡ returns (x, r')
      → (r' ≡ r) ⊎ (JobRunner.insert_new_job r request.id ≡ returns r')
  pub cleanup : JobRunner R → Outcome (JobRunner R)
  pub cleanup_removes :
      (r : JobRunner R)
      → IsSound r
      → (r' : JobRunner R) × (cleanup r ≡ returns r')
        × IsSound r'
        × (r'.capacity ≡ r.capacity)
        × (length r'.active_jobs ≤ length r.active_jobs)
        × ((id : String) → JobRunner.has_job r' id ≡ true → JobRunner.has_job r id ≡ true)
        × ((id : String)
            → lookup id r.active_jobs ≡ some running
            → lookup id r'.active_jobs ≡ some running)

abbrev pub at_capacity : ℕ → Expected Bool
at_capacity capacity = unexpected (record {
  code = queue_capacity_reached;
  msg = "Queue is at capacity (" <> decimal capacity <> ")!";
})

abbrev pub already_started : String → Expected Bool
already_started id =
    unexpected
      (record { code = duplicate_id; msg = "Job with ID " <> id <> " is already in progress!" })

abbrev pub no_more_jobs : Expected Bool
no_more_jobs =
    unexpected
      (record { code = job_capacity_reached; msg = "Already at maximum number of active jobs" })

-- The handlers of `RunOnce`.
abbrev pub caught : Exception → Expected Bool
caught queue_empty_error = unexpected (record { code = queue_empty; msg = "Queue is empty!" })
caught e =
    unexpected (record { code = unknown; msg = "Failed due to unexpected exception: " <> what e })

-- The constructor, without the registry that it makes: the queue is made first, then the runner.
abbrev pub make_runner {ℓ κ} :
    {P : Type ℓ} {R : Type κ}
    → RequestQueue P
    → Outcome (JobRunner R)
    → Outcome (ResourceManager P R)
make_runner q (returns r) =
    returns (record { request_queue = q; job_runner = r; stop_triggered = false })
make_runner q (throws e) = throws e

abbrev pub make_queue {ℓ κ} :
    {P : Type ℓ} {R : Type κ} → Outcome (RequestQueue P) → ℤ → Outcome (ResourceManager P R)
make_queue (returns q) max_active_jobs = make_runner q (JobRunner.make max_active_jobs)
make_queue (throws e) max_active_jobs = throws e

unfoldable pub make {ℓ κ} : {P : Type ℓ} {R : Type κ} → ℤ → ℤ → Outcome (ResourceManager P R)
make max_queue_size max_active_jobs = make_queue (RequestQueue.make max_queue_size) max_active_jobs

module _ {ℓ κ} {P : Type ℓ} {R : Type κ} where
  unfoldable pub has_job : ResourceManager P R → String → Bool
  has_job m id = RequestQueue.has_request m.request_queue id || JobRunner.has_job m.job_runner id

  -- The call of `Enqueue`, whose exception leaves `QueueRequest`.
  abbrev pub enqueued :
      ResourceManager P R → Outcome (RequestQueue P) → Outcome (Expected Bool × ResourceManager P R)
  enqueued m (returns q) = returns (value true, record m { request_queue = q })
  enqueued m (throws e) = throws e

  unfoldable pub queue_request :
      ResourceManager P R → Request P → Outcome (Expected Bool × ResourceManager P R)
  queue_request m request =
      if has_job m request.id
      then returns (value true, m)
      else if leb m.request_queue.capacity (RequestQueue.size m.request_queue)
      then returns (at_capacity m.request_queue.capacity, m)
      else enqueued m (RequestQueue.enqueue m.request_queue request)

  unfoldable pub clear_queue : ResourceManager P R → ResourceManager P R
  clear_queue m = record m { request_queue = RequestQueue.clear m.request_queue }

  unfoldable pub stop : ResourceManager P R → ResourceManager P R
  stop m = record m { stop_triggered = true }

module _ {ℓ κ} {P : Type ℓ} {R : Type κ} (class : Derived P R) where
  abbrev pub with_runner :
      ResourceManager P R
      → Outcome (Expected Bool × JobRunner R)
      → Outcome (Expected Bool × ResourceManager P R)
  with_runner m (returns (x, r)) = returns (x, record m { job_runner = r })
  with_runner m (throws e) = throws e

  unfoldable pub start_job :
      ResourceManager P R → Request P → Outcome (Expected Bool × ResourceManager P R)
  start_job m request =
      if has_job m request.id
      then returns (already_started request.id, m)
      else if leb m.job_runner.capacity (JobRunner.size m.job_runner)
      then returns (no_more_jobs, m)
      else with_runner m (class.start_job_impl request m.job_runner)

  abbrev pub start_caught :
      ResourceManager P R
      → Outcome (Expected Bool × ResourceManager P R)
      → Expected Bool × ResourceManager P R
  start_caught m (returns x) = x
  start_caught m (throws e) = (caught e, m)

  abbrev pub start_popped :
      ResourceManager P R
      → Outcome (Request P × RequestQueue P)
      → Expected Bool × ResourceManager P R
  start_popped m (throws e) = (caught e, m)
  start_popped m (returns (request, q)) =
      let m' = record m { request_queue = q } in start_caught m' (start_job m' request)

  unfoldable pub run_once : ResourceManager P R → Expected Bool × ResourceManager P R
  run_once m = start_popped m (RequestQueue.pop_next_request m.request_queue)

  -- The rest of a round of `Run` once `Cleanup` is over.
  unfoldable pub poll : ResourceManager P R → ResourceManager P R
  poll m =
      if RequestQueue.is_empty m.request_queue
        || JobRunner.size m.job_runner == m.job_runner.capacity
      then m
      else (run_once m).1

  abbrev pub poll_cleaned :
      ResourceManager P R → Outcome (JobRunner R) → Outcome (ResourceManager P R)
  poll_cleaned m (returns r) = returns (poll (record m { job_runner = r }))
  poll_cleaned m (throws e) = throws e

  -- A round of the loop of `Run`: nothing happens once the manager is stopped.
  unfoldable pub round : ResourceManager P R → Outcome (ResourceManager P R)
  round m = if m.stop_triggered then returns m else poll_cleaned m (class.cleanup m.job_runner)

  -- The loop of `Run` for a number of rounds.
  unfoldable pub run_rounds : ℕ → ResourceManager P R → Outcome (ResourceManager P R)
  run_rounds zero m = returns m
  run_rounds (suc n) m = elim (round m) [ returns m' ↦ run_rounds n m' | throws e ↦ throws e ]
