-- ===== src/Service/ResourceManager/Overlap.antt =====
-- resource_manager.h where calls overlap: `QueueRequest` on the threads of a server beside `Run` on its
-- own. Each access to the queue or to the runner is one step, since it holds the mutex of that
-- object, and so is each of the two virtual methods, whose accesses are the derived class's.
pub mod Races
pub mod Examples
use planning_service.Prelude.{ℕ, String, ◌≡◌, Bool, true, false, leb, ◌==◌}
use planning_service.Prelude.Tasks.{replace}
use planning_service.Service.Error.{Expected, Outcome, returns, throws, Exception}
use planning_service.Service.RequestQueue
use planning_service.Service.RequestQueue.{RequestQueue, Request}
use planning_service.Service.JobRunner
use planning_service.Service.JobRunner.{JobRunner, Ended}
use planning_service.Service.JobRunner.Bounds.{IsSound}
use planning_service.Service.ResourceManager.{ResourceManager, Derived, clear_queue, stop}

-- Where a thread stands that asks for a request: outside of `QueueRequest`, behind the look into the
-- queue, behind the look into the runner, or behind the test of the size.
pub data Caller {ℓ} (P : Type ℓ) : Type ℓ where
  outside : Caller P
  not_queued fresh roomy : Request P → Caller P

-- Where the thread of `Run` stands: at the start of a round, behind `Cleanup`, behind the test for an
-- empty queue, behind the test of the runner's size, and in `RunOnce` with the popped request behind
-- the pop, the looks into the queue and the runner, and the test of the size.
pub data Polling {ℓ} (P : Type ℓ) : Type ℓ where
  resting cleaned not_empty free : Polling P
  popped popped_not_queued popped_fresh startable : Request P → Polling P

pub record Threads {ℓ κ} (P : Type ℓ) (R : Type κ) : Type (ℓ ⊔ κ) where
  pub manager : ResourceManager P R
  pub caller : ℕ → Caller P
  pub polling : Polling P

module _ {ℓ κ} {P : Type ℓ} {R : Type κ} where
  unfoldable pub set_caller : ℕ → Caller P → Threads P R → Threads P R
  set_caller i c s = record s { caller = replace s.caller i c }

  unfoldable pub set_polling : Polling P → Threads P R → Threads P R
  set_polling p s = record s { polling = p }

  unfoldable pub set_queue : RequestQueue P → Threads P R → Threads P R
  set_queue q s = record s { manager = record s.manager { request_queue = q } }

  unfoldable pub set_runner : JobRunner R → Threads P R → Threads P R
  set_runner r s = record s { manager = record s.manager { job_runner = r } }

  abbrev pub queue_of : Threads P R → RequestQueue P
  queue_of s = s.manager.request_queue

  abbrev pub runner_of : Threads P R → JobRunner R
  runner_of s = s.manager.job_runner

  -- The steps of a thread that asks for a request.
  pub data Asks (s : Threads P R) : Threads P R → Type (ℓ ⊔ κ) where
    look_queue :
        (i : ℕ) (request : Request P)
        → s.caller i ≡ outside
        → RequestQueue.has_request (queue_of s) request.id ≡ false
        → Asks s (set_caller i (not_queued request) s)
    known_queued :
        (i : ℕ) (request : Request P)
        → s.caller i ≡ outside
        → RequestQueue.has_request (queue_of s) request.id ≡ true
        → Asks s s
    look_runner :
        (i : ℕ) (request : Request P)
        → s.caller i ≡ not_queued request
        → JobRunner.has_job (runner_of s) request.id ≡ false
        → Asks s (set_caller i (fresh request) s)
    known_running :
        (i : ℕ) (request : Request P)
        → s.caller i ≡ not_queued request
        → JobRunner.has_job (runner_of s) request.id ≡ true
        → Asks s (set_caller i outside s)
    look_size :
        (i : ℕ) (request : Request P)
        → s.caller i ≡ fresh request
        → leb (queue_of s).capacity (RequestQueue.size (queue_of s)) ≡ false
        → Asks s (set_caller i (roomy request) s)
    refused :
        (i : ℕ) (request : Request P)
        → s.caller i ≡ fresh request
        → leb (queue_of s).capacity (RequestQueue.size (queue_of s)) ≡ true
        → Asks s (set_caller i outside s)
    add :
        (i : ℕ) (request : Request P) (q : RequestQueue P)
        → s.caller i ≡ roomy request
        → RequestQueue.enqueue (queue_of s) request ≡ returns q
        → Asks s (set_queue q (set_caller i outside s))
    overflow :
        (i : ℕ) (request : Request P) (e : Exception)
        → s.caller i ≡ roomy request
        → RequestQueue.enqueue (queue_of s) request ≡ throws e
        → Asks s (set_caller i outside s)

  -- What else happens: a job's thread ends, the queue is cleared, the manager is stopped.
  pub data Happens (s : Threads P R) : Threads P R → Type (ℓ ⊔ κ) where
    ends :
        (id : String) (e : Ended R)
        → Happens s (set_runner (JobRunner.complete (runner_of s) id e) s)
    clears : Happens s (record s { manager = clear_queue s.manager })
    stops : Happens s (record s { manager = stop s.manager })

module _ {ℓ κ} {P : Type ℓ} {R : Type κ} (class : Derived P R) where
  -- The steps of the thread of `Run`.
  pub data Polls (s : Threads P R) : Threads P R → Type (ℓ ⊔ κ) where
    clean :
        (r : JobRunner R)
        → s.polling ≡ resting
        → s.manager.stop_triggered ≡ false
        → class.cleanup (runner_of s) ≡ returns r
        → Polls s (set_runner r (set_polling cleaned s))
    see_queue :
        s.polling ≡ cleaned
        → RequestQueue.is_empty (queue_of s) ≡ false
        → Polls s (set_polling not_empty s)
    see_nothing :
        s.polling ≡ cleaned
        → RequestQueue.is_empty (queue_of s) ≡ true
        → Polls s (set_polling resting s)
    see_room :
        s.polling ≡ not_empty
        → (JobRunner.size (runner_of s) == (runner_of s).capacity) ≡ false
        → Polls s (set_polling free s)
    see_full :
        s.polling ≡ not_empty
        → (JobRunner.size (runner_of s) == (runner_of s).capacity) ≡ true
        → Polls s (set_polling resting s)
    pop :
        (request : Request P) (q : RequestQueue P)
        → s.polling ≡ free
        → RequestQueue.pop_next_request (queue_of s) ≡ returns (request, q)
        → Polls s (set_queue q (set_polling (popped request) s))
    pop_nothing :
        (e : Exception)
        → s.polling ≡ free
        → RequestQueue.pop_next_request (queue_of s) ≡ throws e
        → Polls s (set_polling resting s)
    not_waiting :
        (request : Request P)
        → s.polling ≡ popped request
        → RequestQueue.has_request (queue_of s) request.id ≡ false
        → Polls s (set_polling (popped_not_queued request) s)
    waits_again :
        (request : Request P)
        → s.polling ≡ popped request
        → RequestQueue.has_request (queue_of s) request.id ≡ true
        → Polls s (set_polling resting s)
    not_running :
        (request : Request P)
        → s.polling ≡ popped_not_queued request
        → JobRunner.has_job (runner_of s) request.id ≡ false
        → Polls s (set_polling (popped_fresh request) s)
    runs_already :
        (request : Request P)
        → s.polling ≡ popped_not_queued request
        → JobRunner.has_job (runner_of s) request.id ≡ true
        → Polls s (set_polling resting s)
    may_start :
        (request : Request P)
        → s.polling ≡ popped_fresh request
        → leb (runner_of s).capacity (JobRunner.size (runner_of s)) ≡ false
        → Polls s (set_polling (startable request) s)
    no_room :
        (request : Request P)
        → s.polling ≡ popped_fresh request
        → leb (runner_of s).capacity (JobRunner.size (runner_of s)) ≡ true
        → Polls s (set_polling resting s)
    start :
        (request : Request P) (x : Expected Bool) (r : JobRunner R)
        → s.polling ≡ startable request
        → class.start_job_impl request (runner_of s) ≡ returns (x, r)
        → Polls s (set_runner r (set_polling resting s))
    start_fails :
        (request : Request P) (e : Exception)
        → s.polling ≡ startable request
        → class.start_job_impl request (runner_of s) ≡ throws e
        → Polls s (set_polling resting s)

  -- What the threads lead to from a manager that is new and that nobody calls.
  pub data Reached (m : ResourceManager P R) : Threads P R → Type (ℓ ⊔ κ) where
    begin : Reached m (record { manager = m; caller = λ i. outside; polling = resting })
    asks : {s t : Threads P R} → Reached m s → Asks s t → Reached m t
    polls : {s t : Threads P R} → Reached m s → Polls s t → Reached m t
    happens : {s t : Threads P R} → Reached m s → Happens s t → Reached m t
