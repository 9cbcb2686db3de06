-- ===== src/Service/ResourceManager/Rounds.antt =====
-- resource_manager.h: what holds after any history of a manager, and what one round of `Run` and
-- one call of `RunOnce` do with the request at the front of the queue.
use planning_service.Prelude.{
  String, ◌<◌, ◌≡◌, refl, inl, inr, Bool, true, false, List, [], ◌∷◌, some, length, arith, text_key,
}
use planning_service.Prelude.Int.{ℤ}
use planning_service.Prelude.Maps.{lookup}
use planning_service.Service.Error.{Expected, value, Outcome, returns, throws, Outcome-cases}
use planning_service.Service.RequestQueue
use planning_service.Service.RequestQueue.{RequestQueue, Request}
use planning_service.Service.RequestQueue.Consistency.{
  make-IsConsistent, make_empty, pop_front, pop_forgets,
}
use planning_service.Service.JobRunner
use planning_service.Service.JobRunner.{JobRunner, Ended, running}
use planning_service.Service.JobRunner.Bounds.{make-IsSound}
use planning_service.Service.JobRunner.Retrieval.{inserted_running}
use planning_service.Service.ResourceManager.{
  ResourceManager, Derived, make, has_job, queue_request, clear_queue, stop, start_job,
  no_more_jobs, run_once, poll, round,
}
use planning_service.Service.ResourceManager.Orderly.{
  IsOrderly, queue_request_answers, clear_queue-IsOrderly, complete-IsOrderly, run_once-IsOrderly,
  round-IsOrderly, popped-IsOrderly,
}

-- What can happen to a manager, one after the other: a call from outside, the end of a job's thread, or a round of the
-- loop of `Run`.
pub data Happening {ℓ κ} (P : Type ℓ) (R : Type κ) : Type (ℓ ⊔ κ) where
  asks : Request P → Happening P R
  clears runs_once stops rounds : Happening P R
  ends : String → Ended R → Happening P R

module _ {ℓ κ} {P : Type ℓ} {R : Type κ} (class : Derived P R) where
  abbrev answered :
      ResourceManager P R → Outcome (Expected Bool × ResourceManager P R) → ResourceManager P R
  answered m (returns (x, m')) = m'
  answered m (throws e) = m

  abbrev rounded : ResourceManager P R → Outcome (ResourceManager P R) → ResourceManager P R
  rounded m (returns m') = m'
  rounded m (throws e) = m

  pub step : ResourceManager P R → Happening P R → ResourceManager P R
  step m (asks request) = answered m (queue_request m request)
  step m clears = clear_queue m
  step m runs_once = (run_once class m).1
  step m stops = stop m
  step m rounds = rounded m (round class m)
  step m (ends id e) = record m { job_runner = JobRunner.complete m.job_runner id e }

  pub run : ResourceManager P R → List (Happening P R) → ResourceManager P R
  run m [] = m
  run m (h ∷ hs) = run (step m h) hs

  step-IsOrderly :
      (m : ResourceManager P R) (h : Happening P R) → IsOrderly m → IsOrderly (step m h)
  unfolding step stop
  step-IsOrderly m (asks request) v =
      let (x, m', e, v', a) = queue_request_answers m request v in rw e v'
  step-IsOrderly m clears v = clear_queue-IsOrderly m v
  step-IsOrderly m runs_once v = run_once-IsOrderly class m v
  step-IsOrderly m stops v = record {
    consistent = v.consistent;
    sound = v.sound;
    disjoint = v.disjoint;
  }
  step-IsOrderly m rounds v = let (m', e, v') = round-IsOrderly class m v in rw e v'
  step-IsOrderly m (ends id e) v = complete-IsOrderly m id e v

  run-IsOrderly :
      (m : ResourceManager P R) (hs : List (Happening P R)) → IsOrderly m → IsOrderly (run m hs)
  unfolding run
  run-IsOrderly m [] v = v
  run-IsOrderly m (h ∷ hs) v = run-IsOrderly (step m h) hs (step-IsOrderly m h v)

  pub make-IsOrderly :
      (queue_size active_jobs : ℤ) (m : ResourceManager P R)
      → make queue_size active_jobs ≡ returns m
      → IsOrderly m
  unfolding make
  make-IsOrderly n k m h = elim (Outcome-cases (RequestQueue.make {P = P} n)) [
    | inl (q, e) ↦ elim (Outcome-cases (JobRunner.make {R = R} k)) [
      | inl (r, f) ↦
          let same : m ≡ record { request_queue = q; job_runner = r; stop_triggered = false } =
            ground arith in
          let blank : q.queued_requests ≡ [] = make_empty n q e in
          rw same (record {
            consistent = make-IsConsistent n q e;
            sound = make-IsSound k r f;
            disjoint = λ id h. ground arith;
          })
      | inr (x, f) ↦ absurd (ground arith)
    ]
    | inr (x, e) ↦ absurd (ground arith)
  ]

  -- After any history of a newly made manager in which each call and each round of Run ends before the
  -- next one starts (requests asked for, rounds of Run, calls of RunOnce, ClearQueue and Stop, threads
  -- that end), for any derived class that keeps the contract of the two virtual methods: no id waits
  -- twice, the queue's set of ids is that of its requests, the queue is within its capacity, the runner
  -- is sound and within its capacity, and no id both waits and runs.
  pub run-make-IsOrderly :
      (queue_size active_jobs : ℤ) (m : ResourceManager P R) (hs : List (Happening P R))
      → make queue_size active_jobs ≡ returns m
      → IsOrderly (run m hs)
  run-make-IsOrderly n k m hs e = run-IsOrderly m hs (make-IsOrderly n k m e)

  -- What one round of `Run` does where it starts a job: `Cleanup` leaves the runner `r`, which has
  -- room, and `StartJobImpl` starts the job of the request at the front, with the runner `r'` left.
  -- The round then leaves exactly the rest of the queue waiting, in its order, and the job running.
  pub round_starts_front :
      (m : ResourceManager P R) (request : Request P) (rest : List (Request P)) (r r' : JobRunner R)
      → IsOrderly m
      → m.stop_triggered ≡ false
      → m.request_queue.queued_requests ≡ request ∷ rest
      → class.cleanup m.job_runner ≡ returns r
      → length r.active_jobs < r.capacity
      → class.start_job_impl request r ≡ returns (value true, r')
      → JobRunner.insert_new_job r request.id ≡ returns r'
      → (m' : ResourceManager P R) × (round class m ≡ returns m')
        × (m'.request_queue.queued_requests ≡ rest)
        × (m'.job_runner ≡ r')
        × (m'.stop_triggered ≡ false)
        × (lookup request.id m'.job_runner.active_jobs ≡ some running)
  unfolding round poll run_once start_job has_job RequestQueue.is_empty JobRunner.size
      JobRunner.has_job JobRunner.insert_new_job
  round_starts_front m request rest r r' v going front cleaned room started inserted =
      let (q, e, left) = pop_front m.request_queue request rest front in
      let (was, gone) = pop_forgets m.request_queue q request v.consistent e in
      let m₁ = record m { request_queue = q; job_runner = r' } in
      (m₁, ground arith, left, refl, going, inserted_running r r' request.id inserted)

  -- `RunOnce` with a full runner: the request at the front is taken out of the queue, its job is
  -- not started, and the manager does not have it any more.
  pub run_once_full_drops :
      (m : ResourceManager P R) (request : Request P) (rest : List (Request P))
      → IsOrderly m
      → m.request_queue.queued_requests ≡ request ∷ rest
      → length m.job_runner.active_jobs ≡ m.job_runner.capacity
      → ((run_once class m).0 ≡ no_more_jobs)
        × ((run_once class m).1.request_queue.queued_requests ≡ rest)
        × ((run_once class m).1.job_runner ≡ m.job_runner)
        × (has_job (run_once class m).1 request.id ≡ false)
  unfolding run_once start_job JobRunner.size
  run_once_full_drops m request rest v front full =
      let (q, e, left) = pop_front m.request_queue request rest front in
      let (after, popped, gone) = popped-IsOrderly class m q request v e in rw e (ground arith)
