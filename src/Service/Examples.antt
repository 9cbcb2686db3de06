-- ===== src/Service/Examples.antt =====
-- The theorems about the service's job machinery at concrete queues, runners and managers.
use planning_service.Prelude.{
  String, ◌≡◌, ◌≢◌, refl, Bool, false, List, [], ◌∷◌, ◌++◌, some, arith, text_key, ℕ,
}
use mathlib.Core.Bool.{false≢true}
use text.Mathlib.TextEquality.{eq_iff}
use planning_service.Prelude.Int.{pos}
use planning_service.Prelude.Sets.{contains}
use planning_service.Service.Iris
use planning_service.Prelude.Maps.{lookup, has_key, erase, emplace}
use planning_service.Service.Error.{Expected, value, returns, runtime_error}
use planning_service.Service.RequestQueue
use planning_service.Service.RequestQueue.{RequestQueue, Request}
use planning_service.Service.RequestQueue.Fifo.{
  enqueues, pops, run_in_order, drain_round_trip, fresh_trace, enqueue_each, pop_each,
}
use planning_service.Service.RequestQueue.Fifo
use planning_service.Service.JobRunner
use planning_service.Service.JobRunner.{JobRunner, Ended, result, exception, running, ready}
use planning_service.Service.JobRunner.Bounds
use planning_service.Service.JobRunner.Bounds.{IsSound, run-make-IsSound}
use planning_service.Service.JobRunner.Retrieval.{
  retrieve_result-eq-returns, retrieve_after_life, reported,
}
use planning_service.Service.ResourceManager
use planning_service.Service.ResourceManager.{ResourceManager}
use planning_service.Service.ResourceManager.Orderly.{IsOrderly, queue_request_answers, IsAnswer}
use planning_service.Service.ResourceManager.Rounds
use planning_service.Service.ResourceManager.Rounds.{
  run-make-IsOrderly, round_starts_front, run_once_full_drops,
}
use planning_service.Service.ResourceManager.Drain.{run_rounds_drain}
use planning_service.Service.Iris.{IrisBuildRequest, IrisBuildResult, iris_from_configs}
use planning_service.Service.Iris.Cleanup.{cleanup-unended}
use planning_service.Service.Iris.Class.{iris_class, nonzero-Starts}

abbrev req : String → ℕ → Request ℕ
req id n = record { id = id; payload = n }

abbrev one_waiting : RequestQueue ℕ
one_waiting = record { capacity = 3; queued_requests = req "a" 1 ∷ []; queued_ids = "a" ∷ [] }

run_in_order_example :
    one_waiting.queued_requests
      ++ (Fifo.run (fresh_trace one_waiting) (enqueues (req "b" 2) ∷ pops ∷ [])).accepted
    ≡ (Fifo.run (fresh_trace one_waiting) (enqueues (req "b" 2) ∷ pops ∷ [])).delivered
      ++ (Fifo.run
          (fresh_trace one_waiting)
          (enqueues (req "b" 2) ∷ pops ∷ [])).last.queued_requests
run_in_order_example = run_in_order one_waiting (enqueues (req "b" 2) ∷ pops ∷ [])

abbrev two_more : List (Request ℕ)
two_more = req "b" 2 ∷ req "c" 3 ∷ []

drain_round_trip_example :
    ((Fifo.run
        (fresh_trace one_waiting)
        (enqueue_each two_more ++ pop_each (one_waiting.queued_requests ++ two_more))).delivered
      ≡ req "a" 1 ∷ req "b" 2 ∷ req "c" 3 ∷ [])
    × ((Fifo.run (fresh_trace one_waiting) (
          enqueue_each two_more
          ++ pop_each (one_waiting.queued_requests ++ two_more))).last.queued_requests
        ≡ [])
drain_round_trip_example = drain_round_trip one_waiting two_more (omega arith)

abbrev idle_runner : JobRunner ℕ
idle_runner = record { capacity = 2; active_jobs = [] }

abbrev busy_runner : JobRunner ℕ
busy_runner = record {
  capacity = 2;
  active_jobs = ("b", running) ∷ ("a", ready (result (value 5))) ∷ [];
}

busy_runner-IsSound : IsSound busy_runner
unfolding has_key
busy_runner-IsSound = record {
  distinct = (refl, (refl, tt));
  stateful = (tt, (tt, tt));
  bounded = omega arith;
}

abbrev life : List (Bounds.Event ℕ)
life = Bounds.inserts "b" ∷ Bounds.ends "a" (result (value 5)) ∷ Bounds.retrieves "a" ∷ []

run-make-IsSound_example : IsSound (Bounds.run idle_runner life)
unfolding JobRunner.make
run-make-IsSound_example = run-make-IsSound (pos 2) idle_runner life refl

abbrev left_runner : JobRunner ℕ
left_runner = record { capacity = 2; active_jobs = ("b", running) ∷ [] }

retrieve_result-eq-returns_example :
    (e : Ended ℕ) × (lookup "a" busy_runner.active_jobs ≡ some (ready e))
    × (value 5 ≡ reported "a" e)
    × (left_runner ≡ record busy_runner { active_jobs = erase "a" busy_runner.active_jobs })
unfolding JobRunner.retrieve_result lookup erase
retrieve_result-eq-returns_example =
    retrieve_result-eq-returns busy_runner left_runner "a" (value 5) refl

abbrev started_runner : JobRunner ℕ
started_runner = record { capacity = 2; active_jobs = ("a", running) ∷ [] }

abbrev other_life : List (Bounds.Event ℕ)
other_life = Bounds.inserts "b" ∷ Bounds.ends "b" (exception (runtime_error "stuck")) ∷ []

b-ne-a : ◌≢◌ {A = String} "b" "a"
b-ne-a e = false≢true ((eq_iff "b" "a").1 e)

retrieve_after_life_example :
    let r =
      Bounds.run
        (JobRunner.complete (Bounds.run started_runner other_life) "a" (result (value 5)))
        [] in
    JobRunner.retrieve_result r "a"
    ≡ returns (value 5, record r { active_jobs = erase "a" r.active_jobs })
unfolding JobRunner.insert_new_job has_key emplace
retrieve_after_life_example =
    retrieve_after_life idle_runner started_runner "a" (result (value 5)) other_life [] refl
      (b-ne-a, (b-ne-a, tt)) tt

cleanup-unended_example : Iris.cleanup busy_runner ≡ returns left_runner
cleanup-unended_example = cleanup-unended busy_runner busy_runner-IsSound

abbrev pub build : String → Request (IrisBuildRequest ℕ)
build id = record {
  id = id;
  payload = record {
    context_id = 7;
    num_problems = pos 0;
    job_type = iris_from_configs;
    sysconf_vec = 1 ∷ [];
    sysconf_edge_vec = [];
  };
}

abbrev pub Manager : Type 0
Manager = ResourceManager (IrisBuildRequest ℕ) IrisBuildResult

abbrev fresh_manager : Manager
fresh_manager = record {
  request_queue = record { capacity = 1; queued_requests = []; queued_ids = [] };
  job_runner = record { capacity = 1; active_jobs = [] };
  stop_triggered = false;
}

abbrev pub waiting_manager : Manager
waiting_manager = record fresh_manager {
  request_queue = record { capacity = 1; queued_requests = build "a" ∷ []; queued_ids = "a" ∷ [] };
}

abbrev full_manager : Manager
full_manager = record waiting_manager {
  job_runner = record { capacity = 1; active_jobs = ("b", running) ∷ [] };
}

pub waiting_manager-IsOrderly : IsOrderly waiting_manager
unfolding contains has_key JobRunner.has_job
waiting_manager-IsOrderly = record {
  consistent = record { mirrored = λ id. refl; unrepeated = (refl, tt); bounded = omega arith };
  sound = record { distinct = tt; stateful = tt; bounded = omega arith };
  disjoint = λ id h. refl;
}

full_manager-IsOrderly : IsOrderly full_manager
unfolding contains has_key JobRunner.has_job
full_manager-IsOrderly = record {
  consistent = record { mirrored = λ id. refl; unrepeated = (refl, tt); bounded = omega arith };
  sound = record { distinct = (refl, tt); stateful = (tt, tt); bounded = omega arith };
  disjoint = λ id h. ground (arith, eq_iff "a" id, eq_iff "b" id, b-ne-a);
}

run-make-IsOrderly_example : IsOrderly (
    Rounds.run iris_class fresh_manager
      (Rounds.asks (build "a") ∷ Rounds.rounds ∷ Rounds.asks (build "b") ∷ []))
unfolding ResourceManager.make RequestQueue.make JobRunner.make
run-make-IsOrderly_example =
    run-make-IsOrderly iris_class (pos 1) (pos 1) fresh_manager
      (Rounds.asks (build "a") ∷ Rounds.rounds ∷ Rounds.asks (build "b") ∷ []) refl

queue_request_answers_example :
    (x : Expected Bool) × (m' : Manager) × (ResourceManager.queue_request waiting_manager
        (build "b")
      ≡ returns (x, m'))
    × IsOrderly m'
    × IsAnswer waiting_manager (build "b") x m'
queue_request_answers_example =
    queue_request_answers waiting_manager (build "b") waiting_manager-IsOrderly

abbrev one_job : JobRunner IrisBuildResult
one_job = record { capacity = 1; active_jobs = ("a", running) ∷ [] }

run_once_full_drops_example :
    ((ResourceManager.run_once iris_class full_manager).0 ≡ ResourceManager.no_more_jobs)
    × ((ResourceManager.run_once iris_class full_manager).1.request_queue.queued_requests ≡ [])
    × ((ResourceManager.run_once iris_class full_manager).1.job_runner ≡ full_manager.job_runner)
    × (ResourceManager.has_job (ResourceManager.run_once iris_class full_manager).1 "a" ≡ false)
run_once_full_drops_example =
    run_once_full_drops iris_class full_manager (build "a") [] full_manager-IsOrderly refl refl

run_rounds_drain_example :
    (m' : Manager) × (ResourceManager.run_rounds iris_class 1 waiting_manager ≡ returns m')
    × (m'.request_queue.queued_requests ≡ [])
    × ((lookup "a" m'.job_runner.active_jobs ≡ some running) × Unit {0})
    × ((id : String)
        → lookup id waiting_manager.job_runner.active_jobs ≡ some running
        → lookup id m'.job_runner.active_jobs ≡ some running)
run_rounds_drain_example =
    run_rounds_drain iris_class waiting_manager (nonzero-Starts (build "a") (λ e. omega arith), tt)
      waiting_manager-IsOrderly refl (omega arith)
