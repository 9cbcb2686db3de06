-- ===== src/Service/ResourceManager/Overlap/Examples.antt =====
-- The theorems about overlapping calls at a manager with two places in its queue.
use planning_service.Prelude.{
  ℕ, String, ◌≡◌, ◌⊎◌, refl, inr, Bool, true, false, [], ◌∷◌, some, arith, text_key,
}
use planning_service.Prelude.Int.{pos}
use planning_service.Prelude.Maps.{lookup, has_key, emplace}
use planning_service.Prelude.Sets.{contains, erase}
use planning_service.Service.Error.{Expected, value, Outcome, returns, throws}
use planning_service.Service.RequestQueue
use planning_service.Service.RequestQueue.{RequestQueue, Request}
use planning_service.Service.JobRunner
use planning_service.Service.JobRunner.{JobRunner, running}
use planning_service.Service.ResourceManager.{ResourceManager, Derived, make, has_job}
use planning_service.Service.ResourceManager.Overlap.{
  Threads, clean, see_queue, see_room, pop, not_waiting, not_running, may_start, Reached, begin,
  asks, polls, set_caller, set_polling, set_queue, set_runner, queue_of, runner_of, outside,
  not_queued, startable, resting, look_queue,
}
use planning_service.Service.ResourceManager.Overlap.Races.{
  IsBounded, Reached-IsBounded, id_waits_and_runs,
}

abbrev inserted : Outcome (JobRunner ℕ) → Outcome (Expected Bool × JobRunner ℕ)
inserted (returns r) = returns (value true, r)
inserted (throws e) = throws e

insert_inserts :
    (o : Outcome (JobRunner ℕ)) (r r' : JobRunner ℕ) (x : Expected Bool)
    → inserted o ≡ returns (x, r')
    → (r' ≡ r) ⊎ (o ≡ returns r')
insert_inserts (returns q) r r' x e = inr (ground arith)
insert_inserts (throws y) r r' x e = absurd (ground arith)

-- A class that starts each job and cleans nothing up.
abbrev starter : Derived ℕ ℕ
starter = record {
  start_job_impl = λ request r. inserted (JobRunner.insert_new_job r request.id);
  start_job_impl_inserts =
      λ request r r' x e. insert_inserts (JobRunner.insert_new_job r request.id) r r' x e;
  cleanup = λ r. returns r;
  cleanup_removes = λ r v. (r, refl, v, refl, omega arith, λ id h. h, λ id h. h);
}

abbrev ask : String → ℕ → Request ℕ
ask id n = record { id = id; payload = n }

abbrev new_manager : ResourceManager ℕ ℕ
new_manager = record {
  request_queue = record { capacity = 2; queued_requests = []; queued_ids = [] };
  job_runner = record { capacity = 1; active_jobs = [] };
  stop_triggered = false;
}

abbrev busy_manager : ResourceManager ℕ ℕ
busy_manager = record new_manager {
  request_queue = record { capacity = 2; queued_requests = ask "a" 1 ∷ []; queued_ids = "a" ∷ [] };
}

abbrev threads : ResourceManager ℕ ℕ → Threads ℕ ℕ
threads m = record { manager = m; caller = λ i. outside; polling = resting }

Reached-IsBounded_example : IsBounded (set_caller 0 (not_queued (ask "a" 1)) (threads new_manager))
unfolding make RequestQueue.make JobRunner.make RequestQueue.has_request contains
Reached-IsBounded_example =
    Reached-IsBounded starter (pos 2) (pos 1) new_manager refl
      (asks begin (look_queue 0 (ask "a" 1) refl refl))

abbrev empty_queue : RequestQueue ℕ
empty_queue = new_manager.request_queue

abbrev about_to_start : Threads ℕ ℕ
about_to_start = record {
  manager = new_manager;
  caller = λ i. outside;
  polling = startable (ask "a" 1);
}

about_to_start_reached : Reached starter busy_manager about_to_start
unfolding set_polling set_queue set_runner RequestQueue.is_empty JobRunner.size RequestQueue.size
    RequestQueue.pop_next_request RequestQueue.has_request JobRunner.has_job contains has_key erase
about_to_start_reached =
    let r0 : Reached starter busy_manager (threads busy_manager) = begin in
    let r1 = polls r0 (clean busy_manager.job_runner refl refl refl) in
    let r2 = polls r1 (see_queue refl refl) in
    let r3 = polls r2 (see_room refl refl) in
    let r4 = polls r3 (pop (ask "a" 1) empty_queue refl refl) in
    let r5 = polls r4 (not_waiting (ask "a" 1) refl refl) in
    let r6 = polls r5 (not_running (ask "a" 1) refl refl) in
    polls r6 (may_start (ask "a" 1) refl refl)

abbrev one_job : JobRunner ℕ
one_job = record { capacity = 1; active_jobs = ("a", running) ∷ [] }

id_waits_and_runs_example :
    (t : Threads ℕ ℕ) × Reached starter busy_manager t
    × (RequestQueue.has_request (queue_of t) "a" ≡ true)
    × (lookup "a" (runner_of t).active_jobs ≡ some running)
unfolding has_job RequestQueue.has_request contains JobRunner.has_job has_key emplace
    JobRunner.insert_new_job
id_waits_and_runs_example =
    id_waits_and_runs starter busy_manager 0 (ask "a" 1) (value true) one_job about_to_start_reached
      refl refl refl (omega arith) refl refl
