-- ===== src/Service/ResourceManager/Drain.antt =====
-- resource_manager.h: the loop of `Run` works off the queue.
use planning_service.Prelude.{
  String, suc, ◌+◌, ◌≤◌, ◌<◌, ◌≡◌, refl, sym, ◌∙◌, true, false, List, [], ◌∷◌, some, length, arith,
  text_key, same_key_iff, All,
}
use planning_service.Prelude.Maps.{has_key, lookup, lookup-emplace}
use planning_service.Service.Error.{value, returns}
use planning_service.Service.RequestQueue.{Request}
use planning_service.Service.JobRunner
use planning_service.Service.JobRunner.{JobRunner, running}
use planning_service.Service.JobRunner.Bounds.{insert_new_job_room}
use planning_service.Service.ResourceManager.{ResourceManager, Derived, round, run_rounds}
use planning_service.Service.ResourceManager.Orderly.{IsOrderly, round-IsOrderly}
use planning_service.Service.ResourceManager.Rounds.{round_starts_front}

module _ {ℓ κ} {P : Type ℓ} {R : Type κ} (class : Derived P R) where
  -- `StartJobImpl` starts the job of the request in any runner that takes it.
  abbrev pub Starts : Request P → Type κ
  Starts request =
      (r r' : JobRunner R)
      → JobRunner.insert_new_job r request.id ≡ returns r'
      → class.start_job_impl request r ≡ returns (value true, r')

  abbrev pub IsRunning : ResourceManager P R → String → Type κ
  IsRunning m id = lookup id m.job_runner.active_jobs ≡ some running

  abbrev pub AllRunning : ResourceManager P R → List (Request P) → Type κ
  AllRunning m [] = Unit
  AllRunning m (request ∷ rest) = IsRunning m request.id × AllRunning m rest

  insert_keeps_running :
      (r r' : JobRunner R) (id j : String)
      → JobRunner.insert_new_job r id ≡ returns r'
      → lookup j r.active_jobs ≡ some running
      → lookup j r'.active_jobs ≡ some running
  unfolding JobRunner.insert_new_job
  insert_keeps_running r r' id j h k = ground (arith, lookup-emplace id j running r.active_jobs)

  record Rest (m : ResourceManager P R) (rest : List (Request P)) (m' : ResourceManager P R)
      : Type (ℓ ⊔ κ) where
    orderly : IsOrderly m'
    going : m'.stop_triggered ≡ false
    waiting : m'.request_queue.queued_requests ≡ rest
    grown : length m'.job_runner.active_jobs ≤ suc (length m.job_runner.active_jobs)
    capacity : m'.job_runner.capacity ≡ m.job_runner.capacity
    keeps : (id : String) → IsRunning m id → IsRunning m' id

  returns_injective : {m m' : ResourceManager P R} → returns m ≡ returns m' → m ≡ m'
  returns_injective h = cc

  one_round :
      (m : ResourceManager P R) (request : Request P) (rest : List (Request P))
      → Starts request
      → IsOrderly m
      → m.stop_triggered ≡ false
      → m.request_queue.queued_requests ≡ request ∷ rest
      → length m.job_runner.active_jobs < m.job_runner.capacity
      → (m' : ResourceManager P R) × (round class m ≡ returns m')
        × Rest m rest m'
        × IsRunning m' request.id
  unfolding JobRunner.has_job
  one_round m request rest starts v going front room =
      let (r, e, s, cap, fewer, sub, kept) = class.cleanup_removes m.job_runner v.sound in
      let free : has_key request.id r.active_jobs ≡ false =
        ground (arith, v.disjoint request.id, sub request.id, same_key_iff request.id request.id) in
      let (r', ins, more, cap') = insert_new_job_room r request.id free (omega arith) in
      let (m', f, waiting, same, going', runs) =
        round_starts_front class m request rest r r' v going front e (omega arith) (starts r r' ins)
          ins in
      let (m₂, g, v₂) = round-IsOrderly class m v in
      let eq : m₂ ≡ m' = returns_injective (sym g ∙ f) in
      (
        m',
        f,
        record {
          orderly = rw eq at v₂;
          going = going';
          waiting = waiting;
          grown = rw same (omega arith);
          capacity = rw same (omega arith);
          keeps = λ id h. rw same (insert_keeps_running r r' request.id id ins (kept id h));
        },
        runs,
      )

  drains :
      (xs : List (Request P)) (m : ResourceManager P R)
      → All Starts xs
      → IsOrderly m
      → m.stop_triggered ≡ false
      → m.request_queue.queued_requests ≡ xs
      → length xs + length m.job_runner.active_jobs ≤ m.job_runner.capacity
      → (m' : ResourceManager P R) × (run_rounds class (length xs) m ≡ returns m')
        × (m'.request_queue.queued_requests ≡ [])
        × AllRunning m' xs
        × ((id : String) → IsRunning m id → IsRunning m' id)
  unfolding run_rounds
  drains [] m starts v going front room = (m, refl, front, tt, λ id h. h)
  drains (request ∷ rest) m starts v going front room =
      let (m₁, e, after, runs) = one_round m request rest starts.0 v going front (omega arith) in
      let (m', f, blank, all, keeps) =
        drains rest m₁ starts.1 after.orderly after.going after.waiting
          (omega (arith, after.grown, after.capacity)) in
      (
        m',
        rw (e, run_rounds) f,
        blank,
        (keeps request.id runs, all),
        λ id h. keeps id (after.keeps id h),
      )

  -- The loop of `Run` works off the queue. In an orderly manager that is not stopped, where the
  -- derived class starts each request that waits, and with room in the runner for as many more jobs:
  -- as many rounds as there are requests leave the queue empty, with the job of each request running, and
  -- with every job that ran before still running where its thread has not ended.
  pub run_rounds_drain :
      (m : ResourceManager P R)
      → All Starts m.request_queue.queued_requests
      → IsOrderly m
      → m.stop_triggered ≡ false
      → length m.request_queue.queued_requests + length m.job_runner.active_jobs
        ≤ m.job_runner.capacity
      → (m' : ResourceManager P R) × (run_rounds class (length m.request_queue.queued_requests) m
          ≡ returns m')
        × (m'.request_queue.queued_requests ≡ [])
        × AllRunning m' m.request_queue.queued_requests
        × ((id : String) → IsRunning m id → IsRunning m' id)
  run_rounds_drain m starts v going room =
      drains m.request_queue.queued_requests m starts v going refl room
