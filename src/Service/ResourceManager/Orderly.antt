-- ===== src/Service/ResourceManager/Orderly.antt =====
-- resource_manager.h: each id is waiting at most once or running at most once, never both.
use planning_service.Prelude.{
  String, ◌≡◌, ◌≢◌, refl, ◌⊎◌, inl, inr, Bool, true, false, [], ◌∷◌, length, leb, arith, Bool-cases,
  text_key, same_key_iff,
}
use planning_service.Prelude.Maps.{has_key-emplace}
use planning_service.Service.Error.{Expected, value, returns, Outcome-cases}
use planning_service.Service.RequestQueue
use planning_service.Service.RequestQueue.{RequestQueue, Request}
use planning_service.Service.RequestQueue.Consistency.{
  mentions, IsConsistent, mentions-append, enqueue-IsConsistent, pop-IsConsistent, pop_forgets,
  clear-IsConsistent, enqueue-eq-returns, enqueue_room, enqueue_has, pop_next_request-eq-returns,
}
use planning_service.Service.JobRunner
use planning_service.Service.JobRunner.{JobRunner, Ended, running}
use planning_service.Service.JobRunner.Bounds.{
  IsSound, insert_new_job-IsSound, complete-IsSound, has_key-finish_at,
}
use planning_service.Service.ResourceManager.{
  ResourceManager, Derived, with_runner, start_caught, has_job, at_capacity, queue_request,
  clear_queue, start_job, run_once, poll, round,
}

module _ {ℓ κ} {P : Type ℓ} {R : Type κ} where
  pub record IsOrderly (m : ResourceManager P R) : Type 0 where
    pub consistent : IsConsistent m.request_queue
    pub sound : IsSound m.job_runner
    pub disjoint :
        (id : String)
        → mentions id m.request_queue.queued_requests ≡ true
        → JobRunner.has_job m.job_runner id ≡ false

  has_job-false :
      (m : ResourceManager P R) (id : String)
      → has_job m id ≡ false
      → (RequestQueue.has_request m.request_queue id ≡ false)
        × (JobRunner.has_job m.job_runner id ≡ false)
  unfolding has_job
  has_job-false m id h = ground arith

  enqueued-IsOrderly :
      (m : ResourceManager P R) (q : RequestQueue P) (request : Request P)
      → IsOrderly m
      → has_job m request.id ≡ false
      → RequestQueue.enqueue m.request_queue request ≡ returns q
      → IsOrderly (record m { request_queue = q })
  unfolding JobRunner.has_job
  enqueued-IsOrderly m q request v fresh e =
      let (fresh_queue, fresh_runner) = has_job-false m request.id fresh in
      let (same, ids, cap) = enqueue-eq-returns m.request_queue q request e in
      record {
        consistent = enqueue-IsConsistent m.request_queue q request v.consistent fresh_queue e;
        sound = v.sound;
        disjoint = λ id h. ground (
          arith,
          v.disjoint id,
          same_key_iff request.id id,
          mentions-append id m.request_queue.queued_requests (request ∷ []),
        );
      }

  queued_has :
      (m : ResourceManager P R) (q : RequestQueue P) (id : String)
      → RequestQueue.has_request q id ≡ true
      → has_job (record m { request_queue = q }) id ≡ true
  unfolding has_job
  queued_has m q id h = ground arith

  -- What `QueueRequest` answers: it is accepted and the manager has the job, or it is refused for
  -- lack of room in the queue and nothing has changed.
  abbrev pub IsAnswer :
      ResourceManager P R → Request P → Expected Bool → ResourceManager P R → Type (ℓ ⊔ κ)
  IsAnswer m request x m' =
      ((x ≡ value true) × (has_job m' request.id ≡ true) × (m'.job_runner ≡ m.job_runner))
      ⊎ ((x ≡ at_capacity m.request_queue.capacity)
          × (m' ≡ m)
          × (has_job m request.id ≡ false)
          × (length m.request_queue.queued_requests ≡ m.request_queue.capacity))

  -- On an orderly manager `QueueRequest` does not throw, keeps the manager orderly, and either has
  -- the job from then on or refuses it for a full queue, which leaves the manager as it was.
  pub queue_request_answers :
      (m : ResourceManager P R) (request : Request P)
      → IsOrderly m
      → (x : Expected Bool) × (m' : ResourceManager P R) × (queue_request m request
          ≡ returns (x, m'))
        × IsOrderly m'
        × IsAnswer m request x m'
  unfolding queue_request RequestQueue.size
  queue_request_answers m request v = elim (Bool-cases (has_job m request.id)) [
    | inl known ↦ (value true, m, ground arith, v, inl (refl, known, refl))
    | inr fresh ↦
        elim (Bool-cases (leb m.request_queue.capacity (length m.request_queue.queued_requests))) [
          | inl full ↦ (
            at_capacity m.request_queue.capacity,
            m,
            ground arith,
            v,
            inr (refl, refl, fresh, ground (arith, v.consistent.bounded)),
          )
          | inr room ↦
              let (q, e) = enqueue_room m.request_queue request (ground arith) in
              (
                value true,
                record m { request_queue = q },
                ground arith,
                enqueued-IsOrderly m q request v fresh e,
                inl (
                  refl,
                  queued_has m q request.id (enqueue_has m.request_queue q request e),
                  refl,
                ),
              )
        ]
  ]

  pub clear_queue-IsOrderly : (m : ResourceManager P R) → IsOrderly m → IsOrderly (clear_queue m)
  unfolding clear_queue RequestQueue.clear
  clear_queue-IsOrderly m v = record {
    consistent = clear-IsConsistent m.request_queue v.consistent;
    sound = v.sound;
    disjoint = λ id h. cc;
  }

  pub complete-IsOrderly :
      (m : ResourceManager P R) (id : String) (e : Ended R)
      → IsOrderly m
      → IsOrderly (record m { job_runner = JobRunner.complete m.job_runner id e })
  unfolding JobRunner.has_job JobRunner.complete
  complete-IsOrderly m id e v = record {
    consistent = v.consistent;
    sound = complete-IsSound m.job_runner id e v.sound;
    disjoint =
        λ j h. ground (arith, v.disjoint j, has_key-finish_at id j e m.job_runner.active_jobs);
  }

module _ {ℓ κ} {P : Type ℓ} {R : Type κ} (class : Derived P R) where
  -- The job of the request is put in the runner, and nothing else changes.
  abbrev pub IsStarted : ResourceManager P R → Request P → ResourceManager P R → Type (ℓ ⊔ κ)
  IsStarted m request m' =
      (JobRunner.insert_new_job m.job_runner request.id ≡ returns m'.job_runner)
      × (m'.request_queue ≡ m.request_queue)
      × (m'.stop_triggered ≡ m.stop_triggered)

  start_job_cases :
      (m m' : ResourceManager P R) (request : Request P) (x : Expected Bool)
      → start_job class m request ≡ returns (x, m')
      → (m' ≡ m) ⊎ IsStarted m request m'
  unfolding start_job
  start_job_cases m m' request x h =
      elim (Outcome-cases (class.start_job_impl request m.job_runner)) [
        | inl ((y, r), e) ↦ elim (class.start_job_impl_inserts request m.job_runner r y e) [
          | inl same ↦ inl (ground arith)
          | inr ins ↦ ground arith
        ]
        | inr (y, e) ↦ inl (ground arith)
      ]

  inserted-IsOrderly :
      (m m' : ResourceManager P R) (request : Request P)
      → IsOrderly m
      → mentions request.id m.request_queue.queued_requests ≡ false
      → IsStarted m request m'
      → IsOrderly m'
  unfolding JobRunner.has_job JobRunner.insert_new_job
  inserted-IsOrderly m m' request v popped (e, q, s) = record {
    consistent = rw q v.consistent;
    sound = insert_new_job-IsSound m.job_runner m'.job_runner request.id v.sound e;
    disjoint = λ id h. ground (
      arith,
      v.disjoint id,
      same_key_iff request.id id,
      has_key-emplace request.id id running m.job_runner.active_jobs,
    );
  }

  start_job-IsOrderly :
      (m m' : ResourceManager P R) (request : Request P) (x : Expected Bool)
      → IsOrderly m
      → mentions request.id m.request_queue.queued_requests ≡ false
      → start_job class m request ≡ returns (x, m')
      → IsOrderly m'
  start_job-IsOrderly m m' request x v popped h = elim (start_job_cases m m' request x h) [
    | inl same ↦ rw same v
    | inr started ↦ inserted-IsOrderly m m' request v popped started
  ]

  pub popped-IsOrderly :
      (m : ResourceManager P R) (q : RequestQueue P) (request : Request P)
      → IsOrderly m
      → RequestQueue.pop_next_request m.request_queue ≡ returns (request, q)
      → IsOrderly (record m { request_queue = q })
        × (mentions request.id q.queued_requests ≡ false)
        × (has_job (record m { request_queue = q }) request.id ≡ false)
  unfolding has_job RequestQueue.has_request
  popped-IsOrderly m q request v e =
      let (front, ids, cap) = pop_next_request-eq-returns m.request_queue q request e in
      let (was, gone) = pop_forgets m.request_queue q request v.consistent e in
      let after = pop-IsConsistent m.request_queue q request v.consistent e in
      (
        record {
          consistent = after;
          sound = v.sound;
          disjoint = λ id h. ground (arith, v.disjoint id);
        },
        ground (arith, after.mirrored request.id),
        ground (arith, v.disjoint request.id, same_key_iff request.id request.id),
      )

  start_caught-IsOrderly :
      (m : ResourceManager P R) (request : Request P)
      → IsOrderly m
      → mentions request.id m.request_queue.queued_requests ≡ false
      → IsOrderly (start_caught class m (start_job class m request)).1
  start_caught-IsOrderly m request v popped = elim (Outcome-cases (start_job class m request)) [
    | inl ((x, m'), e) ↦ rw e (start_job-IsOrderly m m' request x v popped e)
    | inr (x, e) ↦ rw e v
  ]

  pub run_once-IsOrderly : (m : ResourceManager P R) → IsOrderly m → IsOrderly (run_once class m).1
  unfolding run_once
  run_once-IsOrderly m v = elim (Outcome-cases (RequestQueue.pop_next_request m.request_queue)) [
    | inl ((request, q), e) ↦
        let (after, popped, fresh) = popped-IsOrderly m q request v e in
        rw e (start_caught-IsOrderly (record m { request_queue = q }) request after popped)
    | inr (x, e) ↦ rw e v
  ]

  poll-IsOrderly : (m : ResourceManager P R) → IsOrderly m → IsOrderly (poll class m)
  unfolding poll
  poll-IsOrderly m v = ground (arith, run_once-IsOrderly m v)

  cleaned-IsOrderly :
      (m : ResourceManager P R) (r : JobRunner R)
      → IsOrderly m
      → IsSound r
      → ((id : String) → JobRunner.has_job r id ≡ true → JobRunner.has_job m.job_runner id ≡ true)
      → IsOrderly (record m { job_runner = r })
  cleaned-IsOrderly m r v s sub = record {
    consistent = v.consistent;
    sound = s;
    disjoint = λ id h. ground (arith, v.disjoint id, sub id);
  }

  -- A round of `Run` ends without an exception and keeps the manager orderly.
  pub round-IsOrderly :
      (m : ResourceManager P R)
      → IsOrderly m
      → (m' : ResourceManager P R) × (round class m ≡ returns m') × IsOrderly m'
  unfolding round
  round-IsOrderly m v =
      let (r, e, s, cap, fewer, sub, kept) = class.cleanup_removes m.job_runner v.sound in
      elim (Bool-cases m.stop_triggered) [
        | inl stopped ↦ (m, ground arith, v)
        | inr going ↦ (
          poll class (record m { job_runner = r }),
          ground arith,
          poll-IsOrderly (record m { job_runner = r }) (cleaned-IsOrderly m r v s sub),
        )
      ]

  -- `RunOnce` never finds that the job which it starts is already there: in an orderly manager
  -- `StartJob` does not answer for the popped request that its id is a duplicate.
  pub start_job_not_duplicate :
      (m : ResourceManager P R) (q : RequestQueue P) (request : Request P)
      → IsOrderly m
      → RequestQueue.pop_next_request m.request_queue ≡ returns (request, q)
      → m.job_runner.capacity ≢ length m.job_runner.active_jobs
      → start_job class (record m { request_queue = q }) request
        ≡ with_runner class
            (record m { request_queue = q })
            (class.start_job_impl request m.job_runner)
  unfolding start_job JobRunner.size
  start_job_not_duplicate m q request v e room =
      let (after, popped, fresh) = popped-IsOrderly m q request v e in
      ground (arith, v.sound.bounded)
