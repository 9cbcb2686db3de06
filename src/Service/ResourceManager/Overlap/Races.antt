-- ===== src/Service/ResourceManager/Overlap/Races.antt =====
-- What holds of a manager whatever calls overlap, and what overlapping calls break.
use planning_service.Prelude.{
  ℕ, suc, ◌<◌, ◌≤◌, ◌≡◌, ◌≢◌, refl, sym, ◌∙◌, ap, subst, Bool, true, false, List, [], ◌∷◌, ◌++◌,
  length, length-append, arith, inl, inr, some, text_key,
}
use planning_service.Prelude.Int.{ℤ}
use planning_service.Service.Error.{Expected, returns, throws, queue_at_capacity_error}
use planning_service.Service.RequestQueue
use planning_service.Service.RequestQueue.{RequestQueue, Request}
use planning_service.Service.RequestQueue.Consistency.{
  enqueue-eq-returns, enqueue_room, enqueue_has, pop_next_request-eq-returns,
}
use planning_service.Service.JobRunner
use planning_service.Service.JobRunner.{JobRunner, running}
use planning_service.Service.JobRunner.Retrieval.{inserted_running}
use planning_service.Prelude.Maps.{lookup}
use planning_service.Service.JobRunner.Bounds.{IsSound, insert_new_job-IsSound, complete-IsSound}
use planning_service.Service.ResourceManager.{
  ResourceManager, Derived, make, has_job, clear_queue, stop,
}
use planning_service.Service.ResourceManager.Rounds.{make-IsOrderly}
use planning_service.Service.ResourceManager.Overlap.{
  Threads, Asks, look_queue, known_queued, look_runner, known_running, look_size, refused, add,
  overflow, Happens, ends, clears, stops, Polls, clean, see_queue, see_nothing, see_room, see_full,
  pop, pop_nothing, not_waiting, waits_again, not_running, runs_already, may_start, no_room, start,
  start_fails, Reached, begin, asks, polls, happens, set_caller, set_polling, set_queue, set_runner,
  queue_of, runner_of, outside, not_queued, fresh, roomy, resting, startable,
}

module _ {ℓ} {P : Type ℓ} where
  enqueue_bounded :
      (q q' : RequestQueue P) (request : Request P)
      → RequestQueue.enqueue q request ≡ returns q'
      → length q'.queued_requests ≤ q'.capacity
  unfolding RequestQueue.enqueue
  enqueue_bounded q q' request e = ground (arith, length-append q.queued_requests (request ∷ []))

  pop_bounded :
      (q q' : RequestQueue P) (request : Request P)
      → RequestQueue.pop_next_request q ≡ returns (request, q')
      → length q.queued_requests ≤ q.capacity
      → length q'.queued_requests ≤ q'.capacity
  pop_bounded q q' request e le =
      let (front, ids, cap) = pop_next_request-eq-returns q q' request e in ground arith

  enqueue_full :
      (q : RequestQueue P) (request : Request P)
      → length q.queued_requests ≡ q.capacity
      → RequestQueue.enqueue q request ≡ throws queue_at_capacity_error
  unfolding RequestQueue.enqueue
  enqueue_full q request e = ground arith

  one_more :
      (l : List (Request P)) (request : Request P) {l' : List (Request P)}
      → l' ≡ l ++ request ∷ []
      → length l' ≡ suc (length l)
  one_more l request e = ap length e ∙ omega (arith, length-append l (request ∷ []))

module _ {ℓ κ} {P : Type ℓ} {R : Type κ} where
  has_space :
      {m m' : ResourceManager P R}
      → m' ≡ m
      → length m.request_queue.queued_requests < m.request_queue.capacity
      → length m'.request_queue.queued_requests < m'.request_queue.capacity
  has_space {m} {m'} e lt =
      subst
        (λ (n : ResourceManager P R).
          length n.request_queue.queued_requests < n.request_queue.capacity)
        (sym e) lt

  pub record IsBounded (s : Threads P R) : Type 0 where
    pub bounded : length (queue_of s).queued_requests ≤ (queue_of s).capacity
    pub sound : IsSound (runner_of s)

  same_manager : {s t : Threads P R} → t.manager ≡ s.manager → IsBounded s → IsBounded t
  same_manager e v = record { bounded = rw e v.bounded; sound = rw e v.sound }

  new_queue :
      {s : Threads P R} (t : Threads P R)
      → IsBounded s
      → length (queue_of t).queued_requests ≤ (queue_of t).capacity
      → runner_of t ≡ runner_of s
      → IsBounded t
  new_queue t v le e = record { bounded = le; sound = rw e v.sound }

  Asks-IsBounded : {s t : Threads P R} → Asks s t → IsBounded s → IsBounded t
  unfolding set_caller set_queue
  Asks-IsBounded (look_queue i r p e) v = same_manager refl v
  Asks-IsBounded (known_queued i r p e) v = v
  Asks-IsBounded (look_runner i r p e) v = same_manager refl v
  Asks-IsBounded (known_running i r p e) v = same_manager refl v
  Asks-IsBounded (look_size i r p e) v = same_manager refl v
  Asks-IsBounded (refused i r p e) v = same_manager refl v
  Asks-IsBounded (add i r q p e) v = new_queue _ v (enqueue_bounded _ q r e) refl
  Asks-IsBounded (overflow i r x p e) v = same_manager refl v

  Happens-IsBounded : {s t : Threads P R} → Happens s t → IsBounded s → IsBounded t
  unfolding set_runner clear_queue stop RequestQueue.clear
  Happens-IsBounded (ends id e) v = record {
    bounded = v.bounded;
    sound = complete-IsSound _ id e v.sound;
  }
  Happens-IsBounded clears v = new_queue _ v (omega arith) refl
  Happens-IsBounded stops v = record { bounded = v.bounded; sound = v.sound }

module _ {ℓ κ} {P : Type ℓ} {R : Type κ} (class : Derived P R) where
  started-IsSound :
      (request : Request P) (r r' : JobRunner R) (x : Expected Bool)
      → IsSound r
      → class.start_job_impl request r ≡ returns (x, r')
      → IsSound r'
  started-IsSound request r r' x v e = elim (class.start_job_impl_inserts request r r' x e) [
    | inl same ↦ rw same v
    | inr inserted ↦ insert_new_job-IsSound r r' request.id v inserted
  ]

  cleaned-IsSound : (r r' : JobRunner R) → IsSound r → class.cleanup r ≡ returns r' → IsSound r'
  cleaned-IsSound r r' v e =
      let (r'', e', s, cap, fewer, sub, kept) = class.cleanup_removes r v in
      let same : r'' ≡ r' = ground arith in subst IsSound same s

  Polls-IsBounded : {s t : Threads P R} → Polls class s t → IsBounded s → IsBounded t
  unfolding set_polling set_queue set_runner
  Polls-IsBounded (clean r p g e) v = record {
    bounded = v.bounded;
    sound = cleaned-IsSound _ r v.sound e;
  }
  Polls-IsBounded (see_queue p e) v = same_manager refl v
  Polls-IsBounded (see_nothing p e) v = same_manager refl v
  Polls-IsBounded (see_room p e) v = same_manager refl v
  Polls-IsBounded (see_full p e) v = same_manager refl v
  Polls-IsBounded (pop r q p e) v = new_queue _ v (pop_bounded _ q r e v.bounded) refl
  Polls-IsBounded (pop_nothing x p e) v = same_manager refl v
  Polls-IsBounded (not_waiting r p e) v = same_manager refl v
  Polls-IsBounded (waits_again r p e) v = same_manager refl v
  Polls-IsBounded (not_running r p e) v = same_manager refl v
  Polls-IsBounded (runs_already r p e) v = same_manager refl v
  Polls-IsBounded (may_start r p e) v = same_manager refl v
  Polls-IsBounded (no_room r p e) v = same_manager refl v
  Polls-IsBounded (start r x r' p e) v = record {
    bounded = v.bounded;
    sound = started-IsSound r _ r' x v.sound e;
  }
  Polls-IsBounded (start_fails r x p e) v = same_manager refl v

  -- In every state that the threads of a new manager reach, with any number of calls of QueueRequest
  -- that overlap each other and the rounds of Run, for any derived class that keeps the contract of
  -- the two virtual methods: the queue is within its capacity, and the runner holds each id once, only
  -- futures with a state and no more jobs than its capacity.
  pub Reached-IsBounded :
      (queue_size active_jobs : ℤ) (m : ResourceManager P R) {s : Threads P R}
      → make queue_size active_jobs ≡ returns m
      → Reached class m s
      → IsBounded s
  Reached-IsBounded n k m new begin =
      let v = make-IsOrderly class n k m new in
      record { bounded = v.consistent.bounded; sound = v.sound }
  Reached-IsBounded n k m new (asks r step) = Asks-IsBounded step (Reached-IsBounded n k m new r)
  Reached-IsBounded n k m new (polls r step) = Polls-IsBounded step (Reached-IsBounded n k m new r)
  Reached-IsBounded n k m new (happens r step) =
      Happens-IsBounded step (Reached-IsBounded n k m new r)

  module _ (m : ResourceManager P R) where
    -- A thread gets as far as the call of `Enqueue`, and the others stay where they are.
    admitted :
        {s : Threads P R} (i : ℕ) (request : Request P)
        → Reached class m s
        → s.caller i ≡ outside
        → has_job s.manager request.id ≡ false
        → length (queue_of s).queued_requests < (queue_of s).capacity
        → (t : Threads P R) × Reached class m t
          × (t.manager ≡ s.manager)
          × (t.polling ≡ s.polling)
          × (t.caller i ≡ roomy request)
          × ((k : ℕ) → i ≢ k → t.caller k ≡ s.caller k)
    unfolding set_caller has_job RequestQueue.size
    admitted {s} i request r out new room = (
      set_caller i (roomy request)
          (set_caller i (fresh request) (set_caller i (not_queued request) s)),
      asks
          (asks (asks r (look_queue i request out (ground arith)))
            (look_runner i request (ground arith) (ground arith)))
          (look_size i request (ground arith) (ground arith)),
      refl,
      refl,
      ground arith,
      λ k other. ground arith,
    )

    both_admitted :
        {s : Threads P R} (i j : ℕ) (first second : Request P)
        → Reached class m s
        → i ≢ j
        → s.caller i ≡ outside
        → s.caller j ≡ outside
        → has_job s.manager first.id ≡ false
        → has_job s.manager second.id ≡ false
        → length (queue_of s).queued_requests < (queue_of s).capacity
        → (t : Threads P R) × Reached class m t
          × (t.manager ≡ s.manager)
          × (t.caller i ≡ roomy first)
          × (t.caller j ≡ roomy second)
    both_admitted {s} i j first second r other out_i out_j new_i new_j room =
        let (t, r', same, polls_on, at_i, rest) = admitted i first r out_i new_i room in
        let (u, r'', same', polls_on', at_j, rest') =
          admitted j second r' (rest j other ∙ out_j) (rw same new_j) (has_space same room) in
        (u, r'', same' ∙ same, rest' i (λ e. other (sym e)) ∙ at_i, at_j)

    added :
        {s : Threads P R} (i : ℕ) (request : Request P)
        → Reached class m s
        → s.caller i ≡ roomy request
        → length (queue_of s).queued_requests < (queue_of s).capacity
        → (t : Threads P R) × Reached class m t
          × ((queue_of t).queued_requests ≡ (queue_of s).queued_requests ++ request ∷ [])
          × ((queue_of t).capacity ≡ (queue_of s).capacity)
          × (RequestQueue.has_request (queue_of t) request.id ≡ true)
          × (runner_of t ≡ runner_of s)
          × (t.polling ≡ s.polling)
          × ((k : ℕ) → i ≢ k → t.caller k ≡ s.caller k)
    unfolding set_caller set_queue
    added {s} i request r at_i room =
        let (q, e) = enqueue_room (queue_of s) request room in
        let (same, ids, cap) = enqueue-eq-returns (queue_of s) q request e in
        (
          set_queue q (set_caller i outside s),
          asks r (add i request q at_i e),
          same,
          cap,
          enqueue_has (queue_of s) q request e,
          refl,
          refl,
          λ k other. ground arith,
        )

    -- Both threads pass every test, and the first one adds its request.
    first_added :
        {s : Threads P R} (i j : ℕ) (first second : Request P)
        → Reached class m s
        → i ≢ j
        → s.caller i ≡ outside
        → s.caller j ≡ outside
        → has_job s.manager first.id ≡ false
        → has_job s.manager second.id ≡ false
        → length (queue_of s).queued_requests < (queue_of s).capacity
        → (t : Threads P R) × Reached class m t
          × ((queue_of t).queued_requests ≡ (queue_of s).queued_requests ++ first ∷ [])
          × ((queue_of t).capacity ≡ (queue_of s).capacity)
          × (t.caller j ≡ roomy second)
    first_added {s} i j first second r other out_i out_j new_i new_j room =
        let (t, r', same, at_i, at_j) =
          both_admitted i j first second r other out_i out_j new_i new_j room in
        let (u, r'', queued, cap, has, kept, polls_on, rest) =
          added i first r' at_i (has_space same room) in
        (
          u,
          r'',
          queued
              ∙ ap (λ (n : ResourceManager P R). n.request_queue.queued_requests ++ first ∷ [])
                  same,
          cap ∙ ap (λ (n : ResourceManager P R). n.request_queue.capacity) same,
          rest j other ∙ at_j,
        )

    -- Two calls of QueueRequest that overlap, for requests whose ids the manager does not have and with
    -- room in the queue for both, can both be queued, whatever their ids are: also one id twice.
    pub overlapping_calls_queue_both :
        {s : Threads P R} (i j : ℕ) (first second : Request P)
        → Reached class m s
        → i ≢ j
        → s.caller i ≡ outside
        → s.caller j ≡ outside
        → has_job s.manager first.id ≡ false
        → has_job s.manager second.id ≡ false
        → suc (length (queue_of s).queued_requests) < (queue_of s).capacity
        → (t : Threads P R) × Reached class m t
          × ((queue_of t).queued_requests
              ≡ ((queue_of s).queued_requests ++ first ∷ []) ++ second ∷ [])
    overlapping_calls_queue_both {s} i j first second r other out_i out_j new_i new_j room =
        let (t, r', queued, cap, at_j) =
          first_added i j first second r other out_i out_j new_i new_j (omega arith) in
        let (u, r'', queued', cap', has, kept, polls_on, rest) =
          added j second r' at_j
            (omega (arith, one_more (queue_of s).queued_requests first queued, cap, room)) in
        (u, r'', queued' ∙ ap (λ l. l ++ second ∷ []) queued)

    -- Where one place is left in the queue, two calls of QueueRequest that overlap can both pass the
    -- test of the size, so that the second call of Enqueue throws that the queue is at capacity.
    pub overlapping_calls_overflow :
        {s : Threads P R} (i j : ℕ) (first second : Request P)
        → Reached class m s
        → i ≢ j
        → s.caller i ≡ outside
        → s.caller j ≡ outside
        → has_job s.manager first.id ≡ false
        → has_job s.manager second.id ≡ false
        → suc (length (queue_of s).queued_requests) ≡ (queue_of s).capacity
        → (t : Threads P R) × Reached class m t
          × (t.caller j ≡ roomy second)
          × (RequestQueue.enqueue (queue_of t) second ≡ throws queue_at_capacity_error)
    overlapping_calls_overflow {s} i j first second r other out_i out_j new_i new_j last =
        let (t, r', queued, cap, at_j) =
          first_added i j first second r other out_i out_j new_i new_j (omega arith) in
        (
          t,
          r',
          at_j,
          enqueue_full (queue_of t) second
              (omega (arith, one_more (queue_of s).queued_requests first queued, cap, last)),
        )

    -- While the thread of Run is about to start the job of a request that it took from the queue, a call
    -- of QueueRequest for the same id finds it nowhere and queues it, where there is room: the id then
    -- waits and runs.
    pub id_waits_and_runs :
        {s : Threads P R} (i : ℕ) (request : Request P) (x : Expected Bool) (runner : JobRunner R)
        → Reached class m s
        → s.polling ≡ startable request
        → s.caller i ≡ outside
        → has_job s.manager request.id ≡ false
        → length (queue_of s).queued_requests < (queue_of s).capacity
        → class.start_job_impl request (runner_of s) ≡ returns (x, runner)
        → JobRunner.insert_new_job (runner_of s) request.id ≡ returns runner
        → (t : Threads P R) × Reached class m t
          × (RequestQueue.has_request (queue_of t) request.id ≡ true)
          × (lookup request.id (runner_of t).active_jobs ≡ some running)
    unfolding set_polling set_runner
    id_waits_and_runs {s} i request x runner r about out new room started inserted =
        let (t, r', same, polls_on, at_i, rest) = admitted i request r out new room in
        let (u, r'', queued, cap, has, kept, polls_on', rest') =
          added i request r' at_i (has_space same room) in
        let same_runner : runner_of u ≡ runner_of s =
          kept ∙ ap (λ (n : ResourceManager P R). n.job_runner) same in
        (
          set_runner runner (set_polling resting u),
          polls r'' (
              start request x runner (polls_on' ∙ polls_on ∙ about)
                (ap (class.start_job_impl request) same_runner ∙ started)),
          has,
          inserted_running (runner_of s) runner request.id inserted,
        )
