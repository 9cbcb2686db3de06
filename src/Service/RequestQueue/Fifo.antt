-- ===== src/Service/RequestQueue/Fifo.antt =====
-- request_queue.h as a first-in first-out channel: what is popped, in what order.
use mathlib.Core.List.{append_assoc, append-nil}
use planning_service.Prelude.{
  ◌+◌, ◌<◌, ◌≡◌, refl, sym, ap, List, [], ◌∷◌, ◌++◌, List-cases, inl, inr, arith, ◌≤◌, length,
  length-append,
}
use planning_service.Service.Error.{Outcome, returns, throws}
use planning_service.Service.RequestQueue.{Request, RequestQueue, enqueue, pop_next_request}

-- A call of a client that keeps the order: a refused call leaves the queue as it was.
pub data Call {ℓ} (P : Type ℓ) : Type ℓ where
  enqueues : Request P → Call P
  pops : Call P

-- The queue after the calls, the requests that it accepted, and those that it handed out.
pub record Trace {ℓ} (P : Type ℓ) : Type ℓ where
  pub last : RequestQueue P
  pub accepted : List (Request P)
  pub delivered : List (Request P)

module _ {ℓ} {P : Type ℓ} where
  abbrev accept : Trace P → Request P → Outcome (RequestQueue P) → Trace P
  accept t r (returns q) = record t { last = q; accepted = t.accepted ++ r ∷ [] }
  accept t r (throws e) = t

  abbrev deliver : Trace P → Outcome (Request P × RequestQueue P) → Trace P
  deliver t (returns (r, q)) = record t { last = q; delivered = t.delivered ++ r ∷ [] }
  deliver t (throws e) = t

  pub step : Trace P → Call P → Trace P
  step t (enqueues r) = accept t r (enqueue t.last r)
  step t pops = deliver t (pop_next_request t.last)

  pub run : Trace P → List (Call P) → Trace P
  run t [] = t
  run t (c ∷ cs) = run (step t c) cs

  abbrev IsFifo : List (Request P) → Trace P → Type ℓ
  IsFifo start t = start ++ t.accepted ≡ t.delivered ++ t.last.queued_requests

  step-IsFifo :
      (start : List (Request P)) (t : Trace P) (c : Call P)
      → IsFifo start t
      → IsFifo start (step t c)
  unfolding step enqueue pop_next_request
  step-IsFifo start t (enqueues r) h = ground (
    arith,
    append_assoc start t.accepted (r ∷ []),
    append_assoc t.delivered t.last.queued_requests (r ∷ []),
  )
  step-IsFifo start t pops h = elim (List-cases t.last.queued_requests) [
    | inl e ↦ ground arith
    | inr (r, rest, e) ↦ ground (arith, append_assoc t.delivered (r ∷ []) rest)
  ]

  run-IsFifo :
      (start : List (Request P)) (t : Trace P) (cs : List (Call P))
      → IsFifo start t
      → IsFifo start (run t cs)
  unfolding run
  run-IsFifo start t [] h = h
  run-IsFifo start t (c ∷ cs) h = run-IsFifo start (step t c) cs (step-IsFifo start t c h)

  abbrev pub fresh_trace : RequestQueue P → Trace P
  fresh_trace q = record { last = q; accepted = []; delivered = [] }

  -- Whatever calls a client makes on a queue, in whatever order, with refused calls among them: the
  -- requests that were waiting at the start, followed by those that were accepted, are those handed
  -- out, followed by those that still wait. None is lost, made up, repeated or overtaken.
  pub run_in_order :
      (q : RequestQueue P) (cs : List (Call P))
      → q.queued_requests ++ (run (fresh_trace q) cs).accepted
        ≡ (run (fresh_trace q) cs).delivered ++ (run (fresh_trace q) cs).last.queued_requests
  run_in_order q cs = run-IsFifo q.queued_requests (fresh_trace q) cs (append-nil q.queued_requests)

  abbrev pub enqueue_each : List (Request P) → List (Call P)
  enqueue_each [] = []
  enqueue_each (r ∷ rs) = enqueues r ∷ enqueue_each rs

  abbrev pub pop_each : List (Request P) → List (Call P)
  pop_each [] = []
  pop_each (_ ∷ rs) = pops ∷ pop_each rs

  run-append : (t : Trace P) (cs ds : List (Call P)) → run t (cs ++ ds) ≡ run (run t cs) ds
  unfolding run
  run-append t [] ds = refl
  run-append t (c ∷ cs) ds = run-append (step t c) cs ds

  step-enqueues :
      (t : Trace P) (r : Request P)
      → length t.last.queued_requests < t.last.capacity
      → ((step t (enqueues r)).last.queued_requests ≡ t.last.queued_requests ++ r ∷ [])
        × ((step t (enqueues r)).last.capacity ≡ t.last.capacity)
        × ((step t (enqueues r)).delivered ≡ t.delivered)
  unfolding step enqueue
  step-enqueues t r h = ground arith

  step-pops :
      (t : Trace P) (r : Request P) (rest : List (Request P))
      → t.last.queued_requests ≡ r ∷ rest
      → ((step t pops).delivered ≡ t.delivered ++ r ∷ [])
        × ((step t pops).last.queued_requests ≡ rest)
  unfolding step pop_next_request
  step-pops t r rest h = ground arith

  run-enqueue_each :
      (t : Trace P) (rs : List (Request P))
      → length t.last.queued_requests + length rs ≤ t.last.capacity
      → ((run t (enqueue_each rs)).last.queued_requests ≡ t.last.queued_requests ++ rs)
        × ((run t (enqueue_each rs)).delivered ≡ t.delivered)
  unfolding run
  run-enqueue_each t [] h = (sym (append-nil t.last.queued_requests), refl)
  run-enqueue_each t (r ∷ rs) h =
      let t' = step t (enqueues r) in
      let s = step-enqueues t r (omega arith) in
      let ih =
        run-enqueue_each t' rs
          (omega (arith, ap length s.0, length-append t.last.queued_requests (r ∷ []))) in
      ground (arith, append_assoc t.last.queued_requests (r ∷ []) rs)

  run-pop_each :
      (t : Trace P) (rs : List (Request P))
      → t.last.queued_requests ≡ rs
      → ((run t (pop_each rs)).delivered ≡ t.delivered ++ rs)
        × ((run t (pop_each rs)).last.queued_requests ≡ [])
  unfolding run
  run-pop_each t [] h = (sym (append-nil t.delivered), h)
  run-pop_each t (r ∷ rs) h =
      let s = step-pops t r rs h in
      let ih = run-pop_each (step t pops) rs s.1 in
      ground (arith, append_assoc t.delivered (r ∷ []) rs)

  -- Where there is room for all of `rs`, they are accepted, and the pops that follow hand out what
  -- was waiting and then `rs`, each request once and in order, and leave the queue empty.
  pub drain_round_trip :
      (q : RequestQueue P) (rs : List (Request P))
      → length q.queued_requests + length rs ≤ q.capacity
      → ((run (fresh_trace q) (enqueue_each rs ++ pop_each (q.queued_requests ++ rs))).delivered
          ≡ q.queued_requests ++ rs)
        × ((run
              (fresh_trace q)
              (enqueue_each rs ++ pop_each (q.queued_requests ++ rs))).last.queued_requests
            ≡ [])
  drain_round_trip q rs h =
      let full = run-enqueue_each (fresh_trace q) rs h in
      let drained =
        run-pop_each (run (fresh_trace q) (enqueue_each rs)) (q.queued_requests ++ rs) full.0 in
      ground
        (arith, run-append (fresh_trace q) (enqueue_each rs) (pop_each (q.queued_requests ++ rs)))
