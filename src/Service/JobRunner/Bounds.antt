-- ===== src/Service/JobRunner/Bounds.antt =====
-- job_runner.h: what every method and every ending thread keep of the map of jobs, and what the
-- two ways of counting jobs say.
use planning_service.Prelude.{
  false, String, inl, inr, ◌≤◌, ◌<◌, suc, ◌≡◌, refl, List, [], ◌∷◌, length, arith, text_key,
}
use planning_service.Prelude.Maps.{has_key, emplace, erase, Distinct, erase-Distinct}
use planning_service.Prelude.Int.{ℤ, pos, negsuc}
use planning_service.Service.Error.{Outcome, returns, throws, Outcome-cases, Expected}
use planning_service.Service.JobRunner.{
  Ended, Future, running, ready, no_state, JobRunner, make, retrieve_result, insert_new_job, clear,
  finish_at, complete,
}

module _ {ℓ} {R : Type ℓ} where
  abbrev pub HasState : Future R → Type 0
  HasState running = Unit
  HasState (ready e) = Unit
  HasState no_state = ⊥

  -- Every future of the map has a shared state.
  abbrev pub AllHaveState : List (String × Future R) → Type 0
  AllHaveState [] = Unit
  AllHaveState ((id, job) ∷ jobs) = HasState job × AllHaveState jobs

  pub record IsSound (r : JobRunner R) : Type 0 where
    pub distinct : Distinct r.active_jobs
    pub stateful : AllHaveState r.active_jobs
    pub bounded : length r.active_jobs ≤ r.capacity

  pub has_key-finish_at :
      (id j : String) (e : Ended R) (jobs : List (String × Future R))
      → has_key j (finish_at id e jobs) ≡ has_key j jobs
  unfolding has_key finish_at
  has_key-finish_at id j e [] = refl
  has_key-finish_at id j e ((i, job) ∷ jobs) = ground (arith, has_key-finish_at id j e jobs)

  finish_at-Distinct :
      (id : String) (e : Ended R) (jobs : List (String × Future R))
      → Distinct jobs
      → Distinct (finish_at id e jobs)
  unfolding finish_at
  finish_at-Distinct id e [] d = tt
  finish_at-Distinct id e ((j, job) ∷ jobs) d =
      ground (arith, has_key-finish_at id j e jobs, finish_at-Distinct id e jobs d.1)

  finish_at-AllHaveState :
      (id : String) (e : Ended R) (jobs : List (String × Future R))
      → AllHaveState jobs
      → AllHaveState (finish_at id e jobs)
  unfolding finish_at
  finish_at-AllHaveState id e [] d = tt
  finish_at-AllHaveState id e ((j, job) ∷ jobs) d =
      ground (arith, finish_at-AllHaveState id e jobs d.1)

  length-finish_at :
      (id : String) (e : Ended R) (jobs : List (String × Future R))
      → length (finish_at id e jobs) ≡ length jobs
  unfolding finish_at
  length-finish_at id e [] = refl
  length-finish_at id e ((j, job) ∷ jobs) = ground (arith, length-finish_at id e jobs)

  pub complete-IsSound :
      (r : JobRunner R) (id : String) (e : Ended R) → IsSound r → IsSound (complete r id e)
  unfolding complete
  complete-IsSound r id e v = record {
    distinct = finish_at-Distinct id e r.active_jobs v.distinct;
    stateful = finish_at-AllHaveState id e r.active_jobs v.stateful;
    bounded = omega (arith, length-finish_at id e r.active_jobs, v.bounded);
  }

  pub make-IsSound : (n : ℤ) (r : JobRunner R) → make n ≡ returns r → IsSound r
  unfolding make
  make-IsSound (pos n) r e = record {
    distinct = ground arith;
    stateful = ground arith;
    bounded = ground arith;
  }
  make-IsSound (negsuc n) r e = cc

  pub clear-IsSound : (r : JobRunner R) → IsSound (clear r)
  unfolding clear
  clear-IsSound r = record { distinct = tt; stateful = tt; bounded = omega arith }

  pub insert_new_job-IsSound :
      (r r' : JobRunner R) (id : String) → IsSound r → insert_new_job r id ≡ returns r' → IsSound r'
  unfolding insert_new_job emplace
  insert_new_job-IsSound r r' id v e = record {
    distinct = ground arith;
    stateful = ground arith;
    bounded = ground arith;
  }

  -- Where a new job fits.
  pub insert_new_job_room :
      (r : JobRunner R) (id : String)
      → has_key id r.active_jobs ≡ false
      → length r.active_jobs < r.capacity
      → (r' : JobRunner R) × (insert_new_job r id ≡ returns r')
        × (length r'.active_jobs ≡ suc (length r.active_jobs))
        × (r'.capacity ≡ r.capacity)
  unfolding insert_new_job emplace
  insert_new_job_room r id h room =
      (record r { active_jobs = (id, running) ∷ r.active_jobs }, ground arith, refl, refl)

  erase-AllHaveState :
      (id : String) (jobs : List (String × Future R))
      → AllHaveState jobs
      → AllHaveState (erase id jobs)
  unfolding erase
  erase-AllHaveState id [] s = tt
  erase-AllHaveState id ((j, job) ∷ jobs) s = ground (arith, erase-AllHaveState id jobs s.1)

  pub length-erase-le :
      (id : String) (jobs : List (String × Future R)) → length (erase id jobs) ≤ length jobs
  unfolding erase
  length-erase-le id [] = omega arith
  length-erase-le id ((j, job) ∷ jobs) = ground (arith, length-erase-le id jobs)

  pub erase-IsSound :
      (r : JobRunner R) (id : String)
      → IsSound r
      → IsSound (record r { active_jobs = erase id r.active_jobs })
  erase-IsSound r id v = record {
    distinct = erase-Distinct id r.active_jobs v.distinct;
    stateful = erase-AllHaveState id r.active_jobs v.stateful;
    bounded = omega (arith, length-erase-le id r.active_jobs, v.bounded);
  }

  pub retrieve_result-IsSound :
      (r r' : JobRunner R) (id : String) (x : Expected R)
      → IsSound r
      → retrieve_result r id ≡ returns (x, r')
      → IsSound r'
  unfolding retrieve_result
  retrieve_result-IsSound r r' id x v e = ground (arith, erase-IsSound r id v)

-- What can happen to a runner: a call of a method that changes it, or the end of a thread.
pub data Event {ℓ} (R : Type ℓ) : Type ℓ where
  inserts retrieves : String → Event R
  clears : Event R
  ends : String → Ended R → Event R

module _ {ℓ} {R : Type ℓ} where
  -- A call that throws leaves the runner as it was.
  abbrev pub inserted : JobRunner R → Outcome (JobRunner R) → JobRunner R
  inserted r (returns r') = r'
  inserted r (throws e) = r

  abbrev pub retrieved : JobRunner R → Outcome (Expected R × JobRunner R) → JobRunner R
  retrieved r (returns (x, r')) = r'
  retrieved r (throws e) = r

  unfoldable pub step : JobRunner R → Event R → JobRunner R
  step r (inserts id) = inserted r (insert_new_job r id)
  step r (retrieves id) = retrieved r (retrieve_result r id)
  step r clears = clear r
  step r (ends id e) = complete r id e

  unfoldable pub run : JobRunner R → List (Event R) → JobRunner R
  run r [] = r
  run r (ev ∷ evs) = run (step r ev) evs

  step-IsSound : (r : JobRunner R) (ev : Event R) → IsSound r → IsSound (step r ev)
  unfolding step
  step-IsSound r (inserts id) v = elim (Outcome-cases (insert_new_job r id)) [
    | inl (r', e) ↦ rw e (insert_new_job-IsSound r r' id v e)
    | inr (x, e) ↦ rw e v
  ]
  step-IsSound r (retrieves id) v = elim (Outcome-cases (retrieve_result r id)) [
    | inl ((x, r'), e) ↦ rw e (retrieve_result-IsSound r r' id x v e)
    | inr (x, e) ↦ rw e v
  ]
  step-IsSound r clears v = clear-IsSound r
  step-IsSound r (ends id e) v = complete-IsSound r id e v

  run-IsSound : (r : JobRunner R) (evs : List (Event R)) → IsSound r → IsSound (run r evs)
  unfolding run
  run-IsSound r [] v = v
  run-IsSound r (ev ∷ evs) v = run-IsSound (step r ev) evs (step-IsSound r ev v)

  -- After any history of a newly made runner, with calls that throw among the others and threads
  -- that end at any point, no id stands twice in its map, every future has a shared state, and
  -- there are no more jobs than its capacity.
  pub run-make-IsSound :
      (n : ℤ) (r : JobRunner R) (evs : List (Event R)) → make n ≡ returns r → IsSound (run r evs)
  run-make-IsSound n r evs e = run-IsSound r evs (make-IsSound n r e)
