-- ===== src/Service/JobRunner/Retrieval.antt =====
-- job_runner.h: what `RetrieveResult` hands out, and what the counting methods say.
use planning_service.Prelude.{
  ℕ, String, suc, ◌+◌, ◌≡◌, ◌≢◌, refl, ◌∙◌, List, [], ◌∷◌, Option, none, some, length, arith,
  text_key, same_key_iff, All,
}
use planning_service.Prelude.Maps.{lookup, erase, lookup-erase, lookup-emplace}
use planning_service.Prelude.Format.{◌<>◌}
use planning_service.Service.Error.{returns, throws, Expected, runtime_error}
use planning_service.Service.JobRunner.{
  Ended, result, exception, Future, running, ready, no_state, JobRunner, completed,
  get_completed_job_ids, count_unready, num_jobs_in_progress, retrieve_result, insert_new_job,
  finish_at, complete, size, no_job, thrown,
}
use planning_service.Service.JobRunner.Bounds.{
  AllHaveState, IsSound, Event, inserts, retrieves, clears, ends, step, run,
}

module _ {ℓ} {R : Type ℓ} where
  -- What is reported of a thread that has ended.
  abbrev pub reported : String → Ended R → Expected R
  reported id (result x) = x
  reported id (exception e) = thrown id e

  -- Whatever `RetrieveResult` returns is the report on a thread of that id that has ended, and the
  -- job is taken out of the map. So the branch for an invalidated thread is never taken.
  pub retrieve_result-eq-returns :
      (r r' : JobRunner R) (id : String) (x : Expected R)
      → retrieve_result r id ≡ returns (x, r')
      → (e : Ended R) × (lookup id r.active_jobs ≡ some (ready e))
        × (x ≡ reported id e)
        × (r' ≡ record r { active_jobs = erase id r.active_jobs })
  unfolding retrieve_result
  retrieve_result-eq-returns r r' id x h = found (lookup id r.active_jobs) refl
    where
      found :
          (o : Option (Future R))
          → lookup id r.active_jobs ≡ o
          → (e : Ended R) × (lookup id r.active_jobs ≡ some (ready e))
            × (x ≡ reported id e)
            × (r' ≡ record r { active_jobs = erase id r.active_jobs })
      found none p = absurd (ground arith)
      found (some running) p = absurd (ground arith)
      found (some no_state) p = absurd (ground arith)
      found (some (ready (result v))) p = (result v, p, ground arith, ground arith)
      found (some (ready (exception v))) p = (exception v, p, ground arith, ground arith)

  -- Its converse: a thread that has ended is reported.
  pub retrieve_ended :
      (r : JobRunner R) (id : String) (e : Ended R)
      → lookup id r.active_jobs ≡ some (ready e)
      → retrieve_result r id
        ≡ returns (reported id e, record r { active_jobs = erase id r.active_jobs })
  unfolding retrieve_result
  retrieve_ended r id (result v) p = ground arith
  retrieve_ended r id (exception v) p = ground arith

  -- A result is handed out once: the next call for its id throws that there is no such job.
  pub retrieve_result_once :
      (r r' : JobRunner R) (id : String) (x : Expected R)
      → retrieve_result r id ≡ returns (x, r')
      → retrieve_result r' id ≡ throws (no_job id)
  unfolding retrieve_result
  retrieve_result_once r r' id x h =
      let (e, found, same, left) = retrieve_result-eq-returns r r' id x h in
      ground (arith, lookup-erase id id r.active_jobs, same_key_iff id id)

  -- The events that say nothing of an id, and no `Clear`.
  abbrev pub Avoids : String → Event R → Type 0
  Avoids id (inserts j) = j ≢ id
  Avoids id (retrieves j) = j ≢ id
  Avoids id clears = ⊥
  Avoids id (ends j e) = j ≢ id

  lookup-finish_at :
      (j id : String) (e : Ended R) (jobs : List (String × Future R))
      → j ≢ id
      → lookup id (finish_at j e jobs) ≡ lookup id jobs
  unfolding lookup finish_at
  lookup-finish_at j id e [] h = refl
  lookup-finish_at j id e ((i, job) ∷ jobs) h =
      ground (arith, lookup-finish_at j id e jobs h, same_key_iff i j, same_key_iff i id)

  lookup-finish_at_self :
      (id : String) (e : Ended R) (jobs : List (String × Future R))
      → lookup id jobs ≡ some running
      → lookup id (finish_at id e jobs) ≡ some (ready e)
  unfolding lookup finish_at
  lookup-finish_at_self id e [] h = cc
  lookup-finish_at_self id e ((i, job) ∷ jobs) h =
      ground (arith, lookup-finish_at_self id e jobs, same_key_iff i id)

  step_frame :
      (r : JobRunner R) (id : String) (ev : Event R)
      → Avoids id ev
      → lookup id (step r ev).active_jobs ≡ lookup id r.active_jobs
  unfolding step insert_new_job retrieve_result complete
  step_frame r id (inserts j) h =
      ground (arith, lookup-emplace j id running r.active_jobs, same_key_iff j id)
  step_frame r id (retrieves j) h =
      ground (arith, lookup-erase j id r.active_jobs, same_key_iff j id)
  step_frame r id clears h = absurd h
  step_frame r id (ends j e) h = lookup-finish_at j id e r.active_jobs h

  run_frame :
      (r : JobRunner R) (id : String) (evs : List (Event R))
      → All (Avoids id) evs
      → lookup id (run r evs).active_jobs ≡ lookup id r.active_jobs
  unfolding run
  run_frame r id [] h = refl
  run_frame r id (ev ∷ evs) h = run_frame (step r ev) id evs h.1 ∙ step_frame r id ev h.0

  pub inserted_running :
      (r r' : JobRunner R) (id : String)
      → insert_new_job r id ≡ returns r'
      → lookup id r'.active_jobs ≡ some running
  unfolding insert_new_job
  inserted_running r r' id h =
      ground (arith, lookup-emplace id id running r.active_jobs, same_key_iff id id)

  ended_ready :
      (r : JobRunner R) (id : String) (e : Ended R)
      → lookup id r.active_jobs ≡ some running
      → lookup id (complete r id e).active_jobs ≡ some (ready e)
  unfolding complete
  ended_ready r id e h = lookup-finish_at_self id e r.active_jobs h

  -- The life of a job. Once it is inserted, anything may happen to the jobs of other ids (calls
  -- that throw and threads that end included), then its own thread ends, then anything may happen
  -- to the others again: the call for its id then returns the report on its own thread.
  pub retrieve_after_life :
      (r r₁ : JobRunner R) (id : String) (e : Ended R) (before after : List (Event R))
      → insert_new_job r id ≡ returns r₁
      → All (Avoids id) before
      → All (Avoids id) after
      → let r₂ = run (complete (run r₁ before) id e) after in
        retrieve_result r₂ id
        ≡ returns (reported id e, record r₂ { active_jobs = erase id r₂.active_jobs })
  retrieve_after_life r r₁ id e before after h b a =
      retrieve_ended (run (complete (run r₁ before) id e) after) id e (
        run_frame (complete (run r₁ before) id e) id after a
        ∙ ended_ready (run r₁ before) id e (run_frame r₁ id before b ∙ inserted_running r r₁ id h))

  -- While its thread has not ended, the call for its id throws, and the job stays in the map.
  pub retrieve_before_end :
      (r r₁ : JobRunner R) (id : String) (before : List (Event R))
      → insert_new_job r id ≡ returns r₁
      → All (Avoids id) before
      → (retrieve_result (run r₁ before) id
          ≡ throws (runtime_error ("Job " <> id <> " is not ready!")))
        × (lookup id (run r₁ before).active_jobs ≡ some running)
  unfolding retrieve_result
  retrieve_before_end r r₁ id before h b =
      let here = run_frame r₁ id before b ∙ inserted_running r r₁ id h in (ground arith, here)

  -- The counts of unended and of ended jobs make up the size of a sound runner.
  counts_of_jobs :
      (jobs : List (String × Future R))
      → AllHaveState jobs
      → (n : ℕ) × (ids : List String) × (count_unready jobs ≡ returns n)
        × (completed jobs ≡ returns ids)
        × (n + length ids ≡ length jobs)
  unfolding count_unready completed
  counts_of_jobs [] s = (0, [], refl, refl, refl)
  counts_of_jobs ((id, running) ∷ jobs) s =
      let (n, ids, p, q, e) = counts_of_jobs jobs s.1 in
      (suc n, ids, ground arith, ground arith, omega arith)
  counts_of_jobs ((id, ready x) ∷ jobs) s =
      let (n, ids, p, q, e) = counts_of_jobs jobs s.1 in
      (n, id ∷ ids, ground arith, ground arith, omega arith)
  counts_of_jobs ((id, no_state) ∷ jobs) s = absurd s.0

  pub counts_add_up :
      (r : JobRunner R)
      → IsSound r
      → (n : ℕ) × (ids : List String) × (num_jobs_in_progress r ≡ returns n)
        × (get_completed_job_ids r ≡ returns ids)
        × (n + length ids ≡ size r)
  unfolding num_jobs_in_progress get_completed_job_ids size
  counts_add_up r v = counts_of_jobs r.active_jobs v.stateful
