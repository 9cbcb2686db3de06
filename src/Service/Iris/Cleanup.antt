-- ===== src/Service/Iris/Cleanup.antt =====
-- iris_manager.h, `Cleanup`: it takes exactly the ended jobs out of the runner.
use planning_service.Prelude.{
  ℕ, String, ◌≤◌, ◌≡◌, ◌≢◌, refl, inl, inr, true, false, List, [], ◌∷◌, some, length, arith,
  text_key, same_key_iff, All,
}
use planning_service.Prelude.Maps.{has_key, lookup, erase, Distinct, erase_absent}
use planning_service.Service.Error.{returns, Expected, Outcome-cases}
use planning_service.Service.JobRunner.{
  JobRunner, Ended, Future, running, ready, no_state, completed, get_completed_job_ids,
  retrieve_result,
}
use planning_service.Service.JobRunner.Bounds.{IsSound, AllHaveState}
use planning_service.Service.JobRunner.Retrieval.{
  reported, retrieve_result-eq-returns, retrieve_ended,
}
use planning_service.Service.Iris.{cleanup_each, cleanup}

module _ {ℓ} {R : Type ℓ} where
  -- The jobs whose thread still runs, in their order.
  abbrev pub unended : List (String × Future R) → List (String × Future R)
  unended [] = []
  unended ((id, running) ∷ jobs) = (id, running) ∷ unended jobs
  unended ((id, ready e) ∷ jobs) = unended jobs
  unended ((id, no_state) ∷ jobs) = unended jobs

  abbrev with_jobs : ℕ → List (String × Future R) → JobRunner R
  with_jobs n jobs = record { capacity = n; active_jobs = jobs }

  -- A job of another id in front does not get in the way of a retrieval, nor of the loop.
  retrieve_frame :
      (n : ℕ) (jobs : List (String × Future R)) (id j : String) (job : Future R) (x : Expected R)
      (r : JobRunner R)
      → j ≢ id
      → retrieve_result (with_jobs n jobs) j ≡ returns (x, r)
      → (r ≡ with_jobs n (erase j jobs))
        × (retrieve_result (with_jobs n ((id, job) ∷ jobs)) j
            ≡ returns (x, with_jobs n ((id, job) ∷ erase j jobs)))
  unfolding lookup erase
  retrieve_frame n jobs id j job x r ne h =
      let (e, found, same, left) = retrieve_result-eq-returns (with_jobs n jobs) r j x h in
      (left, ground (arith, retrieve_ended (with_jobs n ((id, job) ∷ jobs)) j e, same_key_iff id j))

  cleanup_each_frame :
      (n : ℕ) (ids : List String) (jobs jobs' : List (String × Future R)) (id : String)
      (job : Future R)
      → All (λ j. j ≢ id) ids
      → cleanup_each ids (with_jobs n jobs) ≡ returns (with_jobs n jobs')
      → cleanup_each ids (with_jobs n ((id, job) ∷ jobs))
        ≡ returns (with_jobs n ((id, job) ∷ jobs'))
  unfolding cleanup_each
  cleanup_each_frame n [] jobs jobs' id job a h = ground arith
  cleanup_each_frame n (j ∷ ids) jobs jobs' id job a h =
      elim (Outcome-cases (retrieve_result (with_jobs n jobs) j)) [
        | inl ((x, r), e) ↦
            let (left, framed) = retrieve_frame n jobs id j job x r a.0 e in
            rw (framed, cleanup_each)
              (cleanup_each_frame n ids (erase j jobs) jobs' id job a.1 (ground arith))
        | inr (x, e) ↦ absurd (ground arith)
      ]

  record Cleans (n : ℕ) (jobs : List (String × Future R)) : Type ℓ where
    ids : List String
    found : completed jobs ≡ returns ids
    cleaned : cleanup_each ids (with_jobs n jobs) ≡ returns (with_jobs n (unended jobs))
    known : (j : String) → has_key j jobs ≡ false → All (λ k. k ≢ j) ids

  retrieve_first :
      (n : ℕ) (jobs : List (String × Future R)) (id : String) (e : Ended R)
      → has_key id jobs ≡ false
      → retrieve_result (with_jobs n ((id, ready e) ∷ jobs)) id
        ≡ returns (reported id e, with_jobs n jobs)
  unfolding lookup erase
  retrieve_first n jobs id e h = ground (
    arith,
    retrieve_ended (with_jobs n ((id, ready e) ∷ jobs)) id e,
    erase_absent id jobs h,
    same_key_iff id id,
  )

  cleans :
      (n : ℕ) (jobs : List (String × Future R)) → Distinct jobs → AllHaveState jobs → Cleans n jobs
  unfolding completed cleanup_each has_key
  cleans n [] d s = record { ids = []; found = refl; cleaned = refl; known = λ j h. tt }
  cleans n ((id, running) ∷ jobs) d s =
      let c = cleans n jobs d.1 s.1 in
      record {
        ids = c.ids;
        found = rw c.found;
        cleaned =
            cleanup_each_frame n c.ids jobs (unended jobs) id running (c.known id d.0) c.cleaned;
        known = λ j h. c.known j (ground arith);
      }
  cleans n ((id, ready e) ∷ jobs) d s =
      let c = cleans n jobs d.1 s.1 in
      record {
        ids = id ∷ c.ids;
        found = rw c.found;
        cleaned = rw (retrieve_first n jobs id e d.0, cleanup_each) c.cleaned;
        known = λ j h. (ground (arith, same_key_iff id j), c.known j (ground arith));
      }
  cleans n ((id, no_state) ∷ jobs) d s = absurd s.0

  -- On a sound runner `Cleanup` ends without an exception, and what it leaves are exactly the jobs
  -- whose threads still run, in their order, under the same capacity.
  pub cleanup-unended :
      (r : JobRunner R)
      → IsSound r
      → cleanup r ≡ returns (record r { active_jobs = unended r.active_jobs })
  unfolding cleanup get_completed_job_ids
  cleanup-unended r v =
      let c = cleans r.capacity r.active_jobs v.distinct v.stateful in rw c.found c.cleaned

  pub has_key-unended :
      (id : String) (jobs : List (String × Future R))
      → has_key id (unended jobs) ≡ true
      → has_key id jobs ≡ true
  unfolding has_key
  has_key-unended id [] h = h
  has_key-unended id ((j, running) ∷ jobs) h = ground (arith, has_key-unended id jobs)
  has_key-unended id ((j, ready e) ∷ jobs) h = ground (arith, has_key-unended id jobs)
  has_key-unended id ((j, no_state) ∷ jobs) h = ground (arith, has_key-unended id jobs)

  pub length-unended : (jobs : List (String × Future R)) → length (unended jobs) ≤ length jobs
  length-unended [] = omega arith
  length-unended ((j, running) ∷ jobs) = omega (arith, length-unended jobs)
  length-unended ((j, ready e) ∷ jobs) = omega (arith, length-unended jobs)
  length-unended ((j, no_state) ∷ jobs) = omega (arith, length-unended jobs)

  pub unended-AllHaveState : (jobs : List (String × Future R)) → AllHaveState (unended jobs)
  unended-AllHaveState [] = tt
  unended-AllHaveState ((j, running) ∷ jobs) = (tt, unended-AllHaveState jobs)
  unended-AllHaveState ((j, ready e) ∷ jobs) = unended-AllHaveState jobs
  unended-AllHaveState ((j, no_state) ∷ jobs) = unended-AllHaveState jobs

  pub unended-Distinct : (jobs : List (String × Future R)) → Distinct jobs → Distinct (unended jobs)
  unended-Distinct [] d = tt
  unended-Distinct ((j, running) ∷ jobs) d =
      (ground (arith, has_key-unended j jobs), unended-Distinct jobs d.1)
  unended-Distinct ((j, ready e) ∷ jobs) d = unended-Distinct jobs d.1
  unended-Distinct ((j, no_state) ∷ jobs) d = unended-Distinct jobs d.1

  pub unended_running :
      (id : String) (jobs : List (String × Future R))
      → lookup id jobs ≡ some running
      → lookup id (unended jobs) ≡ some running
  unfolding lookup
  unended_running id [] h = cc
  unended_running id ((j, running) ∷ jobs) h = ground (arith, unended_running id jobs)
  unended_running id ((j, ready e) ∷ jobs) h = ground (arith, unended_running id jobs)
  unended_running id ((j, no_state) ∷ jobs) h = ground (arith, unended_running id jobs)
