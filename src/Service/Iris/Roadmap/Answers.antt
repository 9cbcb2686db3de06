-- ===== src/Service/Iris/Roadmap/Answers.antt =====
-- What the updates of the roadmap answer (iris_manager.cc).
use planning_service.Prelude.{
  ℕ, ◌≡◌, ◌≢◌, refl, subst, ◌∙◌, true, false, Option, some, List, [], ◌∷◌,
}
use planning_service.Service.Error.{Outcome, returns, throws}
use planning_service.Service.Action.{
  Done, pure, ◌>>=◌, ◌>>◌, try_catch, for_each, handle, Ends, done, Ends-resume, Ends-resume_at,
  Ends-returns, bind_returns, then_returns,
}
use planning_service.Service.Iris.Jobs.{Planners}
use planning_service.Service.Iris.Roadmap.{
  UpdateRoadmapJobType, update_from_passed_problems, update_from_saved_problems,
  update_from_samples, PlanningProblemDef, UpdateRoadmapRequest, UpdateRoadmapResult, solve_problem,
  solve_problems, problems_to_solve, update_roadmap_from_problems, update_roadmap_from_samples,
  update_roadmap, generate_samples_and_solve_problems,
}

module _ {ℓ} {D C Q H : Type ℓ} (planners : Planners D C Q H) where
  open planners use {get_draco, get_sample_based_solution}

  problems_to_solve-Ends :
      (t : UpdateRoadmapJobType) (draco : H) (req : UpdateRoadmapRequest Q) (d : D)
      → t ≢ update_from_passed_problems
      → Ends [] (problems_to_solve planners t draco req d)
  unfolding problems_to_solve ◌>>◌ pure
  problems_to_solve-Ends update_from_passed_problems draco req d other = absurd (other refl)
  problems_to_solve-Ends update_from_saved_problems draco req d other = Ends-resume (λ u d1. done) _
  problems_to_solve-Ends UpdateRoadmapJobType.none draco req d other = done
  problems_to_solve-Ends update_from_samples draco req d other = done

  update_roadmap_from_problems-Ends :
      (context_id : ℕ) (req : UpdateRoadmapRequest Q) (d : D)
      → req.job_type ≢ update_from_passed_problems
      → Ends Option.none (update_roadmap_from_problems planners context_id req d)
  unfolding update_roadmap_from_problems solve_problems ◌>>=◌ pure
  update_roadmap_from_problems-Ends context_id req d other =
      Ends-resume
        (λ draco d1.
          Ends-resume_at (solve_problems planners context_id draco) (λ d2. done) _
            (problems_to_solve-Ends req.job_type draco req d1 other))
        _

  -- Where a job passes no problems, UpdateRoadmapFromProblems answers with nothing; UpdateRoadmap,
  -- which samples whatever the type of the job is, answers with a result all the same.
  pub update_roadmap_hides_nothing :
      (context_id : ℕ) (req : UpdateRoadmapRequest Q) (d d1 d2 : D) (o : Option UpdateRoadmapResult)
      → req.job_type ≢ update_from_passed_problems
      → generate_samples_and_solve_problems planners context_id req.num_samples d ≡ (returns tt, d1)
      → update_roadmap_from_problems planners context_id req d1 ≡ (returns o, d2)
      → (o ≡ Option.none)
        × (update_roadmap planners context_id req d
            ≡ (returns (some (record { context_id = context_id })), d2))
  unfolding update_roadmap update_roadmap_from_samples pure
  update_roadmap_hides_nothing context_id req d d1 d2 o other sampled answered = (
    Ends-returns (
        subst (Ends Option.none) answered
          (update_roadmap_from_problems-Ends context_id req d1 other)),
    then_returns _ _ (then_returns _ _ sampled) ∙ then_returns _ _ answered,
  )

  -- The state after the attempts to solve the problems in turn.
  abbrev pub attempts : H → List (PlanningProblemDef Q) → D → D
  attempts draco [] d = d
  attempts draco (problem ∷ problems) d =
      attempts draco problems
        (get_sample_based_solution draco problem.start_conf problem.goal_conf false true d).1

  caught-done : (m : Outcome Done × D) → handle (λ e. pure tt) m ≡ (returns tt, m.1)
  unfolding handle pure
  caught-done (returns u, d) = refl
  caught-done (throws e, d) = refl

  for_each-attempts :
      (draco : H) (problems : List (PlanningProblemDef Q)) (d : D)
      → for_each problems (solve_problem planners draco) d ≡ (returns tt, attempts draco problems d)
  unfolding for_each pure try_catch
  for_each-attempts draco [] d = refl
  for_each-attempts draco (problem ∷ problems) d =
      then_returns _ _ (caught-done _) ∙ for_each-attempts draco problems _

  solve_problems-attempts :
      (context_id : ℕ) (draco : H) (problems : List (PlanningProblemDef Q)) (d : D)
      → problems ≢ []
      → solve_problems planners context_id draco problems d
        ≡ (returns (some (record { context_id = context_id })), attempts draco problems d)
  unfolding solve_problems pure
  solve_problems-attempts context_id draco [] d h = absurd (h refl)
  solve_problems-attempts context_id draco (problem ∷ problems) d h =
      then_returns _ _ (for_each-attempts draco (problem ∷ problems) d)

  problems-passed :
      (req : UpdateRoadmapRequest Q) (draco : H) (d : D)
      → req.job_type ≡ update_from_passed_problems
      → problems_to_solve planners req.job_type draco req d ≡ (returns req.planning_problem_vec, d)
  unfolding problems_to_solve pure
  problems-passed req draco d e = rw e refl

  -- Where the job is an update from passed problems, the list of problems is not empty, and the
  -- registry has a planner for the context, UpdateRoadmapFromProblems attempts each problem of the list
  -- in turn, each in the state that the one before left, whether it threw or not, and answers with a
  -- result.
  pub passed_problems_attempted :
      (context_id : ℕ) (req : UpdateRoadmapRequest Q) (d d1 : D) (draco : H)
      → req.job_type ≡ update_from_passed_problems
      → req.planning_problem_vec ≢ []
      → get_draco context_id d ≡ (returns draco, d1)
      → update_roadmap_from_problems planners context_id req d ≡ (
        returns (some (record { context_id = context_id })),
        attempts draco req.planning_problem_vec d1,
      )
  unfolding update_roadmap_from_problems
  passed_problems_attempted context_id req d d1 draco passed nonempty found =
      bind_returns _ _ found
      ∙ bind_returns _ _ (problems-passed req draco d1 passed)
      ∙ solve_problems-attempts context_id draco req.planning_problem_vec d1 nonempty
