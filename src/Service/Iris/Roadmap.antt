-- ===== src/Service/Iris/Roadmap.antt =====
-- planning_service/service/iris/iris_manager.cc: the updates of the roadmap.
pub mod Pairs
pub mod Answers
use planning_service.Prelude.{
  ◌*◌, ◌/◌, ℕ, ◌-◌, suc, true, false, Option, some, List, [], ◌∷◌, length, if◌then◌else◌, ltb,
}
use planning_service.Prelude.Int.{ℤ, pos, negsuc}
use planning_service.Service.Action.{
  Action, Done, pure, ◌>>=◌, ◌>>◌, try_catch, for_each, for_range, at,
}
use planning_service.Service.Iris.Jobs.{Planners}

-- service/types/types.h
pub data UpdateRoadmapJobType : Type 0 where
  none update_from_saved_problems update_from_passed_problems : UpdateRoadmapJobType
  update_from_samples : UpdateRoadmapJobType

-- What the updates read of `PlanningProblemDef`.
pub record PlanningProblemDef {ℓ} (Q : Type ℓ) : Type ℓ where
  pub start_conf : Q
  pub goal_conf : Q

-- What the updates read of `UpdateRoadmapRequestAdapter`.
pub record UpdateRoadmapRequest {ℓ} (Q : Type ℓ) : Type ℓ where
  pub job_type : UpdateRoadmapJobType
  pub num_samples : ℤ
  pub num_problems : ℤ
  pub planning_problem_vec : List (PlanningProblemDef Q)

pub record UpdateRoadmapResult : Type 0 where
  pub context_id : ℕ

-- `std::min` of the number asked for and the number of samples, as the number of rounds of a loop.
abbrev pub rounds : ℤ → ℕ → ℕ
rounds (negsuc k) n = 0
rounds (pos k) n = if ltb k n then k else n

-- `num_problems` of `GenerateSamplesAndSolveProblems`, for as few samples as an int holds it.
abbrev pub num_problems : ℕ → ℕ
num_problems num_samples = num_samples * (num_samples - 1) / 2

module _ {ℓ} {D C Q H : Type ℓ} (planners : Planners D C Q H) where
  open planners use {
    get_draco, to_generalized_position, generate_samples, build_regions_from_configs,
    build_regions_from_conf_edges, build_regions_from_saved_problems_path,
    build_regions_from_conf_roadmap, update_roadmap_from_saved_problems, get_sample_based_solution,
  }

  -- The body of the inner loop of `GenerateSamplesAndSolveProblems`; the logging is left out.
  abbrev pub solve : H → Q → Q → Action D Done
  solve draco q_start q_goal = get_sample_based_solution draco q_start q_goal true true

  -- The outer loop's body for `i`.
  abbrev pub solve_from : H → List Q → ℕ → ℕ → Q → Action D Done
  solve_from draco samples num_samples i q_start =
      for_range (suc i) (num_samples - suc i) (λ j. at samples j >>= solve draco q_start)

  unfoldable pub generate_samples_and_solve_problems : ℕ → ℤ → Action D Done
  generate_samples_and_solve_problems context_id num_desired_samples = do
    draco ← get_draco context_id
    samples ← generate_samples draco num_desired_samples
    let num_samples = rounds num_desired_samples (length samples)
    for_range 0 num_samples (λ i. at samples i >>= solve_from draco samples num_samples i)

  -- The `switch` of `UpdateRoadmapFromProblems`: the problems to solve.
  unfoldable pub problems_to_solve :
      UpdateRoadmapJobType → H → UpdateRoadmapRequest Q → Action D (List (PlanningProblemDef Q))
  problems_to_solve update_from_saved_problems draco req = do
    update_roadmap_from_saved_problems draco req.num_problems
    pure []
  problems_to_solve update_from_passed_problems draco req = pure req.planning_problem_vec
  problems_to_solve job_type draco req = pure []

  -- The body of its loop; the exception is only logged.
  abbrev pub solve_problem : H → PlanningProblemDef Q → Action D Done
  solve_problem draco problem =
      try_catch (get_sample_based_solution draco problem.start_conf problem.goal_conf false true)
        (λ e. pure tt)

  unfoldable pub solve_problems :
      ℕ → H → List (PlanningProblemDef Q) → Action D (Option UpdateRoadmapResult)
  solve_problems context_id draco [] = pure Option.none
  solve_problems context_id draco (problem ∷ problems) =
      for_each (problem ∷ problems) (solve_problem draco)
      >> pure (some (record { context_id = context_id }))

  unfoldable pub update_roadmap_from_problems :
      ℕ → UpdateRoadmapRequest Q → Action D (Option UpdateRoadmapResult)
  update_roadmap_from_problems context_id req = do
    draco ← get_draco context_id
    problems ← problems_to_solve req.job_type draco req
    solve_problems context_id draco problems

  unfoldable pub update_roadmap_from_samples :
      ℕ → UpdateRoadmapRequest Q → Action D (Option UpdateRoadmapResult)
  update_roadmap_from_samples context_id req = do
    generate_samples_and_solve_problems context_id req.num_samples
    pure (some (record { context_id = context_id }))

  unfoldable pub update_roadmap : ℕ → UpdateRoadmapRequest Q → Action D (Option UpdateRoadmapResult)
  update_roadmap context_id req = do
    update_roadmap_from_samples context_id req
    update_roadmap_from_problems context_id req
    pure (some (record { context_id = context_id }))
