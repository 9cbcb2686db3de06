-- ===== src/Service/Iris/Examples.antt =====
-- The theorems about the jobs of the IRIS manager at concrete planners, whose state is the list of
-- the problems that were solved.
use planning_service.Prelude.{
  ℕ, ◌≡◌, refl, Option, some, List, [], ◌∷◌, length, if◌then◌else◌, ◌==◌,
}
use planning_service.Prelude.Int.{pos}
use planning_service.Service.Error.{returns, runtime_error}
use planning_service.Service.Action.{Action, Done, pure, throw, ◌>>=◌, for_each}
use planning_service.Service.Iris.{IrisBuildRequest, iris_from_configs}
use planning_service.Service.Iris.Jobs.{Planners}
use planning_service.Service.Iris.Roadmap.{
  UpdateRoadmapRequest, UpdateRoadmapResult, update_from_passed_problems, update_from_samples,
  generate_samples_and_solve_problems, update_roadmap_from_problems, rounds,
}
use planning_service.Service.Iris.Roadmap.Pairs.{pairs, take, solve_pair, generate-pairs}
use planning_service.Service.Iris.Roadmap.Answers.{attempts, passed_problems_attempted}

abbrev pub Log : Type 0
Log = List (ℕ × ℕ)

abbrev record_problem : ℕ → ℕ → ℕ → Action Log Done
record_problem draco q_start q_goal log = (returns tt, (q_start, q_goal) ∷ log)

-- Context 1 alone is known, and a problem with equal ends throws.
abbrev pub planners : Planners Log ℕ ℕ ℕ
planners = record {
  get_draco = λ id. if id == 1 then pure id else throw (runtime_error "no such context");
  to_generalized_position = λ draco c. pure c;
  generate_samples = λ draco k. pure (10 ∷ 20 ∷ 30 ∷ []);
  build_regions_from_configs = λ draco qs. pure tt;
  build_regions_from_conf_edges = λ draco es. pure tt;
  build_regions_from_saved_problems_path = λ draco k. pure tt;
  build_regions_from_conf_roadmap = λ draco. pure tt;
  update_roadmap_from_saved_problems = λ draco k. pure tt;
  get_sample_based_solution = λ draco p q try_recall save.
      if p == q then throw (runtime_error "no problem") else record_problem draco p q;
}

abbrev build_request : IrisBuildRequest ℕ
build_request = record {
  context_id = 2;
  num_problems = pos 0;
  job_type = iris_from_configs;
  sysconf_vec = 4 ∷ 5 ∷ [];
  sysconf_edge_vec = [];
}

generate-pairs_example : generate_samples_and_solve_problems planners 1 (pos 2) ≡ (do
  draco ← planners.get_draco 1
  samples ← planners.generate_samples draco (pos 2)
  for_each (pairs (take (rounds (pos 2) (length samples)) samples)) (solve_pair planners draco))
generate-pairs_example = generate-pairs planners 1 (pos 2)

abbrev three_samples : List ℕ
three_samples = 7 ∷ 8 ∷ 9 ∷ []

abbrev pub sample_request : UpdateRoadmapRequest ℕ
sample_request = record {
  job_type = update_from_samples;
  num_samples = pos 2;
  num_problems = pos 0;
  planning_problem_vec = [];
}

abbrev no_result : Option UpdateRoadmapResult
no_result = Option.none

abbrev passed_request : UpdateRoadmapRequest ℕ
passed_request = record {
  job_type = update_from_passed_problems;
  num_samples = pos 0;
  num_problems = pos 0;
  planning_problem_vec =
      record { start_conf = 1; goal_conf = 1 } ∷ record { start_conf = 1; goal_conf = 2 } ∷ [];
}

passed_problems_attempted_example : update_roadmap_from_problems planners 1 passed_request [] ≡ (
  returns (some (record { context_id = 1 })),
  attempts planners 1 passed_request.planning_problem_vec [],
)
unfolding pure
passed_problems_attempted_example =
    passed_problems_attempted planners 1 passed_request [] [] 1 refl (λ e. cc) refl
