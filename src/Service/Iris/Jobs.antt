-- ===== src/Service/Iris/Jobs.antt =====
-- planning_service/service/iris/iris_manager.cc and iris_manager.h: the jobs that build IRIS
-- regions. What they, and the updates of the roadmap in `Iris/Roadmap`, use of the registry and of a Draco planner
-- (its robot model, constraints and artifact builder) is the interface `Planners`, whose operations
-- change a state `D` and may throw.
pub mod Answers
use planning_service.Prelude.{ℕ, String, Bool, List, [], ◌∷◌}
use planning_service.Prelude.Int.{ℤ}
use planning_service.Prelude.Format.{◌<>◌}
use planning_service.Service.Error.{
  Expected, value, unexpected, Exception, what, job_type_unsupported, job_thread_exception,
}
use planning_service.Service.Action.{Action, Done, pure, ◌>>=◌, ◌>>◌, try_catch}
use planning_service.Service.Iris.{
  IrisBuildJobType, iris_from_configs, iris_from_edges, iris_from_roadmap, iris_from_problems,
  IrisBuildResult, IrisBuildRequest,
}

-- Over system configurations `C`, configurations `Q` and shared pointers `H` to a Draco planner.
pub record Planners {ℓ} (D C Q H : Type ℓ) : Type ℓ where
  -- `registry_->GetDraco` and `GetMutableDraco`
  pub get_draco : ℕ → Action D H
  -- `robot_model().ToGeneralizedPosition`
  pub to_generalized_position : H → C → Action D Q
  -- `robot_constraints().GenerateSamples`, with the generator of the fixed seed
  pub generate_samples : H → ℤ → Action D (List Q)
  -- of `artifact_builder()`
  pub build_regions_from_configs : H → List Q → Action D Done
  pub build_regions_from_conf_edges : H → List (Q × Q) → Action D Done
  pub build_regions_from_saved_problems_path : H → ℤ → Action D Done
  pub build_regions_from_conf_roadmap : H → Action D Done
  pub update_roadmap_from_saved_problems : H → ℤ → Action D Done
  -- with `try_recall` and `save_solution`; the result is not used
  pub get_sample_based_solution : H → Q → Q → Bool → Bool → Action D Done

-- `magic_enum::enum_name`
abbrev pub enum_name : IrisBuildJobType → String
enum_name IrisBuildJobType.none = "NONE"
enum_name iris_from_configs = "IRIS_FROM_CONFIGS"
enum_name iris_from_edges = "IRIS_FROM_EDGES"
enum_name iris_from_roadmap = "IRIS_FROM_ROADMAP"
enum_name iris_from_problems = "IRIS_FROM_PROBLEMS"

module _ {ℓ} {D C Q H : Type ℓ} (planners : Planners D C Q H) where
  open planners use {
    get_draco, to_generalized_position, generate_samples, build_regions_from_configs,
    build_regions_from_conf_edges, build_regions_from_saved_problems_path,
    build_regions_from_conf_roadmap, update_roadmap_from_saved_problems, get_sample_based_solution,
  }

  -- The loop of `BuildRegionsFromSystemConfs`.
  unfoldable pub to_positions : ℕ → List C → Action D (List Q)
  to_positions context_id [] = pure []
  to_positions context_id (sysconf ∷ confs) = do
    draco ← get_draco context_id
    q ← to_generalized_position draco sysconf
    qs ← to_positions context_id confs
    pure (q ∷ qs)

  unfoldable pub build_regions_from_system_confs : ℕ → List C → Action D IrisBuildResult
  build_regions_from_system_confs context_id sysconf_vec = do
    conf_vec ← to_positions context_id sysconf_vec
    draco ← get_draco context_id
    build_regions_from_configs draco conf_vec
    pure (record { context_id = context_id; type = iris_from_configs })

  -- The loop of `BuildRegionsFromEdges`.
  unfoldable pub to_edges : ℕ → List (C × C) → Action D (List (Q × Q))
  to_edges context_id [] = pure []
  to_edges context_id ((u, v) ∷ edges) = do
    draco_u ← get_draco context_id
    q_u ← to_generalized_position draco_u u
    draco_v ← get_draco context_id
    q_v ← to_generalized_position draco_v v
    rest ← to_edges context_id edges
    pure ((q_u, q_v) ∷ rest)

  unfoldable pub build_regions_from_edges : ℕ → List (C × C) → Action D IrisBuildResult
  build_regions_from_edges context_id sysconf_edge_vec = do
    conf_edge_vec ← to_edges context_id sysconf_edge_vec
    draco ← get_draco context_id
    build_regions_from_conf_edges draco conf_edge_vec
    pure (record { context_id = context_id; type = iris_from_edges })

  unfoldable pub build_regions_from_roadmap : ℕ → ℤ → Action D IrisBuildResult
  build_regions_from_roadmap context_id num_problems = do
    draco ← get_draco context_id
    build_regions_from_saved_problems_path draco num_problems
    again ← get_draco context_id
    build_regions_from_conf_roadmap again
    pure (record { context_id = context_id; type = iris_from_roadmap })

  -- The result of a job in `BuildRegions`, turned to the expected one.
  abbrev as_value : Action D IrisBuildResult → Action D (Expected IrisBuildResult)
  as_value job = job >>= (λ result. pure (value result))

  abbrev pub job_failed : Exception → Expected IrisBuildResult
  job_failed e =
      unexpected
        (record { code = job_thread_exception; msg = "Job failed due to exception: " <> what e })

  abbrev pub not_supported : IrisBuildJobType → Expected IrisBuildResult
  not_supported job_type = unexpected (record {
    code = job_type_unsupported;
    msg = "Job type " <> enum_name job_type <> " is not currently supported!";
  })

  -- The `switch` of `BuildRegions`.
  unfoldable pub build_by_type :
      IrisBuildJobType → ℕ → IrisBuildRequest C → Action D (Expected IrisBuildResult)
  build_by_type iris_from_edges context_id req =
      as_value (build_regions_from_edges context_id req.sysconf_edge_vec)
  build_by_type iris_from_configs context_id req =
      as_value (build_regions_from_system_confs context_id req.sysconf_vec)
  build_by_type iris_from_roadmap context_id req =
      as_value (build_regions_from_roadmap context_id req.num_problems)
  build_by_type job_type context_id req = pure (not_supported job_type)

  unfoldable pub build_regions : ℕ → IrisBuildRequest C → Action D (Expected IrisBuildResult)
  build_regions context_id req =
      try_catch (build_by_type req.job_type context_id req) (λ e. pure (job_failed e))
