-- ===== src/Service/Iris/Jobs/Answers.antt =====
-- What the jobs answer (iris_manager.h and iris_manager.cc).
use planning_service.Prelude.{ℕ, List}
use planning_service.Prelude.Int.{ℤ}
use planning_service.Service.Error.{Expected, value, Exception, Outcome, returns}
use planning_service.Service.Action.{
  pure, ◌>>=◌, ◌>>◌, try_catch, handle, resume, Ends, done, thrown, Ends-resume,
}
use planning_service.Service.Iris.{
  IrisBuildJobType, iris_from_configs, iris_from_edges, iris_from_roadmap, iris_from_problems,
  IrisBuildResult, IrisBuildRequest,
}
use planning_service.Service.Iris.Jobs.{
  Planners, build_by_type, build_regions_from_edges, build_regions_from_system_confs,
  build_regions_from_roadmap, build_regions, job_failed, not_supported,
}

module _ {ℓ} {D C Q H : Type ℓ} (planners : Planners D C Q H) where
  -- What a job that was asked for `context_id` and `job_type` may answer, and the state it leaves.
  pub data IsAnswer (context_id : ℕ) (job_type : IrisBuildJobType) (d : D)
      : Outcome (Expected IrisBuildResult) × D → Type ℓ where
    built :
        {d' : D}
        → IsAnswer context_id job_type d
            (returns (value (record { context_id = context_id; type = job_type })), d')
    failed :
        (e : Exception) {d' : D}
        → IsAnswer context_id job_type d (returns (job_failed planners e), d')
    refused : IsAnswer context_id job_type d (returns (not_supported planners job_type), d)

  build_regions_from_edges-Ends :
      (context_id : ℕ) (edges : List (C × C)) (d : D)
      → Ends
          (record { context_id = context_id; type = iris_from_edges })
          (build_regions_from_edges planners context_id edges d)
  unfolding build_regions_from_edges ◌>>=◌ ◌>>◌ pure
  build_regions_from_edges-Ends context_id edges d =
      Ends-resume (λ conf_edge_vec d1. Ends-resume (λ draco d2. Ends-resume (λ u d3. done) _) _) _

  build_regions_from_system_confs-Ends :
      (context_id : ℕ) (confs : List C) (d : D)
      → Ends
          (record { context_id = context_id; type = iris_from_configs })
          (build_regions_from_system_confs planners context_id confs d)
  unfolding build_regions_from_system_confs ◌>>=◌ ◌>>◌ pure
  build_regions_from_system_confs-Ends context_id confs d =
      Ends-resume (λ conf_vec d1. Ends-resume (λ draco d2. Ends-resume (λ u d3. done) _) _) _

  build_regions_from_roadmap-Ends :
      (context_id : ℕ) (num_problems : ℤ) (d : D)
      → Ends
          (record { context_id = context_id; type = iris_from_roadmap })
          (build_regions_from_roadmap planners context_id num_problems d)
  unfolding build_regions_from_roadmap ◌>>=◌ ◌>>◌ pure
  build_regions_from_roadmap-Ends context_id num_problems d =
      Ends-resume
        (λ draco d1.
          Ends-resume (λ u d2. Ends-resume (λ again d3. Ends-resume (λ w d4. done) _) _) _)
        _

  Ends-IsAnswer :
      (context_id : ℕ) (job_type : IrisBuildJobType) (d : D) (m : Outcome IrisBuildResult × D)
      → Ends (record { context_id = context_id; type = job_type }) m
      → IsAnswer context_id job_type d
          (handle (λ e. pure (job_failed planners e)) (resume (λ r. pure (value r)) m))
  unfolding handle resume pure
  Ends-IsAnswer context_id job_type d m done = built
  Ends-IsAnswer context_id job_type d m (thrown e) = failed e

  build_by_type-IsAnswer :
      (job_type : IrisBuildJobType) (context_id : ℕ) (req : IrisBuildRequest C) (d : D)
      → IsAnswer context_id job_type d (
          handle
            (λ e. pure (job_failed planners e))
            (build_by_type planners job_type context_id req d))
  unfolding build_by_type ◌>>=◌ pure handle
  build_by_type-IsAnswer iris_from_edges context_id req d =
      Ends-IsAnswer context_id iris_from_edges d _
        (build_regions_from_edges-Ends context_id req.sysconf_edge_vec d)
  build_by_type-IsAnswer iris_from_configs context_id req d =
      Ends-IsAnswer context_id iris_from_configs d _
        (build_regions_from_system_confs-Ends context_id req.sysconf_vec d)
  build_by_type-IsAnswer iris_from_roadmap context_id req d =
      Ends-IsAnswer context_id iris_from_roadmap d _
        (build_regions_from_roadmap-Ends context_id req.num_problems d)
  build_by_type-IsAnswer IrisBuildJobType.none context_id req d = refused
  build_by_type-IsAnswer iris_from_problems context_id req d = refused

  -- BuildRegions never throws, whatever the registry and the planners do: it answers with the
  -- context and the type asked for, or with the text of an exception, or, in the state it found,
  -- that the type is not supported.
  pub build_regions_answers :
      (context_id : ℕ) (req : IrisBuildRequest C) (d : D)
      → IsAnswer context_id req.job_type d (build_regions planners context_id req d)
  unfolding build_regions try_catch
  build_regions_answers context_id req d = build_by_type-IsAnswer req.job_type context_id req d
