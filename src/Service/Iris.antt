-- ===== src/Service/Iris.antt =====
-- planning_service/service/iris/iris_manager.h and iris_manager.cc: the manager of the jobs that
-- build IRIS regions. This file has its requests, `StartJobImpl` and `Cleanup`; the jobs
-- themselves are in `Iris/Jobs`, and the updates of the roadmap in `Iris/Roadmap`.
pub mod Cleanup
pub mod Class
pub mod Jobs
pub mod Roadmap
pub mod Examples
use planning_service.Prelude.{ℕ, String, Bool, true, List, [], ◌∷◌, ◌==◌, if◌then◌else◌}
use planning_service.Prelude.Int.{ℤ}
use planning_service.Service.Error.{
  Expected, value, unexpected, Outcome, returns, throws, context_invalid,
}
use planning_service.Service.RequestQueue.{Request}
use planning_service.Service.JobRunner.{
  JobRunner, insert_new_job, get_completed_job_ids, retrieve_result,
}

-- service/types/types.h
pub data IrisBuildJobType : Type 0 where
  none iris_from_configs iris_from_edges iris_from_roadmap iris_from_problems : IrisBuildJobType

pub record IrisBuildResult : Type 0 where
  pub context_id : ℕ
  pub type : IrisBuildJobType

-- What `IrisBuildRequestAdapter` adds to `RequestAdapter`, over the system configurations `C` (maps
-- from names to vectors). The service makes the context of a request from its id
-- (planning_service/comms/utils.h), so the optional id is always there. The passed problems are
-- left out: no job of this class reads them.
pub record IrisBuildRequest {ℓ} (C : Type ℓ) : Type ℓ where
  pub context_id : ℕ
  pub num_problems : ℤ
  pub job_type : IrisBuildJobType
  pub sysconf_vec : List C
  pub sysconf_edge_vec : List (C × C)

abbrev pub invalid_context : Expected Bool
invalid_context =
    unexpected (record { code = context_invalid; msg = "Context did not contain a valid ID" })

-- `InsertNewJob` in `StartJobImpl`, whose exception leaves it.
abbrev pub started {ℓ} :
    {R : Type ℓ} → Outcome (JobRunner R) → Outcome (Expected Bool × JobRunner R)
started (returns r) = returns (value true, r)
started (throws e) = throws e

unfoldable pub start_job_impl {ℓ} :
    {C : Type ℓ}
    → Request (IrisBuildRequest C)
    → JobRunner IrisBuildResult
    → Outcome (Expected Bool × JobRunner IrisBuildResult)
start_job_impl request r =
    if request.payload.context_id == 0
    then returns (invalid_context, r)
    else started (insert_new_job r request.id)

module _ {ℓ} {R : Type ℓ} where
  -- The loop of `Cleanup` over the ids; what is retrieved is only logged.
  unfoldable pub cleanup_each : List String → JobRunner R → Outcome (JobRunner R)
  cleanup_each [] r = returns r
  cleanup_each (id ∷ ids) r = elim (retrieve_result r id) [
    | returns (x, r') ↦ cleanup_each ids r'
    | throws e ↦ throws e
  ]

  abbrev pub cleanup_ids : JobRunner R → Outcome (List String) → Outcome (JobRunner R)
  cleanup_ids r (returns ids) = cleanup_each ids r
  cleanup_ids r (throws e) = throws e

  unfoldable pub cleanup : JobRunner R → Outcome (JobRunner R)
  cleanup r = cleanup_ids r (get_completed_job_ids r)
