-- ===== src/Service/Iris/Class.antt =====
-- iris_manager.h as a class derived from `ResourceManager`: its two virtual methods keep what the
-- base class relies on.
use planning_service.Prelude.{
  String, ◌≤◌, ◌≡◌, ◌≢◌, refl, ◌⊎◌, Bool, true, arith, some, length, text_key,
}
use planning_service.Prelude.Maps.{lookup}
use planning_service.Service.Error.{Expected, returns}
use planning_service.Service.RequestQueue.{Request}
use planning_service.Service.JobRunner
use planning_service.Service.JobRunner.{JobRunner, insert_new_job, running}
use planning_service.Service.JobRunner.Bounds.{IsSound}
use planning_service.Service.ResourceManager.{Derived}
use planning_service.Service.ResourceManager.Drain.{Starts}
use planning_service.Service.Iris.{IrisBuildRequest, IrisBuildResult, start_job_impl, cleanup}
use planning_service.Service.Iris.Cleanup.{
  unended, cleanup-unended, has_key-unended, length-unended, unended-Distinct, unended-AllHaveState,
  unended_running,
}

pub cleanup-removes :
    (r : JobRunner IrisBuildResult)
    → IsSound r
    → (r' : JobRunner IrisBuildResult) × (cleanup r ≡ returns r')
      × IsSound r'
      × (r'.capacity ≡ r.capacity)
      × (length r'.active_jobs ≤ length r.active_jobs)
      × ((id : String) → JobRunner.has_job r' id ≡ true → JobRunner.has_job r id ≡ true)
      × ((id : String)
          → lookup id r.active_jobs ≡ some running
          → lookup id r'.active_jobs ≡ some running)
unfolding JobRunner.has_job
cleanup-removes r v = (
  record r { active_jobs = unended r.active_jobs },
  cleanup-unended r v,
  record {
    distinct = unended-Distinct r.active_jobs v.distinct;
    stateful = unended-AllHaveState r.active_jobs;
    bounded = omega (arith, length-unended r.active_jobs, v.bounded);
  },
  refl,
  length-unended r.active_jobs,
  λ id h. has_key-unended id r.active_jobs h,
  λ id h. unended_running id r.active_jobs h,
)

module _ {ℓ} {C : Type ℓ} where
  pub start_job_impl-inserts :
      (request : Request (IrisBuildRequest C)) (r r' : JobRunner IrisBuildResult)
      (x : Expected Bool)
      → start_job_impl request r ≡ returns (x, r')
      → (r' ≡ r) ⊎ (insert_new_job r request.id ≡ returns r')
  unfolding start_job_impl
  start_job_impl-inserts request r r' x h = ground arith

  unfoldable pub iris_class : Derived (IrisBuildRequest C) IrisBuildResult
  iris_class = record {
    start_job_impl = start_job_impl;
    start_job_impl_inserts = start_job_impl-inserts;
    cleanup = cleanup;
    cleanup_removes = cleanup-removes;
  }

  -- A request starts where its context has a nonzero id.
  pub nonzero-Starts :
      (request : Request (IrisBuildRequest C))
      → request.payload.context_id ≢ 0
      → Starts iris_class request
  unfolding iris_class start_job_impl
  nonzero-Starts request h r r' ins = ground arith
