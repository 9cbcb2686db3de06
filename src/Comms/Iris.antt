-- ===== src/Comms/Iris.antt =====
-- planning_service/comms/iris_service.cc: the handlers of the IRIS builder service. The conversion
-- of the messages, whose types are generated, is a parameter.
pub mod Answers
use planning_service.Prelude.{ℕ, Bool, Option, none, some}
use planning_service.Prelude.Format.{◌<>◌}
use planning_service.Prelude.{String}
use planning_service.Service.Error.{
  Expected, value, unexpected, ServiceError, what, Outcome, returns, throws,
}
use planning_service.Service.Action.{Action, pure, ◌>>=◌, ◌>>◌, try_catch}
use planning_service.Service.RequestQueue.{Request}
use planning_service.Service.ResourceManager.{ResourceManager, queue_request}
use planning_service.Service.Iris.{IrisBuildRequest, IrisBuildResult}
use planning_service.Service.Iris.Jobs.{Planners}
use planning_service.Service.Iris.Roadmap.{
  UpdateRoadmapRequest, UpdateRoadmapResult, update_roadmap,
}
use planning_service.Comms.Status.{Status, resource_exhausted, status_ok, failed}

abbrev pub exhausted : String → Status
exhausted message = record { code = resource_exhausted; message = message }

-- The format of a `ServiceError` is a parameter.
module _ {ℓ κ} {P : Type ℓ} {R : Type κ} (format_error : ServiceError → String) where
  abbrev pub queued :
      ResourceManager P R
      → Outcome (Expected Bool × ResourceManager P R)
      → Status × ResourceManager P R
  queued m (returns (value b, m')) = (status_ok, m')
  queued m (returns (unexpected e, m')) =
      (exhausted ("Failed to queue request with error " <> format_error e), m')
  queued m (throws e) = (failed ("Caught exception queuing request: " <> what e), m)

  -- The call of the manager in `HandleStartBuildRequest`, by how the conversion of the message ends.
  unfoldable pub handle_start_build_request :
      Outcome (Request P) → ResourceManager P R → Status × ResourceManager P R
  handle_start_build_request (returns request) m = queued m (queue_request m request)
  handle_start_build_request (throws e) m =
      (failed ("Caught exception queuing request: " <> what e), m)

-- The test of the optional result in `HandleUpdateRoadmapRequest`.
abbrev pub updated : Option UpdateRoadmapResult → Status
updated (some result) = status_ok
updated none = exhausted "Failed to update roadmap!"

module _ {ℓ} {D C Q H M : Type ℓ} (planners : Planners D C Q H) where
  -- `ProtoToUpdateRoadmapRequestAdapter` is the first argument.
  unfoldable pub handle_update_roadmap_request :
      (M → Action D (ℕ × UpdateRoadmapRequest Q)) → M → Action D Status
  handle_update_roadmap_request to_request message =
      try_catch
        (do
          (context_id, request) ← to_request message
          result ← update_roadmap planners context_id request
          pure (updated result))
        (λ e. pure (failed ("Caught exception queuing request: " <> what e)))
