-- ===== src/Comms/Registry.antt =====
-- planning_service/comms/registry_service.cc: the handlers of the context registry. The conversion
-- of the messages, whose types are generated, is a parameter.
pub mod Answers
use planning_service.Prelude.{
  ℕ, String, Bool, true, not, Option, none, some, List, [], ◌∷◌, if◌then◌else◌, number_key,
}
use planning_service.Prelude.Int.{ℤ}
use planning_service.Prelude.Maps.{erase}
use planning_service.Prelude.Format.{◌<>◌}
use planning_service.Comms.Status.{Status, status_ok, failed}
use planning_service.Service.Error.{Expected, value, unexpected, ServiceError, what, Outcome}
use planning_service.Service.Action.{Action, pure, ◌>>=◌, ◌>>◌, try_catch}
use planning_service.Service.Registry.{
  Resources, Options, ResourceRegistry, PlanContext, has_draco, get_draco, register_plan_context,
}
use planning_service.Service.Registry.Changes.{remove_plan_context, migrate_planning_artifacts}

-- What the handlers use of the messages `M` and of the planners: the summary of a context `S` is
-- made of its planner's model, and its artifacts have the sizes `N`.
pub record Messages {ℓ} (W P X M S N : Type ℓ) : Type ℓ where
  -- `ProtoToPlanContext`
  pub to_plan_context : M → Action (ResourceRegistry W P X) (PlanContext X)
  -- the format of a `ServiceError`
  pub format_error : ServiceError → String
  pub summarize : PlanContext X → P → S
  -- `GetPlanningArtifactsSizes`
  pub artifacts_sizes : P → N

module _ {ℓ} {W P X M S N : Type ℓ} (messages : Messages W P X M S N) (resources : Resources W P X)
    (options : Options) where
  open messages use {to_plan_context, format_error, summarize, artifacts_sizes}

  -- The status, and the id in the response.
  abbrev pub registered : Expected ℕ → Status × Option ℕ
  registered (value id) = (status_ok, some id)
  registered (unexpected e) = (failed ("Failed to save context to disk! " <> format_error e), none)

  unfoldable pub handle_register_plan_context_request :
      String → M → Action (ResourceRegistry W P X) (Status × Option ℕ)
  handle_register_plan_context_request system message =
      try_catch
        (do
          context ← to_plan_context message
          result ← register_plan_context resources options system context
          pure (registered result))
        (λ e. pure (failed (what e), none))

  -- The result of the registry's `RemovePlanContext` is not looked at.
  unfoldable pub handle_remove_plan_context : String → ℕ → Action (ResourceRegistry W P X) Status
  handle_remove_plan_context system context_id =
      try_catch (remove_plan_context resources options system context_id true >> pure status_ok)
        (λ e. pure (failed ("Caught exception removing context: " <> what e)))

  unfoldable pub add_summaries :
      List (ℕ × PlanContext X) → Action (ResourceRegistry W P X) (List (ℕ × S))
  add_summaries [] = pure []
  add_summaries ((hash, context) ∷ contexts) = do
    draco ← get_draco hash
    rest ← add_summaries contexts
    pure ((hash, summarize context draco) ∷ rest)

  unfoldable pub get_plan_context_summaries : Action (ResourceRegistry W P X) (List (ℕ × S))
  get_plan_context_summaries r = add_summaries r.active_contexts_map r

  -- The loop over the ids of the request, with the map of the response so far.
  unfoldable pub add_statuses :
      List ℕ → List (ℕ × N) → Action (ResourceRegistry W P X) (List (ℕ × N))
  add_statuses [] statuses = pure statuses
  add_statuses (id ∷ ids) statuses = do
    present ← has_draco id
    if not present then add_statuses ids statuses else do
      draco ← get_draco id
      add_statuses ids ((id, artifacts_sizes draco) ∷ erase id statuses)

  unfoldable pub get_planning_artifact_status :
      List ℕ → Action (ResourceRegistry W P X) (List (ℕ × N))
  get_planning_artifact_status context_ids = add_statuses context_ids []

  abbrev pub migrated : Option String → Status
  migrated none = status_ok
  migrated (some e) = failed e

  unfoldable pub handle_migrate_planning_artifacts_request :
      X → ℕ → ℕ → ℤ → Bool → Action (ResourceRegistry W P X) Status
  handle_migrate_planning_artifacts_request blank from_id to_id num_samples repair =
      try_catch
        (do
          result ←
              migrate_planning_artifacts resources options blank from_id to_id num_samples repair
          pure (migrated result))
        (λ e. pure (failed ("Caught exception queuing request: " <> what e)))
