-- ===== src/Comms/Iris/Answers.antt =====
-- What the handlers of iris_service.cc answer.
use planning_service.Prelude.{◌≡◌, ◌≢◌, ℕ, some, arith}
use planning_service.Prelude.Format.{◌<>◌}
use planning_service.Service.Error.{Outcome, returns, what}
use planning_service.Service.Action.{
  Action, pure, ◌>>=◌, ◌>>◌, try_catch, handle, Ends, done, thrown, Ends-resume, Ends-resume_at,
}
use planning_service.Service.Iris.Jobs.{Planners}
use planning_service.Service.Iris.Roadmap.{UpdateRoadmapRequest, update_roadmap}
use planning_service.Comms.Status.{Status, status_ok, resource_exhausted, failed}
use planning_service.Comms.Iris.{updated, handle_update_roadmap_request}

module _ {ℓ} {D C Q H : Type ℓ} (planners : Planners D C Q H) where
  update_roadmap-Ends :
      (context_id : ℕ) (req : UpdateRoadmapRequest Q) (d : D)
      → Ends (some (record { context_id = context_id })) (update_roadmap planners context_id req d)
  unfolding update_roadmap ◌>>◌ pure
  update_roadmap-Ends context_id req d = Ends-resume (λ u d1. Ends-resume (λ w d2. done) _) _

  -- HandleUpdateRoadmapRequest never answers that the service is exhausted.
  pub handle_update_never_exhausted :
      {M : Type ℓ} (to_request : M → Action D (ℕ × UpdateRoadmapRequest Q)) (message : M) (d d' : D)
      (s : Status)
      → handle_update_roadmap_request planners to_request message d ≡ (returns s, d')
      → s.code ≢ resource_exhausted
  unfolding handle_update_roadmap_request try_catch handle ◌>>=◌ pure
  handle_update_never_exhausted to_request message d d' s e =
      handled _
        (Ends-resume
          (λ x d1.
            Ends-resume_at (λ result. pure (updated result)) (λ d2. done) _
              (update_roadmap-Ends x.0 x.1 d1))
          (to_request message d))
        e
    where
      handled :
          (m : Outcome Status × D)
          → Ends status_ok m
          → handle (λ e. pure (failed ("Caught exception queuing request: " <> what e))) m
            ≡ (returns s, d')
          → s.code ≢ resource_exhausted
      handled m done e' = ground arith
      handled m (thrown err) e' = ground arith
