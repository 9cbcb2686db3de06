-- ===== src/Comms/Viz/Start.antt =====
-- planning_service/comms/viz_service.cc and viz_service.h: `StartVisualizer` and `SetConfiguration`.
use planning_service.Prelude.{ℕ, Bool, true, false, if◌then◌else◌, Option, none, some}
use planning_service.Prelude.Format.{◌<>◌}
use planning_service.Service.Error.{Outcome, returns, throws, what}
use planning_service.Service.Action.{Action, Done, pure, ◌>>=◌, ◌>>◌}
use planning_service.Service.Visualizer.{
  VisualizerHub, VisualizerStatus, VisualizerOptions, Meshcats, starting, need_draco,
  set_visualizer_options,
}
use planning_service.Service.Visualizer.Configuration.{
  Configured, accepted, unexpected, set_positions_of, set_configuration,
}
use planning_service.Service.Visualizer.Loading.{
  ModelFiles, VisualizerData, load_and_set_model_data,
}
use planning_service.Comms.Status.{Status, status_ok, failed, resource_exhausted}
use planning_service.Comms.Viz.{StartVisualizerRequest, SetConfigurationRequest}
use text.Mathlib.Text.{◌==◌ as same_text}

-- The options of the hub with those of the request; `show_iris_regions` and `show_prm`, which the hub
-- does not read, are left out.
unfoldable pub requested_options : VisualizerOptions → StartVisualizerRequest → VisualizerOptions
requested_options options request = record options {
  meshcat_params = record options.meshcat_params { visual = true };
  enable_sliders = request.enable_sliders;
}

unfoldable pub requested_data : StartVisualizerRequest → VisualizerData
requested_data request = record {
  context_id = if same_text request.dmd_filename "" then some request.context_id else none;
  dmd_filename = if same_text request.dmd_filename "" then none else some request.dmd_filename;
  robot_meshcat_params = request.meshcat_params;
}

module _ {ℓ} {A P D W Q X I : Type ℓ} (files : ModelFiles A P)
    (wait_on_status : VisualizerStatus → Action (VisualizerHub A D W Q X I) Done) where
  -- Behind the `try` block, over how it ends: the answer of `LoadAndSetModelData`, or an exception.
  -- After the wait, `ActiveHash` is read for the log, and throws where there is no model.
  unfoldable pub after_load : Outcome Bool → Action (VisualizerHub A D W Q X I) Status
  after_load (returns true) = wait_on_status starting >> (need_draco >>= λ live. pure status_ok)
  after_load (returns false) =
      pure
        (record { code = resource_exhausted; message = "Failed to load robot model from request!" })
  after_load (throws e) = pure (failed ("Failed to load model data due to exception: " <> what e))

  -- `StartVisualizer`
  unfoldable pub start_visualizer :
      StartVisualizerRequest → Action (VisualizerHub A D W Q X I) Status
  unfolding requested_options requested_data
  start_visualizer request hub =
      let (loaded, hub') =
        (set_visualizer_options (requested_options hub.options request)
            >> load_and_set_model_data files (requested_data request) request.force_reload)
          hub in
      after_load loaded hub'

module _ {ℓ} {A D W Q X C I : Type ℓ} (meshcats : Meshcats A D W Q X C I) where
  -- `DoSetConfiguration`, over the parts that the message has.
  unfoldable pub set_parts : ℕ → Option Q → Option C → Action (VisualizerHub A D W Q X I) Configured
  set_parts now (some conf) system_conf = set_positions_of meshcats now conf
  set_parts now none (some system_conf) = set_configuration meshcats now system_conf
  set_parts now none none = pure (unexpected "No configuration provided!")

  unfoldable pub do_set_configuration :
      ℕ → SetConfigurationRequest Q C → Action (VisualizerHub A D W Q X I) Configured
  do_set_configuration now request = set_parts now request.conf request.system_conf

  unfoldable pub configured_status : Configured → Status
  configured_status accepted = status_ok
  configured_status (unexpected error) = failed ("Failed to set model positions (" <> error <> ")")

  -- The handler `SetConfiguration`.
  unfoldable pub handle_set_configuration :
      ℕ → SetConfigurationRequest Q C → Action (VisualizerHub A D W Q X I) Status
  handle_set_configuration now request =
      do_set_configuration now request >>= λ set_result. pure (configured_status set_result)
