-- ===== src/Service/Visualizer/Setup.antt =====
-- How a model starts and stops (visualizer_hub.cc): what `Run` does in the statuses `Starting` and
-- `Stopping`.
use planning_service.Prelude.{
  String, Bool, true, false, List, [], ◌∷◌, Option, none, some, text_key, if◌then◌else◌,
}
use planning_service.Prelude.Int.{pos}
use planning_service.Service.Error.{Outcome, returns, throws}
use planning_service.Service.Action.{Action, Done, pure, ◌>>=◌, ◌>>◌, for_each}
use planning_service.Service.Visualizer.{
  VisualizerHub, idle, active, Meshcats, Live, joint_sliders, camera_pose, publish, need_draco,
  need, call, show, when, on_meshcat, set_status,
}
use planning_service.Service.Visualizer.Buttons.{add_button_at}
use planning_service.Service.Visualizer.Frames.{setup_frame_axes}
use planning_service.Service.Visualizer.Configuration.{set_robot_stream_active}

abbrev pub reset_to_default : String
reset_to_default = "Reset Positions"

abbrev pub stream_inactive : String
stream_inactive = "Position Stream: Inactive"

module _ {ℓ} {A D W Q X I : Type ℓ} where
  -- `draco_.reset()` and the resets after it.
  unfoldable pub reset_model : Action (VisualizerHub A D W Q X I) Done
  reset_model hub = (
    returns tt,
    record hub {
      draco = none;
      draco_adapter = none;
      default_positions = none;
      joint_limit_indicators = [];
      frame_axes = [];
    },
  )

  -- Status `Stopping`, over whether there is a model.
  unfoldable pub stop_with : Option (Live D W) → Action (VisualizerHub A D W Q X I) Done
  stop_with none = set_status idle
  stop_with (some live) = reset_model >> set_status idle

  unfoldable pub stop_round : Action (VisualizerHub A D W Q X I) Done
  stop_round hub = stop_with hub.draco hub

  unfoldable pub set_model : Live D W → Action (VisualizerHub A D W Q X I) Done
  set_model live hub = (returns tt, record hub { draco = some live })

  unfoldable pub set_default_positions : Q → Action (VisualizerHub A D W Q X I) Done
  set_default_positions q hub = (returns tt, record hub { default_positions = some q })

  unfoldable pub set_stream_button : String → Action (VisualizerHub A D W Q X I) Done
  set_stream_button name hub = (returns tt, record hub { position_stream_button_name = name })

  unfoldable pub set_indicators : List I → Action (VisualizerHub A D W Q X I) Done
  set_indicators indicators hub = (returns tt, record hub { joint_limit_indicators = indicators })

module _ {ℓ} {A D W Q X C I : Type ℓ} (meshcats : Meshcats A D W Q X C I) where
  open meshcats use {
    make_draco, default_configuration, to_generalized_position, to_system_conf, robots, positions,
    set_positions, slider_positions, button_clicks, save_html, joint_positions_changed,
    make_indicators, indicator_commands,
  }

  unfoldable pub set_meshcat_positions : Q → Action (VisualizerHub A D W Q X I) Done
  set_meshcat_positions q = on_meshcat (λ w. returns (set_positions q w))

  unfoldable pub setup_defaults : Option C → Action (VisualizerHub A D W Q X I) Done
  setup_defaults none = pure tt
  setup_defaults (some conf) = do
    live ← need_draco
    q ← call (to_generalized_position live.model conf)
    set_default_positions q
    set_meshcat_positions q
    when (λ o. o.enable_sliders) (add_button_at meshcats reset_to_default (pos 0) "")

  -- The robots that Meshcat's positions are about.
  unfoldable pub shown_robots : Action (VisualizerHub A D W Q X I) (List String)
  shown_robots = do
    live ← need_draco
    pure (robots (to_system_conf live.model (positions live.meshcat)))

  unfoldable pub setup_streaming : Action (VisualizerHub A D W Q X I) Done
  setup_streaming = do
    set_stream_button stream_inactive
    add_button_at meshcats stream_inactive (pos 0) ""
    show meshcats (publish ∷ [])
    names ← shown_robots
    for_each names (λ robot. set_robot_stream_active meshcats robot false)

  -- The cylinders and cones of `SetupJointLimitIndicators` are the interface's.
  unfoldable pub setup_joint_limits : Action (VisualizerHub A D W Q X I) Done
  setup_joint_limits = do
    live ← need_draco
    set_indicators (make_indicators live.model (positions live.meshcat))

  unfoldable pub setup : Action (VisualizerHub A D W Q X I) Bool
  setup hub =
      (when (λ o. o.enable_sliders) (show meshcats (joint_sliders ∷ []))
          >> (need hub.draco_adapter >>= λ adapter. setup_defaults (default_configuration adapter))
          >> when (λ o. o.enable_set_configuration) setup_streaming
          >> when (λ o. o.show_joint_limits) setup_joint_limits
          >> setup_frame_axes meshcats
          >> when (λ o. o.has_default_camera_position) (show meshcats (camera_pose ∷ []))
          >> pure true)
        hub

  unfoldable pub start_model : Outcome (Live D W) → Action (VisualizerHub A D W Q X I) Done
  start_model (throws e) = set_status idle
  start_model (returns live) =
      set_model live >> setup >>= λ success. if success then set_status active else pure tt

  -- Status `Starting`.
  unfoldable pub start_round : Action (VisualizerHub A D W Q X I) Done
  start_round hub = (need hub.draco_adapter >>= λ adapter. start_model (make_draco adapter)) hub
