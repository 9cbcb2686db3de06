-- ===== src/Service/Visualizer/Calls.antt =====
-- The calls on a hub, each one step: those of the clients, and the rounds of `Run`. After any of them
-- an active hub has a model, and without a model nothing of one is left.
pub mod Sound
pub mod Loads
use planning_service.Prelude.{
  ℕ, String, Bool, true, false, not, if◌then◌else◌, List, [], ◌∷◌, Option, none, some, ◌≡◌, refl,
  arith, ap, sym, ◌∙◌, ◌⊎◌, inl, inr,
}
use planning_service.Prelude.Tests.{Bool-cases}
use planning_service.Service.Error.{Outcome, returns, throws}
use planning_service.Service.Action.{Action, Done, pure, resume, ◌>>=◌, ◌>>◌}
use planning_service.Service.Action.Keeps.{
  Keeps, bind-Keeps, then-Keeps, pure-Keeps, throw-Keeps, if-Keeps, try_catch-Keeps, option-Keeps,
}
use planning_service.Service.Visualizer.{
  VisualizerHub, VisualizerStatus, VisualizerOptions, idle, starting, active, stopping, no_status,
  Meshcats, Live, Command, FrameAxesInfo, call, need, need_draco, set_status, request_stop,
  set_visualizer_options, queue_meshcat_task, clear_streaming_state,
}
use planning_service.Service.Visualizer.Frames.{
  toggle_frame, toggle_registered, toggle_frames_by_path, toggle_all, set_all_toggled, set_toggled,
  toggle_found, set_frame_axes, Axes,
}
use planning_service.Service.Visualizer.Configuration.{
  set_positions_of, set_configuration, completed, push, push_times, push_position, set_pending,
}
use planning_service.Service.Visualizer.Loading.{
  ModelFiles, VisualizerData, fresh, set_adapter, find_adapter, find_anywhere, adapter_of_context,
  set_model_data, load_model, load_at, load_and_set_model_data,
}
use planning_service.Service.Visualizer.Loading.Answers.{call-Keeps, need-Keeps, find_adapter-Keeps}
use planning_service.Service.Visualizer.Setup.{
  setup, stop_round, stop_with, reset_model, start_round, start_model, set_model,
}
use planning_service.Service.Visualizer.Run.{round, round_at, active_loop}
use planning_service.Service.Visualizer.Alive.{has_model, IsLive}
use planning_service.Service.Visualizer.Alive.Rounds.{setup-Keeps, active_loop-Keeps}

-- A call with its arguments, and the times at which it reads the clock.
pub data Call {ℓ} (Q X C : Type ℓ) : Type ℓ where
  load : VisualizerData → Bool → Call Q X C
  stop clear : Call Q X C
  configure : VisualizerOptions → Call Q X C
  queue : List (Command X) → Call Q X C
  set_positions : ℕ → Q → Call Q X C
  set_conf : ℕ → C → Call Q X C
  toggle toggle_path : String → Bool → Call Q X C
  run_round : List ℕ → Call Q X C

abbrev pub IsEmptied {ℓ} : {A D W Q X I : Type ℓ} → VisualizerHub A D W Q X I → Type ℓ
IsEmptied hub =
    (hub.default_positions ≡ none) × (hub.joint_limit_indicators ≡ []) × (hub.frame_axes ≡ [])

unfoldable pub IsSound {ℓ} : {A D W Q X I : Type ℓ} → VisualizerHub A D W Q X I → Type ℓ
IsSound hub =
    (hub.status ≡ active → has_model hub.draco ≡ true)
    × (has_model hub.draco ≡ false → IsEmptied hub)

module _ {ℓ} {A P D W Q X C I : Type ℓ} (meshcats : Meshcats A D W Q X C I)
    (files : ModelFiles A P) where
  -- The hub after a call, whatever the call answers.
  unfoldable pub perform : Call Q X C → VisualizerHub A D W Q X I → VisualizerHub A D W Q X I
  perform (load visualizer_data force) hub =
      (load_and_set_model_data files visualizer_data force hub).1
  perform stop hub = (request_stop hub).1
  perform clear hub = (clear_streaming_state hub).1
  perform (configure options) hub = (set_visualizer_options options hub).1
  perform (queue task) hub = (queue_meshcat_task task hub).1
  perform (set_positions now q) hub = (set_positions_of meshcats now q hub).1
  perform (set_conf now conf) hub = (set_configuration meshcats now conf hub).1
  perform (toggle path visible) hub = (toggle_frame meshcats path visible hub).1
  perform (toggle_path path visible) hub = (toggle_frames_by_path meshcats path visible hub).1
  perform (run_round times) hub = (round meshcats times hub).1

  unfoldable pub perform_all :
      List (Call Q X C) → VisualizerHub A D W Q X I → VisualizerHub A D W Q X I
  perform_all [] hub = hub
  perform_all (c ∷ calls) hub = perform_all calls (perform c hub)
