-- ===== src/Service/Visualizer/Run.antt =====
-- The thread of `Run` (visualizer_hub.cc): what it does once in each status. Waiting is left out, and
-- `CheckSatisfied`, whose answer is not read.
use planning_service.Prelude.{
  ℕ, ◌-◌, ◌+◌, String, Bool, true, false, not, List, [], ◌∷◌, Option, none, some, text_key,
  if◌then◌else◌, ltb, leb, length, same_key,
}
use planning_service.Prelude.Int.{pos, negsuc}
use planning_service.Prelude.Format.{◌<>◌, decimal}
use planning_service.Prelude.Maps.{lookup}
use planning_service.Service.Error.{returns, runtime_error}
use planning_service.Service.Action.{Action, Done, pure, throw, ◌>>=◌, ◌>>◌, for_each}
use planning_service.Service.Visualizer.{
  VisualizerHub, VisualizerStatus, no_status, idle, starting, active, stopping, Meshcats, Command,
  publish, need_draco, need, call, show, when,
}
use planning_service.Service.Visualizer.Buttons.{has_button, add_button_at, delete_button_named}
use planning_service.Service.Visualizer.Frames.{update_frame_axes}
use planning_service.Service.Visualizer.Configuration.{set_robot_stream_active}
use planning_service.Service.Visualizer.Setup.{
  reset_to_default, stream_inactive, stop_round, set_stream_button, set_meshcat_positions,
  shown_robots, start_round,
}

abbrev pub export_html : String
export_html = "Export to HTML"

abbrev pub export_success : String
export_success = "HTML Exported."

unfoldable pub is_stopping : VisualizerStatus → Bool
is_stopping status = elim status [ stopping ↦ true | _ ↦ false ]

-- The label of the button that counts the robots that are pushed.
unfoldable pub stream_label : ℕ → ℕ → String
stream_label count total =
    if ltb 0 count
    then "Position Stream: " <> decimal count <> "/" <> decimal total <> " Active"
    else stream_inactive

-- Whether the robot was pushed in the last second.
unfoldable pub is_streaming : ℕ → List (String × ℕ) → String → Bool
is_streaming now times robot = elim (lookup robot times) [
  | none ↦ false
  | some t ↦ leb (now - t) 1000
]

unfoldable pub count_streaming : ℕ → List (String × ℕ) → List String → ℕ
count_streaming now times [] = 0
count_streaming now times (robot ∷ names) =
    (if is_streaming now times robot then 1 else 0) + count_streaming now times names

-- The queue after `pop()`.
unfoldable pub rest_of {ℓ} : {B : Type ℓ} → List B → List B
rest_of [] = []
rest_of (task ∷ tasks) = tasks

module _ {ℓ} {A D W Q X I : Type ℓ} where
  -- `std::exchange(pending_position_, std::nullopt)`
  unfoldable pub take_position : Action (VisualizerHub A D W Q X I) (Option Q)
  take_position hub = (returns hub.pending_position, record hub { pending_position = none })

  unfoldable pub pop_task : Action (VisualizerHub A D W Q X I) Done
  pop_task hub = (returns tt, record hub { meshcat_task_queue = rest_of hub.meshcat_task_queue })

module _ {ℓ} {A D W Q X C I : Type ℓ} (meshcats : Meshcats A D W Q X C I) where
  open meshcats use {
    make_draco, default_configuration, to_generalized_position, to_system_conf, robots, positions,
    set_positions, slider_positions, button_clicks, save_html, joint_positions_changed,
    make_indicators, indicator_commands,
  }

  unfoldable pub was_clicked : String → Action (VisualizerHub A D W Q X I) Bool
  was_clicked name = do
    shown ← has_button meshcats name
    live ← need_draco
    pure (if shown then ltb 0 (button_clicks name live.meshcat) else false)

  unfoldable pub export_to_html : Action (VisualizerHub A D W Q X I) String
  export_to_html = do
    live ← need_draco
    path ← call (save_html live.meshcat)
    delete_button_named meshcats export_html
    add_button_at meshcats export_success (negsuc 0) ""
    pure path

  unfoldable pub read_export : Action (VisualizerHub A D W Q X I) Done
  read_export =
      was_clicked export_html >>= λ clicked. if clicked then export_to_html >> pure tt else pure tt

  -- The value of the sliders, or the default positions where their button was clicked.
  unfoldable pub chosen_positions : Q → Bool → Action (VisualizerHub A D W Q X I) Q
  chosen_positions q false hub = pure q hub
  chosen_positions q true hub =
      (need hub.default_positions >>= λ q'.
      add_button_at meshcats reset_to_default (pos 0) "" >> pure q')
        hub

  unfoldable pub read_sliders : Q → Action (VisualizerHub A D W Q X I) Done
  read_sliders q_before = do
    live ← need_draco
    clicked ← was_clicked reset_to_default
    q ← chosen_positions (slider_positions live.meshcat) clicked
    if joint_positions_changed q_before q then set_meshcat_positions meshcats q else pure tt

  unfoldable pub delete_if_shown : Bool → String → Action (VisualizerHub A D W Q X I) Done
  delete_if_shown false name = pure tt
  delete_if_shown true name = delete_button_named meshcats name

  -- Over whether the label changed and whether the button is shown.
  unfoldable pub show_stream_button :
      Bool → Bool → String → String → Action (VisualizerHub A D W Q X I) Done
  show_stream_button true shown current desired =
      delete_if_shown shown current
      >> set_stream_button desired
      >> add_button_at meshcats desired (pos 0) ""
  show_stream_button false false current desired = add_button_at meshcats current (pos 0) ""
  show_stream_button false true current desired = pure tt

  unfoldable pub swap_stream_button : String → Action (VisualizerHub A D W Q X I) Done
  swap_stream_button desired hub =
      let current = hub.position_stream_button_name in
      (has_button meshcats current >>= λ shown.
      show_stream_button (not (same_key desired current)) shown current desired)
        hub

  unfoldable pub apply_pending : Option Q → Action (VisualizerHub A D W Q X I) Done
  apply_pending none = pure tt
  apply_pending (some q) = set_meshcat_positions meshcats q

  -- `now` is the clock, `times` the snapshot of the pushes.
  unfoldable pub update_stream : ℕ → List (String × ℕ) → Action (VisualizerHub A D W Q X I) Done
  update_stream now times = do
    names ← shown_robots meshcats
    for_each names (λ robot. set_robot_stream_active meshcats robot (is_streaming now times robot))
    swap_stream_button (stream_label (count_streaming now times names) (length names))

  unfoldable pub read_pushes : ℕ → Action (VisualizerHub A D W Q X I) Done
  read_pushes now hub =
      (take_position >>= apply_pending >> update_stream now hub.robot_last_push_time) hub

  unfoldable pub run_tasks : Action (VisualizerHub A D W Q X I) Done
  run_tasks hub = for_each hub.meshcat_task_queue (λ task. show meshcats task >> pop_task) hub

  unfoldable pub indicator_updates : D → Q → List I → List (List (Command X))
  indicator_updates model q [] = []
  indicator_updates model q (i ∷ indicators) =
      indicator_commands model q i ∷ indicator_updates model q indicators

  unfoldable pub update_indicators : Q → List I → Action (VisualizerHub A D W Q X I) Done
  update_indicators q [] = pure tt
  update_indicators q (i ∷ indicators) = do
    live ← need_draco
    for_each (indicator_updates live.model q (i ∷ indicators)) (show meshcats)

  unfoldable pub update_joint_limits : Q → Action (VisualizerHub A D W Q X I) Done
  update_joint_limits q hub = update_indicators q hub.joint_limit_indicators hub

  unfoldable pub update_visuals : Bool → Q → Action (VisualizerHub A D W Q X I) Done
  update_visuals false q = pure tt
  update_visuals true q =
      when (λ o. o.show_joint_limits) (update_joint_limits q) >> update_frame_axes meshcats

  -- One pass of the loop of status `Active`.
  unfoldable pub tick : ℕ → Action (VisualizerHub A D W Q X I) Done
  tick now = do
    before ← need_draco
    read_export
    when (λ o. o.enable_sliders) (read_sliders (positions before.meshcat))
    when (λ o. o.enable_set_configuration) (read_pushes now)
    after ← need_draco
    run_tasks
    update_visuals (joint_positions_changed (positions before.meshcat) (positions after.meshcat))
        (positions after.meshcat)
    show meshcats (publish ∷ [])

  -- The loop, over the times at which its passes begin; it ends where a stop is requested.
  unfoldable pub active_loop : List ℕ → Action (VisualizerHub A D W Q X I) Done
  active_loop [] hub = pure tt hub
  active_loop (now ∷ times) hub =
      let rest = tick now >> active_loop times in
      (if is_stopping hub.status then pure tt else rest) hub

  -- One pass of the loop of `Run`.
  unfoldable pub round_at : VisualizerStatus → List ℕ → Action (VisualizerHub A D W Q X I) Done
  round_at idle times = pure tt
  round_at stopping times = stop_round
  round_at starting times = start_round meshcats
  round_at active times = active_loop times
  round_at no_status times = throw (runtime_error "Unknown status: None")

  unfoldable pub round : List ℕ → Action (VisualizerHub A D W Q X I) Done
  round times hub = round_at hub.status times hub
