-- ===== src/Service/Visualizer/Alive/Rounds.antt =====
-- The rounds of `Run` keep the model, except for the one that stops it.
use planning_service.Prelude.{ℕ, String, Bool, true, false, List, [], ◌∷◌, Option, none, some}
use planning_service.Service.Visualizer.{VisualizerStatus, Meshcats}
use planning_service.Service.Visualizer.Setup.{
  set_default_positions, set_stream_button, set_indicators, set_meshcat_positions, setup_defaults,
  shown_robots, setup_streaming, setup_joint_limits, setup,
}
use planning_service.Service.Visualizer.Run.{
  take_position, pop_task, was_clicked, export_to_html, read_export, chosen_positions, read_sliders,
  swap_stream_button, delete_if_shown, show_stream_button, apply_pending, update_stream,
  read_pushes, run_tasks, update_indicators, update_joint_limits, update_visuals, tick, active_loop,
}
use planning_service.Service.Visualizer.Alive.{
  IsLive, Kept, bind, seq, test, each, done, call-Keeps, need-Keeps, when-Keeps, need_draco-Keeps,
  on_meshcat-Keeps, show-Keeps, has_button-Keeps, add_button_at-Keeps, delete_button_named-Keeps,
  setup_frame_axes-Keeps, update_frame_axes-Keeps, set_robot_stream_active-Keeps,
}

module _ {ℓ} {A D W Q X I : Type ℓ} (s : VisualizerStatus) where
  set_default_positions-Keeps :
      (q : Q) → Kept s (set_default_positions {A = A} {D = D} {W = W} {X = X} {I = I} q)
  unfolding set_default_positions IsLive
  set_default_positions-Keeps q hub h = h

  set_stream_button-Keeps :
      (name : String)
      → Kept s (set_stream_button {A = A} {D = D} {W = W} {Q = Q} {X = X} {I = I} name)
  unfolding set_stream_button IsLive
  set_stream_button-Keeps name hub h = h

  set_indicators-Keeps :
      (is : List I) → Kept s (set_indicators {A = A} {D = D} {W = W} {Q = Q} {X = X} is)
  unfolding set_indicators IsLive
  set_indicators-Keeps is hub h = h

  take_position-Keeps : Kept s (take_position {A = A} {D = D} {W = W} {Q = Q} {X = X} {I = I})
  unfolding take_position IsLive
  take_position-Keeps hub h = h

  pop_task-Keeps : Kept s (pop_task {A = A} {D = D} {W = W} {Q = Q} {X = X} {I = I})
  unfolding pop_task IsLive
  pop_task-Keeps hub h = h

module _ {ℓ} {A D W Q X C I : Type ℓ} (meshcats : Meshcats A D W Q X C I)
    (s : VisualizerStatus) where
  set_meshcat_positions-Keeps : (q : Q) → Kept s (set_meshcat_positions meshcats q)
  unfolding set_meshcat_positions
  set_meshcat_positions-Keeps q = on_meshcat-Keeps s _

  setup_defaults-Keeps : (conf : Option C) → Kept s (setup_defaults meshcats conf)
  unfolding setup_defaults
  setup_defaults-Keeps none = done s tt
  setup_defaults-Keeps (some conf) = bind s _ _ (need_draco-Keeps s) λ live.
      bind s _ _ (call-Keeps s _) λ q. seq s _ _ (set_default_positions-Keeps s q) (
        seq s _ _ (set_meshcat_positions-Keeps q)
          (when-Keeps s _ _ (add_button_at-Keeps meshcats s _ _ _)))

  shown_robots-Keeps : Kept s (shown_robots meshcats)
  unfolding shown_robots
  shown_robots-Keeps = bind s _ _ (need_draco-Keeps s) λ live. done s _

  setup_streaming-Keeps : Kept s (setup_streaming meshcats)
  unfolding setup_streaming
  setup_streaming-Keeps = seq s _ _ (set_stream_button-Keeps s _) (
      seq s _ _ (add_button_at-Keeps meshcats s _ _ _) (
        seq s _ _ (show-Keeps meshcats s _) (
          bind s _ _ shown_robots-Keeps
            λ names. each s names _ λ robot. set_robot_stream_active-Keeps meshcats s robot false)))

  setup_joint_limits-Keeps : Kept s (setup_joint_limits meshcats)
  unfolding setup_joint_limits
  setup_joint_limits-Keeps = bind s _ _ (need_draco-Keeps s) λ live. set_indicators-Keeps s _

  pub setup-Keeps : Kept s (setup meshcats)
  unfolding setup
  setup-Keeps hub =
      seq s _ _
        (seq s _ _
          (seq s _ _
            (seq s _ _
              (seq s _ _
                (seq s _ _ (when-Keeps s _ _ (show-Keeps meshcats s _))
                  (bind s _ _ (need-Keeps s _) λ adapter. setup_defaults-Keeps _))
                (when-Keeps s _ _ setup_streaming-Keeps))
              (when-Keeps s _ _ setup_joint_limits-Keeps))
            (setup_frame_axes-Keeps meshcats s))
          (when-Keeps s _ _ (show-Keeps meshcats s _)))
        (done s true) hub

  was_clicked-Keeps : (name : String) → Kept s (was_clicked meshcats name)
  unfolding was_clicked
  was_clicked-Keeps name =
      bind s _ _ (has_button-Keeps meshcats s name)
        λ shown. bind s _ _ (need_draco-Keeps s) λ live. done s _

  export_to_html-Keeps : Kept s (export_to_html meshcats)
  unfolding export_to_html
  export_to_html-Keeps = bind s _ _ (need_draco-Keeps s) λ live. bind s _ _ (call-Keeps s _) λ path.
      seq s _ _ (delete_button_named-Keeps meshcats s _)
        (seq s _ _ (add_button_at-Keeps meshcats s _ _ _) (done s path))

  read_export-Keeps : Kept s (read_export meshcats)
  unfolding read_export
  read_export-Keeps =
      bind s _ _ (was_clicked-Keeps _)
        λ clicked. test s clicked _ _ (seq s _ _ export_to_html-Keeps (done s tt)) (done s tt)

  chosen_positions-Keeps : (q : Q) (clicked : Bool) → Kept s (chosen_positions meshcats q clicked)
  unfolding chosen_positions
  chosen_positions-Keeps q false hub = done s q hub
  chosen_positions-Keeps q true hub =
      bind s _ _ (need-Keeps s _)
        (λ q'. seq s _ _ (add_button_at-Keeps meshcats s _ _ _) (done s q')) hub

  read_sliders-Keeps : (q : Q) → Kept s (read_sliders meshcats q)
  unfolding read_sliders
  read_sliders-Keeps q = bind s _ _ (need_draco-Keeps s) λ live.
      bind s _ _ (was_clicked-Keeps _) λ clicked.
        bind s _ _ (chosen_positions-Keeps _ clicked)
          λ q'. test s _ _ _ (set_meshcat_positions-Keeps q') (done s tt)

  delete_if_shown-Keeps :
      (shown : Bool) (name : String) → Kept s (delete_if_shown meshcats shown name)
  unfolding delete_if_shown
  delete_if_shown-Keeps false name = done s tt
  delete_if_shown-Keeps true name = delete_button_named-Keeps meshcats s name

  show_stream_button-Keeps :
      (changed shown : Bool) (current desired : String)
      → Kept s (show_stream_button meshcats changed shown current desired)
  unfolding show_stream_button
  show_stream_button-Keeps true shown current desired =
      seq s _ _
        (seq s _ _ (delete_if_shown-Keeps shown current) (set_stream_button-Keeps s desired))
        (add_button_at-Keeps meshcats s _ _ _)
  show_stream_button-Keeps false false current desired = add_button_at-Keeps meshcats s _ _ _
  show_stream_button-Keeps false true current desired = done s tt

  swap_stream_button-Keeps : (name : String) → Kept s (swap_stream_button meshcats name)
  unfolding swap_stream_button
  swap_stream_button-Keeps name hub =
      bind s _ _ (has_button-Keeps meshcats s _) (λ shown. show_stream_button-Keeps _ shown _ name)
        hub

  apply_pending-Keeps : (o : Option Q) → Kept s (apply_pending meshcats o)
  unfolding apply_pending
  apply_pending-Keeps none = done s tt
  apply_pending-Keeps (some q) = set_meshcat_positions-Keeps q

  update_stream-Keeps :
      (now : ℕ) (times : List (String × ℕ)) → Kept s (update_stream meshcats now times)
  unfolding update_stream
  update_stream-Keeps now times = bind s _ _ shown_robots-Keeps λ names.
      seq s _ _ (each s names _ λ robot. set_robot_stream_active-Keeps meshcats s robot _)
        (swap_stream_button-Keeps _)

  read_pushes-Keeps : (now : ℕ) → Kept s (read_pushes meshcats now)
  unfolding read_pushes
  read_pushes-Keeps now hub =
      seq s _ _ (bind s _ _ (take_position-Keeps s) apply_pending-Keeps) (update_stream-Keeps now _)
        hub

  run_tasks-Keeps : Kept s (run_tasks meshcats)
  unfolding run_tasks
  run_tasks-Keeps hub =
      each s hub.meshcat_task_queue _
        (λ task. seq s _ _ (show-Keeps meshcats s task) (pop_task-Keeps s)) hub

  update_indicators-Keeps : (q : Q) (is : List I) → Kept s (update_indicators meshcats q is)
  unfolding update_indicators
  update_indicators-Keeps q [] = done s tt
  update_indicators-Keeps q (i ∷ is) =
      bind s _ _ (need_draco-Keeps s) λ live. each s _ _ (show-Keeps meshcats s)

  update_visuals-Keeps : (b : Bool) (q : Q) → Kept s (update_visuals meshcats b q)
  unfolding update_visuals update_joint_limits
  update_visuals-Keeps false q = done s tt
  update_visuals-Keeps true q =
      seq s _ _ (when-Keeps s _ _ λ hub. update_indicators-Keeps q hub.joint_limit_indicators hub)
        (update_frame_axes-Keeps meshcats s)

  pub tick-Keeps : (now : ℕ) → Kept s (tick meshcats now)
  unfolding tick
  tick-Keeps now = bind s _ _ (need_draco-Keeps s) λ before. seq s _ _ read_export-Keeps (
      seq s _ _ (when-Keeps s _ _ (read_sliders-Keeps _)) (
        seq s _ _ (when-Keeps s _ _ (read_pushes-Keeps now)) (
          bind s _ _ (need_draco-Keeps s) λ after.
            seq s _ _ run_tasks-Keeps
              (seq s _ _ (update_visuals-Keeps _ _) (show-Keeps meshcats s _)))))

  pub active_loop-Keeps : (times : List ℕ) → Kept s (active_loop meshcats times)
  unfolding active_loop
  active_loop-Keeps [] hub = done s tt hub
  active_loop-Keeps (now ∷ times) hub =
      test s _ _ _ (done s tt) (seq s _ _ (tick-Keeps now) (active_loop-Keeps times)) hub
