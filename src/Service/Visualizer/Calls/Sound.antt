-- ===== src/Service/Visualizer/Calls/Sound.antt =====
-- Every call keeps a hub sound.
use planning_service.Prelude.{
  ℕ, String, Bool, true, false, not, if◌then◌else◌, List, [], ◌∷◌, Option, none, some, ◌≡◌, refl,
  arith, ap, ◌∙◌,
}
use planning_service.Service.Error.{Outcome, returns, throws}
use planning_service.Service.Action.{Action, pure, resume, ◌>>=◌, ◌>>◌}
use planning_service.Service.Action.Keeps.{
  Keeps, bind-Keeps, then-Keeps, pure-Keeps, throw-Keeps, if-Keeps, try_catch-Keeps,
}
use planning_service.Service.Visualizer.{
  VisualizerHub, VisualizerStatus, VisualizerOptions, idle, starting, active, stopping, no_status,
  Meshcats, Live, Command, FrameAxesInfo, need_draco, set_status, request_stop,
  set_visualizer_options, queue_meshcat_task, clear_streaming_state,
}
use planning_service.Service.Visualizer.Frames.{
  toggle_frame, toggle_registered, toggle_frames_by_path, toggle_all, set_all_toggled, set_toggled,
  toggle_found, set_frame_axes, Axes,
}
use planning_service.Service.Visualizer.Configuration.{
  set_positions_of, set_configuration, completed, push, push_times, push_position, set_pending,
}
use planning_service.Service.Visualizer.Loading.{
  ModelFiles, VisualizerData, fresh, set_adapter, set_model_data, load_model, load_at,
  load_and_set_model_data,
}
use planning_service.Service.Visualizer.Loading.Answers.{call-Keeps, need-Keeps, find_adapter-Keeps}
use planning_service.Service.Visualizer.Setup.{
  setup, stop_round, stop_with, reset_model, start_round, start_model, set_model,
}
use planning_service.Service.Visualizer.Run.{round, round_at, active_loop}
use planning_service.Service.Visualizer.Alive.{has_model, IsLive}
use planning_service.Service.Visualizer.Alive.Rounds.{setup-Keeps, active_loop-Keeps}
use planning_service.Service.Visualizer.Calls.{
  Call, load, stop, clear, configure, queue, set_positions, set_conf, toggle, toggle_path,
  run_round, IsSound, perform, perform_all,
}

module _ {ℓ} {A D W Q X I : Type ℓ} where
  abbrev Sound {κ} : {B : Type κ} → Action (VisualizerHub A D W Q X I) B → Type ℓ
  Sound m = Keeps IsSound m

  abbrev HasModel : VisualizerHub A D W Q X I → Type 0
  HasModel hub = has_model hub.draco ≡ true

  HasModel-IsSound : (hub : VisualizerHub A D W Q X I) → HasModel hub → IsSound hub
  unfolding IsSound
  HasModel-IsSound hub h = ground arith

  active_if-HasModel :
      (success : Bool) → Keeps HasModel (if success then set_status active else pure tt)
  unfolding set_status pure
  active_if-HasModel true hub h = h
  active_if-HasModel false hub h = h

  set_status-Keeps : (s : VisualizerStatus) → (s ≡ active → ⊥) → Sound (set_status s)
  unfolding set_status IsSound
  set_status-Keeps s n hub h = ((λ e. absurd (n e)), h.1)

  stop_with-Keeps : (o : Option (Live D W)) → Sound (stop_with o)
  unfolding stop_with set_status reset_model IsSound ◌>>◌ resume
  stop_with-Keeps none hub h = ((λ e. ground arith), h.1)
  stop_with-Keeps (some live) hub h = ((λ e. ground arith), (λ e. (refl, refl, refl)))

  set_adapter-Keeps : (a : A) → Sound (set_adapter a)
  unfolding set_adapter IsSound
  set_adapter-Keeps a hub h = h

  push_times-Keeps : (now : ℕ) (names : List String) → Sound (push_times now names)
  unfolding push_times IsSound
  push_times-Keeps now names hub h = h

  set_frame_axes-Keeps :
      (f : Axes → Axes) → f [] ≡ [] → Sound (λ hub. set_frame_axes (f hub.frame_axes) hub)
  unfolding set_frame_axes IsSound
  set_frame_axes-Keeps f e hub h = (h.0, λ nd. let (d, i, axes) = h.1 nd in (d, i, ap f axes ∙ e))

  set_pending-Keeps : (q : Q) → Sound (set_pending q)
  unfolding set_pending IsSound
  set_pending-Keeps q hub h = h

  queue_meshcat_task-Keeps : (task : List (Command X)) → Sound (queue_meshcat_task task)
  unfolding queue_meshcat_task IsSound
  queue_meshcat_task-Keeps task hub h = h

  set_visualizer_options-Keeps : (o : VisualizerOptions) → Sound (set_visualizer_options o)
  unfolding set_visualizer_options IsSound
  set_visualizer_options-Keeps o hub h = h

  clear_streaming_state-Keeps : Sound clear_streaming_state
  unfolding clear_streaming_state IsSound
  clear_streaming_state-Keeps hub h = h

  need_draco-Keeps : Sound need_draco
  unfolding need_draco
  need_draco-Keeps hub h = h

module _ {ℓ} {A P D W Q X C I : Type ℓ} (meshcats : Meshcats A D W Q X C I)
    (files : ModelFiles A P) where
  push-Keeps : (now : ℕ) (q : Q) (live : Live D W) → Sound (push meshcats now q live)
  unfolding push push_position
  push-Keeps now q live = if-Keeps IsSound _ _ _ (pure-Keeps IsSound _) (
      then-Keeps IsSound _ _
        (then-Keeps IsSound _ _ (push_times-Keeps now _)
          λ hub. if-Keeps IsSound _ _ _ (set_pending-Keeps q) (pure-Keeps IsSound tt) hub)
        (pure-Keeps IsSound _))

  set_positions_of-Keeps : (now : ℕ) (q : Q) → Sound (set_positions_of meshcats now q)
  unfolding set_positions_of
  set_positions_of-Keeps now q hub =
      if-Keeps IsSound _ _ _ (pure-Keeps IsSound _)
        (bind-Keeps IsSound _ _ need_draco-Keeps (push-Keeps now q)) hub

  set_configuration-Keeps : (now : ℕ) (conf : C) → Sound (set_configuration meshcats now conf)
  unfolding set_configuration completed
  set_configuration-Keeps now conf =
      bind-Keeps IsSound _ _ need_draco-Keeps
        λ live. bind-Keeps IsSound _ _ (call-Keeps IsSound _) (set_positions_of-Keeps now)

  toggle_all-Keeps :
      (o : Option (Live D W)) (prefix : String) (b : Bool) → Sound (toggle_all meshcats o prefix b)
  unfolding toggle_all set_all_toggled set_frame_axes ◌>>◌ resume pure
  toggle_all-Keeps none prefix b hub h = h
  toggle_all-Keeps (some live) prefix b hub h =
      set_frame_axes-Keeps (set_all_toggled prefix (not b)) refl hub h

  toggle_registered-Keeps :
      (web : Bool) (live : Live D W) (path : String) (b : Bool) (info : FrameAxesInfo)
      → Sound (toggle_registered meshcats web live path b info)
  unfolding toggle_registered set_toggled set_frame_axes ◌>>◌ resume pure
  toggle_registered-Keeps true live path b info hub h = queue_meshcat_task-Keeps _ hub h
  toggle_registered-Keeps false live path b info hub h =
      queue_meshcat_task-Keeps _ _ (set_frame_axes-Keeps (set_toggled path (not b)) refl hub h)

  toggle_found-Keeps :
      (o : Option (Live D W)) (found : Option FrameAxesInfo) (path : String) (b : Bool)
      → Sound (toggle_found meshcats o found path b)
  unfolding toggle_found
  toggle_found-Keeps none found path b hub = pure-Keeps IsSound false hub
  toggle_found-Keeps (some live) none path b hub = pure-Keeps IsSound false hub
  toggle_found-Keeps (some live) (some info) path b hub =
      then-Keeps IsSound _ _ (toggle_registered-Keeps _ live path b info) (pure-Keeps IsSound true)
        hub

  set_model_data-Keeps :
      (d : VisualizerData) (o : Option A)
      → Sound (set_model_data {D = D} {W = W} {Q = Q} {X = X} {I = I} files d o)
  unfolding set_model_data
  set_model_data-Keeps d none hub = pure-Keeps IsSound false hub
  set_model_data-Keeps d (some adapter) hub =
      then-Keeps IsSound _ _
        (then-Keeps IsSound _ _ (set_adapter-Keeps _) (set_status-Keeps starting λ e. ground arith))
        (pure-Keeps IsSound true) hub

  load_model-Keeps :
      (d : VisualizerData) → Sound (load_model {D = D} {W = W} {Q = Q} {X = X} {I = I} files d)
  unfolding load_model
  load_model-Keeps d =
      try_catch-Keeps IsSound _ _
        (bind-Keeps IsSound _ _ (find_adapter-Keeps files IsSound d) (set_model_data-Keeps d))
        (λ e. pure-Keeps IsSound false)

  load_at-Keeps :
      (is_active default_init force : Bool) (d : VisualizerData)
      → Sound (load_at {D = D} {W = W} {Q = Q} {X = X} {I = I} files is_active default_init force d)
  unfolding load_at stop_round
  load_at-Keeps true true force d = pure-Keeps IsSound false
  load_at-Keeps true false false d = pure-Keeps IsSound false
  load_at-Keeps true false true d =
      then-Keeps IsSound _ _
        (then-Keeps IsSound _ _ (set_status-Keeps stopping λ e. ground arith)
          (λ hub. stop_with-Keeps hub.draco hub))
        (load_model-Keeps d)
  load_at-Keeps false default_init force d = load_model-Keeps d

  -- A start: with a model there, it stays.
  setup-HasModel : Keeps HasModel (setup meshcats)
  unfolding IsLive
  setup-HasModel hub h = (setup-Keeps meshcats hub.status hub (h, refl)).0

  start_model-Keeps : (o : Outcome (Live D W)) → Sound (start_model meshcats o)
  unfolding start_model set_model ◌>>=◌ ◌>>◌ resume
  start_model-Keeps (throws e) hub h = set_status-Keeps idle (λ e'. ground arith) hub h
  start_model-Keeps (returns live) hub h = HasModel-IsSound _ (
      bind-Keeps HasModel (setup meshcats) _ setup-HasModel active_if-HasModel
        (set_model live hub).1 refl)

  round_at-Keeps :
      (s : VisualizerStatus) (times : List ℕ) (hub : VisualizerHub A D W Q X I)
      → hub.status ≡ s
      → IsSound hub
      → IsSound (round_at meshcats s times hub).1
  unfolding round_at stop_round start_round IsSound IsLive
  round_at-Keeps idle times hub e h = pure-Keeps IsSound tt hub h
  round_at-Keeps starting times hub e h =
      bind-Keeps IsSound _ _ (need-Keeps IsSound _) (λ adapter. start_model-Keeps _) hub h
  round_at-Keeps stopping times hub e h = stop_with-Keeps hub.draco hub h
  round_at-Keeps active times hub e h =
      HasModel-IsSound (active_loop meshcats times hub).1
        (active_loop-Keeps meshcats active times hub (h.0 e, e)).0
  round_at-Keeps no_status times hub e h = throw-Keeps _ IsSound _ hub h

  pub perform-IsSound :
      (c : Call Q X C) (hub : VisualizerHub A D W Q X I)
      → IsSound hub
      → IsSound (perform meshcats files c hub)
  unfolding perform load_and_set_model_data toggle_frame toggle_frames_by_path round request_stop
  perform-IsSound (load d force) hub = load_at-Keeps _ _ force d hub
  perform-IsSound stop hub = set_status-Keeps stopping (λ e. ground arith) hub
  perform-IsSound clear hub = clear_streaming_state-Keeps hub
  perform-IsSound (configure options) hub = set_visualizer_options-Keeps options hub
  perform-IsSound (queue task) hub = queue_meshcat_task-Keeps task hub
  perform-IsSound (set_positions now q) hub = set_positions_of-Keeps now q hub
  perform-IsSound (set_conf now conf) hub = set_configuration-Keeps now conf hub
  perform-IsSound (toggle path visible) hub = toggle_found-Keeps _ _ path visible hub
  perform-IsSound (toggle_path path visible) hub = toggle_all-Keeps _ _ visible hub
  perform-IsSound (run_round times) hub = round_at-Keeps _ times hub refl

  perform_all-keeps :
      (calls : List (Call Q X C)) (hub : VisualizerHub A D W Q X I)
      → IsSound hub
      → IsSound (perform_all meshcats files calls hub)
  unfolding perform_all
  perform_all-keeps [] hub h = h
  perform_all-keeps (c ∷ calls) hub h = perform_all-keeps calls _ (perform-IsSound c hub h)

  -- After any calls on a new hub, in any order and whatever they answer, an active hub has a model,
  -- and a hub without a model has no default positions, joint limit indicators or frames.
  pub perform_all-IsSound :
      (options : VisualizerOptions) (calls : List (Call Q X C))
      → IsSound (perform_all meshcats files calls (fresh options))
  unfolding IsSound
  perform_all-IsSound options calls =
      perform_all-keeps calls (fresh options) ((λ e. ground arith), (λ e. (refl, refl, refl)))
