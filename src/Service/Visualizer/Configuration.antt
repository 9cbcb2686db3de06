-- ===== src/Service/Visualizer/Configuration.antt =====
-- The positions that clients set and read (visualizer_hub.cc): a position waits in one slot until
-- the thread of `Run` takes it, and each robot has the time of its last push.
pub mod Pushes
use planning_service.Prelude.{
  ℕ, String, Bool, true, false, not, ◌||◌, ◌==◌, List, [], ◌∷◌, Option, none, some, text_key,
  if◌then◌else◌,
}
use text.Mathlib.Text.{starts_with, ◌==◌ as same_text}
use planning_service.Prelude.Format.{◌<>◌, decimal}
use planning_service.Prelude.Maps.{erase}
use planning_service.Service.Error.{returns}
use planning_service.Service.Action.{Action, Done, pure, ◌>>=◌, ◌>>◌}
use planning_service.Service.Visualizer.{
  VisualizerHub, Meshcats, Live, Command, set_opacity, need_draco, call, show,
}

-- `std::expected<bool, std::string>`, whose value is true always.
pub data Configured : Type 0 where
  accepted : Configured
  unexpected : String → Configured

-- `map[k] = v`
unfoldable pub assign {ℓ} : {V : Type ℓ} → String → V → List (String × V) → List (String × V)
assign k v m = (k, v) ∷ erase k m

unfoldable pub assign_all {ℓ} :
    {V : Type ℓ} → List String → V → List (String × V) → List (String × V)
assign_all [] v m = m
assign_all (k ∷ ks) v m = assign_all ks v (assign k v m)

abbrev pub wrong_size : ℕ → ℕ → String
wrong_size expected got =
    "Invalid configuration size: expected " <> decimal expected <> ", got " <> decimal got

-- The commands of `SetRobotStreamActive` over the names of the model instances.
unfoldable pub opacities {ℓ} : {X : Type ℓ} → Bool → String → Bool → List String → List (Command X)
opacities stream_opacity robot active [] = []
opacities stream_opacity robot active (model_name ∷ names) =
    let rest = opacities stream_opacity robot active names in
    if not (same_text model_name robot || starts_with model_name (robot <> "-"))
    then rest
    else if not stream_opacity
    then rest
    else set_opacity ("/drake/visual/" <> model_name) active ∷ rest

module _ {ℓ} {A D W Q X I : Type ℓ} where
  unfoldable pub set_pending : Q → Action (VisualizerHub A D W Q X I) Done
  set_pending q hub = (returns tt, record hub { pending_position = some q })

  unfoldable pub push_times : ℕ → List String → Action (VisualizerHub A D W Q X I) Done
  push_times now names hub = (
    returns tt,
    record hub { robot_last_push_time = assign_all names now hub.robot_last_push_time },
  )

module _ {ℓ} {A D W Q X C I : Type ℓ} (meshcats : Meshcats A D W Q X C I) where
  open meshcats use {
    positions, to_system_conf, complete, robots, num_positions, size, joint_positions_changed,
    scoped_frame, relative_transform, model_instances,
  }

  unfoldable pub set_robot_stream_active : String → Bool → Action (VisualizerHub A D W Q X I) Done
  set_robot_stream_active robot active hub =
      (need_draco >>= λ live.
      show meshcats
        (opacities hub.options.stream_opacity robot active (model_instances live.model)))
        hub

  -- Whether the slot takes the positions.
  unfoldable pub takes : Option Q → Q → Bool
  takes none q = true
  takes (some pending) q = joint_positions_changed pending q

  unfoldable pub push_position : Q → Action (VisualizerHub A D W Q X I) Done
  push_position q hub = (if takes hub.pending_position q then set_pending q else pure tt) hub

  -- The rest of `SetConfiguration` once there is a model.
  unfoldable pub push : ℕ → Q → Live D W → Action (VisualizerHub A D W Q X I) Configured
  push now q live =
      if not (size q == num_positions live.model)
      then pure (unexpected (wrong_size (num_positions live.model) (size q)))
      else (push_times now (robots (to_system_conf live.model q))
          >> push_position q
          >> pure accepted)

  -- `SetConfiguration` at positions; `now` is the clock.
  unfoldable pub set_positions_of : ℕ → Q → Action (VisualizerHub A D W Q X I) Configured
  set_positions_of now q hub =
      (if not hub.options.enable_set_configuration
          then pure (unexpected "Setting configuration is disabled!")
          else (need_draco >>= push now q))
        hub

  -- The positions of a system configuration, where robots that it leaves out stay where they are.
  unfoldable pub completed : Live D W → C → Action (VisualizerHub A D W Q X I) Q
  completed live conf =
      call (complete live.model conf (to_system_conf live.model (positions live.meshcat)))

  -- `SetConfiguration` at a system configuration.
  unfoldable pub set_configuration : ℕ → C → Action (VisualizerHub A D W Q X I) Configured
  set_configuration now conf = need_draco >>= λ live. completed live conf >>= set_positions_of now

  unfoldable pub positions_at : Live D W → Option C → Action (VisualizerHub A D W Q X I) Q
  positions_at live none = pure (positions live.meshcat)
  positions_at live (some conf) = completed live conf

  unfoldable pub calc_pose : String → String → Option C → Action (VisualizerHub A D W Q X I) X
  calc_pose frame_b_name frame_a_name system_conf_override = do
    live ← need_draco
    q ← positions_at live system_conf_override
    frame_a ← call (scoped_frame live.model frame_a_name)
    frame_b ← call (scoped_frame live.model frame_b_name)
    pure (relative_transform live.model q frame_a.index frame_b.index)
