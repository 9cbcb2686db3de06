-- ===== src/Comms/Viz.antt =====
-- planning_service/comms/viz_service.cc: the handlers of the visualizer service over a hub. The
-- conversions of the messages, whose types are generated, and of the shapes are parameters; the
-- streams of configurations are in `Comms.Streaming`.
pub mod Start
pub mod Paths
pub mod Objects
pub mod Shown
pub mod Started
pub mod Examples
use planning_service.Prelude.{
  ℕ, ◌-◌, String, Bool, true, false, not, ◌||◌, if◌then◌else◌, List, [], ◌∷◌, Option, none, some,
  text_key,
}
use planning_service.Prelude.Format.{◌<>◌}
use planning_service.Prelude.Maps.{lookup, store, erase}
use planning_service.Service.Error.{Outcome, returns, throws, Exception, runtime_error, what}
use planning_service.Service.Action.{Action, Done, pure, throw, ◌>>=◌, ◌>>◌, try_catch}
use planning_service.Service.Visualizer.{
  VisualizerHub, VisualizerStatus, VisualizerOptions, MeshcatParams, Meshcats, Command, starting,
  stopping, no_status, idle, active, call, set_visualizer_options, request_stop, queue_meshcat_task,
  clear_streaming_state, set_object, set_transform, delete_path, move_existing,
}
use planning_service.Service.Visualizer.Frames.{
  toggle_frame, toggle_frames_by_path, resolve_frame_meshcat_path,
}
use planning_service.Service.Visualizer.Configuration.{
  Configured, set_positions_of, set_configuration, calc_pose,
}
use planning_service.Service.Visualizer.Loading.{
  ModelFiles, VisualizerData, load_and_set_model_data,
}
use planning_service.Comms.Status.{
  Status, status_ok, failed, resource_exhausted, invalid_argument, permission_denied, unimplemented,
}
use text.Mathlib.Text.{starts_with, find?, ◌==◌ as same_text}
use Prim.Native.String

-- The handlers' own state beside the hub: the transforms that `SetObject` records.
pub record VizService {ℓ} (A D W Q X I : Type ℓ) : Type ℓ where
  pub hub : VisualizerHub A D W Q X I
  pub object_transforms : List (String × X)

pub record StartVisualizerRequest : Type 0 where
  pub enable_sliders : Bool
  pub show_iris_regions : Bool
  pub show_prm : Bool
  pub meshcat_params : Option MeshcatParams
  pub dmd_filename : String
  pub context_id : ℕ
  pub force_reload : Bool

-- The message, with how Drake's constructors end on its parts: a shape, where it has one, the rigid
-- transform of the shape in its frame, and a colour.
pub record SetObjectRequest {ℓ} (X : Type ℓ) : Type ℓ where
  pub path : String
  pub frame : String
  pub pose : Outcome X
  pub shape : Option (Outcome Done)
  pub color : Outcome Done

-- `conf`, or else `system_conf`, where the message has them.
pub record SetConfigurationRequest {ℓ} (Q C : Type ℓ) : Type ℓ where
  pub conf : Option Q
  pub system_conf : Option C

-- `s.ends_with(t)`
unfoldable pub ends_with : String → String → Bool
ends_with s t = same_text (String.slice s (String.len s - String.len t) (String.len s)) t

-- `s.substr(prefix.size())` where `s` starts with `prefix`, and `s` otherwise.
unfoldable pub without_prefix : String → String → String
without_prefix prefix s =
    if starts_with s prefix then String.slice s (String.len prefix) (String.len s) else s

-- The paths of collision and visual elements.
unfoldable pub is_protected : String → Bool
is_protected path = starts_with path "collision/" || starts_with path "visual/"

unfoldable pub object_path : String → String
object_path path = if starts_with path "objects/" then path else "objects/" <> path

-- `s.find('/') != npos`
unfoldable pub has_slash : String → Bool
has_slash s = elim (find? s "/") [ none ↦ false | some i ↦ true ]

unfoldable pub with_slash : String → String
unfolding ends_with
with_slash path = if ends_with path "/" then path else path <> "/"

abbrev pub refused : String → Status
refused message = record { code = permission_denied; message = message }

abbrev pub invalid : String → Status
invalid message = record { code = invalid_argument; message = message }

abbrev pub set_refusal : String → String
set_refusal path =
    "SetObject: Refusing to set path: " <> path
    <> ". Modification of collision or visual elements is not allowed for safety reasons. To toggle visibility, use ToggleObject RPC."

-- `ShapeInFrame::FromProtoImpl` on a message without a shape.
abbrev pub no_shape : Exception
no_shape = runtime_error "ShapeInFrame::FromProtoImpl: Shape not set in proto message!"

abbrev pub delete_refusal : String → String
delete_refusal path =
    "DeleteObject: Refusing to delete path: " <> path
    <> ". Deletion of collision or visual elements is not allowed for safety reasons. To toggle visibility, use ToggleObject RPC."

module _ {ℓ} {A D W Q X I : Type ℓ} where
  unfoldable pub on_hub {κ} :
      {B : Type κ} → Action (VisualizerHub A D W Q X I) B → Action (VizService A D W Q X I) B
  on_hub m s = let (o, hub) = m s.hub in (o, record s { hub = hub })

  -- `object_transforms_[path] = pose`, and `object_transforms_.erase(path)`
  unfoldable pub remember : String → X → Action (VizService A D W Q X I) Done
  remember path pose s =
      (returns tt, record s { object_transforms = store path pose s.object_transforms })

  unfoldable pub forget : String → Action (VizService A D W Q X I) Done
  forget path s = (returns tt, record s { object_transforms = erase path s.object_transforms })

  unfoldable pub queue : List (Command X) → Action (VizService A D W Q X I) Done
  unfolding on_hub
  queue task = on_hub (queue_meshcat_task task)

  unfoldable pub stop_visualizer :
      (VisualizerStatus → Action (VisualizerHub A D W Q X I) Done)
      → Action (VizService A D W Q X I) Status
  stop_visualizer wait_on_status =
      on_hub request_stop >> on_hub (wait_on_status stopping) >> pure status_ok

  unfoldable pub display_trajectory : Action (VizService A D W Q X I) Status
  display_trajectory =
      pure (record { code = unimplemented; message = "DisplayTrajectory is not implemented yet!" })

  -- `DeleteObject`
  unfoldable pub delete_at : String → Action (VizService A D W Q X I) Status
  unfolding is_protected object_path
  delete_at path =
      if is_protected path
      then pure (refused (delete_refusal path))
      else if same_text path ""
      then pure (invalid "DeleteObject: Cannot delete an empty path")
      else (forget (object_path path)
          >> queue (delete_path (object_path path) ∷ [])
          >> pure status_ok)

  unfoldable pub delete_object : String → Action (VizService A D W Q X I) Status
  unfolding without_prefix
  delete_object path = delete_at (without_prefix "/drake/" path)

module _ {ℓ} {A D W Q X C I : Type ℓ} (meshcats : Meshcats A D W Q X C I) where
  -- With the product of transforms.
  module _ (compose : X → X → X) where
    unfoldable pub world_if_empty : String → String
    world_if_empty frame = if same_text frame "" then "world" else frame

    -- The part of `SetObject` that follows the making of the shape.
    unfoldable pub place_object :
        String → SetObjectRequest X → Action (VizService A D W Q X I) Status
    unfolding world_if_empty
    place_object path request =
        try_catch
          (do
            X_frame_object ← call request.pose
            drake_color ← call request.color
            X_WF ← on_hub (calc_pose meshcats (world_if_empty request.frame) "world" none)
            let X_WO = compose X_WF X_frame_object
            remember path X_WO
            queue (set_object path ∷ set_transform path X_WO ∷ [])
            pure status_ok)
          (λ e. pure (failed ("SetObject: Failed to set object in Meshcat: " <> what e)))

    unfoldable pub build_object :
        Outcome Done → String → SetObjectRequest X → Action (VizService A D W Q X I) Status
    build_object (returns tt) path request = place_object path request
    build_object (throws e) path request =
        pure (invalid ("SetObject: Failed to build shape: " <> what e))

    -- The conversion of the message, which is not under a `try`, comes first.
    unfoldable pub convert_object :
        Option (Outcome Done) → String → SetObjectRequest X → Action (VizService A D W Q X I) Status
    convert_object none path request = throw no_shape
    convert_object (some shape) path request = build_object shape path request

    unfoldable pub set_object_at :
        String → SetObjectRequest X → Action (VizService A D W Q X I) Status
    unfolding is_protected object_path
    set_object_at path request =
        if is_protected path
        then pure (refused (set_refusal path))
        else convert_object request.shape (object_path path) request

    unfoldable pub handle_set_object : SetObjectRequest X → Action (VizService A D W Q X I) Status
    unfolding without_prefix
    handle_set_object request = set_object_at (without_prefix "/drake/" request.path) request

  -- With the identity and the place far below the scene.
  module _ (identity hidden : X) where
    -- `ToggleObject` on the objects that `SetObject` places.
    unfoldable pub toggle_placed : String → Bool → Option X → Action (VizService A D W Q X I) Done
    toggle_placed path false stored = queue (move_existing path hidden ∷ [])
    toggle_placed path true (some pose) = queue (move_existing path pose ∷ [])
    toggle_placed path true none = pure tt

    unfoldable pub shown_at : Bool → X
    shown_at visible = if visible then identity else hidden

    unfoldable pub toggle_geometry : String → Bool → Action (VizService A D W Q X I) Done
    unfolding is_protected shown_at
    toggle_geometry path visible =
        if is_protected path
        then queue (move_existing path (shown_at visible) ∷ [])
        else (queue (move_existing ("collision/" <> path) (shown_at visible) ∷ [])
            >> queue (move_existing ("visual/" <> path) (shown_at visible) ∷ []))

    unfoldable pub frame_moves : List (String × X) → List (Command X)
    frame_moves [] = []
    frame_moves ((p, pose) ∷ updates) = set_transform p pose ∷ frame_moves updates

    unfoldable pub queue_updates : List (String × X) → Action (VizService A D W Q X I) Done
    unfolding frame_moves
    queue_updates [] = pure tt
    queue_updates (update ∷ updates) = queue (frame_moves (update ∷ updates))

    unfoldable pub toggle_axes : String → Bool → Action (VizService A D W Q X I) Done
    unfolding without_prefix queue_updates
    toggle_axes path visible =
        if starts_with path "collision/"
        then pure tt
        else (on_hub (toggle_frames_by_path meshcats (without_prefix "visual/" path) visible)
            >>= queue_updates)

    unfoldable pub toggle_object_at : String → Bool → Action (VizService A D W Q X I) Status
    unfolding toggle_placed toggle_geometry toggle_axes
    toggle_object_at path visible s =
        (if starts_with path "objects/"
            then (toggle_placed path visible (lookup path s.object_transforms) >> pure status_ok)
            else (toggle_geometry path visible >> toggle_axes path visible >> pure status_ok))
          s

    unfoldable pub handle_toggle_object : String → Bool → Action (VizService A D W Q X I) Status
    unfolding without_prefix
    handle_toggle_object path visible = toggle_object_at (without_prefix "/drake/" path) visible

  -- `ResolveToggleFramePath`
  unfoldable pub slashed : Option String → Option String
  unfolding with_slash
  slashed none = none
  slashed (some path) = some (with_slash path)

  unfoldable pub resolve_toggle_frame_path :
      String → Action (VizService A D W Q X I) (Option String)
  unfolding slashed
  resolve_toggle_frame_path frame =
      if starts_with frame "/"
      then pure (if starts_with frame "/drake/frames/" then slashed (some frame) else none)
      else if has_slash frame
      then pure (
          slashed (
            some (
              if starts_with frame "frames/"
              then "/drake/" <> frame
              else "/drake/frames/" <> frame)))
      else (on_hub (resolve_frame_meshcat_path meshcats frame) >>= λ found. pure (slashed found))

  unfoldable pub toggle_resolved :
      String → Option String → Bool → Action (VizService A D W Q X I) Status
  toggle_resolved frame none visible =
      pure (invalid ("ToggleFrame: Could not resolve frame '" <> frame <> "'"))
  toggle_resolved frame (some path) visible =
      on_hub (toggle_frame meshcats path visible) >> pure status_ok

  unfoldable pub handle_toggle_frame : String → Bool → Action (VizService A D W Q X I) Status
  unfolding resolve_toggle_frame_path
  handle_toggle_frame frame visible =
      if same_text frame ""
      then pure (invalid "ToggleFrame: Frame name cannot be empty")
      else (resolve_toggle_frame_path frame >>= λ path. toggle_resolved frame path visible)

  -- `CalcPose`, with the pose that goes into the response.
  unfoldable pub handle_calc_pose :
      String → String → Option C → Action (VizService A D W Q X I) (Status × Option X)
  handle_calc_pose frame_a frame_b system_conf_override =
      try_catch
        (do
          let a = if same_text frame_a "" then "world" else frame_a
          let b = if same_text frame_b "" then "world" else frame_b
          X_AB ← on_hub (calc_pose meshcats b a system_conf_override)
          pure (status_ok, some X_AB))
        (λ e. pure (failed ("Failed to compute pose due to error! Exception: " <> what e), none))
