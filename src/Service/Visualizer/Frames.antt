-- ===== src/Service/Visualizer/Frames.antt =====
-- The axes of the plant's frames in Meshcat (visualizer_hub.cc): which frames are registered, which
-- of them follow the robot, and the two ways to hide and show them.
pub mod Registered
pub mod Toggled
use planning_service.Prelude.{
  ℕ, ◌-◌, String, Bool, true, false, not, ◌||◌, List, [], ◌∷◌, Option, none, some, text_key, ltb,
  leb, if◌then◌else◌,
}
use Prim.Native.String.{len, find, slice, compare}
use Prim.Native.Nat.{Ordering}
use text.Mathlib.Text.{starts_with, ◌==◌}
use planning_service.Prelude.Format.{◌<>◌}
use planning_service.Prelude.Maps.{has_key, lookup}
use planning_service.Service.Error.{Outcome, returns}
use planning_service.Service.Action.{Action, Done, pure, ◌>>=◌, ◌>>◌, for_each}
use planning_service.Service.Visualizer.{
  VisualizerHub, VisualizerOptions, Meshcats, Live, Frame, FrameAxesInfo, Command, set_object,
  set_transform, set_visible, set_hidden, need_draco, call, show, queue_meshcat_task,
}

abbrev pub frame_path : String → String → String
frame_path model_name name = "/drake/frames/" <> model_name <> "/" <> name <> "/"

-- `std::any_of`
unfoldable pub any_of {ℓ} : {B : Type ℓ} → (B → Bool) → List B → Bool
any_of f [] = false
any_of f (b ∷ bs) = f b || any_of f bs

unfoldable pub matches_pattern : String → String → Bool
matches_pattern name pattern = leb (find name pattern) (len name)

unfoldable pub matches_suffix : String → String → Bool
matches_suffix name suffix =
    if ltb (len name) (len suffix)
    then false
    else (slice name (len name - len suffix) (len name) == suffix)

-- The frames that get no axes.
unfoldable pub is_skipped : VisualizerOptions → Frame → Bool
is_skipped options frame =
    frame.is_world_body
    || ((frame.model_name == "added_geometry") || (frame.name == "added_geometry"))
    || (any_of (matches_pattern frame.name) options.frame_name_ignore_patterns
        || any_of (starts_with frame.name) options.frame_name_ignore_prefixes
        || any_of (matches_suffix frame.name) options.frame_name_ignore_suffixes)

-- `emplace` of a `std::map` whose order the code reads.
pub place_by_key {ℓ} : {V : Type ℓ} → String → V → List (String × V) → List (String × V)
place_by_key k v [] = (k, v) ∷ []
place_by_key k v ((j, w) ∷ m) =
    let rest = place_by_key k v m in
    elim (compare k j) [ Ordering.lt ↦ (k, v) ∷ (j, w) ∷ m | _ ↦ (j, w) ∷ rest ]

unfoldable pub emplace_by_key {ℓ} :
    {V : Type ℓ} → String → V → List (String × V) → List (String × V)
emplace_by_key k v m = if has_key k m then m else place_by_key k v m

abbrev pub Axes : Type 0
Axes = List (String × FrameAxesInfo)

module _ {ℓ} {A D W Q X I : Type ℓ} where
  unfoldable pub set_frame_axes : Axes → Action (VisualizerHub A D W Q X I) Done
  set_frame_axes axes hub = (returns tt, record hub { frame_axes = axes })

-- `info.hidden_by_toggle = hidden` at one path.
unfoldable pub set_toggled : String → Bool → Axes → Axes
set_toggled path hidden [] = []
set_toggled path hidden ((p, info) ∷ axes) =
    let rest = set_toggled path hidden axes in
    (p, (if p == path then record info { hidden_by_toggle = hidden } else info)) ∷ rest

-- The assignments that `ToggleFramesByPath` makes in its loop.
unfoldable pub set_all_toggled : String → Bool → Axes → Axes
set_all_toggled prefix hidden [] = []
set_all_toggled prefix hidden ((p, info) ∷ axes) =
    let rest = set_all_toggled prefix hidden axes in
    (p, (if starts_with p prefix then record info { hidden_by_toggle = hidden } else info)) ∷ rest

module _ {ℓ} {A D W Q X C I : Type ℓ} (meshcats : Meshcats A D W Q X C I) where
  open meshcats use {
    frames, positions, relative_transform, world_frame, away, local_x, local_y, local_z,
    has_scoped_frame, scoped_frame,
  }

  -- `CalcRelativeTransform(q, world_frame, frame)` at the positions that Meshcat shows.
  unfoldable pub world_pose : Live D W → ℕ → X
  world_pose live index = relative_transform live.model (positions live.meshcat) world_frame index

  unfoldable pub axes_commands : Bool → String → X → List (Command X)
  axes_commands web path pose =
      set_object (path <> "x")
      ∷ set_transform (path <> "x") local_x
      ∷ set_object (path <> "y")
      ∷ set_transform (path <> "y") local_y
      ∷ set_object (path <> "z")
      ∷ set_transform (path <> "z") local_z
      ∷ set_transform path pose
      ∷ (if web then set_visible path false else set_transform path away)
      ∷ []

  -- The body of the loop of `SetupFrameAxes`.
  unfoldable pub register_frame : Live D W → Frame → Action (VisualizerHub A D W Q X I) Done
  register_frame live frame hub =
      let path = frame_path frame.model_name frame.name in
      let web = hub.options.enable_frame_toggle_web in
      let info : FrameAxesInfo = record {
        index = frame.index;
        is_static = frame.is_welded;
        hidden_by_toggle = not web;
      } in
      (if is_skipped hub.options frame
          then pure tt
          else (show meshcats (axes_commands web path (world_pose live frame.index))
              >> set_frame_axes (emplace_by_key path info hub.frame_axes)))
        hub

  unfoldable pub hide_tree : Action (VisualizerHub A D W Q X I) Done
  hide_tree hub =
      (if hub.options.enable_frame_toggle_web
          then pure tt
          else show meshcats (set_hidden "/drake/frames" true ∷ []))
        hub

  unfoldable pub setup_frame_axes : Action (VisualizerHub A D W Q X I) Done
  setup_frame_axes = do
    live ← need_draco
    set_frame_axes []
    for_each (frames live.model) (register_frame live)
    hide_tree

  -- The loop of `UpdateFrameAxes`.
  unfoldable pub moves : Live D W → Axes → List (Command X)
  moves live [] = []
  moves live ((path, info) ∷ axes) =
      let rest = moves live axes in
      if info.is_static
      then rest
      else if info.hidden_by_toggle
      then rest
      else set_transform path (world_pose live info.index) ∷ rest

  unfoldable pub move_all : Axes → Action (VisualizerHub A D W Q X I) Done
  move_all [] = pure tt
  move_all (axis ∷ axes) = do live ← need_draco; show meshcats (moves live (axis ∷ axes))

  unfoldable pub update_frame_axes : Action (VisualizerHub A D W Q X I) Done
  update_frame_axes hub = move_all hub.frame_axes hub

  -- Where a toggled frame goes.
  unfoldable pub toggled_pose : Live D W → Bool → ℕ → X
  toggled_pose live active index = if active then world_pose live index else away

  unfoldable pub toggled_poses : Live D W → String → Bool → Axes → List (String × X)
  toggled_poses live prefix active [] = []
  toggled_poses live prefix active ((p, info) ∷ axes) =
      let rest = toggled_poses live prefix active axes in
      if starts_with p prefix then (p, toggled_pose live active info.index) ∷ rest else rest

  unfoldable pub toggle_all :
      Option (Live D W) → String → Bool → Action (VisualizerHub A D W Q X I) (List (String × X))
  toggle_all none prefix active hub = pure [] hub
  toggle_all (some live) prefix active hub =
      (set_frame_axes (set_all_toggled prefix (not active) hub.frame_axes)
          >> pure (toggled_poses live prefix active hub.frame_axes))
        hub

  unfoldable pub toggle_frames_by_path :
      String → Bool → Action (VisualizerHub A D W Q X I) (List (String × X))
  toggle_frames_by_path path active hub = toggle_all hub.draco ("/drake/frames/" <> path) active hub

  -- What `ToggleFrame` does with a frame that is registered, over `enable_frame_toggle_web`.
  unfoldable pub toggle_registered :
      Bool → Live D W → String → Bool → FrameAxesInfo → Action (VisualizerHub A D W Q X I) Done
  toggle_registered true live path visible info hub =
      queue_meshcat_task (set_visible path visible ∷ []) hub
  toggle_registered false live path visible info hub =
      (set_frame_axes (set_toggled path (not visible) hub.frame_axes)
          >> queue_meshcat_task (set_transform path (toggled_pose live visible info.index) ∷ []))
        hub

  unfoldable pub toggle_found :
      Option (Live D W)
      → Option FrameAxesInfo
      → String
      → Bool
      → Action (VisualizerHub A D W Q X I) Bool
  toggle_found none found path visible hub = pure false hub
  toggle_found (some live) none path visible hub = pure false hub
  toggle_found (some live) (some info) path visible hub =
      (toggle_registered hub.options.enable_frame_toggle_web live path visible info >> pure true)
        hub

  unfoldable pub toggle_frame : String → Bool → Action (VisualizerHub A D W Q X I) Bool
  toggle_frame path visible hub =
      toggle_found hub.draco (lookup path hub.frame_axes) path visible hub

  unfoldable pub resolve_at :
      Option (Live D W) → String → Action (VisualizerHub A D W Q X I) (Option String)
  resolve_at none frame_name = pure none
  resolve_at (some live) frame_name =
      if has_scoped_frame live.model frame_name
      then (call (scoped_frame live.model frame_name) >>= λ frame.
          pure (some (frame_path frame.model_name frame.name)))
      else pure none

  unfoldable pub resolve_frame_meshcat_path :
      String → Action (VisualizerHub A D W Q X I) (Option String)
  unfolding resolve_at
  resolve_frame_meshcat_path frame_name hub = resolve_at hub.draco frame_name hub
