-- ===== src/Service/Visualizer/Frames/Toggled.antt =====
-- A frame that is toggled off stays where it is hidden: `UpdateFrameAxes` moves it again only after it
-- is toggled on.
use planning_service.Prelude.{
  String, Bool, true, false, not, List, [], ◌∷◌, ◌++◌, Option, none, some, ◌≡◌, refl, arith,
  text_key, same_key, same_key_iff, if◌then◌else◌, ◌∙◌,
}
use planning_service.Prelude.Maps.{has_key, lookup, Distinct, lookup_none}
use text.Mathlib.Text.{starts_with}
use planning_service.Prelude.Format.{◌<>◌}
use planning_service.Service.Error.{returns}
use planning_service.Service.Action.{pure, resume, ◌>>◌}
use planning_service.Service.Visualizer.{
  VisualizerHub, Meshcats, Live, FrameAxesInfo, Command, delete_path, move_existing, set_object,
  set_transform, set_visible, set_hidden, set_opacity, joint_sliders, camera_pose, publish,
  queue_meshcat_task,
}
use planning_service.Service.Visualizer.Frames.{
  Axes, set_toggled, set_all_toggled, set_frame_axes, moves, world_pose, toggled_pose,
  toggled_poses, toggle_all, toggle_found, toggle_registered, toggle_frame, toggle_frames_by_path,
}

-- Where the commands put the object at a path first.
unfoldable pub target {ℓ} : {X : Type ℓ} → String → List (Command X) → Option X
target path [] = none
target path (c ∷ cs) =
    let rest = target path cs in
    elim c [
      | set_transform p x ↦ if same_key p path then some x else rest
      | set_object p ↦ rest
      | set_visible p b ↦ rest
      | set_hidden p b ↦ rest
      | set_opacity p b ↦ rest
      | joint_sliders ↦ rest
      | camera_pose ↦ rest
      | publish ↦ rest
      | delete_path p ↦ rest
      | move_existing p x ↦ rest
    ]

abbrev pub set_hidden_by_toggle : Bool → FrameAxesInfo → FrameAxesInfo
set_hidden_by_toggle hidden info = record info { hidden_by_toggle = hidden }

map_info : (FrameAxesInfo → FrameAxesInfo) → Option FrameAxesInfo → Option FrameAxesInfo
map_info f none = none
map_info f (some info) = some (f info)

lookup-set_toggled :
    (path p : String) (hidden : Bool) (axes : Axes)
    → lookup p (set_toggled path hidden axes) ≡ (
        if same_key path p
        then map_info (set_hidden_by_toggle hidden) (lookup p axes)
        else lookup p axes)
unfolding lookup set_toggled map_info
lookup-set_toggled path p hidden [] = ground arith
lookup-set_toggled path p hidden ((q, info) ∷ axes) = ground (
  arith,
  lookup-set_toggled path p hidden axes,
  same_key_iff q path,
  same_key_iff q p,
  same_key_iff path p,
)

has_key-set_toggled :
    (path p : String) (hidden : Bool) (axes : Axes)
    → has_key p (set_toggled path hidden axes) ≡ has_key p axes
unfolding has_key set_toggled
has_key-set_toggled path p hidden [] = refl
has_key-set_toggled path p hidden ((q, info) ∷ axes) =
    ground (arith, has_key-set_toggled path p hidden axes)

set_toggled-Distinct :
    (path : String) (hidden : Bool) (axes : Axes)
    → Distinct axes
    → Distinct (set_toggled path hidden axes)
unfolding set_toggled
set_toggled-Distinct path hidden [] d = tt
set_toggled-Distinct path hidden ((q, info) ∷ axes) d =
    (has_key-set_toggled path q hidden axes ∙ d.0, set_toggled-Distinct path hidden axes d.1)

lookup-set_all_toggled :
    (prefix p : String) (hidden : Bool) (axes : Axes)
    → lookup p (set_all_toggled prefix hidden axes) ≡ (
        if starts_with p prefix
        then map_info (set_hidden_by_toggle hidden) (lookup p axes)
        else lookup p axes)
unfolding lookup set_all_toggled map_info
lookup-set_all_toggled prefix p hidden [] = ground arith
lookup-set_all_toggled prefix p hidden ((q, info) ∷ axes) =
    ground (arith, lookup-set_all_toggled prefix p hidden axes, same_key_iff q p)

has_key-set_all_toggled :
    (prefix p : String) (hidden : Bool) (axes : Axes)
    → has_key p (set_all_toggled prefix hidden axes) ≡ has_key p axes
unfolding has_key set_all_toggled
has_key-set_all_toggled prefix p hidden [] = refl
has_key-set_all_toggled prefix p hidden ((q, info) ∷ axes) =
    ground (arith, has_key-set_all_toggled prefix p hidden axes)

set_all_toggled-Distinct :
    (prefix : String) (hidden : Bool) (axes : Axes)
    → Distinct axes
    → Distinct (set_all_toggled prefix hidden axes)
unfolding set_all_toggled
set_all_toggled-Distinct prefix hidden [] d = tt
set_all_toggled-Distinct prefix hidden ((q, info) ∷ axes) d = (
  has_key-set_all_toggled prefix q hidden axes ∙ d.0,
  set_all_toggled-Distinct prefix hidden axes d.1,
)

module _ {ℓ} {A D W Q X C I : Type ℓ} (meshcats : Meshcats A D W Q X C I) (live : Live D W) where
  -- Where `UpdateFrameAxes` puts a frame.
  unfoldable pub followed : Option FrameAxesInfo → Option X
  followed none = none
  followed (some info) =
      if info.is_static
      then none
      else if info.hidden_by_toggle
      then none
      else some (world_pose meshcats live info.index)

  pub target-moves :
      (path : String) (axes : Axes)
      → Distinct axes
      → target path (moves meshcats live axes) ≡ followed (lookup path axes)
  unfolding target moves followed lookup
  target-moves path [] d = refl
  target-moves path ((q, info) ∷ axes) d =
      ground (arith, target-moves path axes d.1, same_key_iff q path, lookup_none path axes)

  -- Where a frame is put once it is toggled: nowhere if it is off, and a static frame never.
  unfoldable pub followed_after : Bool → Option FrameAxesInfo → Option X
  followed_after visible none = none
  followed_after visible (some info) =
      if not visible
      then none
      else if info.is_static
      then none
      else some (world_pose meshcats live info.index)

  followed-set_hidden_by_toggle :
      (visible : Bool) (o : Option FrameAxesInfo)
      → followed (map_info (set_hidden_by_toggle (not visible)) o) ≡ followed_after visible o
  unfolding followed followed_after map_info
  followed-set_hidden_by_toggle true none = refl
  followed-set_hidden_by_toggle false none = refl
  followed-set_hidden_by_toggle true (some info) = ground arith
  followed-set_hidden_by_toggle false (some info) = ground arith

  target-set_toggled :
      (path p : String) (visible : Bool) (axes : Axes)
      → Distinct axes
      → target p (moves meshcats live (set_toggled path (not visible) axes)) ≡ (
          if same_key path p
          then followed_after visible (lookup p axes)
          else target p (moves meshcats live axes))
  target-set_toggled path p visible axes d = ground (
    arith,
    target-moves p (set_toggled path (not visible) axes)
        (set_toggled-Distinct path (not visible) axes d),
    lookup-set_toggled path p (not visible) axes,
    followed-set_hidden_by_toggle visible (lookup p axes),
    target-moves p axes d,
  )

  target-set_all_toggled :
      (prefix p : String) (visible : Bool) (axes : Axes)
      → Distinct axes
      → target p (moves meshcats live (set_all_toggled prefix (not visible) axes)) ≡ (
          if starts_with p prefix
          then followed_after visible (lookup p axes)
          else target p (moves meshcats live axes))
  target-set_all_toggled prefix p visible axes d = ground (
    arith,
    target-moves p (set_all_toggled prefix (not visible) axes)
        (set_all_toggled-Distinct prefix (not visible) axes d),
    lookup-set_all_toggled prefix p (not visible) axes,
    followed-set_hidden_by_toggle visible (lookup p axes),
    target-moves p axes d,
  )

  -- `ToggleFrame` at a registered frame of a model, where the web page does not hide frames: it
  -- answers true and queues the move of the frame to its place, or away. From then on
  -- `UpdateFrameAxes` moves the frame if it was toggled on and is not static, and the others as
  -- before.
  pub toggle_frame-moves :
      (hub : VisualizerHub A D W Q X I) (path : String) (visible : Bool) (info : FrameAxesInfo)
      → hub.draco ≡ some live
      → hub.options.enable_frame_toggle_web ≡ false
      → lookup path hub.frame_axes ≡ some info
      → Distinct hub.frame_axes
      → let after = toggle_frame meshcats path visible hub in
        (after.0 ≡ returns true)
        × (after.1.meshcat_task_queue
            ≡ hub.meshcat_task_queue
              ++ (set_transform path (toggled_pose meshcats live visible info.index) ∷ []) ∷ [])
        × ((p : String)
            → target p (moves meshcats live after.1.frame_axes) ≡ (
                if same_key path p
                then followed_after visible (lookup p hub.frame_axes)
                else target p (moves meshcats live hub.frame_axes)))
  unfolding toggle_frame toggle_found toggle_registered queue_meshcat_task set_frame_axes ◌>>◌
      resume pure
  toggle_frame-moves hub path visible info e web found d =
      rw (e, web, found) (refl, refl, (λ p. target-set_toggled path p visible hub.frame_axes d))

  -- The place that an answer has for a frame.
  unfoldable pub posed : Bool → Option FrameAxesInfo → Option X
  posed visible none = none
  posed visible (some info) = some (toggled_pose meshcats live visible info.index)

  lookup-toggled_poses :
      (prefix p : String) (visible : Bool) (axes : Axes)
      → lookup p (toggled_poses meshcats live prefix visible axes)
        ≡ (if starts_with p prefix then posed visible (lookup p axes) else none)
  unfolding lookup toggled_poses posed
  lookup-toggled_poses prefix p visible [] = ground arith
  lookup-toggled_poses prefix p visible ((q, info) ∷ axes) =
      ground (arith, lookup-toggled_poses prefix p visible axes, same_key_iff q p)

  -- `ToggleFramesByPath` with a model answers the place of each registered frame below the path, or
  -- the place of hidden frames, and no other frame. From then on `UpdateFrameAxes` moves those of
  -- them that were toggled on and are not static, and the other frames as before.
  pub toggle_frames_by_path-moves :
      (hub : VisualizerHub A D W Q X I) (path p : String) (visible : Bool)
      → hub.draco ≡ some live
      → Distinct hub.frame_axes
      → let after = toggle_frames_by_path meshcats path visible hub in
        let is_below = starts_with p ("/drake/frames/" <> path) in
        let info = lookup p hub.frame_axes in
        ((poses : List (String × X)) × (after.0 ≡ returns poses)
          × (lookup p poses ≡ (if is_below then posed visible info else none)))
        × (target p (moves meshcats live after.1.frame_axes) ≡ (
            if is_below
            then followed_after visible info
            else target p (moves meshcats live hub.frame_axes)))
  unfolding toggle_frames_by_path toggle_all set_frame_axes ◌>>◌ resume pure
  toggle_frames_by_path-moves hub path p visible e d = rw e (
    (_, refl, lookup-toggled_poses _ p visible hub.frame_axes),
    target-set_all_toggled _ p visible hub.frame_axes d,
  )
