-- ===== src/Service/Visualizer/Frames/Registered.antt =====
-- Which frames `SetupFrameAxes` registers: at each path the first frame that is not skipped.
use planning_service.Prelude.{
  String, Bool, true, false, not, List, [], ◌∷◌, Option, none, some, ◌≡◌, refl, arith, text_key,
  same_key, same_key_iff, if◌then◌else◌, ap, ◌∙◌,
}
use planning_service.Prelude.Maps.{has_key, lookup, lookup_none, lookup-some}
use planning_service.Service.Error.{Outcome, returns, throws}
use planning_service.Service.Action.{Action, Done, pure, resume, ◌>>◌, for_each, bind_returns}
use planning_service.Service.Visualizer.{
  VisualizerHub, VisualizerOptions, Meshcats, Live, Frame, FrameAxesInfo, Command, need_draco,
  need_draco-some, show, on_meshcat, set_hidden,
}
use planning_service.Service.Visualizer.Frames.{
  Axes, frame_path, is_skipped, place_by_key, emplace_by_key, set_frame_axes, register_frame,
  setup_frame_axes, hide_tree,
}

-- What is registered of a frame.
abbrev pub info_of : VisualizerOptions → Frame → FrameAxesInfo
info_of options frame = record {
  index = frame.index;
  is_static = frame.is_welded;
  hidden_by_toggle = not options.enable_frame_toggle_web;
}

abbrev pub path_of : Frame → String
path_of frame = frame_path frame.model_name frame.name

-- The first frame with a path that is not skipped.
unfoldable pub first_at : VisualizerOptions → String → List Frame → Option FrameAxesInfo
first_at options path [] = none
first_at options path (frame ∷ frames) =
    let rest = first_at options path frames in
    if is_skipped options frame
    then rest
    else if same_key (path_of frame) path
    then some (info_of options frame)
    else rest

-- What one round of the loop makes of the axes.
unfoldable register_axes : VisualizerOptions → Frame → Axes → Axes
register_axes options frame axes =
    if is_skipped options frame
    then axes
    else emplace_by_key (path_of frame) (info_of options frame) axes

unfoldable register_all : VisualizerOptions → List Frame → Axes → Axes
register_all options [] axes = axes
register_all options (frame ∷ frames) axes =
    register_all options frames (register_axes options frame axes)

lookup-place_by_key {ℓ} :
    {V : Type ℓ} (k j : String) (v : V) (m : List (String × V))
    → has_key k m ≡ false
    → lookup j (place_by_key k v m) ≡ (if same_key k j then some v else lookup j m)
unfolding lookup has_key place_by_key
lookup-place_by_key k j v [] e = ground arith
lookup-place_by_key k j v ((i, w) ∷ m) e =
    ground
      (arith, lookup-place_by_key k j v m, same_key_iff i j, same_key_iff i k, same_key_iff k j)

unfoldable or_else {ℓ} : {V : Type ℓ} → Option V → Option V → Option V
or_else none o = o
or_else (some v) o = some v

lookup-register_axes :
    (options : VisualizerOptions) (path : String) (frame : Frame) (axes : Axes)
    → lookup path (register_axes options frame axes)
      ≡ or_else (lookup path axes) (first_at options path (frame ∷ []))
unfolding register_axes first_at or_else emplace_by_key
lookup-register_axes options path frame axes = ground (
  arith,
  lookup-place_by_key (path_of frame) path (info_of options frame) axes,
  same_key_iff (path_of frame) path,
  lookup_none path axes,
  lookup-some path axes,
)

lookup-register_all :
    (options : VisualizerOptions) (path : String) (frames : List Frame) (axes : Axes)
    → lookup path (register_all options frames axes)
      ≡ or_else (lookup path axes) (first_at options path frames)
unfolding register_all first_at or_else
lookup-register_all options path [] axes = ground arith
lookup-register_all options path (frame ∷ frames) axes = ground (
  arith,
  lookup-register_all options path frames (register_axes options frame axes),
  lookup-register_axes options path frame axes,
)

module _ {ℓ} {A D W Q X C I : Type ℓ} (meshcats : Meshcats A D W Q X C I) where
  -- A hub with a model, these options and these axes.
  abbrev Has : VisualizerOptions → Axes → VisualizerHub A D W Q X I → Type ℓ
  Has options axes hub =
      ((live : Live D W) × (hub.draco ≡ some live))
      × (hub.options ≡ options)
      × (hub.frame_axes ≡ axes)

  -- A call that returns and leaves such a hub.
  abbrev Registers : VisualizerOptions → Axes → Outcome Done × VisualizerHub A D W Q X I → Type ℓ
  Registers options axes (o, hub) = (o ≡ returns tt) × Has options axes hub

  show_returns :
      (commands : List (Command X)) (options : VisualizerOptions) (axes : Axes)
      (hub : VisualizerHub A D W Q X I)
      → Has options axes hub
      → Registers options axes (show meshcats commands hub)
  unfolding show on_meshcat
  show_returns commands options axes hub ((live, e), o, a) = rw e (refl, ((_, refl), o, a))

  then_returns :
      (options : VisualizerOptions) (axes axes' : Axes)
      (k : Action (VisualizerHub A D W Q X I) Done) (x : Outcome Done × VisualizerHub A D W Q X I)
      → Registers options axes x
      → ((hub : VisualizerHub A D W Q X I) → Has options axes hub → Registers options axes' (k hub))
      → Registers options axes' (resume (λ a. k) x)
  unfolding resume
  then_returns options axes axes' k (returns a, hub) (e, h) next = next hub h
  then_returns options axes axes' k (throws e', hub) (e, h) next = absurd (ground arith)

  test_returns :
      (b : Bool) (m k : Action (VisualizerHub A D W Q X I) Done) (options : VisualizerOptions)
      (axes axes' : Axes) (hub : VisualizerHub A D W Q X I)
      → Registers options axes (m hub)
      → Registers options axes' (k hub)
      → Registers options (if b then axes else axes') ((if b then m else k) hub)
  test_returns true m k options axes axes' hub hm hk = hm
  test_returns false m k options axes axes' hub hm hk = hk

  register_frame_returns :
      (live : Live D W) (frame : Frame) (options : VisualizerOptions) (axes : Axes)
      (hub : VisualizerHub A D W Q X I)
      → Has options axes hub
      → Registers options
          (register_axes options frame axes)
          (register_frame meshcats live frame hub)
  unfolding register_frame register_axes ◌>>◌ set_frame_axes pure
  register_frame_returns live frame options axes hub h = rw⁻¹ h.1 (
      test_returns (is_skipped hub.options frame) _ _ hub.options axes _ hub
        (refl, (h.0, refl, h.2))
        (then_returns hub.options axes _ _ _ (show_returns _ hub.options axes hub (h.0, refl, h.2))
          (λ hub' h'. (refl, (h'.0, h'.1, ap (emplace_by_key _ _) h.2)))))

  loop_returns :
      (live : Live D W) (frames : List Frame) (options : VisualizerOptions) (axes : Axes)
      (hub : VisualizerHub A D W Q X I)
      → Has options axes hub
      → Registers options
          (register_all options frames axes)
          (for_each frames (register_frame meshcats live) hub)
  unfolding for_each register_all ◌>>◌ pure
  loop_returns live [] options axes hub h = (refl, h)
  loop_returns live (frame ∷ frames) options axes hub h =
      then_returns options _ _ _ _ (register_frame_returns live frame options axes hub h)
        (λ hub' h'. loop_returns live frames options _ hub' h')

  hide_tree_returns :
      (options : VisualizerOptions) (axes : Axes) (hub : VisualizerHub A D W Q X I)
      → Has options axes hub
      → Registers options axes (hide_tree meshcats hub)
  unfolding hide_tree pure
  hide_tree_returns options axes hub h = by hub.options.enable_frame_toggle_web
    where
      by :
          (b : Bool)
          → Registers options axes
              ((if b then pure tt else show meshcats (set_hidden "/drake/frames" true ∷ [])) hub)
      by true = (refl, h)
      by false = show_returns _ options axes hub h

  -- On a hub with a model, `SetupFrameAxes` returns, and leaves at each path what belongs to the
  -- first of the model's frames with that path that is not skipped: its index, whether it is
  -- welded to the world, and the mark of a hidden frame unless the web page shows frames. Nothing
  -- is at the other paths, whatever was registered before.
  pub setup_frame_axes-first_at :
      (hub : VisualizerHub A D W Q X I) (live : Live D W) (path : String)
      → hub.draco ≡ some live
      → ((setup_frame_axes meshcats hub).0 ≡ returns tt)
        × (lookup path (setup_frame_axes meshcats hub).1.frame_axes
            ≡ first_at hub.options path (meshcats.frames live.model))
  unfolding setup_frame_axes set_frame_axes ◌>>◌ resume lookup or_else
  setup_frame_axes-first_at hub live path e =
      let start : VisualizerHub A D W Q X I = record hub { frame_axes = [] } in
      let r =
        then_returns hub.options _ _ (hide_tree meshcats) _
          (loop_returns live (meshcats.frames live.model) hub.options [] start
            ((live, e), refl, refl))
          (λ hub' h'. hide_tree_returns hub.options _ hub' h') in
      rw (bind_returns need_draco _ (need_draco-some hub live e))
        (r.0, ap (lookup path) r.1.2 ∙ lookup-register_all hub.options path _ [])
