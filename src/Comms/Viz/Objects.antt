-- ===== src/Comms/Viz/Objects.antt =====
-- The objects that clients place, show, hide and delete.
use planning_service.Prelude.{
  String, true, false, List, [], ◌∷◌, ◌++◌, Option, none, some, ◌≡◌, refl, subst, sym, inl, inr,
  text_key,
}
use planning_service.Prelude.Tests.{Bool-cases}
use planning_service.Prelude.Format.{◌<>◌}
use planning_service.Prelude.Maps.{lookup, store}
use planning_service.Service.Error.{Outcome, returns, throws, Exception, what, Outcome-cases}
use planning_service.Service.Action.{Done, pure, throw, resume, handle, try_catch, ◌>>=◌, ◌>>◌}
use planning_service.Service.Action.Keeps.{Keeps, bind-Keeps, pure-Keeps}
use planning_service.Service.Visualizer.{
  VisualizerHub, Meshcats, Live, Command, call, need_draco, queue_meshcat_task, set_object,
  set_transform, move_existing,
}
use planning_service.Service.Visualizer.Configuration.{calc_pose, positions_at, completed}
use planning_service.Comms.Status.{Status, status_ok, failed}
use planning_service.Comms.Viz.{
  VizService, SetObjectRequest, without_prefix, object_path, is_protected, refused, invalid,
  set_refusal, on_hub, remember, queue, place_object, build_object, convert_object, no_shape,
  set_object_at, handle_set_object, toggle_placed, toggle_object_at, handle_toggle_object,
  world_if_empty,
}
use planning_service.Comms.Viz.Paths.{object_path-under, without_root-object}
use text.Mathlib.Text.{starts_with}

module _ {ℓ} {A D W Q X C I : Type ℓ} (meshcats : Meshcats A D W Q X C I) where
  -- `CalcPose` reads the hub only.
  module _ (hub : VisualizerHub A D W Q X I) where
    abbrev pub Same : VisualizerHub A D W Q X I → Type ℓ
    Same h = hub ≡ h

    call-Same {κ} : {B : Type κ} (o : Outcome B) → Keeps Same (call o)
    unfolding call
    call-Same o h e = e

    need_draco-Same : Keeps {A = Live D W} Same need_draco
    unfolding need_draco
    need_draco-Same h e = e

    positions_at-Same :
        (live : Live D W) (conf : Option C) → Keeps Same (positions_at meshcats live conf)
    unfolding positions_at completed
    positions_at-Same live none = pure-Keeps Same _
    positions_at-Same live (some conf) = call-Same _

    pub calc_pose-Same : (b a : String) (conf : Option C) → Keeps Same (calc_pose meshcats b a conf)
    unfolding calc_pose
    calc_pose-Same b a conf = bind-Keeps Same need_draco _ need_draco-Same (λ live.
        bind-Keeps Same (positions_at meshcats live conf) _ (positions_at-Same live conf) (λ q.
          bind-Keeps Same (call (meshcats.scoped_frame live.model a)) _
            (call-Same (meshcats.scoped_frame live.model a))
            (λ frame_a.
              bind-Keeps Same (call (meshcats.scoped_frame live.model b)) _
                (call-Same (meshcats.scoped_frame live.model b))
                (λ frame_b.
                  pure-Keeps Same
                    (meshcats.relative_transform live.model q frame_a.index frame_b.index)))))

  -- The service with another task for the hub.
  abbrev pub with_task : List (Command X) → VizService A D W Q X I → VizService A D W Q X I
  with_task task s = record s {
    hub = record s.hub { meshcat_task_queue = s.hub.meshcat_task_queue ++ task ∷ [] };
  }

  module _ (compose : X → X → X) where
    abbrev pub placed_at : String → X → VizService A D W Q X I → VizService A D W Q X I
    placed_at path pose s =
        with_task (set_object path ∷ set_transform path pose ∷ [])
          (record s { object_transforms = store path pose s.object_transforms })

    -- The pose of the request's frame in the world.
    abbrev pub frame_pose : SetObjectRequest X → VizService A D W Q X I → Outcome X
    frame_pose request s =
        (calc_pose meshcats (world_if_empty meshcats compose request.frame) "world" none s.hub).0

    reads_pose :
        (request : SetObjectRequest X) (s : VizService A D W Q X I) (o : Outcome X)
        → frame_pose request s ≡ o
        → calc_pose meshcats (world_if_empty meshcats compose request.frame) "world" none s.hub
          ≡ (o, s.hub)
    reads_pose request s o e =
        let same =
          calc_pose-Same s.hub (world_if_empty meshcats compose request.frame) "world" none s.hub
            refl in
        λ i. (e i, sym same i)

    place_object-returns :
        (path : String) (request : SetObjectRequest X) (s : VizService A D W Q X I) (y x : X)
        → request.pose ≡ returns y
        → request.color ≡ returns tt
        → frame_pose request s ≡ returns x
        → place_object meshcats compose path request s
          ≡ (returns status_ok, placed_at path (compose x y) s)
    unfolding place_object try_catch handle ◌>>=◌ ◌>>◌ resume on_hub remember queue
        queue_meshcat_task pure call
    place_object-returns path request s y x rigid colored e =
        let r = reads_pose request s (returns x) e in rw (rigid, colored, r) refl

    -- The first exception of those that the placing of a shape meets: of the rigid transform, of the
    -- colour, or of the pose of the frame.
    pub data IsUnplaced (request : SetObjectRequest X) (s : VizService A D W Q X I) (e : Exception)
        : Type ℓ where
      not_rigid : request.pose ≡ throws e → IsUnplaced request s e
      not_colored :
          (y : X) → request.pose ≡ returns y → request.color ≡ throws e → IsUnplaced request s e
      not_framed :
          (y : X)
          → request.pose ≡ returns y
          → request.color ≡ returns tt
          → frame_pose request s ≡ throws e
          → IsUnplaced request s e

    place_object-throws :
        (path : String) (request : SetObjectRequest X) (s : VizService A D W Q X I) (x : Exception)
        → IsUnplaced request s x
        → place_object meshcats compose path request s
          ≡ (returns (failed ("SetObject: Failed to set object in Meshcat: " <> what x)), s)
    unfolding place_object try_catch handle ◌>>=◌ ◌>>◌ resume on_hub remember queue
        queue_meshcat_task pure call
    place_object-throws path request s x (not_rigid rigid) = rw rigid refl
    place_object-throws path request s x (not_colored y rigid colored) = rw (rigid, colored) refl
    place_object-throws path request s x (not_framed y rigid colored e) =
        let r = reads_pose request s (throws x) e in rw (rigid, colored, r) refl

    -- Where `SetObject` puts the shape of a request.
    abbrev pub target_path : SetObjectRequest X → String
    target_path request = object_path (without_prefix "/drake/" request.path)

    -- What `SetObject` answers, and what it leaves.
    pub data IsSetAnswer (request : SetObjectRequest X) (s : VizService A D W Q X I)
        : Outcome Status × VizService A D W Q X I → Type ℓ where
      denied :
          is_protected (without_prefix "/drake/" request.path) ≡ true
          → IsSetAnswer request s
              (returns (refused (set_refusal (without_prefix "/drake/" request.path))), s)
      unset_shape : request.shape ≡ none → IsSetAnswer request s (throws no_shape, s)
      bad_shape :
          (e : Exception)
          → request.shape ≡ some (throws e)
          → IsSetAnswer request s
              (returns (invalid ("SetObject: Failed to build shape: " <> what e)), s)
      unplaced :
          (e : Exception)
          → request.shape ≡ some (returns tt)
          → IsUnplaced request s e
          → IsSetAnswer request s
              (returns (failed ("SetObject: Failed to set object in Meshcat: " <> what e)), s)
      placed :
          (y x : X)
          → request.shape ≡ some (returns tt)
          → request.pose ≡ returns y
          → request.color ≡ returns tt
          → frame_pose request s ≡ returns x
          → starts_with (target_path request) "objects/" ≡ true
          → IsSetAnswer request s
              (returns status_ok, placed_at (target_path request) (compose x y) s)

    refuses :
        (request : SetObjectRequest X) (s : VizService A D W Q X I)
        → request.shape ≡ some (returns tt)
        → (x : Exception) → IsUnplaced request s x
        → IsSetAnswer request s (place_object meshcats compose (target_path request) request s)
    refuses request s is x not =
        subst (IsSetAnswer request s)
          (sym (place_object-throws (target_path request) request s x not)) (unplaced x is not)

    built-IsSetAnswer :
        (shape : Option (Outcome Done)) (request : SetObjectRequest X) (s : VizService A D W Q X I)
        → request.shape ≡ shape
        → IsSetAnswer request s
            (convert_object meshcats compose shape (target_path request) request s)
    unfolding convert_object build_object pure throw
    built-IsSetAnswer none request s is = unset_shape is
    built-IsSetAnswer (some (throws e)) request s is = bad_shape e is
    built-IsSetAnswer (some (returns tt)) request s is = elim (Outcome-cases request.pose) [
      | inr (x, rigid) ↦ refuses request s is x (not_rigid rigid)
      | inl (y, rigid) ↦ elim (Outcome-cases request.color) [
        | inr (x, colored) ↦ refuses request s is x (not_colored y rigid colored)
        | inl (tt, colored) ↦ elim (Outcome-cases (frame_pose request s)) [
          | inr (x, e) ↦ refuses request s is x (not_framed y rigid colored e)
          | inl (x, e) ↦
              subst (IsSetAnswer request s)
                (sym (place_object-returns (target_path request) request s y x rigid colored e))
                (placed y x is rigid colored e
                  (object_path-under (without_prefix "/drake/" request.path)))
        ]
      ]
    ]

    pub handle_set_object-IsSetAnswer :
        (request : SetObjectRequest X) (s : VizService A D W Q X I)
        → IsSetAnswer request s (handle_set_object meshcats compose request s)
    unfolding handle_set_object set_object_at pure
    handle_set_object-IsSetAnswer request s =
        elim (Bool-cases (is_protected (without_prefix "/drake/" request.path))) [
          | inl p ↦ rw p (denied p)
          | inr p ↦ rw p (built-IsSetAnswer request.shape request s refl)
        ]

  module _ (identity hidden : X) where
    -- An object is shown where it was placed, and hidden below the scene.
    module _ (s : VizService A D W Q X I) (path : String)
        (under : starts_with path "objects/" ≡ true) where
      pub show_placed :
          (pose : X)
          → lookup path s.object_transforms ≡ some pose
          → handle_toggle_object meshcats identity hidden path true s
            ≡ (returns status_ok, with_task (move_existing path pose ∷ []) s)
      unfolding handle_toggle_object toggle_object_at toggle_placed ◌>>◌ resume queue on_hub
          queue_meshcat_task pure
      show_placed pose e = rw (without_root-object path under, under, e) refl

      pub show_absent :
          lookup path s.object_transforms ≡ none
          → handle_toggle_object meshcats identity hidden path true s ≡ (returns status_ok, s)
      unfolding handle_toggle_object toggle_object_at toggle_placed ◌>>◌ resume queue on_hub
          queue_meshcat_task pure
      show_absent e = rw (without_root-object path under, under, e) refl

      pub hide_placed :
          handle_toggle_object meshcats identity hidden path false s
          ≡ (returns status_ok, with_task (move_existing path hidden ∷ []) s)
      unfolding handle_toggle_object toggle_object_at toggle_placed ◌>>◌ resume queue on_hub
          queue_meshcat_task pure
      hide_placed = rw (without_root-object path under, under) refl
