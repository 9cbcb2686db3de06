-- ===== src/Comms/Viz/Examples.antt =====
-- The theorems about the visualizer service at concrete requests.
use planning_service.Prelude.{
  ℕ, ◌+◌, true, false, [], ◌∷◌, some, none, ◌≡◌, ◌⊎◌, refl, arith, text_key,
}
use planning_service.Prelude.Format.{◌<>◌}
use planning_service.Service.Error.{returns, throws, runtime_error}
use planning_service.Service.Action.{pure, resume, ◌>>=◌, ◌>>◌, try_catch, handle}
use planning_service.Service.Visualizer.{
  Meshcats, idle, no_draco, call, need_draco, queue_meshcat_task, move_existing,
}
use planning_service.Service.Visualizer.Configuration.{calc_pose, positions_at}
use planning_service.Service.Visualizer.Examples.{Buttons, meshcats, files, new_hub, shown_hub}
use planning_service.Comms.Status.{status_ok}
use planning_service.Comms.Viz.{
  VizService, SetObjectRequest, StartVisualizerRequest, handle_set_object, handle_toggle_object,
  set_object_at, convert_object, build_object, place_object, on_hub, remember, queue,
  without_prefix, object_path, is_protected, world_if_empty,
}
use planning_service.Comms.Viz.Objects.{placed_at, target_path, with_task}
use planning_service.Comms.Viz.Shown.{set_object-toggle_object}
use planning_service.Comms.Viz.Start.{start_visualizer, requested_data, requested_options}
use planning_service.Comms.Viz.Started.{asked, start_visualizer_unmade}
use planning_service.Service.Visualizer.Run.{round}
use planning_service.Service.Visualizer.Loading.{
  is_active, find_adapter, find_anywhere, adapter_of_context,
}
use planning_service.Comms.Streaming.{
  Streams, no_streams, take_slot, cancel_incumbent, leave_slot, connect, evict, leave, time_out,
  reading, thrown, Reached, Calm,
}
use planning_service.Comms.Streaming.Slot.{
  Reached-IsHeld, calm_streams_alone, evicted_leave_admits_third,
}

-- Every frame stands where the world does.
abbrev framed : Meshcats ℕ ℕ Buttons ℕ ℕ ℕ ℕ
framed = record meshcats {
  scoped_frame = λ d name. returns (record {
    index = 0;
    name = "world";
    model_name = "WorldModelInstance";
    is_world_body = true;
    is_welded = true;
  });
}

abbrev Service : Type 0
Service = VizService ℕ ℕ Buttons ℕ ℕ ℕ

abbrev shown_service : Service
shown_service = record { hub = shown_hub; object_transforms = [] }

abbrev box : SetObjectRequest ℕ
box = record {
  path = "/drake/box";
  frame = "";
  pose = returns 3;
  shape = some (returns tt);
  color = returns tt;
}

abbrev sum : ℕ → ℕ → ℕ
sum a b = a + b

abbrev boxed_service : Service
boxed_service = placed_at framed sum "objects/box" 8 shown_service

box_placed : handle_set_object framed sum box shown_service ≡ (returns status_ok, boxed_service)
unfolding handle_set_object set_object_at convert_object build_object place_object on_hub remember
    queue queue_meshcat_task without_prefix object_path is_protected world_if_empty calc_pose
    need_draco positions_at call pure resume ◌>>=◌ ◌>>◌ try_catch handle ◌<>◌
box_placed = refl

set_object-toggle_object_example :
    let path = target_path framed sum box in
    (pose : ℕ) × (boxed_service ≡ placed_at framed sum path pose shown_service)
    × (handle_toggle_object framed 0 1000 path true boxed_service
        ≡ (returns status_ok, with_task framed (move_existing path pose ∷ []) boxed_service))
    × (handle_toggle_object framed 0 1000 path false boxed_service
        ≡ (returns status_ok, with_task framed (move_existing path 1000 ∷ []) boxed_service))
set_object-toggle_object_example =
    set_object-toggle_object framed sum 0 1000 box shown_service boxed_service box_placed

abbrev start_7 : StartVisualizerRequest
start_7 = record {
  enable_sliders = true;
  show_iris_regions = false;
  show_prm = false;
  meshcat_params = none;
  dmd_filename = "";
  context_id = 7;
  force_reload = false;
}

-- Draco is never made.
abbrev unmade : Meshcats ℕ ℕ Buttons ℕ ℕ ℕ ℕ
unmade = record meshcats { make_draco = λ a. throws (runtime_error "no model") }

start_visualizer_unmade_example :
    start_visualizer files (λ status. round unmade []) start_7 new_hub ≡ (
      throws no_draco,
      record (asked unmade files start_7 new_hub) { draco_adapter = some 7; status = idle },
    )
unfolding is_active find_adapter find_anywhere adapter_of_context requested_data requested_options
    call pure ◌>>=◌ resume
start_visualizer_unmade_example =
    start_visualizer_unmade unmade files start_7 new_hub 7 [] (runtime_error "no model") refl refl
      refl refl

-- Handler 0 reads, 1 comes and waits.
abbrev evicted : Streams
evicted = cancel_incumbent 1 0 (take_slot 0 no_streams)

abbrev taken_over : Streams
taken_over = take_slot 1 evicted

evicted_reached : Reached evicted
unfolding take_slot cancel_incumbent
evicted_reached =
    Reached.next (Reached.next Reached.start (connect 0 refl refl)) (evict 1 0 refl refl)

taken_over_reached : Reached taken_over
unfolding take_slot cancel_incumbent
taken_over_reached = Reached.forced evicted_reached (time_out 1 0 refl refl)

Reached-IsHeld_example : (taken_over.phase 1 ≡ reading) ⊎ (taken_over.phase 1 ≡ thrown)
unfolding take_slot cancel_incumbent
Reached-IsHeld_example = Reached-IsHeld taken_over_reached 1 refl

-- Handler 0 reads and leaves, and 1 reads.
calm_run : Calm (take_slot 1 (leave_slot 0 (take_slot 0 no_streams)))
unfolding take_slot leave_slot
calm_run =
    Calm.next (Calm.next (Calm.next Calm.start (connect 0 refl refl)) (leave 0 refl))
      (connect 1 refl refl)

calm_streams_alone_example : ◌≡◌ {A = ℕ} 1 1
unfolding take_slot leave_slot
calm_streams_alone_example = calm_streams_alone calm_run 1 1 refl refl

evicted_leave_admits_third_example :
    (t : Streams) × Reached t
    × (t.phase 1 ≡ reading)
    × (t.phase 2 ≡ reading)
    × (t.cancelled 1 ≡ taken_over.cancelled 1)
    × (t.slot ≡ some 2)
unfolding take_slot cancel_incumbent
evicted_leave_admits_third_example =
    evicted_leave_admits_third 0 1 2 taken_over_reached refl refl (λ e. absurd (omega arith)) refl
      refl
