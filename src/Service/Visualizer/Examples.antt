-- ===== src/Service/Visualizer/Examples.antt =====
-- The theorems about the hub at concrete models, whose Meshcat is the list of its buttons.
use planning_service.Prelude.{
  ℕ, ◌+◌, String, true, false, List, [], ◌∷◌, none, some, ◌≡◌, refl, arith, text_key, same_key,
  same_key_iff, inl, inr, ◌⊎◌, if◌then◌else◌, ◌==◌, ◌||◌, not,
}
use planning_service.Prelude.Int.{pos}
use planning_service.Prelude.Maps.{lookup, Distinct, has_key}
use planning_service.Prelude.Sets.{contains, erase, contains-erase}
use planning_service.Prelude.Tests.{Bool-cases}
use planning_service.Service.Error.{returns, throws, runtime_error}
use planning_service.Service.Action.{pure, resume, ◌>>=◌}
use planning_service.Service.Visualizer.{
  VisualizerHub, VisualizerOptions, Meshcats, Live, Frame, FrameAxesInfo, set_transform, call,
}
use planning_service.Service.Visualizer.Buttons.{add_button_at}
use planning_service.Service.Visualizer.Buttons.Shown.{
  Unique, ButtonLaws, IsAdded, add_button_at-IsAdded,
}
use planning_service.Service.Visualizer.Frames.{
  setup_frame_axes, moves, world_pose, toggled_pose, toggle_frame,
}
use planning_service.Service.Visualizer.Frames.Registered.{first_at, setup_frame_axes-first_at}
use planning_service.Service.Visualizer.Frames.Toggled.{target, followed_after, toggle_frame-moves}
use planning_service.Service.Visualizer.Configuration.{set_positions_of}
use planning_service.Service.Visualizer.Configuration.Pushes.{IsPushed, set_positions_of-IsPushed}
use planning_service.Service.Visualizer.Loading.{
  ModelFiles, VisualizerData, fresh, find_adapter, find_anywhere, adapter_of_context, is_active,
  load_and_set_model_data,
}
use planning_service.Service.Visualizer.Loading.Answers.{IsAnswer}
use planning_service.Service.Visualizer.Run.{round}
use planning_service.Service.Visualizer.Calls.{
  Call, load, stop, set_positions, run_round, IsSound, perform_all,
}
use planning_service.Service.Visualizer.Calls.Sound.{perform_all-IsSound}
use planning_service.Service.Visualizer.Calls.Loads.{
  IsStarted, load_and_set_model_data-IsAnswer, load-round,
}

abbrev pub Buttons : Type 0
Buttons = (names : List String) × Unique names

pub erase-Unique : (n : String) (names : List String) → Unique names → Unique (erase n names)
unfolding erase
erase-Unique n [] u = tt
erase-Unique n (m ∷ names) u = ground (arith, erase-Unique n names u.1, contains-erase n m names)

erase_button : String → Buttons → Buttons
erase_button n (names, u) = (erase n names, erase-Unique n names u)

pub insert_if :
    (n : String) (w : Buttons) → (contains n w.0 ≡ true) ⊎ (contains n w.0 ≡ false) → Buttons
insert_if n (names, u) (inl e) = (names, u)
insert_if n (names, u) (inr e) = (n ∷ names, (e, u))

insert_if-contains :
    (n m : String) (w : Buttons) (o : (contains n w.0 ≡ true) ⊎ (contains n w.0 ≡ false))
    → contains m (insert_if n w o).0 ≡ (same_key n m || contains m w.0)
unfolding insert_if contains
insert_if-contains n m (names, u) (inl e) = ground (arith, same_key_iff n m)
insert_if-contains n m (names, u) (inr e) = refl

abbrev pub arm_frames : List Frame
arm_frames =
    record {
      index = 0;
      name = "world";
      model_name = "WorldModelInstance";
      is_world_body = true;
      is_welded = true;
    }
    ∷ record {
      index = 1;
      name = "base";
      model_name = "arm";
      is_world_body = false;
      is_welded = true;
    }
    ∷ record {
      index = 2;
      name = "link";
      model_name = "arm";
      is_world_body = false;
      is_welded = false;
    }
    ∷ record {
      index = 3;
      name = "link_tip";
      model_name = "arm";
      is_world_body = false;
      is_welded = false;
    }
    ∷ []

-- Adapter 0 has no model.
abbrev pub meshcats : Meshcats ℕ ℕ Buttons ℕ ℕ ℕ ℕ
meshcats = record {
  make_draco = λ a.
      if a == 0
      then throws (runtime_error "no model")
      else returns (record { model = a; meshcat = ([], tt) });
  default_configuration = λ a. none;
  constraints_hash = λ d. d;
  frames = λ d. arm_frames;
  model_instances = λ d. "arm" ∷ [];
  num_positions = λ d. 1;
  size = λ q. if q == 99 then 2 else 1;
  to_generalized_position = λ d c. returns c;
  complete = λ d c reference. returns c;
  to_system_conf = λ d q. q;
  robots = λ c. "arm" ∷ [];
  relative_transform = λ d q a b. q + b;
  world_frame = 0;
  away = 1000;
  local_x = 0;
  local_y = 0;
  local_z = 0;
  has_scoped_frame = λ d name. false;
  scoped_frame = λ d name. throws (runtime_error "no frame");
  save_html = λ w. returns "session.html";
  positions = λ w. 5;
  set_positions = λ q w. w;
  slider_positions = λ w. 5;
  button_names = λ w. w.0;
  button_clicks = λ n w. 0;
  add_button = λ n key w. returns (insert_if n w (Bool-cases (contains n w.0)));
  delete_button = λ n w. returns (erase n w.0, erase-Unique n w.0 w.1);
  draw = λ c w. w;
  joint_positions_changed = λ q q'. not (q == q');
  make_indicators = λ d q. [];
  indicator_commands = λ d q i. [];
}

button_laws : ButtonLaws meshcats
unfolding insert_if
button_laws = record {
  names-Unique = λ w. w.1;
  delete = λ n w e. ((erase n w.0, erase-Unique n w.0 w.1), refl, (λ m. contains-erase n m w.0));
  add = λ n w. (_, refl, (λ m. insert_if-contains n m w (Bool-cases (contains n w.0))));
}

abbrev pub files : ModelFiles ℕ ℕ
files = record {
  context_of = λ id. id;
  load_visualization = λ c. returns (false, c);
  load_context = λ c. returns (c == 7, c);
  adapter_from_context = λ c. returns c;
  drop_collision_checker = λ a. a;
  adapter_from_directives = λ name. throws (runtime_error "no file");
  undefined_adapter = returns none;
  set_meshcat_params = λ params a. a;
  to_lower = λ s. s;
}

abbrev pub options : VisualizerOptions
options = record {
  meshcat_params = record { reserved_ports = none; port = none; visual = true; collision = false };
  enable_sliders = false;
  enable_set_configuration = true;
  enable_frame_toggle_web = false;
  default_init = false;
  default_contexts = [];
  stream_opacity = true;
  show_joint_limits = false;
  frame_name_ignore_patterns = [];
  frame_name_ignore_prefixes = [];
  frame_name_ignore_suffixes = "_tip" ∷ [];
  has_default_camera_position = false;
}

abbrev pub context_7 : VisualizerData
context_7 = record { context_id = some 7; dmd_filename = none; robot_meshcat_params = none }

abbrev pub Hub : Type 0
Hub = VisualizerHub ℕ ℕ Buttons ℕ ℕ ℕ

abbrev calls : List (Call ℕ ℕ ℕ)
calls = load context_7 false ∷ run_round (10 ∷ []) ∷ set_positions 20 3 ∷ stop ∷ run_round [] ∷ []

perform_all-IsSound_example : IsSound (perform_all meshcats files calls (fresh options))
perform_all-IsSound_example = perform_all-IsSound meshcats files options calls

pub one_button : contains {K = String} "Reset Positions" [] ≡ false
unfolding contains
one_button = refl

abbrev pub new_hub : Hub
new_hub = fresh options

abbrev pub shown_hub : Hub
shown_hub = record (fresh options) {
  draco = some (record { model = 7; meshcat = ("Reset Positions" ∷ [], (one_button, tt)) });
  frame_axes =
      ("/drake/frames/arm/link/", record { index = 2; is_static = false; hidden_by_toggle = true })
      ∷ [];
  button_order = ("Reset Positions", "") ∷ [];
}

abbrev live : Live ℕ Buttons
live = record { model = 7; meshcat = ("Reset Positions" ∷ [], (one_button, tt)) }

load_and_set_model_data-IsAnswer_example :
    IsAnswer files context_7 new_hub false false true
      (load_and_set_model_data files context_7 true new_hub)
unfolding is_active perform_all
load_and_set_model_data-IsAnswer_example =
    load_and_set_model_data-IsAnswer files context_7 true new_hub
      (perform_all-IsSound meshcats files options []) (inl (λ e. absurd (ground arith)))

add_button_at-IsAdded_example :
    IsAdded meshcats button_laws shown_hub 7 "Stop"
      (pos 0)
      (some 0)
      (add_button_at meshcats "Stop" (pos 0) "" shown_hub)
add_button_at-IsAdded_example =
    add_button_at-IsAdded meshcats button_laws shown_hub 7 live.meshcat "Stop" (pos 0) refl
      (refl, tt)

setup_frame_axes-first_at_example :
    ((setup_frame_axes meshcats shown_hub).0 ≡ returns tt)
    × (lookup "/drake/frames/arm/link_tip/" (setup_frame_axes meshcats shown_hub).1.frame_axes
        ≡ first_at options "/drake/frames/arm/link_tip/" arm_frames)
setup_frame_axes-first_at_example =
    setup_frame_axes-first_at meshcats shown_hub live "/drake/frames/arm/link_tip/" refl

set_positions_of-IsPushed_example :
    IsPushed meshcats 30 99 shown_hub true (some live) (set_positions_of meshcats 30 99 shown_hub)
set_positions_of-IsPushed_example = set_positions_of-IsPushed meshcats 30 99 shown_hub

load-round_example :
    let after = load_and_set_model_data files context_7 false new_hub in
    (after.0 ≡ returns true)
    × IsStarted meshcats after.1
        (returns (record { model = 7; meshcat = ([], tt) }))
        (round meshcats (10 ∷ []) after.1)
unfolding is_active find_adapter find_anywhere adapter_of_context call pure resume ◌>>=◌
load-round_example = load-round meshcats files context_7 false new_hub 7 (10 ∷ []) refl refl

abbrev link_info : FrameAxesInfo
link_info = record { index = 2; is_static = false; hidden_by_toggle = true }

link_found : lookup "/drake/frames/arm/link/" shown_hub.frame_axes ≡ some link_info
unfolding lookup
link_found = refl

link_alone : Distinct shown_hub.frame_axes
unfolding has_key
link_alone = (refl, tt)

toggle_frame-moves_example :
    let after = toggle_frame meshcats "/drake/frames/arm/link/" true shown_hub in
    (after.0 ≡ returns true)
    × (after.1.meshcat_task_queue ≡ (set_transform "/drake/frames/arm/link/" 7 ∷ []) ∷ [])
    × ((p : String)
        → target p (moves meshcats live after.1.frame_axes) ≡ (
            if same_key "/drake/frames/arm/link/" p
            then followed_after meshcats live true (lookup p shown_hub.frame_axes)
            else target p (moves meshcats live shown_hub.frame_axes)))
unfolding toggled_pose world_pose
toggle_frame-moves_example =
    toggle_frame-moves meshcats live shown_hub "/drake/frames/arm/link/" true link_info refl refl
      link_found link_alone
