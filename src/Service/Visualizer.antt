-- ===== src/Service/Visualizer.antt =====
-- planning_service/service/visualization/visualizer_hub.h and visualizer_hub.cc: one robot model
-- shown in Meshcat. This file has the hub's state and the calls of one line; `Buttons`, `Frames`,
-- `Configuration`, `Loading`, `Setup` and `Run` have the other operations. What the hub uses of
-- Drake and Draco is the interface `Meshcats`.
pub mod Buttons
pub mod Frames
pub mod Configuration
pub mod Loading
pub mod Setup
pub mod Run
pub mod Alive
pub mod Calls
pub mod Examples
use planning_service.Prelude.{
  ℕ, String, Bool, Option, none, some, List, [], ◌∷◌, ◌++◌, if◌then◌else◌, ◌≡◌, ap,
}
use planning_service.Service.Error.{Outcome, returns, throws, Exception, runtime_error}
use planning_service.Service.Action.{Action, Done, pure, throw, ◌>>=◌, ◌>>◌}

-- `no_status` is `None`.
pub data VisualizerStatus : Type 0 where
  no_status idle starting active stopping : VisualizerStatus

-- `RobotMeshcatParams` (motion/robot_model.h) without the colours.
pub record MeshcatParams : Type 0 where
  pub reserved_ports : Option (List ℕ)
  pub port : Option ℕ
  pub visual : Bool
  pub collision : Bool

-- The options that the hub reads (service/utils/utils.h).
pub record VisualizerOptions : Type 0 where
  pub meshcat_params : MeshcatParams
  pub enable_sliders : Bool
  pub enable_set_configuration : Bool
  pub enable_frame_toggle_web : Bool
  pub default_init : Bool
  pub default_contexts : List (String × ℕ)
  pub stream_opacity : Bool
  pub show_joint_limits : Bool
  pub frame_name_ignore_patterns : List String
  pub frame_name_ignore_prefixes : List String
  pub frame_name_ignore_suffixes : List String
  pub has_default_camera_position : Bool

-- A frame of the plant: whether it stands on the world's body or on one that is welded to it.
pub record Frame : Type 0 where
  pub index : ℕ
  pub name : String
  pub model_name : String
  pub is_world_body : Bool
  pub is_welded : Bool

pub record FrameAxesInfo : Type 0 where
  pub index : ℕ
  pub is_static : Bool
  pub hidden_by_toggle : Bool

-- What the hub draws, by the path in Meshcat's tree; the shapes and colours are left out.
pub data Command {ℓ} (X : Type ℓ) : Type ℓ where
  set_object : String → Command X
  set_transform : String → X → Command X
  set_visible set_hidden : String → Bool → Command X
  -- whether the opacity is that of an active robot
  set_opacity : String → Bool → Command X
  joint_sliders camera_pose publish : Command X
  delete_path : String → Command X
  -- a transform that is set only where the path exists
  move_existing : String → X → Command X

-- A Draco instance, and the Meshcat of its robot model.
pub record Live {ℓ} (D W : Type ℓ) : Type ℓ where
  pub model : D
  pub meshcat : W

-- Over adapters `A`, models `D`, Meshcats `W`, positions `Q`, transforms `X`, system configurations
-- `C` and joint limit indicators `I`.
pub record VisualizerHub {ℓ} (A D W Q X I : Type ℓ) : Type ℓ where
  pub status : VisualizerStatus
  pub draco_adapter : Option A
  pub options : VisualizerOptions
  pub draco : Option (Live D W)
  pub default_positions : Option Q
  pub joint_limit_indicators : List I
  pub frame_axes : List (String × FrameAxesInfo)
  pub pending_position : Option Q
  -- in milliseconds
  pub robot_last_push_time : List (String × ℕ)
  pub meshcat_task_queue : List (List (Command X))
  pub position_stream_button_name : String
  pub button_order : List (String × String)

pub record Meshcats {ℓ} (A D W Q X C I : Type ℓ) : Type ℓ where
  -- the constructor of `Draco`, and the Meshcat that it starts
  pub make_draco : A → Outcome (Live D W)
  pub default_configuration : A → Option C
  pub constraints_hash : D → ℕ
  pub frames : D → List Frame
  pub model_instances : D → List String
  pub num_positions : D → ℕ
  pub size : Q → ℕ
  -- `ToGeneralizedPosition` of the robot model
  pub to_generalized_position : D → C → Outcome Q
  -- `ToGeneralizedPosition` of draco/client_conversions, which completes from a reference
  pub complete : D → C → C → Outcome Q
  pub to_system_conf : D → Q → C
  pub robots : C → List String
  -- `CalcRelativeTransform` between two frames, by their indices
  pub relative_transform : D → Q → ℕ → ℕ → X
  -- the index of the world's frame
  pub world_frame : ℕ
  -- the place of a hidden frame, and the three axes in their frame
  pub away : X
  pub local_x : X
  pub local_y : X
  pub local_z : X
  -- `HasScopedFrameNamed` and `GetScopedFrameByName`, which throws where there is no such frame
  pub has_scoped_frame : D → String → Bool
  pub scoped_frame : D → String → Outcome Frame
  -- `StaticHtml`, and the file that it goes to
  pub save_html : W → Outcome String
  -- `GetMeshcatPositions` and `SetMeshcatPositions`
  pub positions : W → Q
  pub set_positions : Q → W → W
  pub slider_positions : W → Q
  pub button_names : W → List String
  pub button_clicks : String → W → ℕ
  -- with the key code
  pub add_button : String → String → W → Outcome W
  pub delete_button : String → W → Outcome W
  pub draw : Command X → W → W
  -- the floating-point code: `JointPositionsChanged` of common/misc_utils.h, the making of the joint
  -- limit indicators and their update
  pub joint_positions_changed : Q → Q → Bool
  pub make_indicators : D → Q → List I
  pub indicator_commands : D → Q → I → List (Command X)

-- A call that returns or throws, and changes nothing here.
unfoldable pub call {ℓ κ} : {S : Type ℓ} {B : Type κ} → Outcome B → Action S B
call o s = (o, s)

-- Read where there is none, an optional is undefined in the source.
unfoldable pub need {ℓ κ} : {S : Type ℓ} {B : Type κ} → Option B → Action S B
need none s = (throws (runtime_error "bad optional access"), s)
need (some b) s = (returns b, s)

abbrev pub no_draco : Exception
no_draco = runtime_error "Condition 'draco_ != nullptr' failed."

module _ {ℓ} {A D W Q X I : Type ℓ} where
  -- `DRAKE_THROW_UNLESS(draco_ != nullptr)`, and a use of the pointer, which without such a test is
  -- undefined where it is null.
  unfoldable pub need_draco : Action (VisualizerHub A D W Q X I) (Live D W)
  need_draco hub = (elim hub.draco [ none ↦ throws no_draco | some live ↦ returns live ], hub)

  pub need_draco-some :
      (hub : VisualizerHub A D W Q X I) (live : Live D W)
      → hub.draco ≡ some live
      → need_draco hub ≡ (returns live, hub)
  unfolding need_draco
  need_draco-some hub live e =
      ap (λ o. (elim o [ none ↦ throws no_draco | some l ↦ returns l ], hub)) e

  unfoldable pub set_status : VisualizerStatus → Action (VisualizerHub A D W Q X I) Done
  set_status status hub = (returns tt, record hub { status = status })

  unfoldable pub has_draco : Action (VisualizerHub A D W Q X I) Bool
  has_draco hub = (returns (elim hub.draco [ none ↦ Bool.false | some live ↦ Bool.true ]), hub)

  unfoldable pub request_stop : Action (VisualizerHub A D W Q X I) Done
  request_stop = set_status stopping

  unfoldable pub set_visualizer_options :
      VisualizerOptions → Action (VisualizerHub A D W Q X I) Done
  set_visualizer_options options hub = (returns tt, record hub { options = options })

  unfoldable pub queue_meshcat_task : List (Command X) → Action (VisualizerHub A D W Q X I) Done
  queue_meshcat_task task hub =
      (returns tt, record hub { meshcat_task_queue = hub.meshcat_task_queue ++ task ∷ [] })

  unfoldable pub clear_streaming_state : Action (VisualizerHub A D W Q X I) Done
  clear_streaming_state hub = (returns tt, record hub { robot_last_push_time = [] })

  -- A change of the Meshcat of the model that is shown.
  unfoldable pub on_meshcat : (W → Outcome W) → Action (VisualizerHub A D W Q X I) Done
  on_meshcat f hub = elim hub.draco [
    | none ↦ (throws no_draco, hub)
    | some live ↦ elim (f live.meshcat) [
      | returns w ↦ (returns tt, record hub { draco = some (record live { meshcat = w }) })
      | throws e ↦ (throws e, hub)
    ]
  ]

  -- `if (options_->...)`
  unfoldable pub when :
      (VisualizerOptions → Bool)
      → Action (VisualizerHub A D W Q X I) Done
      → Action (VisualizerHub A D W Q X I) Done
  when f m hub = (if f hub.options then m else pure tt) hub

module _ {ℓ} {A D W Q X C I : Type ℓ} (meshcats : Meshcats A D W Q X C I) where
  open meshcats use {draw, constraints_hash}

  unfoldable pub draw_all : List (Command X) → W → W
  draw_all [] w = w
  draw_all (c ∷ cs) w = draw_all cs (draw c w)

  unfoldable pub show : List (Command X) → Action (VisualizerHub A D W Q X I) Done
  show commands = on_meshcat (λ w. returns (draw_all commands w))

  unfoldable pub active_hash : Action (VisualizerHub A D W Q X I) ℕ
  active_hash = do live ← need_draco; pure (constraints_hash live.model)
