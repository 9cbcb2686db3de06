-- ===== src/Service/Visualizer/Loading.antt =====
-- `LoadAndSetModelData` (visualizer_hub.cc). Where it replaces a model, its wait for the status to
-- change is the round of `Run` that stops the model.
pub mod Answers
use planning_service.Prelude.{
  ℕ, String, Bool, true, false, not, List, [], Option, none, some, if◌then◌else◌, text_key,
}
use planning_service.Prelude.Format.{◌<>◌}
use planning_service.Prelude.Maps.{lookup}
use planning_service.Service.Error.{Outcome, returns, Exception, runtime_error}
use planning_service.Service.Action.{Action, Done, pure, throw, ◌>>=◌, ◌>>◌, try_catch}
use planning_service.Service.Visualizer.{
  VisualizerHub, VisualizerStatus, VisualizerOptions, MeshcatParams, idle, starting, active,
  stopping, need, call, set_status,
}
use planning_service.Service.Visualizer.Setup.{stop_round}

pub record VisualizerData : Type 0 where
  pub context_id : Option ℕ
  pub dmd_filename : Option String
  pub robot_meshcat_params : Option MeshcatParams

-- What the call uses of service/utils/utils.cc and of Draco's adapters `A`, over contexts `P`.
pub record ModelFiles {ℓ} (A P : Type ℓ) : Type ℓ where
  -- `PlanContext context {id}`
  pub context_of : ℕ → P
  -- `LoadContext` in the folder of the visualizers and in that of all contexts, with the context that
  -- it leaves in its argument
  pub load_visualization : P → Outcome (Bool × P)
  pub load_context : P → Outcome (Bool × P)
  -- `MakeDracoAdapterFromContext`, without parameters required
  pub adapter_from_context : P → Outcome A
  pub drop_collision_checker : A → A
  -- the adapter with the directives of a file of the folder `dmd`
  pub adapter_from_directives : String → Outcome A
  -- what comes of data that name neither a context nor a file: the read of the empty optional is
  -- undefined
  pub undefined_adapter : Outcome (Option A)
  pub set_meshcat_params : MeshcatParams → A → A
  -- `std::tolower` at each character of a text
  pub to_lower : String → String

unfoldable pub is_active : VisualizerStatus → Bool
is_active status = elim status [ active ↦ true | _ ↦ false ]

-- Discards the reserved ports and sets the port.
unfoldable pub on_port_7000 : MeshcatParams → MeshcatParams
on_port_7000 params = record params { reserved_ports = none; port = some 7000 }

unfoldable pub chosen_params : VisualizerOptions → VisualizerData → MeshcatParams
chosen_params options visualizer_data = on_port_7000 (elim visualizer_data.robot_meshcat_params [
  | none ↦ options.meshcat_params
  | some params ↦ params
])

module _ {ℓ} {A D W Q X I : Type ℓ} where
  -- `draco_adapter_ = draco_adapter`, and the signal that it is ready.
  unfoldable pub set_adapter : A → Action (VisualizerHub A D W Q X I) Done
  set_adapter adapter hub = (returns tt, record hub { draco_adapter = some adapter })

-- What the constructor starts from.
abbrev pub fresh {ℓ} : {A D W Q X I : Type ℓ} → VisualizerOptions → VisualizerHub A D W Q X I
fresh options = record {
  status = idle;
  draco_adapter = none;
  options = options;
  draco = none;
  default_positions = none;
  joint_limit_indicators = [];
  frame_axes = [];
  pending_position = none;
  robot_last_push_time = [];
  meshcat_task_queue = [];
  position_stream_button_name = "";
  button_order = [];
}

abbrev pub data_of_context : ℕ → VisualizerData
data_of_context id = record {
  context_id = some id;
  dmd_filename = none;
  robot_meshcat_params = none;
}

abbrev pub no_deployment : String → Exception
no_deployment deployment =
    runtime_error ("VH:Constructor: No default context found for deployment " <> deployment)

module _ {ℓ} {A P D W Q X I : Type ℓ} (files : ModelFiles A P) where
  open files use {
    context_of, load_visualization, load_context, adapter_from_context, drop_collision_checker,
    adapter_from_directives, undefined_adapter, set_meshcat_params, to_lower,
  }

  unfoldable pub adapter_of_context : P → Action (VisualizerHub A D W Q X I) (Option A)
  adapter_of_context context hub =
      (call (adapter_from_context context) >>= λ adapter. pure (
          some (
            if hub.options.meshcat_params.collision
            then adapter
            else drop_collision_checker adapter)))
        hub

  unfoldable pub find_anywhere : Bool × P → Action (VisualizerHub A D W Q X I) (Option A)
  find_anywhere (true, context) = adapter_of_context context
  find_anywhere (false, context) = call (load_context context) >>= λ (found, context').
      if found then adapter_of_context context' else pure none

  unfoldable pub adapter_of_file : Option String → Action (VisualizerHub A D W Q X I) (Option A)
  adapter_of_file none = call undefined_adapter
  adapter_of_file (some filename) = do
    adapter ← call (adapter_from_directives filename)
    pure (some adapter)

  -- The adapter that the visualizer_data stand for; `none` where the context is in no folder.
  unfoldable pub find_adapter : VisualizerData → Action (VisualizerHub A D W Q X I) (Option A)
  find_adapter visualizer_data = elim visualizer_data.context_id [
    | some id ↦ call (load_visualization (context_of id)) >>= find_anywhere
    | none ↦ adapter_of_file visualizer_data.dmd_filename
  ]

  unfoldable pub set_model_data :
      VisualizerData → Option A → Action (VisualizerHub A D W Q X I) Bool
  set_model_data visualizer_data none hub = pure false hub
  set_model_data visualizer_data (some adapter) hub =
      (set_adapter (set_meshcat_params (chosen_params hub.options visualizer_data) adapter)
          >> set_status starting
          >> pure true)
        hub

  -- The part under `try`.
  unfoldable pub load_model : VisualizerData → Action (VisualizerHub A D W Q X I) Bool
  load_model visualizer_data =
      try_catch (find_adapter visualizer_data >>= set_model_data visualizer_data) (λ e. pure false)

  -- Over whether the status is `Active`, whether there is a default model, and `force_reload`.
  unfoldable pub load_at :
      Bool → Bool → Bool → VisualizerData → Action (VisualizerHub A D W Q X I) Bool
  load_at true true force_reload visualizer_data = pure false
  load_at true false false visualizer_data = pure false
  load_at true false true visualizer_data =
      set_status stopping >> stop_round >> load_model visualizer_data
  load_at false default_init force_reload visualizer_data = load_model visualizer_data

  unfoldable pub load_and_set_model_data :
      VisualizerData → Bool → Action (VisualizerHub A D W Q X I) Bool
  load_and_set_model_data visualizer_data force_reload hub =
      load_at (is_active hub.status) hub.options.default_init force_reload visualizer_data hub

  unfoldable pub load_default : Option ℕ → String → Action (VisualizerHub A D W Q X I) Done
  load_default none deployment = throw (no_deployment deployment)
  load_default (some id) deployment = do
    success ← load_and_set_model_data (data_of_context id) false
    if not success
        then throw (runtime_error "VH:Constructor: Failed to load default model on initialization!")
        else pure tt

  -- The constructor's part for a default model; an empty variable of the environment counts as none.
  unfoldable pub default_init : Option String → Action (VisualizerHub A D W Q X I) Done
  default_init none hub =
      throw
        (runtime_error "VH:Constructor: DEPLOYMENT environment variable not set for default init!")
        hub
  default_init (some result) hub =
      load_default (lookup (to_lower result) hub.options.default_contexts) (to_lower result) hub

  -- The constructor, with the variable `DEPLOYMENT`.
  unfoldable pub construct :
      VisualizerOptions → Option String → Outcome Done × VisualizerHub A D W Q X I
  construct options deployment =
      (if options.default_init then default_init deployment else pure tt) (fresh options)
