-- ===== src/Service/Visualizer/Loading/Answers.antt =====
-- What `LoadAndSetModelData` answers, and what the next round of `Run` makes of it.
use planning_service.Prelude.{String, Bool, true, false, [], Option, none, some, ◌≡◌, refl}
use planning_service.Service.Error.{Outcome, returns, throws, Exception}
use planning_service.Service.Action.{pure, resume, handle, try_catch, ◌>>=◌, ◌>>◌}
use planning_service.Service.Action.Keeps.{Keeps, bind-Keeps, pure-Keeps, if-Keeps, option-Keeps}
use planning_service.Service.Visualizer.{
  VisualizerHub, Live, idle, starting, call, need, set_status,
}
use planning_service.Service.Visualizer.Loading.{
  ModelFiles, VisualizerData, chosen_params, set_adapter, adapter_of_file, adapter_of_context,
  find_anywhere, find_adapter, set_model_data, load_model, load_at,
}
use planning_service.Service.Visualizer.Setup.{stop_round, stop_with, reset_model}

module _ {ℓ} {A D W Q X I : Type ℓ} (R : VisualizerHub A D W Q X I → Type ℓ) where
  pub call-Keeps {κ} : {B : Type κ} (o : Outcome B) → Keeps R (call o)
  unfolding call
  call-Keeps o hub h = h

  pub need-Keeps {κ} : {B : Type κ} (o : Option B) → Keeps R (need o)
  unfolding need
  need-Keeps none hub h = h
  need-Keeps (some b) hub h = h

module _ {ℓ} {A P D W Q X I : Type ℓ} (files : ModelFiles A P)
    (R : VisualizerHub A D W Q X I → Type ℓ) where
  -- The search for an adapter keeps every property of the hub.
  adapter_of_context-Keeps : (context : P) → Keeps R (adapter_of_context files context)
  unfolding adapter_of_context
  adapter_of_context-Keeps context hub =
      bind-Keeps R _ _ (call-Keeps R _) (λ adapter. pure-Keeps R _) hub

  find_anywhere-Keeps : (x : Bool × P) → Keeps R (find_anywhere files x)
  unfolding find_anywhere
  find_anywhere-Keeps (true, context) = adapter_of_context-Keeps context
  find_anywhere-Keeps (false, context) =
      bind-Keeps R _ _ (call-Keeps R _)
        λ x. if-Keeps R x.0 _ _ (adapter_of_context-Keeps x.1) (pure-Keeps R none)

  adapter_of_file-Keeps : (filename : Option String) → Keeps R (adapter_of_file files filename)
  unfolding adapter_of_file
  adapter_of_file-Keeps none = call-Keeps R _
  adapter_of_file-Keeps (some filename) =
      bind-Keeps R _ _ (call-Keeps R _) λ adapter. pure-Keeps R _

  pub find_adapter-Keeps : (d : VisualizerData) → Keeps R (find_adapter files d)
  unfolding find_adapter
  find_adapter-Keeps d =
      option-Keeps R d.context_id _ _ (adapter_of_file-Keeps d.dmd_filename)
        (λ id. bind-Keeps R _ _ (call-Keeps R _) find_anywhere-Keeps)

module _ {ℓ} {A P D W Q X I : Type ℓ} (files : ModelFiles A P) where
  -- How loading a model into `ready` ends, over how the search for its adapter ends.
  pub data IsLoad (visualizer_data : VisualizerData) (ready : VisualizerHub A D W Q X I)
      : Outcome (Option A) → Outcome Bool × VisualizerHub A D W Q X I → Type ℓ where
    loaded :
        (adapter : A)
        → IsLoad visualizer_data ready (returns (some adapter)) (
          returns true,
          record ready {
            draco_adapter =
                some
                  (files.set_meshcat_params (chosen_params ready.options visualizer_data) adapter);
            status = starting;
          },
        )
    missing : IsLoad visualizer_data ready (returns none) (returns false, ready)
    failed : (e : Exception) → IsLoad visualizer_data ready (throws e) (returns false, ready)

  load_found :
      (d : VisualizerData) (hub : VisualizerHub A D W Q X I)
      (x : Outcome (Option A) × VisualizerHub A D W Q X I)
      → x.1 ≡ hub
      → IsLoad d hub x.0 (handle (λ e. pure false) (resume (set_model_data files d) x))
  unfolding resume handle set_model_data set_adapter set_status pure ◌>>◌
  load_found d hub (returns (some adapter), hub') e = rw e (loaded adapter)
  load_found d hub (returns none, hub') e = rw e missing
  load_found d hub (throws x, hub') e = rw e (failed x)

  pub load_model-IsLoad :
      (d : VisualizerData) (hub : VisualizerHub A D W Q X I)
      → IsLoad d hub (find_adapter files d hub).0 (load_model files d hub)
  unfolding load_model try_catch ◌>>=◌
  load_model-IsLoad d hub =
      load_found d hub (find_adapter files d hub)
        (find_adapter-Keeps files (λ hub'. hub' ≡ hub) d hub refl)

  -- The hub once its model was taken away.
  abbrev pub cleared : VisualizerHub A D W Q X I → VisualizerHub A D W Q X I
  cleared hub = record hub {
    status = idle;
    draco_adapter = none;
    draco = none;
    default_positions = none;
    joint_limit_indicators = [];
    frame_axes = [];
  }

  -- How a call ends: an active hub refuses it, unless it was forced and has no default model.
  pub data IsAnswer (d : VisualizerData) (hub : VisualizerHub A D W Q X I)
      : Bool → Bool → Bool → Outcome Bool × VisualizerHub A D W Q X I → Type ℓ where
    has_default : {force : Bool} → IsAnswer d hub true true force (returns false, hub)
    not_forced : IsAnswer d hub true false false (returns false, hub)
    forced :
        {x : Outcome Bool × VisualizerHub A D W Q X I}
        → IsLoad d (cleared hub) (find_adapter files d (cleared hub)).0 x
        → IsAnswer d hub true false true x
    from_other :
        {default_init force : Bool} {x : Outcome Bool × VisualizerHub A D W Q X I}
        → IsLoad d hub (find_adapter files d hub).0 x
        → IsAnswer d hub false default_init force x

  pub load_at-IsAnswer :
      (b default_init force : Bool) (d : VisualizerData) (hub : VisualizerHub A D W Q X I)
      → (b ≡ true → (live : Live D W) × (hub.draco ≡ some live))
      → IsAnswer d hub b default_init force (load_at files b default_init force d hub)
  unfolding load_at pure set_status stop_round stop_with reset_model ◌>>◌ resume
  load_at-IsAnswer true true force d hub h = has_default
  load_at-IsAnswer true false false d hub h = not_forced
  load_at-IsAnswer true false true d hub h =
      rw (h refl).1 (forced (load_model-IsLoad d (cleared hub)))
  load_at-IsAnswer false default_init force d hub h = from_other (load_model-IsLoad d hub)
