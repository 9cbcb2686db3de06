-- ===== src/Comms/Viz/Started.antt =====
-- `StartVisualizer` together with the round of `Run` that it waits for.
use planning_service.Prelude.{ℕ, true, false, List, none, some, ◌≡◌, refl, ap, ◌∙◌}
use planning_service.Service.Error.{returns, throws, Exception}
use planning_service.Service.Action.{resume, ◌>>=◌, ◌>>◌}
use planning_service.Service.Visualizer.{
  VisualizerHub, Meshcats, idle, starting, need, need_draco, no_draco, set_status,
  set_visualizer_options,
}
use planning_service.Service.Visualizer.Loading.{
  ModelFiles, is_active, find_adapter, load_at, load_and_set_model_data, chosen_params,
}
use planning_service.Service.Visualizer.Loading.Answers.{load_model-IsLoad}
use planning_service.Service.Visualizer.Calls.Loads.{found_loads}
use planning_service.Service.Visualizer.Setup.{start_model, start_round}
use planning_service.Service.Visualizer.Run.{round, round_at}
use planning_service.Comms.Viz.{StartVisualizerRequest}
use planning_service.Comms.Viz.Start.{
  requested_options, requested_data, start_visualizer, after_load,
}

module _ {ℓ} {A P D W Q X C I : Type ℓ} (meshcats : Meshcats A D W Q X C I)
    (files : ModelFiles A P) where
  -- The hub with the options of the request.
  abbrev pub asked : StartVisualizerRequest → VisualizerHub A D W Q X I → VisualizerHub A D W Q X I
  asked request hub = record hub { options = requested_options hub.options request }

  -- The adapter that a request sets, over the one that the search finds.
  abbrev pub adapter_for : StartVisualizerRequest → VisualizerHub A D W Q X I → A → A
  adapter_for request hub a =
      files.set_meshcat_params
        (chosen_params (requested_options hub.options request) (requested_data request)) a

  -- The hub with the adapter, about to start.
  abbrev loaded_hub :
      StartVisualizerRequest → VisualizerHub A D W Q X I → A → VisualizerHub A D W Q X I
  loaded_hub request hub a = record (asked request hub) {
    draco_adapter = some (adapter_for request hub a);
    status = starting;
  }

  loads :
      (request : StartVisualizerRequest) (hub : VisualizerHub A D W Q X I) (a : A)
      → is_active hub.status ≡ false
      → (find_adapter files (requested_data request) (asked request hub)).0 ≡ returns (some a)
      → load_and_set_model_data files
          (requested_data request)
          request.force_reload
          (asked request hub)
        ≡ (returns true, loaded_hub request hub a)
  unfolding load_and_set_model_data load_at
  loads request hub a e found =
      ap
        (λ b.
          load_at files b (asked request hub).options.default_init request.force_reload
            (requested_data request) (asked request hub))
        e
      ∙ found_loads meshcats files (requested_data request) (asked request hub) a
          (load_model-IsLoad files (requested_data request) (asked request hub)) found

  fails_to_start :
      (hub : VisualizerHub A D W Q X I) (a : A) (times : List ℕ) (e : Exception)
      → meshcats.make_draco a ≡ throws e
      → round meshcats times (record hub { draco_adapter = some a; status = starting })
        ≡ (returns tt, record hub { draco_adapter = some a; status = idle })
  unfolding round round_at start_round need start_model set_status ◌>>=◌ resume
  fails_to_start hub a times e made = rw made refl

  -- On a hub that is not active and has no model, where the search for an adapter finds one and Draco
  -- cannot be made from it, StartVisualizer ends, once the round of Run that it waits for is over, with
  -- the exception of ActiveHash and no answer, and leaves the status Idle.
  pub start_visualizer_unmade :
      (request : StartVisualizerRequest) (hub : VisualizerHub A D W Q X I) (a : A) (times : List ℕ)
      (e : Exception)
      → is_active hub.status ≡ false
      → hub.draco ≡ none
      → (find_adapter files (requested_data request) (asked request hub)).0 ≡ returns (some a)
      → meshcats.make_draco (adapter_for request hub a) ≡ throws e
      → start_visualizer files (λ status. round meshcats times) request hub ≡ (
        throws no_draco,
        record (asked request hub) {
          draco_adapter = some (adapter_for request hub a);
          status = idle;
        },
      )
  unfolding start_visualizer after_load set_visualizer_options need_draco ◌>>=◌ ◌>>◌ resume
  start_visualizer_unmade request hub a times e inactive empty found made =
      rw
        (
          loads request hub a inactive found,
          fails_to_start (asked request hub) (adapter_for request hub a) times e made,
          empty,
        )
        refl
