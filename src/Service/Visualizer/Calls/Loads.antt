-- ===== src/Service/Visualizer/Calls/Loads.antt =====
-- A load, and the round of `Run` after it.
use planning_service.Prelude.{
  ℕ, Bool, true, false, List, Option, none, some, ◌≡◌, ◌≢◌, ◌⊎◌, refl, arith, ap, sym, subst, ◌∙◌,
  if◌then◌else◌,
}
use mathlib.Core.Option
use planning_service.Service.Error.{Outcome, returns, throws, Exception}
use planning_service.Service.Action.{Done, pure, resume, ◌>>=◌, ◌>>◌}
use planning_service.Service.Visualizer.{
  VisualizerHub, VisualizerStatus, Meshcats, Live, idle, starting, active, stopping, no_status,
  need, set_status,
}
use planning_service.Service.Visualizer.Loading.{
  ModelFiles, VisualizerData, is_active, find_adapter, load_at, load_and_set_model_data,
  chosen_params,
}
use planning_service.Service.Visualizer.Loading.Answers.{
  IsAnswer, IsLoad, loaded, missing, failed, load_at-IsAnswer, load_model-IsLoad,
}
use planning_service.Service.Visualizer.Setup.{setup, set_model, start_model, start_round}
use planning_service.Service.Visualizer.Run.{round, round_at}
use planning_service.Service.Visualizer.Alive.{has_model, IsLive}
use planning_service.Service.Visualizer.Alive.Rounds.{setup-Keeps}
use planning_service.Service.Visualizer.Calls.{IsSound}

active_only : (s : VisualizerStatus) → is_active s ≡ true → s ≡ active
unfolding is_active
active_only active e = refl
active_only no_status e = absurd (ground arith)
active_only idle e = absurd (ground arith)
active_only starting e = absurd (ground arith)
active_only stopping e = absurd (ground arith)

some_model {ℓ} :
    {D W : Type ℓ} (o : Option (Live D W))
    → has_model o ≡ true
    → (live : Live D W) × (o ≡ some live)
some_model none e = absurd (ground arith)
some_model (some live) e = (live, refl)

-- The data name a context or a file of directives.
abbrev pub IsNamed : VisualizerData → Type 0
IsNamed d = (d.context_id ≢ none) ⊎ (d.dmd_filename ≢ none)

module _ {ℓ} {A P D W Q X I : Type ℓ} (files : ModelFiles A P) where
  -- On a sound hub and for data that name a context or a file of directives, `LoadAndSetModelData`
  -- never throws. An active hub with a default model refuses
  -- every call, and any other active hub refuses a call that is not forced; then nothing changes. A
  -- forced call first takes the model of an active hub away. The call then answers true where the
  -- search for an adapter finds one: the adapter with the chosen parameters, without reserved ports
  -- and with port 7000, is set, and the status is `Starting`. It answers false and changes nothing
  -- more where there is none, or where the search throws.
  pub load_and_set_model_data-IsAnswer :
      (d : VisualizerData) (force : Bool) (hub : VisualizerHub A D W Q X I)
      → IsSound hub
      → IsNamed d
      → IsAnswer files d hub
          (is_active hub.status)
          hub.options.default_init
          force
          (load_and_set_model_data files d force hub)
  unfolding load_and_set_model_data IsSound
  load_and_set_model_data-IsAnswer d force hub h named =
      load_at-IsAnswer files _ _ force d hub
        (λ e. some_model hub.draco (h.0 (active_only hub.status e)))

module _ {ℓ} {A D W Q X C I : Type ℓ} (meshcats : Meshcats A D W Q X C I) where
  -- How a round that starts a model ends, over how the making of the model ends.
  pub data IsStarted (hub : VisualizerHub A D W Q X I)
      : Outcome (Live D W) → Outcome Done × VisualizerHub A D W Q X I → Type ℓ where
    not_made : (e : Exception) → IsStarted hub (throws e) (returns tt, record hub { status = idle })
    is_active_now :
        (live : Live D W) (after : VisualizerHub A D W Q X I)
        → setup meshcats (record hub { draco = some live }) ≡ (returns true, after)
        → has_model after.draco ≡ true
        → IsStarted hub (returns live) (returns tt, record after { status = active })
    setup_throws :
        (live : Live D W) (e : Exception) (after : VisualizerHub A D W Q X I)
        → setup meshcats (record hub { draco = some live }) ≡ (throws e, after)
        → has_model after.draco ≡ true
        → after.status ≡ hub.status
        → IsStarted hub (returns live) (throws e, after)

  abbrev OnlyTrue : Outcome Bool → Type 0
  OnlyTrue (returns b) = b ≡ true
  OnlyTrue (throws e) = Unit

  then_true {κ} :
      {B : Type κ} (x : Outcome B × VisualizerHub A D W Q X I)
      → OnlyTrue (resume (λ b. pure true) x).0
  unfolding resume pure
  then_true (returns b, hub) = refl
  then_true (throws e, hub) = tt

  setup-OnlyTrue : (hub : VisualizerHub A D W Q X I) → OnlyTrue (setup meshcats hub).0
  unfolding setup ◌>>◌
  setup-OnlyTrue hub = then_true _

  finish :
      (hub : VisualizerHub A D W Q X I) (live : Live D W)
      (x : Outcome Bool × VisualizerHub A D W Q X I)
      → setup meshcats (record hub { draco = some live }) ≡ x
      → IsLive hub.status x.1
      → OnlyTrue x.0
      → IsStarted hub
          (returns live)
          (resume (λ success. if success then set_status active else pure tt) x)
  unfolding resume set_status IsLive pure
  finish hub live (returns true, after) e h t = is_active_now live after e h.0
  finish hub live (returns false, after) e h t = absurd (ground arith)
  finish hub live (throws x, after) e h t = setup_throws live x after e h.0 h.1

  start_model-IsStarted :
      (hub : VisualizerHub A D W Q X I) (o : Outcome (Live D W))
      → IsStarted hub o (start_model meshcats o hub)
  unfolding start_model set_model set_status ◌>>=◌ ◌>>◌ resume IsLive
  start_model-IsStarted hub (throws e) = not_made e
  start_model-IsStarted hub (returns live) =
      let hub' : VisualizerHub A D W Q X I = record hub { draco = some live } in
      finish hub live _ refl (setup-Keeps meshcats hub.status hub' (refl, refl))
        (setup-OnlyTrue hub')

  round-IsStarted :
      (times : List ℕ) (hub : VisualizerHub A D W Q X I) (adapter : A)
      → hub.status ≡ starting
      → hub.draco_adapter ≡ some adapter
      → IsStarted hub (meshcats.make_draco adapter) (round meshcats times hub)
  unfolding round round_at start_round need ◌>>=◌ resume
  round-IsStarted times hub adapter e e' =
      subst (IsStarted hub (meshcats.make_draco adapter))
        (sym (
          ap (λ s. round_at meshcats s times hub) e
          ∙ ap (λ o. (need o >>= λ a. start_model meshcats (meshcats.make_draco a)) hub) e'))
        (start_model-IsStarted hub (meshcats.make_draco adapter))

module _ {ℓ} {A P D W Q X C I : Type ℓ} (meshcats : Meshcats A D W Q X C I)
    (files : ModelFiles A P) where
  pub found_loads :
      (d : VisualizerData) (hub : VisualizerHub A D W Q X I) (a : A) {o : Outcome (Option A)}
      {x : Outcome Bool × VisualizerHub A D W Q X I}
      → IsLoad files d hub o x
      → o ≡ returns (some a)
      → x ≡ (
        returns true,
        record hub {
          draco_adapter = some (files.set_meshcat_params (chosen_params hub.options d) a);
          status = starting;
        },
      )
  found_loads d hub a (loaded b) e =
      rw (ap {B = A} (λ o. elim o [ returns p ↦ Option.get_or p a | throws e' ↦ a ]) e) refl
  found_loads d hub a missing e = absurd (ground arith)
  found_loads d hub a (failed x) e = absurd (ground arith)

  -- A load on a hub that is not active, whose search finds an adapter, answers true, and the next
  -- round of `Run` starts that adapter with the chosen parameters: where the model cannot be made,
  -- the status is `Idle` again; where it is made and set up, the status is `Active` and there is a
  -- model; where the set up throws, so does `Run`, and the status is still `Starting`.
  pub load-round :
      (d : VisualizerData) (force : Bool) (hub : VisualizerHub A D W Q X I) (a : A) (times : List ℕ)
      → is_active hub.status ≡ false
      → (find_adapter files d hub).0 ≡ returns (some a)
      → let after = load_and_set_model_data files d force hub in
        (after.0 ≡ returns true)
        × IsStarted meshcats after.1
            (meshcats.make_draco (files.set_meshcat_params (chosen_params hub.options d) a))
            (round meshcats times after.1)
  unfolding load_and_set_model_data load_at
  load-round d force hub a times e found =
      let same =
        ap (λ b. load_at files b hub.options.default_init force d hub) e
        ∙ found_loads d hub a (load_model-IsLoad files d hub) found in
      rw same (refl, round-IsStarted meshcats times _ _ refl refl)
