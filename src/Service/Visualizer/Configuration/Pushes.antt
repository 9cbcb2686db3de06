-- ===== src/Service/Visualizer/Configuration/Pushes.antt =====
-- What a push of positions answers and leaves behind.
use planning_service.Prelude.{
  ℕ, String, Bool, true, false, not, ◌==◌, List, [], ◌∷◌, Option, none, some, ◌≡◌, refl, arith,
  text_key, same_key_iff, inl, inr, sym, subst, if◌then◌else◌,
}
use planning_service.Prelude.Tests.{Bool-cases}
use planning_service.Prelude.Maps.{lookup, lookup-erase}
use planning_service.Prelude.Sets.{contains}
use planning_service.Service.Error.{Outcome, returns, throws}
use planning_service.Service.Action.{pure, resume, ◌>>=◌, ◌>>◌, bind_returns}
use planning_service.Service.Visualizer.{
  VisualizerHub, Meshcats, Live, no_draco, need_draco, need_draco-some,
}
use planning_service.Service.Visualizer.Configuration.{
  Configured, accepted, unexpected, wrong_size, assign, assign_all, push_times, push_position,
  takes, set_pending, push, set_positions_of,
}

lookup-assign_all {ℓ} :
    {V : Type ℓ} (names : List String) (v : V) (m : List (String × V)) (k : String)
    → lookup k (assign_all names v m) ≡ (if contains k names then some v else lookup k m)
unfolding assign_all assign contains lookup
lookup-assign_all [] v m k = refl
lookup-assign_all (n ∷ names) v m k =
    ground (arith, lookup-assign_all names v (assign n v m) k, lookup-erase n k m, same_key_iff n k)

module _ {ℓ} {A D W Q X C I : Type ℓ} (meshcats : Meshcats A D W Q X C I) where
  open meshcats use {size, num_positions, robots, to_system_conf}

  -- How a push ends, over whether pushes are enabled, and the model.
  pub data IsPushed (now : ℕ) (q : Q) (hub : VisualizerHub A D W Q X I)
      : Bool → Option (Live D W) → Outcome Configured × VisualizerHub A D W Q X I → Type ℓ where
    disabled :
        {o : Option (Live D W)}
        → IsPushed now q hub false o
            (returns (unexpected "Setting configuration is disabled!"), hub)
    no_model : IsPushed now q hub true none (throws no_draco, hub)
    misfit :
        {live : Live D W}
        → (size q == num_positions live.model) ≡ false
        → IsPushed now q hub true
            (some live)
            (returns (unexpected (wrong_size (num_positions live.model) (size q))), hub)
    pushed :
        {live : Live D W} (times : List (String × ℕ)) (pending : Option Q)
        → (size q == num_positions live.model) ≡ true
        → ((robot : String)
            → lookup robot times ≡ (
                if contains robot (robots (to_system_conf live.model q))
                then some now
                else lookup robot hub.robot_last_push_time))
        → pending ≡ (if takes meshcats hub.pending_position q then some q else hub.pending_position)
        → IsPushed now q hub true (some live) (
          returns accepted,
          record hub { robot_last_push_time = times; pending_position = pending },
        )

  push-IsPushed :
      (now : ℕ) (q : Q) (hub : VisualizerHub A D W Q X I) (live : Live D W)
      → IsPushed now q hub true (some live) (push meshcats now q live hub)
  unfolding push push_times push_position set_pending pure ◌>>◌ resume
  push-IsPushed now q hub live = elim (Bool-cases (size q == num_positions live.model)) [
    | inl fits ↦ elim (Bool-cases (takes meshcats hub.pending_position q)) [
      | inl t ↦
          rw (fits, t)
            (pushed _ _ fits (lookup-assign_all (robots (to_system_conf live.model q)) now _)
              (rw t refl))
      | inr t ↦
          rw (fits, t)
            (pushed _ _ fits (lookup-assign_all (robots (to_system_conf live.model q)) now _)
              (rw t refl))
    ]
    | inr misfits ↦ rw misfits (misfit misfits)
  ]

  with_model :
      (now : ℕ) (q : Q) (hub : VisualizerHub A D W Q X I) (o : Option (Live D W))
      → hub.draco ≡ o
      → IsPushed now q hub true o ((need_draco >>= push meshcats now q) hub)
  unfolding ◌>>=◌ resume need_draco
  with_model now q hub none e = rw e no_model
  with_model now q hub (some live) e =
      subst (IsPushed now q hub true (some live))
        (sym (bind_returns need_draco (push meshcats now q) (need_draco-some hub live e)))
        (push-IsPushed now q hub live)

  when_enabled :
      (now : ℕ) (q : Q) (hub : VisualizerHub A D W Q X I) (b : Bool)
      → IsPushed now q hub b hub.draco (
          (if not b
              then pure (unexpected "Setting configuration is disabled!")
              else (need_draco >>= push meshcats now q))
            hub)
  unfolding pure
  when_enabled now q hub false = disabled
  when_enabled now q hub true = with_model now q hub hub.draco refl

  -- `SetConfiguration` at positions, on every branch. Where pushes are disabled or the number of
  -- positions is wrong it answers the text of the error, without a model it throws, and nothing
  -- changes. Otherwise it accepts: each robot that the positions are about has the time `now` as its
  -- last push and no other time changes, and the positions wait in the slot unless it holds positions
  -- that they do not differ from.
  pub set_positions_of-IsPushed :
      (now : ℕ) (q : Q) (hub : VisualizerHub A D W Q X I)
      → IsPushed now q hub hub.options.enable_set_configuration hub.draco
          (set_positions_of meshcats now q hub)
  unfolding set_positions_of
  set_positions_of-IsPushed now q hub = when_enabled now q hub hub.options.enable_set_configuration
