-- ===== src/Service/Registry/Contexts.antt =====
-- What RegisterPlanContext and RemovePlanContext (resource_registry.cc) do to the maps, and what
-- holds after any calls.
use planning_service.Prelude.{
  ℕ, String, Bool, not, Bool-cases, inl, inr, List, [], ◌∷◌, arith, number_key, text_key, same_key,
}
use planning_service.Prelude.Int.{ℤ}
use planning_service.Prelude.Maps
use planning_service.Prelude.Maps.{has_key, lookup, emplace, has_key-emplace, has_key-erase}
use planning_service.Service.Action.{pure, throw, ◌>>=◌, ◌>>◌, resume}
use planning_service.Service.Action.Keeps.{Keeps, bind-Keeps, then-Keeps, pure-Keeps, if-Keeps}
use planning_service.Service.Registry.{
  Resources, Options, ResourceRegistry, PlanContext, has_draco, erase_draco, erase_context,
  remove_draco, register_plan_context,
}
use planning_service.Service.Registry.Changes.{
  drop_context, erase_and_drop, remove_plan_context, migrate_planning_artifacts,
}
use planning_service.Service.Registry.Sync.{
  InSync, on_disk-Keeps, has_draco-Keeps, register_plan_context-Keeps,
  migrate_planning_artifacts-Keeps,
}

module _ {ℓ} {W P X : Type ℓ} (resources : Resources W P X) (options : Options) where
  open resources use {make_planner, constraints_hash}
  open options use {dry_run, update_resource_ids, system_name, draco_is_builder}

  drop_context-Keeps : (id : ℕ) → Keeps InSync (drop_context resources options id)
  unfolding drop_context remove_draco has_draco erase_draco erase_context throw pure ◌>>=◌ ◌>>◌
      resume
  drop_context-Keeps id r sync = elim (Bool-cases (has_key id r.draco_map)) [
    | inl e ↦ rw e (λ j. ground (
      arith,
      sync j,
      has_key-erase id j r.draco_map,
      has_key-erase id j r.active_contexts_map,
      has_key-erase id j (Maps.erase id r.active_contexts_map),
    ))
    | inr e ↦ rw e sync
  ]

  remove_plan_context-Keeps :
      (system : String) (id : ℕ) (erase : Bool)
      → Keeps InSync (remove_plan_context resources options system id erase)
  unfolding remove_plan_context erase_and_drop
  remove_plan_context-Keeps system id erase =
      if-Keeps InSync (not (same_key system system_name)) _ _ (pure-Keeps InSync _) (
        bind-Keeps InSync _ _ (has_draco-Keeps id) λ present.
          if-Keeps InSync (not present) _ _ (pure-Keeps InSync _) (
            if-Keeps InSync erase _ _
              (bind-Keeps InSync _ _ (on_disk-Keeps _) λ there.
                if-Keeps InSync there _ _
                  (then-Keeps InSync _ _ (on_disk-Keeps _) (drop_context-Keeps id))
                  (pure-Keeps InSync _))
              (drop_context-Keeps id)))

  -- The public calls that change the registry.
  pub data Call : Type ℓ where
    register : String → PlanContext X → Call
    remove : String → ℕ → Bool → Call
    migrate : X → ℕ → ℕ → ℤ → Bool → Call

  -- What a call leaves, whether it returns or throws.
  abbrev pub after : Call → ResourceRegistry W P X → ResourceRegistry W P X
  after (register system context) r = (register_plan_context resources options system context r).1
  after (remove system id erase) r = (remove_plan_context resources options system id erase r).1
  after (migrate blank from_id to_id num_samples repair) r =
      (migrate_planning_artifacts resources options blank from_id to_id num_samples repair r).1

  abbrev pub run : List Call → ResourceRegistry W P X → ResourceRegistry W P X
  run [] r = r
  run (call ∷ calls) r = run calls (after call r)

  -- The maps of planners and of contexts have the same ids after any calls of the registry's public
  -- operations, the ones that fail or throw midway among them, where they have them at the start.
  pub run-InSync :
      (calls : List Call) (r : ResourceRegistry W P X) → InSync r → InSync (run calls r)
  run-InSync [] r sync = sync
  run-InSync (register system context ∷ calls) r sync =
      run-InSync calls _ (register_plan_context-Keeps resources options system context r sync)
  run-InSync (remove system id erase ∷ calls) r sync =
      run-InSync calls _ (remove_plan_context-Keeps system id erase r sync)
  run-InSync (migrate blank from_id to_id num_samples repair ∷ calls) r sync = run-InSync calls _ (
      migrate_planning_artifacts-Keeps resources options blank from_id to_id num_samples repair r
        sync)
