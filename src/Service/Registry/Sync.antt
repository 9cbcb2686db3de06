-- ===== src/Service/Registry/Sync.antt =====
-- The two maps of the resource registry (resource_registry.cc) stay in step.
use planning_service.Prelude.{
  ℕ, String, Bool, not, ◌≡◌, sym, ◌∙◌, none, ◌==◌, number_key, text_key, same_key,
}
use planning_service.Prelude.Int.{ℤ}
use planning_service.Prelude.Maps.{has_key, has_key-emplace, has_key-erase}
use planning_service.Service.Action.{Action}
use planning_service.Service.Action.Keeps.{
  Keeps, bind-Keeps, then-Keeps, pure-Keeps, throw-Keeps, if-Keeps, try_catch-Keeps, option-Keeps,
}
use planning_service.Service.Registry.{
  FilePath, Resources, Options, ResourceRegistry, PlanContext, on_disk, has_draco, get_draco, store,
  erase_draco, remove_draco, hash_to_use, add_draco, activate, register_new, register_known,
  register_plan_context,
}
use planning_service.Service.Registry.Changes.{
  copy_regions, reload, migrate, migrate_planning_artifacts,
}

-- An id has a planner just where it has a context.
abbrev pub InSync {ℓ} : {W P X : Type ℓ} → ResourceRegistry W P X → Type 0
InSync r = (id : ℕ) → has_key id r.draco_map ≡ has_key id r.active_contexts_map

module _ {ℓ} {W P X : Type ℓ} where
  pub on_disk-Keeps {κ} : {A : Type κ} (m : Action W A) → Keeps InSync (on_disk {P = P} {X = X} m)
  unfolding on_disk
  on_disk-Keeps m r sync = sync

  pub has_draco-Keeps : (id : ℕ) → Keeps InSync (has_draco {W = W} {P = P} {X = X} id)
  unfolding has_draco
  has_draco-Keeps id r sync = sync

  get_draco-Keeps : (id : ℕ) → Keeps InSync (get_draco {W = W} {P = P} {X = X} id)
  unfolding get_draco
  get_draco-Keeps id r sync = sync

  store-Keeps :
      (hash : ℕ) (planner : P) (context : PlanContext X)
      → Keeps InSync (store {W = W} hash planner context)
  unfolding store
  store-Keeps hash planner context r sync id =
      has_key-emplace hash id planner r.draco_map
      ∙ rw (sync id) (sym (has_key-emplace hash id context r.active_contexts_map))

  erase_draco-Keeps : (hash : ℕ) → Keeps InSync (erase_draco {W = W} {P = P} {X = X} hash)
  unfolding erase_draco
  erase_draco-Keeps hash r sync id =
      has_key-erase hash id r.draco_map
      ∙ rw (sync id) (sym (has_key-erase hash id r.active_contexts_map))

  remove_draco-Keeps : (id : ℕ) → Keeps InSync (remove_draco {W = W} {P = P} {X = X} id)
  unfolding remove_draco
  remove_draco-Keeps id =
      bind-Keeps InSync _ _ (has_draco-Keeps id)
        (λ present. if-Keeps InSync present _ _ (erase_draco-Keeps id) (throw-Keeps _ InSync _))

module _ {ℓ} {W P X : Type ℓ} (resources : Resources W P X) (options : Options) where
  open resources use {make_planner, constraints_hash}
  open options use {dry_run, update_resource_ids, system_name, draco_is_builder}

  hash_to_use-Keeps :
      (hash computed : ℕ) (context : PlanContext X)
      → Keeps InSync (hash_to_use resources options hash computed context)
  unfolding hash_to_use
  hash_to_use-Keeps hash computed context =
      if-Keeps InSync (computed == hash) _ _ (pure-Keeps InSync hash) (
        if-Keeps InSync update_resource_ids _ _
          (then-Keeps InSync _ _ (on_disk-Keeps _) (pure-Keeps InSync computed))
          (throw-Keeps _ InSync _))

  pub add_draco-Keeps :
      (id : ℕ) (context : PlanContext X) → Keeps InSync (add_draco resources options id context)
  unfolding add_draco
  add_draco-Keeps id context =
      bind-Keeps InSync _ _ (on_disk-Keeps (make_planner context)) λ planner.
        bind-Keeps InSync _ _ (hash_to_use-Keeps id (constraints_hash planner) context) λ hash.
          if-Keeps InSync dry_run _ _ (pure-Keeps InSync tt) (store-Keeps hash planner context)

  activate-Keeps :
      (system : String) (id : ℕ) (context : PlanContext X)
      → Keeps InSync (activate resources options system id context)
  unfolding activate
  activate-Keeps system id context =
      if-Keeps InSync (not (same_key system system_name)) _ _ (pure-Keeps InSync _) (
        bind-Keeps InSync _ _ (has_draco-Keeps id) λ present.
          if-Keeps InSync present _ _ (pure-Keeps InSync _) (
            try_catch-Keeps InSync _ _
              (then-Keeps InSync _ _ (add_draco-Keeps id context) (pure-Keeps InSync _))
              (λ e. pure-Keeps InSync _)))

  register_new-Keeps :
      (system : String) (context : PlanContext X)
      → Keeps InSync (register_new resources options system context)
  unfolding register_new
  register_new-Keeps system context = bind-Keeps InSync _ _ (on_disk-Keeps _) λ o.
      option-Keeps InSync o _ _ (pure-Keeps InSync _) λ id.
        bind-Keeps InSync _ _ (on_disk-Keeps _)
          λ x. if-Keeps InSync x.0 _ _ (activate-Keeps system id x.1) (pure-Keeps InSync _)

  register_known-Keeps :
      (system : String) (id : ℕ) (context : PlanContext X)
      → Keeps InSync (register_known resources options system id context)
  unfolding register_known
  register_known-Keeps system id context =
      bind-Keeps InSync _ _ (on_disk-Keeps _)
        λ x. if-Keeps InSync x.0 _ _ (activate-Keeps system id x.1) (pure-Keeps InSync _)

  pub register_plan_context-Keeps :
      (system : String) (context : PlanContext X)
      → Keeps InSync (register_plan_context resources options system context)
  unfolding register_plan_context
  register_plan_context-Keeps system context =
      option-Keeps InSync context.id _ _ (register_new-Keeps system context)
        λ id. register_known-Keeps system id context

  copy_regions-Keeps :
      (from_id to_id : ℕ) (from_path to_path : FilePath)
      → Keeps InSync (copy_regions resources options from_id to_id from_path to_path)
  unfolding copy_regions
  copy_regions-Keeps from_id to_id from_path to_path =
      if-Keeps InSync (from_id == to_id) _ _ (pure-Keeps InSync tt) (
        bind-Keeps InSync _ _ (on_disk-Keeps _)
          λ there. if-Keeps InSync there _ _ (on_disk-Keeps _) (pure-Keeps InSync tt))

  reload-Keeps :
      (id : ℕ) (context : PlanContext X) → Keeps InSync (reload resources options id context)
  unfolding reload
  reload-Keeps id context =
      bind-Keeps InSync _ _ (on_disk-Keeps _)
        λ x. then-Keeps InSync _ _ (add_draco-Keeps id x.1) (pure-Keeps InSync _)

  migrate-Keeps :
      (blank : X) (from_id to_id : ℕ) (num_samples : ℤ) (repair : Bool)
      (from_path to_path : FilePath)
      → Keeps InSync
          (migrate resources options blank from_id to_id num_samples repair from_path to_path)
  unfolding migrate
  migrate-Keeps blank from_id to_id num_samples repair from_path to_path =
      then-Keeps InSync _ _ (copy_regions-Keeps from_id to_id from_path to_path) (
        bind-Keeps InSync _ _ (has_draco-Keeps to_id) λ present.
          then-Keeps InSync _ _
            (if-Keeps InSync present _ _ (remove_draco-Keeps to_id) (pure-Keeps InSync tt))
            (bind-Keeps InSync _ _ (reload-Keeps to_id _) λ to_context.
              then-Keeps InSync _ _ (on_disk-Keeps _) (
                bind-Keeps InSync _ _ (get_draco-Keeps to_id) λ draco.
                  then-Keeps InSync _ _ (on_disk-Keeps _) (
                    then-Keeps InSync _ _
                      (if-Keeps InSync repair _ _
                        (then-Keeps InSync _ _ (on_disk-Keeps _)
                          (bind-Keeps InSync _ _ (get_draco-Keeps to_id) λ again. on_disk-Keeps _))
                        (pure-Keeps InSync tt))
                      (then-Keeps InSync _ _ (remove_draco-Keeps to_id) (
                        then-Keeps InSync _ _ (reload-Keeps to_id to_context)
                          (pure-Keeps InSync none)))))))

  pub migrate_planning_artifacts-Keeps :
      (blank : X) (from_id to_id : ℕ) (num_samples : ℤ) (repair : Bool)
      → Keeps InSync
          (migrate_planning_artifacts resources options blank from_id to_id num_samples repair)
  unfolding migrate_planning_artifacts
  migrate_planning_artifacts-Keeps blank from_id to_id num_samples repair =
      if-Keeps InSync (not draco_is_builder) _ _ (pure-Keeps InSync _) (
        bind-Keeps InSync _ _ (on_disk-Keeps _) λ from_there.
          if-Keeps InSync (not from_there) _ _ (pure-Keeps InSync _) (
            bind-Keeps InSync _ _ (has_draco-Keeps from_id) λ present.
              if-Keeps InSync (not present) _ _ (pure-Keeps InSync _) (
                bind-Keeps InSync _ _ (on_disk-Keeps _) λ to_there.
                  if-Keeps InSync (not to_there) _ _ (pure-Keeps InSync _)
                    (migrate-Keeps blank from_id to_id num_samples repair _ _))))
