-- ===== src/Service/Registry.antt =====
-- planning_service/service/utils/resource_registry.h and resource_registry.cc: the Draco planners
-- of the active system, by context id, and the contexts on disk that they come from. The calls
-- follow one another. The constructor is in `Start`; the web page of the
-- visualizers is left out.
pub mod Changes
pub mod Sync
pub mod Contexts
pub mod Effects
pub mod Start
pub mod Examples
use planning_service.Prelude.{
  ℕ, String, Bool, true, false, not, ◌||◌, ◌&&◌, Option, none, some, List, [], ◌∷◌, ◌++◌, ◌==◌,
  if◌then◌else◌, text_key, number_key, same_key,
}
use planning_service.Prelude.Int.{ℤ}
use planning_service.Prelude.Maps.{has_key, lookup, emplace, erase}
use planning_service.Prelude.Format.{◌<>◌, decimal}
use planning_service.Service.Error.{
  ServiceError, Expected, value, unexpected, Exception, runtime_error, what, context_invalid,
  context_not_found, Outcome, returns, throws,
}
use planning_service.Service.Action.{Action, Done, pure, throw, ◌>>=◌, ◌>>◌, try_catch}

-- The names of a path, the last one first.
abbrev pub FilePath : Type 0
FilePath = List String

-- What the registry reads and writes of a `PlanContext`, and the rest of it.
pub record PlanContext {ℓ} (X : Type ℓ) : Type ℓ where
  pub id : Option ℕ
  pub context_dir : FilePath
  pub urdf_dir : FilePath
  pub content : X

-- What the registry reads of its `ResourceOptions`, and its constant members.
pub record Options : Type 0 where
  pub update_resource_ids : Bool
  pub dry_run : Bool
  pub draco_is_builder : Bool
  pub system_name : String
  pub data_path_root : FilePath

pub record ResourceRegistry {ℓ} (W P X : Type ℓ) : Type ℓ where
  pub draco_map : List (ℕ × P)
  pub active_contexts_map : List (ℕ × PlanContext X)
  -- the file system
  pub disk : W

-- What the registry uses of the file system, of service/utils/utils.cc and of the planners `P`.
pub record Resources {ℓ} (W P X : Type ℓ) : Type ℓ where
  pub is_directory : FilePath → Action W Bool
  pub is_regular_file : FilePath → Action W Bool
  pub rename : FilePath → FilePath → Action W Done
  pub remove : FilePath → Action W Done
  pub remove_all : FilePath → Action W Done
  -- with `overwrite_existing`
  pub copy_file : FilePath → FilePath → Action W Done
  -- `utils::RegisterPlanContext`
  pub compute_context_id : PlanContext X → FilePath → Action W (Option ℕ)
  -- with the context that the call leaves in its argument; its id stays
  pub save_context : PlanContext X → FilePath → Action W (Bool × PlanContext X)
  pub load_context : PlanContext X → FilePath → Action W (Bool × PlanContext X)
  -- `MakeDracoAdapterFromContext` and the constructor of `DracoPlanner`
  pub make_planner : PlanContext X → Action W P
  pub constraints_hash : P → ℕ
  -- of `mutable_artifact_builder()`
  pub load_validate_and_save_files : P → FilePath → FilePath → Bool → Action W Done
  pub repair_regions : P → ℤ → Action W Done
  pub format_path : FilePath → String

-- `PlanContext to_context {id}`, whose other members have their default values.
abbrev pub context_of_id {ℓ} : {X : Type ℓ} → X → ℕ → PlanContext X
context_of_id blank id = record { id = some id; context_dir = []; urdf_dir = []; content = blank }

abbrev pub parent_path : FilePath → FilePath
parent_path [] = []
parent_path (name ∷ names) = names

abbrev pub invalid : String → Expected ℕ
invalid msg = unexpected (record { code = context_invalid; msg = msg })

abbrev pub not_found : String → Expected ℕ
not_found msg = unexpected (record { code = context_not_found; msg = msg })

abbrev pub missing_draco : ℕ → Exception
missing_draco id = runtime_error ("Draco " <> decimal id <> " was requested, but does not exist!")

module _ {ℓ} {W P X : Type ℓ} where
  -- A part that changes the file system alone.
  unfoldable pub on_disk {κ} : {A : Type κ} → Action W A → Action (ResourceRegistry W P X) A
  on_disk m r = let (o, disk) = m r.disk in (o, record r { disk = disk })

  unfoldable pub has_draco : ℕ → Action (ResourceRegistry W P X) Bool
  has_draco id r = (returns (has_key id r.draco_map), r)

  -- `GetDraco` and `GetMutableDraco`
  unfoldable pub get_draco : ℕ → Action (ResourceRegistry W P X) P
  get_draco id r = (
    elim (lookup id r.draco_map) [
      | some planner ↦ returns planner
      | none ↦ throws (missing_draco id)
    ],
    r,
  )

  unfoldable pub store : ℕ → P → PlanContext X → Action (ResourceRegistry W P X) Done
  store hash planner context r = (
    returns tt,
    record r {
      draco_map = emplace hash planner r.draco_map;
      active_contexts_map = emplace hash context r.active_contexts_map;
    },
  )

  -- The two `erase` calls of `RemoveDraco`.
  unfoldable pub erase_draco : ℕ → Action (ResourceRegistry W P X) Done
  erase_draco hash r = (
    returns tt,
    record r {
      active_contexts_map = erase hash r.active_contexts_map;
      draco_map = erase hash r.draco_map;
    },
  )

  unfoldable pub erase_context : ℕ → Action (ResourceRegistry W P X) Done
  erase_context hash r =
      (returns tt, record r { active_contexts_map = erase hash r.active_contexts_map })

  unfoldable pub remove_draco : ℕ → Action (ResourceRegistry W P X) Done
  remove_draco id = do
    present ← has_draco id
    if present
        then erase_draco id
        else throw
            (runtime_error ("Hash requested for removal is not present! (" <> decimal id <> ")"))

module _ {ℓ} {W P X : Type ℓ} (resources : Resources W P X) (options : Options) where
  open resources use {
    is_directory, is_regular_file, rename, remove, remove_all, copy_file, compute_context_id,
    save_context, load_context, make_planner, constraints_hash, load_validate_and_save_files,
    repair_regions, format_path,
  }
  open options use {update_resource_ids, dry_run, draco_is_builder, system_name, data_path_root}

  abbrev pub context_base_path : FilePath
  context_base_path = "contexts" ∷ system_name ∷ data_path_root

  -- The hash under which `AddDraco` stores a planner: the directory is renamed where they differ.
  unfoldable pub hash_to_use : ℕ → ℕ → PlanContext X → Action (ResourceRegistry W P X) ℕ
  hash_to_use hash computed_hash context =
      if computed_hash == hash
      then pure hash
      else if update_resource_ids
      then (on_disk
            (rename context.context_dir (decimal computed_hash ∷ parent_path context.context_dir))
          >> pure computed_hash)
      else throw (
          runtime_error (
            "Assigned hash [" <> decimal hash <> "] != computed [" <> decimal computed_hash <> "]"))

  unfoldable pub add_draco : ℕ → PlanContext X → Action (ResourceRegistry W P X) Done
  add_draco id context = do
    planner ← on_disk (make_planner context)
    hash ← hash_to_use id (constraints_hash planner) context
    if dry_run then pure tt else store hash planner context

  -- The end of `RegisterPlanContext`, once the context has the id `context_id`.
  unfoldable pub activate :
      String → ℕ → PlanContext X → Action (ResourceRegistry W P X) (Expected ℕ)
  activate system context_id context =
      if not (same_key system system_name) then pure (value context_id) else do
        present ← has_draco context_id
        if present
            then pure (value context_id)
            else try_catch (add_draco context_id context >> pure (value context_id)) (λ e.
              pure (invalid ("Failed to create Draco instance due to exception: " <> what e)))

  -- `RegisterPlanContext` for a context without an id.
  unfoldable pub register_new :
      String → PlanContext X → Action (ResourceRegistry W P X) (Expected ℕ)
  register_new system context = do
    let data_path = system ∷ data_path_root
    let urdf_dir = "urdf" ∷ data_path
    context_id_opt ← on_disk (compute_context_id context urdf_dir)
    elim context_id_opt [
      | none ↦ pure (invalid "Failed to compute context ID!")
      | some context_id ↦ do
        (saved, context') ← on_disk (
            save_context (record context { id = some context_id; urdf_dir = urdf_dir })
              ("contexts" ∷ data_path))
        if saved
            then activate system context_id context'
            else pure (invalid "Failed to save context to disk!")
    ]

  -- `RegisterPlanContext` for a context with an id.
  unfoldable pub register_known :
      String → ℕ → PlanContext X → Action (ResourceRegistry W P X) (Expected ℕ)
  register_known system context_id context = do
    (loaded, context') ← on_disk (load_context context ("contexts" ∷ system ∷ data_path_root))
    if loaded
        then activate system context_id context'
        else pure (invalid "Failed to load context from disk!")

  unfoldable pub register_plan_context :
      String → PlanContext X → Action (ResourceRegistry W P X) (Expected ℕ)
  register_plan_context system context = elim context.id [
    | none ↦ register_new system context
    | some context_id ↦ register_known system context_id context
  ]
