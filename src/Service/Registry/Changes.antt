-- ===== src/Service/Registry/Changes.antt =====
-- RemovePlanContext and MigratePlanningArtifacts of resource_registry.cc.
use planning_service.Prelude.{
  ℕ, String, Bool, not, Option, none, some, ◌∷◌, ◌==◌, if◌then◌else◌, text_key, number_key,
  same_key,
}
use planning_service.Prelude.Int.{ℤ}
use planning_service.Prelude.Format.{◌<>◌, decimal}
use planning_service.Service.Error.{Expected, value}
use planning_service.Service.Action.{Action, Done, pure, ◌>>=◌, ◌>>◌}
use planning_service.Service.Registry.{
  FilePath, Resources, Options, ResourceRegistry, PlanContext, context_of_id, context_base_path,
  invalid, not_found, on_disk, has_draco, get_draco, remove_draco, erase_context, add_draco,
}

module _ {ℓ} {W P X : Type ℓ} (resources : Resources W P X) (options : Options) where
  open resources use {
    is_directory, is_regular_file, remove, remove_all, copy_file, load_context,
    load_validate_and_save_files, repair_regions, format_path,
  }
  open options use {draco_is_builder, system_name}

  abbrev pub not_active : ℕ → Expected ℕ
  not_active context_id = invalid (
      "Context "
      <> decimal context_id
      <> " is not part of the active system "
      <> system_name
      <> ". Cannot remove context!")

  abbrev pub not_in_system : ℕ → Expected ℕ
  not_in_system context_id = not_found (
      "Context "
      <> decimal context_id
      <> " not found in active system "
      <> system_name
      <> ". Cannot remove context!")

  abbrev pub not_on_disk : FilePath → Expected ℕ
  not_on_disk path =
      not_found ("Context path " <> format_path path <> " not found on disk. Cannot erase context!")

  -- The end of `RemovePlanContext`.
  unfoldable pub drop_context : ℕ → Action (ResourceRegistry W P X) (Expected ℕ)
  drop_context context_id = do
    remove_draco context_id
    erase_context context_id
    pure (value context_id)

  -- `RemovePlanContext` where the context is to be erased from the disk as well.
  unfoldable pub erase_and_drop : ℕ → Action (ResourceRegistry W P X) (Expected ℕ)
  erase_and_drop context_id = do
    let context_path = decimal context_id ∷ context_base_path resources options
    on_there ← on_disk (is_directory context_path)
    if on_there
        then (on_disk (remove_all context_path) >> drop_context context_id)
        else pure (not_on_disk context_path)

  unfoldable pub remove_plan_context :
      String → ℕ → Bool → Action (ResourceRegistry W P X) (Expected ℕ)
  remove_plan_context system context_id erase =
      if not (same_key system system_name) then pure (not_active context_id) else do
        present ← has_draco context_id
        if not present
            then pure (not_in_system context_id)
            else if erase
            then erase_and_drop context_id
            else drop_context context_id

  -- `std::expected<void, std::string>`: the message of an error, or nothing.
  abbrev pub Migrated : Type 0
  Migrated = Option String

  -- The copy of the regions' file.
  unfoldable pub copy_regions : ℕ → ℕ → FilePath → FilePath → Action (ResourceRegistry W P X) Done
  copy_regions from_id to_id from_path to_path = if from_id == to_id then pure tt else do
    there ← on_disk (is_regular_file ("iris_regions.yaml" ∷ from_path))
    if there
        then on_disk (copy_file ("iris_regions.yaml" ∷ from_path) ("iris_regions.yaml" ∷ to_path))
        else pure tt

  -- A planner is loaded again from the disk; the answer of `LoadContext` is not looked at.
  unfoldable pub reload : ℕ → PlanContext X → Action (ResourceRegistry W P X) (PlanContext X)
  reload to_id context = do
    (loaded, context') ← on_disk (load_context context (context_base_path resources options))
    add_draco resources options to_id context'
    pure context'

  -- The second half of `MigratePlanningArtifacts`, once the source and the target are there.
  unfoldable pub migrate :
      X → ℕ → ℕ → ℤ → Bool → FilePath → FilePath → Action (ResourceRegistry W P X) Migrated
  migrate blank from_id to_id num_samples repair_artifacts from_path to_path = do
    copy_regions from_id to_id from_path to_path
    present ← has_draco to_id
    if present then remove_draco to_id else pure tt
    to_context ← reload to_id (context_of_id blank to_id)
    on_disk (remove ("thunder_prm.dat" ∷ to_path))
    draco ← get_draco to_id
    on_disk (
        load_validate_and_save_files draco ("thunder_prm.dat" ∷ from_path)
          ("thunder_prm.dat" ∷ to_path) repair_artifacts)
    if repair_artifacts
        then (do
          on_disk (remove ("iris_regions.yaml" ∷ to_path))
          again ← get_draco to_id
          on_disk (repair_regions again num_samples))
        else pure tt
    remove_draco to_id
    reload to_id to_context
    pure none

  unfoldable pub migrate_planning_artifacts :
      X → ℕ → ℕ → ℤ → Bool → Action (ResourceRegistry W P X) Migrated
  migrate_planning_artifacts blank from_id to_id num_samples repair_artifacts =
      if not draco_is_builder
      then pure (
          some
            "This ResourceRegistry was not initialized as a builder. Cannot migrate planning artifacts!")
      else do
        let from_path = decimal from_id ∷ context_base_path resources options
        let to_path = decimal to_id ∷ context_base_path resources options
        from_there ← on_disk (is_directory from_path)
        if not from_there
            then pure (some ("Directory for source " <> decimal from_id <> " does not exist!"))
            else do
              present ← has_draco from_id
              if not present
                  then pure (some ("No Draco instance found for source " <> decimal from_id <> "!"))
                  else do
                    to_there ← on_disk (is_directory to_path)
                    if not to_there
                        then pure
                            (some ("Directory for target " <> decimal to_id <> " does not exist!"))
                        else migrate blank from_id to_id num_samples repair_artifacts from_path
                            to_path
