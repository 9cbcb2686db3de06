-- ===== src/Service/Registry/Start.antt =====
-- The constructor of resource_registry.cc, from a registry whose maps are empty. Where it loads in
-- parallel the calls of `AddDraco` are taken one after another. Contexts come with their ids.
use planning_service.Prelude.{
  ℕ, String, Bool, true, false, not, List, [], ◌∷◌, ◌&&◌, if◌then◌else◌, number_key,
}
use planning_service.Prelude.Maps.{emplace}
use planning_service.Prelude.Format.{◌<>◌, decimal}
use planning_service.Service.Error.{Exception, runtime_error, what}
use planning_service.Service.Action.{Action, Done, pure, throw, ◌>>=◌, ◌>>◌, try_catch}
use planning_service.Service.Action.Keeps.{
  Keeps, bind-Keeps, then-Keeps, pure-Keeps, throw-Keeps, if-Keeps, try_catch-Keeps,
}
use planning_service.Service.Registry.{
  FilePath, Resources, Options, ResourceRegistry, PlanContext, context_base_path, on_disk,
  add_draco,
}
use planning_service.Service.Registry.Sync.{InSync, on_disk-Keeps, add_draco-Keeps}

-- What the constructor alone uses of its options, of the file system and of utils.cc.
pub record Loading {ℓ} (W P X : Type ℓ) : Type ℓ where
  pub load_resources_on_init : Bool
  pub require_all_resources : Bool
  pub create_directories : FilePath → Action W Done
  pub load_available_contexts : FilePath → Action W (List (ℕ × PlanContext X))

abbrev pub error_lines : List (ℕ × String) → String
error_lines [] = ""
error_lines ((id, msg) ∷ errors) =
    "CID: " <> decimal id <> " (" <> msg <> ")\n" <> error_lines errors

abbrev pub load_failure : List (ℕ × String) → Exception
load_failure errors = runtime_error ("Failed to load some Draco instances:\n" <> error_lines errors)

abbrev pub is_empty : List (ℕ × String) → Bool
is_empty [] = true
is_empty (error ∷ errors) = false

module _ {ℓ} {W P X : Type ℓ} (resources : Resources W P X) (options : Options)
    (loading : Loading W P X) where
  open resources use {is_directory}
  open loading use {
    load_resources_on_init, require_all_resources, create_directories, load_available_contexts,
  }

  -- One call of `AddDraco`, and the errors so far with its own.
  unfoldable pub load_one :
      ℕ → PlanContext X → List (ℕ × String) → Action (ResourceRegistry W P X) (List (ℕ × String))
  load_one id context errors =
      try_catch (add_draco resources options id context >> pure errors)
        (λ e. pure (emplace id (what e) errors))

  unfoldable pub load_each :
      List (ℕ × PlanContext X)
      → List (ℕ × String)
      → Action (ResourceRegistry W P X) (List (ℕ × String))
  load_each [] errors = pure errors
  load_each ((id, context) ∷ contexts) errors = do
    errors' ← load_one id context errors
    load_each contexts errors'

  -- The part after the early return.
  unfoldable pub load_all : Action (ResourceRegistry W P X) Done
  load_all = do
    available_contexts ← on_disk (load_available_contexts (context_base_path resources options))
    error_map ← load_each available_contexts []
    if not (is_empty error_map) && require_all_resources
        then throw (load_failure error_map)
        else pure tt

  unfoldable pub construct : Action (ResourceRegistry W P X) Done
  construct = do
    there ← on_disk (is_directory (context_base_path resources options))
    if there then pure tt else on_disk (create_directories (context_base_path resources options))
    if not load_resources_on_init then pure tt else load_all

  load_one-Keeps :
      (id : ℕ) (context : PlanContext X) (errors : List (ℕ × String))
      → Keeps InSync (load_one id context errors)
  unfolding load_one
  load_one-Keeps id context errors =
      try_catch-Keeps InSync _ _
        (then-Keeps InSync _ _ (add_draco-Keeps resources options id context) (pure-Keeps InSync _))
        (λ e. pure-Keeps InSync _)

  load_each-Keeps :
      (contexts : List (ℕ × PlanContext X)) (errors : List (ℕ × String))
      → Keeps InSync (load_each contexts errors)
  unfolding load_each
  load_each-Keeps [] errors = pure-Keeps InSync errors
  load_each-Keeps ((id, context) ∷ contexts) errors =
      bind-Keeps InSync _ _ (load_one-Keeps id context errors)
        λ errors'. load_each-Keeps contexts errors'

  -- The constructor leaves the maps of planners and of contexts in step, whichever planners could not
  -- be made and also where it throws.
  pub construct-InSync : (r : ResourceRegistry W P X) → InSync r → InSync (construct r).1
  unfolding construct load_all
  construct-InSync = bind-Keeps InSync _ _ (on_disk-Keeps _) λ there.
      then-Keeps InSync _ _ (if-Keeps InSync there _ _ (pure-Keeps InSync tt) (on_disk-Keeps _)) (
        if-Keeps InSync (not load_resources_on_init) _ _ (pure-Keeps InSync tt) (
          bind-Keeps InSync _ _ (on_disk-Keeps _) λ contexts.
            bind-Keeps InSync _ _ (load_each-Keeps contexts []) λ errors.
              if-Keeps InSync (not (is_empty errors) && require_all_resources) _ _
                (throw-Keeps _ InSync _) (pure-Keeps InSync tt)))
