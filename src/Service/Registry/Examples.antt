-- ===== src/Service/Registry/Examples.antt =====
-- The theorems about the resource registry at a registry whose contexts are all on disk, whose
-- planners are their hashes, and whose file system is the list of the directories erased.
use planning_service.Prelude.{ℕ, true, false, refl, none, some, List, [], ◌∷◌, number_key}
use planning_service.Prelude.Int.{pos}
use planning_service.Prelude.Maps.{has_key}
use planning_service.Service.Action.{pure, throw}
use planning_service.Service.Error.{runtime_error, returns}
use planning_service.Service.Registry.{
  FilePath, Resources, Options, ResourceRegistry, PlanContext, context_of_id, register_plan_context,
}
use planning_service.Service.Registry.Changes.{remove_plan_context}
use planning_service.Service.Registry.Sync.{InSync}
use planning_service.Service.Registry.Contexts.{Call, register, remove, migrate, run, run-InSync}
use planning_service.Service.Registry.Start.{Loading}
use planning_service.Service.Registry.Effects.{
  IsAvailable, IsRemoval, register_plan_context-IsAvailable, remove_plan_context-IsRemoval,
}

abbrev pub Disk : Type 0
Disk = List FilePath

-- A context's content is its hash.
abbrev pub resources : Resources Disk ℕ ℕ
resources = record {
  is_directory = λ path. pure true;
  is_regular_file = λ path. pure true;
  rename = λ from to. pure tt;
  remove = λ path. pure tt;
  remove_all = λ path disk. (returns tt, path ∷ disk);
  copy_file = λ from to. pure tt;
  compute_context_id = λ context dir. pure (some context.content);
  save_context = λ context dir. pure (true, context);
  load_context = λ context dir. pure (true, record context { content = 4 });
  make_planner =
      λ context. elim context.id [ some id ↦ pure id | none ↦ throw (runtime_error "no id") ];
  constraints_hash = λ planner. planner;
  load_validate_and_save_files = λ planner from to repair. throw (runtime_error "corrupt");
  repair_regions = λ planner n. pure tt;
  format_path = λ path. "";
}

abbrev pub options : Options
options = record {
  update_resource_ids = false;
  dry_run = false;
  draco_is_builder = true;
  system_name = "arm";
  data_path_root = "data" ∷ [];
}

abbrev pub new_context : PlanContext ℕ
new_context = record { id = none; context_dir = []; urdf_dir = []; content = 7 }

abbrev pub empty : ResourceRegistry Disk ℕ ℕ
empty = record { draco_map = []; active_contexts_map = []; disk = [] }

abbrev pub with_four : ResourceRegistry Disk ℕ ℕ
with_four = record {
  draco_map = (4, 4) ∷ [];
  active_contexts_map = (4, context_of_id 4 4) ∷ [];
  disk = [];
}

abbrev calls : List (Call resources options)
calls =
    register "arm" new_context
    ∷ register "arm" (context_of_id 0 4)
    ∷ remove "arm" 7 true
    ∷ migrate 0 4 4 (pos 1) true
    ∷ []

run-InSync_example : InSync (run resources options calls empty)
unfolding has_key
run-InSync_example = run-InSync resources options calls empty (λ id. refl)

register_plan_context-IsAvailable_example :
    IsAvailable (register_plan_context resources options "arm" new_context with_four)
register_plan_context-IsAvailable_example =
    register_plan_context-IsAvailable resources options new_context with_four refl refl

remove_plan_context-IsRemoval_example :
    IsRemoval 4 with_four (remove_plan_context resources options "arm" 4 true with_four)
remove_plan_context-IsRemoval_example =
    remove_plan_context-IsRemoval resources options "arm" 4 true with_four

abbrev loading : Loading Disk ℕ ℕ
loading = record {
  load_resources_on_init = true;
  require_all_resources = true;
  create_directories = λ path. pure tt;
  load_available_contexts =
      λ path. pure ((4, context_of_id 4 4) ∷ (5, record (context_of_id 5 5) { id = none }) ∷ []);
}
