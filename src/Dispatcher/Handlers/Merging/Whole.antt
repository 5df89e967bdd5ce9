-- ===== src/Dispatcher/Handlers/Merging/Whole.antt =====
-- `executeMergeDataset` with the merge of the local files that it calls. Merges that compress their
-- output and tree merges are an argument: what they return and leave. The event of the end is logged.
use sentrazero.Base.{◌||◌, Bool, true, false, if◌then◌else◌}
use sentrazero.Storage.Backends.{Objects}
use sentrazero.Dataset.Merge.Loop.{Files, Setting, Disk, Finish, finished, panicked, stream_merge}
use sentrazero.Dispatcher.Handlers.Merging.{
  World, MergePayload, MergeConfig, MergeFailure, MergeEnd, local, stored, execute_merge_dataset,
}

-- The handler refuses, the backend holds the merged object, or a merge of local files has run.
pub data Ending : Type 0 where
  gave_error : MergeFailure → Ending
  merged_object : Ending
  merged_files : Finish → Ending

-- The merge of the configuration's dataset, by its agent.
abbrev pub setting_of : Setting → MergeConfig → Setting
setting_of e cfg = record e { dataset_id = cfg.dataset_id; agent_id = cfg.agent_id }

unfoldable pub merge_files :
    Setting → Files → (MergeConfig → Disk → Finish × Disk) → MergeConfig → Disk → Finish × Disk
unfolding stream_merge
merge_files e f others cfg d =
    if cfg.use_tree_merge || cfg.compressed
    then others cfg d
    else stream_merge (setting_of e cfg) f cfg.chunks d

unfoldable pub conclude_merge :
    Setting
    → Files
    → (MergeConfig → Disk → Finish × Disk)
    → Disk
    → MergeEnd × Objects
    → Ending × Objects × Disk
unfolding merge_files
conclude_merge e f others d (MergeEnd.failed why, s) = (gave_error why, s, d)
conclude_merge e f others d (stored, s) = (merged_object, s, d)
conclude_merge e f others d (local cfg, s) =
    let (finish, after) = merge_files e f others cfg d in (merged_files finish, s, after)

unfoldable pub merge_whole :
    World
    → Setting
    → Files
    → (MergeConfig → Disk → Finish × Disk)
    → MergePayload
    → Objects
    → Disk
    → Ending × Objects × Disk
unfolding conclude_merge execute_merge_dataset
merge_whole w e f others p s d = conclude_merge e f others d (execute_merge_dataset w p s)

-- Does the handler return an error?
abbrev pub returns_error : Ending → Bool
returns_error (gave_error why) = true
returns_error merged_object = false
returns_error (merged_files (Finish.failed why)) = true
returns_error (merged_files (finished m k)) = false
returns_error (merged_files panicked) = false
