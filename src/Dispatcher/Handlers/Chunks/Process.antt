-- ===== src/Dispatcher/Handlers/Chunks/Process.antt =====
-- `executeProcessChunk` up to the choice of what processes the chunk. The fields for rows and checksums
-- are left out.
use sentrazero.Base.{
  ℕ, ◌&&◌, ◌||◌, String, Bool, not, Option, none, some, [], ◌∷◌, nat_eq, if◌then◌else◌, ◌==◌,
}
use sentrazero.Storage.Backends.{
  Objects, StorageBackend, StorageConfig, new_backend, s3, mount, refused,
}
use sentrazero.Storage.Mount.{shared_mount}
use sentrazero.Dispatcher.Handlers.Merging.{World}
use sentrazero.Dispatcher.Handlers.Paths.{first_non_empty, normalize_storage_mode_for_job}
use sentrazero.Dispatcher.Handlers.Chunks.{
  Machine, Job, ProcessPayload, ChunkFailure, no_ids, no_config, no_new_backend, not_initialized,
  Tree, is_empty,
}
use sentrazero.Dispatcher.Handlers.Chunks.Ranges.{execute_process_chunk_byte_range}
use sentrazero.Dispatcher.Handlers.Chunks.Lists.{execute_process_chunk_file_list}
use sentrazero.Dispatcher.Handlers.Chunks.Plain.{process_plain}
use sentrazero.Dispatcher.Handlers.Compound.{Cache}
use sentrazero.Dispatcher.Handlers.Compound.Finish.{Ended, execute_compound_process_chunk}

abbrev pub or_text : String → String → String
or_text x y = if x == "" then y else x

abbrev pub or_number : ℕ → ℕ → ℕ
or_number x y = if nat_eq x 0 then y else x

-- The fields that are missing are taken from the payload inside the job. The source path, the steps
-- and the paths of input and output are not.
unfoldable pub fill_payload : ProcessPayload → ProcessPayload → ProcessPayload
fill_payload p nested = record p {
  chunk_id = or_text p.chunk_id nested.chunk_id;
  dataset_id = or_text p.dataset_id nested.dataset_id;
  dataset_slug = or_text p.dataset_slug nested.dataset_slug;
  chunk_index = or_number p.chunk_index nested.chunk_index;
  storage_mode = or_text p.storage_mode nested.storage_mode;
  plugin_id = or_text p.plugin_id nested.plugin_id;
  config = or_text p.config nested.config;
  chunk_strategy = or_text p.chunk_strategy nested.chunk_strategy;
  byte_range_start = or_number p.byte_range_start nested.byte_range_start;
  byte_range_end = or_number p.byte_range_end nested.byte_range_end;
  file_list = if is_empty p.file_list then nested.file_list else p.file_list;
  source_file_path = or_text p.source_file_path nested.source_file_path;
}

unfoldable pub process_mode : Job → ProcessPayload → String
unfolding first_non_empty normalize_storage_mode_for_job
process_mode j p =
    normalize_storage_mode_for_job
      (first_non_empty (p.storage_mode ∷ (j.storage_mode ∷ ("shared_mount" ∷ []))))

abbrev pub is_remote_mode : String → Bool
is_remote_mode mode =
    mode == "s3"
    || (mode == "aws_s3"
        || (mode == "object_storage"
            || (mode == "gcs" || (mode == "google_cloud_storage" || mode == "azure_blob"))))

pub data BackendChoice : Type 0 where
  unavailable : ChunkFailure → BackendChoice
  available : StorageBackend → BackendChoice

unfoldable pub override_process : World → StorageConfig → String → BackendChoice
unfolding new_backend shared_mount
override_process w cfg mode = elim (new_backend w.mount_path (record cfg { storage_mode = mode })) [
  | s3 c creds ↦ available (w.new_s3_backend c creds)
  | mount base ↦ available (shared_mount base (w.mounts base))
  | refused e ↦ unavailable no_new_backend
]

unfoldable pub process_backend : World → Job → String → BackendChoice
unfolding override_process
process_backend w j mode =
    if not (j.storage_config_id == "") && is_remote_mode mode
    then elim (w.get_config_by_id j.storage_config_id) [
      | none ↦ unavailable no_config
      | some cfg ↦ override_process w cfg mode
    ]
    else elim w.storage_backend [ none ↦ unavailable not_initialized | some b ↦ available b ]

-- A backend on a shared mount forces that mode.
unfoldable pub reconcile : StorageBackend → String → String
reconcile b mode =
    if not (mode == "shared_mount") && b.is_shared_mount then "shared_mount" else mode

-- What the job leaves.
pub data Processed : Type 0 where
  -- the failure, the local files and the objects
  processed : Option ChunkFailure → Tree → Objects → Processed
  compounded : Ended → Processed

abbrev pub without_tree : Option ChunkFailure × Objects → Processed
without_tree (failure, after) = processed failure [] after

abbrev pub with_tree : Option ChunkFailure × Tree × Objects → Processed
with_tree (failure, tree, after) = processed failure tree after

abbrev pub objects_after : Processed → Objects
objects_after (processed failure tree after) = after
objects_after (compounded x) = x.objects

-- `kept` is what stands in the cache of compound jobs.
unfoldable pub process_with :
    Machine → Cache → StorageBackend → Job → ProcessPayload → String → Tree → Objects → Processed
unfolding execute_process_chunk_byte_range execute_process_chunk_file_list process_plain
    execute_compound_process_chunk
process_with m c b j p mode kept s =
    if p.is_compound && not (is_empty p.steps)
    then compounded (execute_compound_process_chunk m c b j p mode kept s)
    else if p.chunk_strategy == "byte_range"
    then without_tree (execute_process_chunk_byte_range m b j p mode s)
    else if p.chunk_strategy == "file_per_chunk"
    then without_tree (execute_process_chunk_file_list m b j p mode s)
    else with_tree (process_plain m b j p mode s)

-- `nested` is the payload inside the job, empty where there is none.
unfoldable pub execute_process_chunk :
    World → Machine → Cache → Job → ProcessPayload → ProcessPayload → Tree → Objects → Processed
unfolding fill_payload process_mode process_backend reconcile process_with
execute_process_chunk w m c j p nested kept s =
    let q = fill_payload p nested in
    let mode = process_mode j q in
    if q.chunk_id == "" && q.dataset_id == ""
    then processed (some no_ids) [] s
    else elim (process_backend w j mode) [
      | unavailable e ↦ processed (some e) [] s
      | available b ↦ process_with m c b j q (reconcile b mode) kept s
    ]
