-- ===== src/Dispatcher/Handlers/Merging.antt =====
-- `executeMergeDataset` and `executeConcatMerge`, from the decoded payload on. The outcome of a merge of
-- local files is the call of `StreamMerge` or `StreamMergeTree` that it makes; Merging/Whole goes on
-- from there. The branch of `executeConcatMerge` for a backend that is nil is not modelled: its only caller has a backend.
-- A chunk index is not negative.
pub mod Stored
pub mod Ordered
pub mod Whole
pub mod Failures
use sentrazero.Base.{
  ℕ, suc, ◌&&◌, ◌||◌, String, Bool, true, false, not, Option, none, some, List, [], ◌∷◌, ◌++◌,
  if◌then◌else◌, ◌==◌,
}
use sentrazero.Storage.Keys.{PathType, get_remote_path_with_slug}
use sentrazero.Storage.Backends.{
  Bytes, Objects, StorageBackend, StorageConfig, S3Credentials, new_backend, s3, mount, refused,
}
use sentrazero.Storage.Mount.{Mount, shared_mount}
use sentrazero.Dataset.Merge.{ChunkInfo}
use sentrazero.Dispatcher.Handlers.Paths.{
  is_abs, join, first_non_empty, derive_mount_base_path, chunk_out_path,
}

pub record MergeChunk : Type 0 where
  pub chunk_id : String
  pub chunk_index : ℕ
  pub path : String
  pub is_skipped : Bool

pub record DeviceOutput : Type 0 where
  pub device_id : String
  pub mount_path : String
  pub file : String

pub record MergePayload : Type 0 where
  pub dataset_id : String
  pub dataset_slug : String
  pub affinity_device_id : String
  pub device_output : Option DeviceOutput
  pub strategy : String
  pub storage_mode : String
  -- that of the payload inside the job, "" where there is none
  pub nested_mode : String
  pub storage_config_id : String
  pub chunks : List MergeChunk
  pub mount_path : String
  pub is_partial : Bool
  pub delete_chunks_after : Bool
  pub compressed : Bool
  pub checksum_required : Bool
  pub use_tree_merge : Bool

pub record MergeConfig : Type 0 where
  pub dataset_id : String
  pub dataset_slug : String
  pub affinity_device_id : String
  pub device_output : DeviceOutput
  pub chunks : List ChunkInfo
  pub strategy : String
  pub mount_path : String
  pub delete_chunks_after : Bool
  pub compressed : Bool
  pub checksum_required : Bool
  pub use_tree_merge : Bool
  pub agent_id : String

-- What `os.Stat` answers.
pub data Stat : Type 0 where
  absent inaccessible directory : Stat
  -- a file of this size
  regular : ℕ → Stat

-- What the handler reads around it.
pub record World : Type 0 where
  pub agent_id : String
  -- SENTRA_MOUNT_PATH
  pub mount_path : String
  -- the backend of the pool
  pub storage_backend : Option StorageBackend
  pub get_config_by_id : String → Option StorageConfig
  pub new_s3_backend : StorageConfig → S3Credentials → StorageBackend
  -- the file system below a base path
  pub mounts : String → Mount
  pub stat : String → Stat

pub data MergeFailure : Type 0 where
  missing_dataset_id missing_output no_chunks no_storage_config no_new_backend : MergeFailure
  not_initialized no_readers not_written : MergeFailure
  relative_path missing_file inaccessible_file chunk_is_directory unread : String → MergeFailure

pub data MergeEnd : Type 0 where
  failed : MergeFailure → MergeEnd
  -- the merged object is written
  stored : MergeEnd
  -- the chunk files are merged under this configuration
  local : MergeConfig → MergeEnd

pub data Result {ℓ} (A : Type ℓ) : Type ℓ where
  err : MergeFailure → Result A
  ok : A → Result A

abbrev pub is_concat_merge : MergePayload → Bool
is_concat_merge p = p.strategy == "byte_range" || p.strategy == "file_per_chunk"

abbrev pub is_none {ℓ} : {A : Type ℓ} → Option A → Bool
is_none none = true
is_none (some x) = false

abbrev pub is_empty {ℓ} : {A : Type ℓ} → List A → Bool
is_empty [] = true
is_empty (x ∷ xs) = false

-- The checks before any call.
unfoldable pub refusal : MergePayload → Option MergeFailure
refusal p =
    if p.dataset_id == ""
    then some missing_dataset_id
    else if not (is_concat_merge p)
        && (p.affinity_device_id == "" && (is_none p.device_output && not p.is_partial))
    then some missing_output
    else if is_empty p.chunks && not p.is_partial
    then some no_chunks
    else none

-- The mode of a configuration's copy.
unfoldable pub override_mode : MergePayload → StorageConfig → String
unfolding first_non_empty
override_mode p cfg = first_non_empty (p.strategy ∷ (p.storage_mode ∷ (cfg.storage_mode ∷ [])))

-- The backend of a configuration that was fetched.
unfoldable pub override_backend : World → MergePayload → StorageConfig → Result StorageBackend
unfolding new_backend shared_mount override_mode
override_backend w p cfg =
    elim (new_backend w.mount_path (record cfg { storage_mode = override_mode p cfg })) [
      | s3 c creds ↦ ok (w.new_s3_backend c creds)
      | mount base ↦ ok (shared_mount base (w.mounts base))
      | refused e ↦ err no_new_backend
    ]

unfoldable pub backend_of : World → MergePayload → Result StorageBackend
unfolding override_backend
backend_of w p =
    if not (p.storage_config_id == "")
    then elim (w.get_config_by_id p.storage_config_id) [
      | none ↦ err no_storage_config
      | some cfg ↦ override_backend w p cfg
    ]
    else elim w.storage_backend [ none ↦ err not_initialized | some b ↦ ok b ]

abbrev pub key_of : MergePayload → ℕ → PathType → String
key_of p = get_remote_path_with_slug p.dataset_id p.dataset_slug

-- The results of the chunks, in the order of the payload.
unfoldable pub read_results :
    StorageBackend → MergePayload → List MergeChunk → Objects → Result (List Bytes)
read_results b p [] s = ok []
read_results b p (c ∷ cs) s = elim (b.read_object (key_of p c.chunk_index PathType.result) s) [
  | none ↦ err (unread c.chunk_id)
  | some bytes ↦ elim (read_results b p cs s) [ err e ↦ err e | ok rest ↦ ok (bytes ∷ rest) ]
]

-- What a reader over readers yields.
unfoldable pub concat : List Bytes → Bytes
concat [] = []
concat (x ∷ xs) = x ++ concat xs

-- `MergeReaders` of internal/dataset/merge.go.
unfoldable pub merge_readers : List Bytes → Result Bytes
unfolding concat
merge_readers [] = err no_readers
merge_readers (x ∷ xs) = ok (concat (x ∷ xs))

-- The errors of the removals are logged.
unfoldable pub delete_chunks : StorageBackend → MergePayload → List MergeChunk → Objects → Objects
delete_chunks b p [] s = s
delete_chunks b p (c ∷ cs) s =
    delete_chunks b p cs
      (b.delete_object (key_of p c.chunk_index PathType.chunk)
        (b.delete_object (key_of p c.chunk_index PathType.result) s).1).1

-- The merged object is written and the chunks are removed.
unfoldable pub write_merged : StorageBackend → MergePayload → Bytes → Objects → MergeEnd × Objects
unfolding delete_chunks
write_merged b p bytes s =
    let (done, after) = b.write_object (key_of p 0 PathType.merged) bytes s in
    if done then (stored, delete_chunks b p p.chunks after) else (failed not_written, after)

unfoldable pub execute_concat_merge : StorageBackend → MergePayload → Objects → MergeEnd × Objects
unfolding read_results concat write_merged
execute_concat_merge b p s = elim (read_results b p p.chunks s) [
  | err e ↦ (failed e, s)
  | ok readers ↦ write_merged b p (concat readers) s
]

unfoldable pub remote_merge : StorageBackend → MergePayload → Objects → MergeEnd × Objects
unfolding read_results merge_readers write_merged
remote_merge b p s = elim (read_results b p p.chunks s) [
  | err e ↦ (failed e, s)
  | ok readers ↦ elim (merge_readers readers) [
    | err e ↦ (failed e, s)
    | ok bytes ↦ write_merged b p bytes s
  ]
]

abbrev pub merge_strategy : MergePayload → String
merge_strategy p =
    if p.strategy == "" && p.storage_mode == "shared_mount" then "shared_mount" else p.strategy

-- The path of a local chunk.
unfoldable pub resolve_chunk : World → MergePayload → MergeChunk → Result String
unfolding is_abs join derive_mount_base_path chunk_out_path
resolve_chunk w p c =
    if merge_strategy p == "affinity"
    then if is_abs c.path then ok c.path else err (relative_path c.chunk_id)
    else if merge_strategy p == "shared_mount"
    then if c.path == ""
      then ok (
          chunk_out_path
            (if p.mount_path == ""
              then derive_mount_base_path w.mount_path "shared_mount"
              else p.mount_path)
            p.dataset_id c.chunk_index)
      else if not (is_abs c.path) && not (p.mount_path == "")
      then ok (join (p.mount_path ∷ (c.path ∷ [])))
      else ok c.path
    else ok c.path

abbrev pub chunk_info : MergeChunk → String → ℕ → ℕ → Bool → ChunkInfo
chunk_info c path index size skipped = record {
  chunk_id = c.chunk_id;
  path = path;
  index = index;
  size_bytes = size;
  checksum = "";
  is_skipped = skipped;
}

-- What is known of the file, `index` being the number of chunks before it.
unfoldable pub stat_chunk : World → MergePayload → ℕ → MergeChunk → String → Result ChunkInfo
stat_chunk w p index c path = elim (w.stat path) [
  | absent ↦ if p.is_partial then ok (chunk_info c path index 0 true) else err (missing_file path)
  | inaccessible ↦ err (inaccessible_file path)
  | directory ↦ err (chunk_is_directory path)
  | regular size ↦ ok (chunk_info c path index size c.is_skipped)
]

unfoldable pub local_chunk : World → MergePayload → ℕ → MergeChunk → Result ChunkInfo
unfolding resolve_chunk stat_chunk
local_chunk w p index c = elim (resolve_chunk w p c) [
  | err e ↦ err e
  | ok path ↦ stat_chunk w p index c path
]

unfoldable pub local_chunks : World → MergePayload → ℕ → List MergeChunk → Result (List ChunkInfo)
unfolding local_chunk
local_chunks w p index [] = ok []
local_chunks w p index (c ∷ cs) = elim (local_chunk w p index c) [
  | err e ↦ err e
  | ok x ↦ elim (local_chunks w p (suc index) cs) [ err e ↦ err e | ok xs ↦ ok (x ∷ xs) ]
]

unfoldable pub output_of : World → MergePayload → DeviceOutput
unfolding first_non_empty derive_mount_base_path
output_of w p = elim p.device_output [
  | some output ↦ output
  | none ↦ record {
    device_id = p.affinity_device_id;
    mount_path =
        if p.mount_path == ""
        then derive_mount_base_path w.mount_path
            (first_non_empty (p.strategy ∷ (p.storage_mode ∷ [])))
        else p.mount_path;
    file = "";
  }
]

unfoldable pub merge_config : World → MergePayload → List ChunkInfo → MergeConfig
unfolding output_of
merge_config w p chunks = record {
  dataset_id = p.dataset_id;
  dataset_slug = p.dataset_slug;
  affinity_device_id = p.affinity_device_id;
  device_output = output_of w p;
  chunks = chunks;
  strategy = p.strategy;
  mount_path = p.mount_path;
  delete_chunks_after = p.delete_chunks_after;
  compressed = p.compressed;
  checksum_required = p.checksum_required;
  use_tree_merge = p.use_tree_merge;
  agent_id = w.agent_id;
}

-- Is the merge made in the backend?
unfoldable pub use_s3_merge : StorageBackend → MergePayload → Bool
unfolding first_non_empty
use_s3_merge b p =
    let mode = first_non_empty (p.strategy ∷ (p.storage_mode ∷ (p.nested_mode ∷ []))) in
    not b.is_shared_mount && (not (mode == "shared_mount") && not (mode == "affinity"))

unfoldable pub merge_with : World → StorageBackend → MergePayload → Objects → MergeEnd × Objects
unfolding execute_concat_merge remote_merge local_chunks merge_config use_s3_merge
merge_with w b p s =
    if is_concat_merge p
    then execute_concat_merge b p s
    else if use_s3_merge b p
    then remote_merge b p s
    else elim (local_chunks w p 0 p.chunks) [
      | err e ↦ (failed e, s)
      | ok chunks ↦ (local (merge_config w p chunks), s)
    ]

-- `Objects` is what the backend holds that the merge takes.
unfoldable pub execute_merge_dataset : World → MergePayload → Objects → MergeEnd × Objects
unfolding refusal backend_of merge_with
execute_merge_dataset w p s = elim (refusal p) [
  | some e ↦ (failed e, s)
  | none ↦ elim (backend_of w p) [ err e ↦ (failed e, s) | ok b ↦ merge_with w b p s ]
]
