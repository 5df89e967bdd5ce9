-- ===== src/Tests/Chunks.antt =====
-- Two byte ranges of a source, their merge, the steps of a chunk, and merges of local files.
use Prim.Native.Char.{code}
use Prim.Native.String.{char_at, len}
use text.Mathlib.TextLemmas.{head-eq_of_cons-eq, cons-append}
use sentrazero.Base.{
  ℕ, ◌≡◌, ◌≢◌, refl, sym, ap, ◌∙◌, String, true, false, Option, none, some, List, [], ◌∷◌, map,
  arith, eq_refl, if◌then◌else◌, ◌==◌,
}
use sentrazero.Base.Dict.{lookup, insert, delete, lookup-insert}
use sentrazero.Base.Decimal.{decimal}
use sentrazero.Storage.Keys.{PathType, get_remote_path_with_slug}
use sentrazero.Storage.Backends.{Bytes, Objects, StorageBackend, StorageConfig, IsStore}
use sentrazero.Storage.Mount.{
  Mount, IsFileStore, read_file, write_file, remove_file, shared_mount, read_file-held,
  write_file-held, write_file-others, remove_file-held, remove_file-others,
  shared_mount-IsFileStore,
}
use sentrazero.Storage.Clean.{is_rooted, join_path, clean_path, joined}
use sentrazero.Dispatcher.Handlers.Merging.{
  World, MergePayload, MergeChunk, regular, stored, failed, local, backend_of, key_of,
  execute_merge_dataset, MergeFailure,
}
use sentrazero.Dispatcher.Handlers.Merging.Stored.{
  results_in, Outside, stored_merge_lem, concat_config_refused,
}
use sentrazero.Dispatcher.Handlers.Chunks.{
  Machine, Job, ProcessPayload, PluginContext, Node, file, Tree, Run, output, run_error, result_key,
  resolve_plugin_name,
}
use sentrazero.Dispatcher.Handlers.Chunks.Ranges.{execute_process_chunk_byte_range}
use sentrazero.Dispatcher.Handlers.Chunks.Pipeline.{Transforms, IsReadable}
use sentrazero.Dispatcher.Handlers.Chunks.Plain.{process_plain}
use sentrazero.Dispatcher.Handlers.Chunks.Steps.{Transform, process_steps}
use sentrazero.Dispatcher.Handlers.Merging.{MergeConfig}
use sentrazero.Dispatcher.Handlers.Merging.Ordered.{
  Skips, IsThere, local_merge_lem, local_merge_output,
}
use sentrazero.Dataset.Merge.{ChunkInfo}
use sentrazero.Dataset.Merge.Plan.{active, by_index, calculate_required_space}
use sentrazero.Dataset.Merge.Loop.{
  Files, Disk, Finish, content, broken, insufficient_space, fill, merge_chunks, stream_merge,
  finish_merge, merge_loop, merge_chunk,
}
use sentrazero.Dispatcher.Handlers.Merging.Whole.{Ending, setting_of, merge_whole, returns_error}
use sentrazero.Dispatcher.Handlers.Merging.Failures.{IsKept, failed_merge_lem}
use sentrazero.Dataset.Merge.Output.{all_bytes, bytes_in, CanMerge, IsReady}
use sentrazero.Tests.Merges.{files, setting, empty_disk}
use sentrazero.Dispatcher.Handlers.Datasets.{ByteRange, process_ranges, copied_source_merges}

abbrev perfect : Mount
perfect = record {
  opens = λ path. true;
  makes_directory = λ path. true;
  creates = λ path. true;
  breaks = λ path. none;
  syncs = λ path. true;
  removes = λ path. true;
  walks = λ path. true;
}

-- A store that is no shared mount: its objects stand under the keys themselves.
abbrev pub bucket : StorageBackend
bucket = record {
  is_shared_mount = false;
  read_object = read_file perfect;
  write_object = write_file perfect;
  delete_object = remove_file perfect;
  list_objects = λ prefix s. some [];
}

abbrev pub data_mount : StorageBackend
data_mount = shared_mount "/data/sentra" perfect

shared_mount-IsFileStore_example : IsFileStore "/data/sentra" data_mount
unfolding is_rooted
shared_mount-IsFileStore_example = shared_mount-IsFileStore "/data/sentra" perfect refl

-- Two keys of one file.
aliased : join_path "/data/sentra" "a//./b/../c" ≡ "/data/sentra/a/c"
unfolding join_path clean_path joined
aliased = refl

pub bucket-IsStore : IsStore bucket
bucket-IsStore = record {
  read-held = read_file-held perfect;
  write-held = write_file-held perfect;
  write-others = write_file-others perfect;
  delete-held = remove_file-held perfect;
  delete-others = remove_file-others perfect;
}

pub bucket-IsReadable : IsReadable bucket
unfolding read_file
bucket-IsReadable = record { read = λ k s bytes h. h }

-- The plugin copies its input file.
abbrev copy_input : PluginContext → Tree → Option Node → Run × Tree
copy_input ctx t (some (file bytes)) = (output [], insert ctx.output_path (file bytes) t)
copy_input ctx t n = (run_error "no input", t)

abbrev pub machine : Machine
machine = record {
  mount_path = "";
  plugin_ids = ("copy-id", "copy") ∷ [];
  fetch_plugin = λ id. none;
  prepare_work_dir = λ id. some "/tmp/work";
  load_plugin = λ name. true;
  execute = λ name ctx t. copy_input ctx t (lookup ctx.input_path t);
  fallback_to_v2 = λ name p j t. (none, t);
  reported_path = λ bytes. "";
  parses = λ bytes. true;
  file_pattern = λ config. "";
  matches = λ pattern name. true;
  makes_directory = λ path. true;
  creates = λ path. true;
  renames = λ path. true;
  copies = λ path. true;
  writes = λ path. true;
  open_file = λ path. none;
}

pub copies_input : (name : String) → Transforms machine name (λ x. x)
copies_input name = record {
  runs = λ ctx t bytes h. (
    [],
    insert ctx.output_path (file bytes) t,
    rw h refl,
    lookup-insert ctx.output_path ctx.output_path (file bytes) t
        ∙ rw (eq_refl ctx.output_path) refl,
  );
}

abbrev pub job : ℕ → Job
job step = record {
  id = "job-1";
  org_id = "org-1";
  execution_id = "execution-1";
  step_index = step;
  plugin_id = "";
  plugin_name = "copy";
  step_config = "";
  storage_mode = "s3";
  storage_config_id = "";
  source_path = "";
}

abbrev pub payload : ProcessPayload
payload = record {
  chunk_id = "chunk-1";
  input_path = "";
  output_path = "";
  dataset_id = "d";
  dataset_slug = "";
  chunk_index = 0;
  plugin_id = "";
  config = "";
  byte_range_start = 0;
  byte_range_end = 0;
  file_list = [];
  source_file_path = "source.csv";
  storage_mode = "s3";
  chunk_strategy = "byte_range";
  source_path = "source.csv";
  is_compound = false;
  steps = [];
  current_step_index = 0;
}

abbrev pub source : Bytes
source = 1 ∷ (2 ∷ (3 ∷ (4 ∷ (5 ∷ []))))

abbrev pub objects : Objects
objects = ("source.csv", source) ∷ []

abbrev ranges : List ByteRange
ranges = record { index = 0; from = 0; upto = 2 } ∷ (record { index = 1; from = 2; upto = 5 } ∷ [])

abbrev processed_objects : Objects
processed_objects =
    ("source.csv", source)
    ∷ (("d/chunks/chunk_0.out", 1 ∷ (2 ∷ [])) ∷ (("d/chunks/chunk_1.out", 3 ∷ (4 ∷ (5 ∷ []))) ∷ []))

ranges_processed :
    process_ranges machine bucket (job 0) payload "s3" ranges objects ≡ (none, processed_objects)
unfolding process_ranges execute_process_chunk_byte_range read_file write_file remove_file lookup
    insert get_remote_path_with_slug decimal
ranges_processed = refl

abbrev part_at : ℕ → String → MergeChunk
part_at index path = record {
  chunk_id = "chunk";
  chunk_index = index;
  path = path;
  is_skipped = false;
}

abbrev merge_payload : String → String → MergePayload
merge_payload strategy config_id = record {
  dataset_id = "d";
  dataset_slug = "";
  affinity_device_id = "device-1";
  device_output = none;
  strategy = strategy;
  storage_mode = "";
  nested_mode = "";
  storage_config_id = config_id;
  chunks = part_at 0 "/a" ∷ (part_at 1 "/b" ∷ []);
  mount_path = "";
  is_partial = false;
  delete_chunks_after = false;
  compressed = false;
  checksum_required = false;
  use_tree_merge = false;
}

abbrev some_config : StorageConfig
some_config = record {
  storage_mode = "s3";
  bucket_name = "bucket";
  endpoint = "https://s3";
  mount_base_path = "";
  credentials = some (record { access_key_id = "key"; secret_access_key = "secret" });
}

abbrev pub world : World
world = record {
  agent_id = "agent-1";
  mount_path = "";
  storage_backend = some bucket;
  get_config_by_id = λ id. some some_config;
  new_s3_backend = λ cfg creds. bucket;
  mounts = λ base. perfect;
  stat = λ path. regular 2;
}

abbrev merged_objects : Objects
merged_objects = ("source.csv", source) ∷ (("d_merged.csv", source) ∷ [])

merge_stored :
    execute_merge_dataset world (merge_payload "byte_range" "") processed_objects
    ≡ (stored, merged_objects)
unfolding execute_merge_dataset read_file write_file remove_file lookup insert delete
    get_remote_path_with_slug decimal
merge_stored = refl

stored_merge_lem_example :
    (bytes : Bytes) × (results_in
        (merge_payload "byte_range" "")
        (merge_payload "byte_range" "").chunks
        processed_objects
      ≡ some bytes)
    × (lookup "d_merged.csv" merged_objects ≡ some bytes)
    × ((j : String)
        → Outside (merge_payload "byte_range" "") j
        → lookup j merged_objects ≡ lookup j processed_objects)
unfolding get_remote_path_with_slug backend_of
stored_merge_lem_example =
    stored_merge_lem world (merge_payload "byte_range" "") bucket processed_objects merged_objects
      bucket-IsStore refl merge_stored

-- The first chunk has no result.
merge_unread :
    execute_merge_dataset world (merge_payload "byte_range" "") objects
    ≡ (failed (MergeFailure.unread "chunk"), objects)
unfolding execute_merge_dataset read_file write_file remove_file lookup get_remote_path_with_slug
    decimal
merge_unread = refl

merged_key-ne-source : key_of (merge_payload "byte_range" "") 0 PathType.merged ≢ "source.csv"
unfolding get_remote_path_with_slug
merged_key-ne-source h =
    let first : code (char_at "d" 0) ≡ code (char_at "s" 0) = ap code (
      head-eq_of_cons-eq {x = char_at "d" 0} {y = char_at "s" 0} {xs = "_merged.csv"}
        {ys = "ource.csv"} h) in
    absurd (omega (arith, first))

abbrev local_info : ℕ → String → ChunkInfo
local_info index path = record {
  chunk_id = "chunk";
  path = path;
  index = index;
  size_bytes = 2;
  checksum = "";
  is_skipped = false;
}

-- The merge of the files `/a` and `/b`.
abbrev merge_call : MergeConfig
merge_call = record {
  dataset_id = "d";
  dataset_slug = "";
  affinity_device_id = "device-1";
  device_output = record { device_id = "device-1"; mount_path = ""; file = "" };
  chunks = local_info 0 "/a" ∷ (local_info 1 "/b" ∷ []);
  strategy = "affinity";
  mount_path = "";
  delete_chunks_after = false;
  compressed = false;
  checksum_required = false;
  use_tree_merge = false;
  agent_id = "agent-1";
}

-- The second chunk's file breaks off.
abbrev broken_files : Files
broken_files = record files {
  file = λ path. if path == "/a" then content (1 ∷ (2 ∷ [])) else broken (3 ∷ []);
}

abbrev no_other : MergeConfig → Disk → Finish × Disk
no_other cfg d = (Finish.failed insufficient_space, d)

abbrev failing : Ending × Objects × Disk
failing =
    merge_whole world setting broken_files no_other (merge_payload "affinity" "") objects empty_disk

failing_fails : returns_error failing.0 ≡ true
unfolding merge_whole execute_merge_dataset stream_merge merge_chunks by_index
    calculate_required_space fill finish_merge merge_loop merge_chunk
failing_fails = refl

failed_merge_lem_example :
    (lookup "source.csv" failing.1 ≡ lookup "source.csv" objects)
    × IsKept setting empty_disk failing.2
unfolding backend_of
failed_merge_lem_example =
    failed_merge_lem world setting broken_files no_other (merge_payload "affinity" "") bucket
      objects empty_disk "source.csv" bucket-IsStore refl refl refl failing_fails
      merged_key-ne-source

config_named : (merge_payload "byte_range" "config-1").storage_config_id ≢ ""
config_named h = let sizes : len "config-1" ≡ len "" = ap len h in absurd (omega (arith, sizes))

concat_config_refused_example :
    (e : MergeFailure) × (execute_merge_dataset world
        (merge_payload "byte_range" "config-1")
        processed_objects
      ≡ (failed e, processed_objects))
concat_config_refused_example =
    concat_config_refused world (merge_payload "byte_range" "config-1") processed_objects refl
      config_named

result_key-ne-source : (i : ℕ) → get_remote_path_with_slug "d" "" i PathType.result ≢ "source.csv"
unfolding get_remote_path_with_slug
result_key-ne-source i h =
    let first : code (char_at "d" 0) ≡ code (char_at "s" 0) = ap code (
      head-eq_of_cons-eq {x = char_at "d" 0} {y = char_at "s" 0} {ys = "ource.csv"}
        (sym (cons-append (char_at "d" 0) "" _) ∙ h)) in
    absurd (omega (arith, first))

source_held : lookup "source.csv" objects ≡ some source
unfolding lookup
source_held = refl

copied_source_merges_example : lookup "d_merged.csv" merged_objects ≡ some source
unfolding get_remote_path_with_slug backend_of resolve_plugin_name
copied_source_merges_example =
    copied_source_merges machine bucket (job 0) payload "s3" source ranges world
      (merge_payload "byte_range" "") objects processed_objects merged_objects bucket-IsStore
      bucket-IsReadable (copies_input "copy") refl source_held result_key-ne-source
      ((λ h. absurd (omega (arith, h)), tt), (tt, tt)) (omega arith) ranges_processed refl refl refl
      refl merge_stored

merge_called :
    execute_merge_dataset world (merge_payload "affinity" "") objects ≡ (local merge_call, objects)
unfolding execute_merge_dataset
merge_called = refl

local_merge_lem_example :
    (objects ≡ objects)
    × (merge_call.dataset_id ≡ "d")
    × (merge_call.agent_id ≡ "agent-1")
    × Skips false (merge_payload "affinity" "").chunks merge_call.chunks
    × IsThere world merge_call.chunks
    × ((f : Files) → merge_chunks f merge_call.chunks ≡ map (fill f) (active merge_call.chunks))
local_merge_lem_example =
    local_merge_lem world (merge_payload "affinity" "") objects objects merge_call merge_called

call-IsReady : IsReady (setting_of setting merge_call) (merge_chunks files merge_call.chunks)
unfolding merge_chunks fill by_index calculate_required_space
call-IsReady = record {
  dataset = refl;
  agent = refl;
  directory = refl;
  room = refl;
  checkpoint = refl;
  opens = refl;
  syncs = refl;
  renames = refl;
  clears = refl;
  lasts = omega arith;
}

call-CanMerge : CanMerge files 0 (merge_chunks files merge_call.chunks)
unfolding merge_chunks fill by_index
call-CanMerge = (refl, refl, refl, (refl, refl, refl, tt))

local_merge_output_example :
    (merge_whole world setting files no_other
      (merge_payload "affinity" "")
      objects
      empty_disk).2.output
    ≡ some (3 ∷ (4 ∷ (3 ∷ (4 ∷ []))))
unfolding all_bytes bytes_in fill
local_merge_output_example =
    local_merge_output world (merge_payload "affinity" "") objects objects merge_call setting files
      no_other empty_disk merge_called refl refl call-IsReady call-CanMerge refl refl

-- Two later steps of the chunk, and the result between them.
steps_processed :
    process_steps machine bucket payload "s3" (job 1 ∷ (job 2 ∷ [])) processed_objects
    ≡ (none, processed_objects)
unfolding process_steps process_plain read_file write_file remove_file lookup insert
    get_remote_path_with_slug decimal resolve_plugin_name
steps_processed = refl

chain : Transform machine payload (job 1 ∷ (job 2 ∷ [])) ((λ x. x) ∷ ((λ x. x) ∷ []))
unfolding resolve_plugin_name
chain = (omega arith, copies_input "copy", (omega arith, copies_input "copy", tt))

result_held : lookup (result_key payload) processed_objects ≡ some (1 ∷ (2 ∷ []))
unfolding lookup get_remote_path_with_slug decimal
result_held = refl
