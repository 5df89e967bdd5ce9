-- ===== src/Dispatcher/Handlers/Chunks.antt =====
-- The handlers of one chunk: what they share. A chunk index and the ends of a byte range are not
-- negative. The local files that matter are those that the handler makes or the plugin leaves, by
-- their paths; the work directory is fresh, and its removal at the end is not modelled. What a handler
-- writes to a shared mount as a plain file is among the local files, not among the objects.
pub mod Ranges
pub mod Lists
pub mod Results
pub mod Pipeline
pub mod Plain
pub mod Process
pub mod Steps
pub mod Others
use Prim.Native.String.{◌++◌}
use sentrazero.Base.{
  ℕ, ◌&&◌, ◌||◌, String, Bool, true, false, not, Option, none, some, List, [], ◌∷◌, if◌then◌else◌,
  ◌==◌,
}
use sentrazero.Base.Dict.{Dict, lookup, insert, delete}
use sentrazero.Base.Texts.{contains_text}
use sentrazero.Base.Decimal.{decimal}
use sentrazero.Storage.Keys.{PathType, get_remote_path_with_slug}
use sentrazero.Storage.Backends.{Bytes, Objects, StorageBackend}
use sentrazero.Dispatcher.Handlers.Paths.{join}

pub record Job : Type 0 where
  pub id : String
  pub org_id : String
  pub execution_id : String
  pub step_index : ℕ
  pub plugin_id : String
  pub plugin_name : String
  -- JSON texts, here and in the payload: "" where there is none
  pub step_config : String
  pub storage_mode : String
  pub storage_config_id : String
  pub source_path : String

-- One step of a compound job. Its place in the list is its index.
pub record CompoundStep : Type 0 where
  pub plugin_id : String
  pub config : String

pub record ProcessPayload : Type 0 where
  pub chunk_id : String
  pub input_path : String
  pub output_path : String
  pub dataset_id : String
  pub dataset_slug : String
  pub chunk_index : ℕ
  pub plugin_id : String
  pub config : String
  pub byte_range_start : ℕ
  pub byte_range_end : ℕ
  pub file_list : List String
  pub source_file_path : String
  pub storage_mode : String
  pub chunk_strategy : String
  pub source_path : String
  pub is_compound : Bool
  pub steps : List CompoundStep
  pub current_step_index : ℕ

pub record PluginContext : Type 0 where
  pub job_id : String
  pub org_id : String
  pub dataset_id : String
  pub execution_id : String
  pub step_index : ℕ
  pub chunk_id : String
  pub chunk_index : ℕ
  pub input_path : String
  pub output_path : String
  pub config : String

pub data Node : Type 0 where
  file : Bytes → Node
  -- does a regular file stand directly in it?
  folder : Bool → Node

abbrev pub Tree : Type 0
Tree = Dict Node

-- What `plugin.Execute` answers: the output, or the text of the error.
pub data Run : Type 0 where
  output : Bytes → Run
  run_error : String → Run

-- What the handlers call.
pub record Machine : Type 0 where
  -- SENTRA_MOUNT_PATH
  pub mount_path : String
  -- `pluginIDToName`, and the name of a plugin that is fetched and installed by its id
  pub plugin_ids : Dict String
  pub fetch_plugin : String → Option String
  pub prepare_work_dir : String → Option String
  pub load_plugin : String → Bool
  pub execute : String → PluginContext → Tree → Run × Tree
  -- the output of the v2 runtime, where it succeeds
  pub fallback_to_v2 : String → ProcessPayload → Job → Tree → Option Bytes × Tree
  -- `data.output_path` of the object that an output is parsed to, "" where there is none
  pub reported_path : Bytes → String
  -- is there an object in the output?
  pub parses : Bytes → Bool
  -- `file_pattern` of a JSON configuration, "" where there is none, and `filepath.Match`
  pub file_pattern : String → String
  pub matches : String → String → Bool
  pub makes_directory : String → Bool
  pub creates : String → Bool
  pub renames : String → Bool
  pub copies : String → Bool
  pub writes : String → Bool
  -- the bytes of a local file that stood there before
  pub open_file : String → Option Bytes

pub data ChunkFailure : Type 0 where
  no_work_dir no_source_path no_source not_created not_skipped nothing_read no_files : ChunkFailure
  no_plugin not_loaded plugin_failed not_copied not_opened not_stored : ChunkFailure
  no_ids no_config no_new_backend not_initialized no_chunk_file not_listed no_input_path :
      ChunkFailure
  no_output_path not_parsed not_cleaned no_previous_output : ChunkFailure

-- The map that a fetch extends is looked up only: a second fetch of an id is taken to give its name.
unfoldable pub resolve_plugin_name : Machine → String → String → String
resolve_plugin_name m id name =
    if not (name == "")
    then name
    else if not (id == "")
    then elim (lookup id m.plugin_ids) [
      | some known ↦ known
      | none ↦ elim (m.fetch_plugin id) [ none ↦ "" | some fetched ↦ fetched ]
    ]
    else ""

abbrev pub is_empty {ℓ} : {A : Type ℓ} → List A → Bool
is_empty [] = true
is_empty (x ∷ xs) = false

unfoldable pub has_real_output : String → Tree → Bool
has_real_output path t = elim (lookup path t) [
  | none ↦ false
  | some (file bytes) ↦ not (is_empty bytes)
  | some (folder filled) ↦ filled
]

abbrev pub is_docker_error : String → Bool
is_docker_error text = contains_text text "Docker" || contains_text text "docker"

-- The plugin's output, `none` where it failed. A failure with a real output file counts as a success
-- without output, and one that names Docker is tried again in the v2 runtime.
unfoldable pub after_run :
    Machine → String → String → ProcessPayload → Job → Run × Tree → Option Bytes × Tree
unfolding has_real_output
after_run m name output_path p j (output bytes, t) = (some bytes, t)
after_run m name output_path p j (run_error text, t) =
    if has_real_output output_path t
    then (some [], t)
    else if is_docker_error text
    then m.fallback_to_v2 name p j t
    else (none, t)

abbrev pub is_absent : String → Tree → Bool
is_absent path t = elim (lookup path t) [ none ↦ true | some n ↦ false ]

-- The output is written to the file that is expected, where there is none.
unfoldable pub fill_output : Machine → String → Bytes → Tree → Tree
fill_output m path bytes t =
    if is_absent path t && (not (is_empty bytes) && m.writes path)
    then insert path (file bytes) t
    else t

-- The file that the output names is moved to where it is expected. `none` where that fails.
unfoldable pub move_reported : Machine → String → String → Tree → Option Tree
move_reported m path reported t = elim (lookup reported t) [
  | none ↦ some t
  | some (folder filled) ↦ some t
  | some (file bytes) ↦
      if m.renames path
      then some (insert path (file bytes) (delete reported t))
      else if m.copies path
      then some (insert path (file bytes) t)
      else none
]

abbrev pub reported_by : Machine → Bytes → String
reported_by m bytes = if is_empty bytes then "" else m.reported_path bytes

unfoldable pub ensure_output : Machine → String → Bytes → Tree → Option Tree
unfolding move_reported fill_output
ensure_output m path bytes t =
    if is_absent path t
    then elim (if reported_by m bytes == ""
        then some t
        else move_reported m path (reported_by m bytes) t) [
          | none ↦ none
          | some moved ↦ some (fill_output m path bytes moved)
        ]
    else some t

-- A directory opens and cannot be read.
unfoldable pub upload_node :
    StorageBackend → String → Option Node → Objects → Option ChunkFailure × Objects
upload_node b key none s = (some not_opened, s)
upload_node b key (some (folder filled)) s = (some not_stored, s)
upload_node b key (some (file content)) s =
    let (done, after) = b.write_object key content s in
    (if done then none else some not_stored, after)

-- The upload, for every mode but that of a shared mount.
unfoldable pub upload_output :
    Machine
    → StorageBackend
    → String
    → String
    → String
    → Bytes
    → Tree
    → Objects
    → Option ChunkFailure × Objects
unfolding fill_output upload_node
upload_output m b mode path key bytes t s =
    if mode == "shared_mount"
    then (none, s)
    else upload_node b key (lookup path (fill_output m path bytes t)) s

abbrev pub context_of : Job → ProcessPayload → String → String → PluginContext
context_of j p input out = record {
  job_id = j.id;
  org_id = j.org_id;
  dataset_id = p.dataset_id;
  execution_id = j.execution_id;
  step_index = j.step_index;
  chunk_id = p.chunk_id;
  chunk_index = p.chunk_index;
  input_path = input;
  output_path = out;
  config = if p.config == "" then j.step_config else p.config;
}

abbrev pub result_key : ProcessPayload → String
result_key p = get_remote_path_with_slug p.dataset_id p.dataset_slug p.chunk_index PathType.result

abbrev pub chunk_file : String → ℕ → String → String
chunk_file work index extension = join (work ∷ (("chunk_" ++ (decimal index ++ extension)) ∷ []))

-- From the output of the plugin on.
unfoldable pub store_output :
    Machine
    → StorageBackend
    → ProcessPayload
    → String
    → String
    → Option Bytes × Tree
    → Objects
    → Option ChunkFailure × Objects
unfolding ensure_output upload_output
store_output m b p mode path (none, t) s = (some plugin_failed, s)
store_output m b p mode path (some bytes, t) s = elim (ensure_output m path bytes t) [
  | none ↦ (some not_copied, s)
  | some ready ↦ upload_output m b mode path (result_key p) bytes ready s
]

abbrev pub plugin_of : Machine → Job → ProcessPayload → String
plugin_of m j p =
    resolve_plugin_name m (if j.plugin_id == "" then p.plugin_id else j.plugin_id) j.plugin_name

-- The part that the handlers of a byte range and of a list of files have in common: the plugin is run
-- on the input, and its output is stored.
unfoldable pub run_and_store :
    Machine
    → StorageBackend
    → Job
    → ProcessPayload
    → String
    → String
    → String
    → Tree
    → Objects
    → Option ChunkFailure × Objects
unfolding resolve_plugin_name store_output after_run join
run_and_store m b j p mode work input t s =
    let path = chunk_file work p.chunk_index ".out" in
    let name = plugin_of m j p in
    if name == ""
    then (some no_plugin, s)
    else if not (m.load_plugin name)
    then (some not_loaded, s)
    else store_output m b p mode path
        (after_run m name path p j (m.execute name (context_of j p input path) t)) s
