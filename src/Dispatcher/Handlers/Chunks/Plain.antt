-- ===== src/Dispatcher/Handlers/Chunks/Plain.antt =====
-- `executeProcessChunk` from the work directory on: the chunk that is neither compound nor a byte range
-- nor a list of files.
use Prim.Native.String as S
use sentrazero.Base.{
  ◌&&◌, ◌++◌, ◌⊎◌, inl, inr, String, Bool, true, not, Option, none, some, List, [], ◌∷◌, ltb,
  if◌then◌else◌, ◌==◌,
}
use sentrazero.Base.Dict.{insert}
use sentrazero.Storage.Backends.{Bytes, Objects, StorageBackend}
use sentrazero.Dispatcher.Handlers.Paths.{
  base, chunk_bin_path, chunk_out_path, derive_mount_base_path, ends_with_slash, ext,
  first_non_empty, join,
}
use sentrazero.Dispatcher.Handlers.Chunks.{
  Machine, Job, ProcessPayload, ChunkFailure, no_work_dir, no_source_path, no_source, not_created,
  no_plugin, not_loaded, plugin_failed, no_chunk_file, not_listed, no_files, no_input_path,
  no_output_path, not_parsed, file, folder, Tree, is_absent, is_empty, move_reported, reported_by,
  fill_output, upload_output, after_run, chunk_file, context_of, plugin_of, result_key,
}

-- The input path and the output path with the files that were made.
pub data Prepared : Type 0 where
  unprepared : ChunkFailure → Prepared
  prepared : String → String → Tree → Prepared

-- An object is copied to a new file.
unfoldable pub download : Machine → StorageBackend → String → String → Objects → ChunkFailure ⊎ Tree
download m b key path s = elim (b.read_object key s) [
  | none ↦ inl no_source
  | some bytes ↦ if m.creates path then inr ((path, file bytes) ∷ []) else inl not_created
]

-- Is an object of a listing one to download?
unfoldable pub is_wanted : Machine → String → String → Bool
unfolding ends_with_slash base
is_wanted m pattern key =
    not (ends_with_slash key) && (if pattern == "" then true else m.matches pattern (base key))

unfoldable pub download_wanted :
    Machine → StorageBackend → String → String → List String → Objects → Tree → ChunkFailure ⊎ Tree
unfolding base join is_wanted
download_wanted m b pattern into [] s t = inr t
download_wanted m b pattern into (key ∷ keys) s t =
    let path = join (into ∷ (base key ∷ [])) in
    let skipped = download_wanted m b pattern into keys s t in
    let taken : ChunkFailure ⊎ Tree = elim (b.read_object key s) [
      | none ↦ inl no_source
      | some bytes ↦
          if m.creates path
          then download_wanted m b pattern into keys s (insert path (file bytes) t)
          else inl not_created
    ] in
    if is_wanted m pattern key then taken else skipped

-- The objects below a directory of the backend.
unfoldable pub download_directory :
    Machine → StorageBackend → ProcessPayload → String → Objects → ChunkFailure ⊎ Tree
unfolding download_wanted
download_directory m b p into s = elim (b.list_objects p.source_path s) [
  | none ↦ inl not_listed
  | some [] ↦ inl no_files
  | some (key ∷ keys) ↦
      if m.makes_directory into
      then download_wanted m b (m.file_pattern p.config) into (key ∷ keys) s
          ((into, folder true) ∷ [])
      else inl not_created
]

abbrev pub prepare : String → String → ChunkFailure ⊎ Tree → Prepared
prepare input_path output_path (inl e) = unprepared e
prepare input_path output_path (inr t) = prepared input_path output_path t

abbrev pub source_file : String → String → String
source_file work path = join (work ∷ ((S.◌++◌ "source" (ext path)) ∷ []))

-- The input of a mode that is no shared mount.
unfoldable pub remote_input :
    Machine → StorageBackend → Job → ProcessPayload → String → Objects → Prepared
unfolding download download_directory ends_with_slash join ext
remote_input m b j p work s =
    let out = chunk_file work p.chunk_index ".out" in
    if ltb 0 j.step_index
    then prepare (chunk_file work p.chunk_index ".bin") out
        (download m b (result_key p) (chunk_file work p.chunk_index ".bin") s)
    else if p.source_path == ""
    then unprepared no_source_path
    else if ends_with_slash p.source_path
    then prepare (join (work ∷ ("files" ∷ []))) out
        (download_directory m b p (join (work ∷ ("files" ∷ []))) s)
    else prepare (source_file work p.source_path) out
        (download m b p.source_path (source_file work p.source_path) s)

-- The first step of a chunk on a shared mount: its file there, or else its source.
unfoldable pub first_mounted :
    Machine → StorageBackend → Job → ProcessPayload → String → String → String → Objects → Prepared
unfolding chunk_bin_path first_non_empty download join ext
first_mounted m b j p mount work out s =
    let path = chunk_bin_path mount p.dataset_id p.chunk_index in
    let source = first_non_empty (p.source_path ∷ (j.source_path ∷ [])) in
    elim (m.open_file path) [
      | some bytes ↦ prepared path out ((path, file bytes) ∷ [])
      | none ↦
          if source == ""
          then unprepared no_chunk_file
          else prepare (source_file work source) out
              (download m b source (source_file work source) s)
    ]

-- What stands under a path from before the handler.
unfoldable pub standing : Machine → String → Tree
standing m path = elim (m.open_file path) [ none ↦ [] | some bytes ↦ (path, file bytes) ∷ [] ]

-- The output file of an earlier run stands there too.
unfoldable pub with_output : Machine → Prepared → Prepared
unfolding standing
with_output m (unprepared e) = unprepared e
with_output m (prepared path out t) = prepared path out (t ++ standing m out)

unfoldable pub mounted_input :
    Machine → StorageBackend → Job → ProcessPayload → String → String → Objects → Prepared
unfolding first_mounted with_output chunk_out_path derive_mount_base_path
mounted_input m b j p mode work s =
    let mount = derive_mount_base_path m.mount_path mode in
    let chained = chunk_out_path mount p.dataset_id p.chunk_index in
    let out = if p.output_path == "" && not (p.dataset_id == "") then chained else p.output_path in
    with_output m (
      if p.input_path == "" && not (p.dataset_id == "")
      then if ltb 0 j.step_index
        then prepared chained out (standing m chained)
        else first_mounted m b j p mount work out s
      else prepared p.input_path out (standing m p.input_path))

-- As `ensure_output`, but a file that cannot be moved or copied is only logged.
unfoldable pub ensure_plain : Machine → String → Bytes → Tree → Tree
unfolding move_reported fill_output
ensure_plain m path bytes t =
    if is_absent path t
    then elim (if reported_by m bytes == ""
        then some t
        else move_reported m path (reported_by m bytes) t) [
          | none ↦ fill_output m path bytes t
          | some moved ↦ fill_output m path bytes moved
        ]
    else t

-- From the output of the plugin on. The local files are those at the end.
unfoldable pub store_plain :
    Machine
    → StorageBackend
    → ProcessPayload
    → String
    → String
    → Option Bytes × Tree
    → Objects
    → Option ChunkFailure × Tree × Objects
unfolding ensure_plain upload_output
store_plain m b p mode path (none, t) s = (some plugin_failed, t, s)
store_plain m b p mode path (some bytes, t) s =
    let ready = ensure_plain m path bytes t in
    let (failure, after) = upload_output m b mode path (result_key p) bytes ready s in
    if not (is_empty bytes) && not (m.parses bytes)
    then (some not_parsed, t, s)
    else (failure, ready, after)

unfoldable pub run_plain :
    Machine
    → StorageBackend
    → Job
    → ProcessPayload
    → String
    → String
    → String
    → Tree
    → Objects
    → Option ChunkFailure × Tree × Objects
unfolding store_plain after_run
run_plain m b j p mode input out t s =
    let name = plugin_of m j p in
    let p' = record p { input_path = input; output_path = out } in
    if input == ""
    then (some no_input_path, t, s)
    else if out == ""
    then (some no_output_path, t, s)
    else if name == ""
    then (some no_plugin, t, s)
    else if not (m.load_plugin name)
    then (some not_loaded, t, s)
    else store_plain m b p mode out
        (after_run m name out p' j (m.execute name (context_of j p input out) t)) s

abbrev pub work_dir_id : Job → ProcessPayload → String
work_dir_id j p = first_non_empty (j.id ∷ (p.chunk_id ∷ (p.dataset_id ∷ [])))

unfoldable pub process_plain :
    Machine
    → StorageBackend
    → Job
    → ProcessPayload
    → String
    → Objects
    → Option ChunkFailure × Tree × Objects
unfolding mounted_input remote_input run_plain first_non_empty
process_plain m b j p mode s = elim (m.prepare_work_dir (work_dir_id j p)) [
  | none ↦ (some no_work_dir, [], s)
  | some work ↦
      elim (if mode == "shared_mount"
        then mounted_input m b j p mode work s
        else remote_input m b j p work s) [
          | unprepared e ↦ (some e, [], s)
          | prepared input out t ↦ run_plain m b j p mode input out t s
        ]
]
