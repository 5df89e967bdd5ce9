-- ===== src/Dispatcher/Handlers/Compound/Inputs.antt =====
-- The input of each step of a compound job.
use sentrazero.Base.{
  ℕ, ◌-◌, zero, suc, ◌++◌, ◌⊎◌, inl, inr, String, true, not, Option, none, some, List, [], ◌∷◌,
  if◌then◌else◌, ◌==◌,
}
use sentrazero.Base.Dict.{insert}
use sentrazero.Storage.Backends.{Objects, StorageBackend}
use sentrazero.Dispatcher.Handlers.Paths.{
  base, chunk_bin_path, chunk_out_path, derive_mount_base_path, ends_with_slash, ext, join,
}
use sentrazero.Dispatcher.Handlers.Chunks.{
  Machine, ProcessPayload, ChunkFailure, no_source_path, no_source, not_created, no_chunk_file,
  no_previous_output, file, folder, Tree, is_absent, is_empty, chunk_file, result_key,
}
use sentrazero.Dispatcher.Handlers.Chunks.Plain.{
  download, download_directory, source_file, standing,
}
use sentrazero.Dispatcher.Handlers.Compound.{Cache, Field, text, ChainFields, step_out_dir}

-- The input path, the directory of the downloaded files ("" where there is none), and the files.
pub data Resolved : Type 0 where
  unresolved : ChunkFailure → Resolved
  resolved : String → String → Tree → Resolved

-- New files before those that are there.
abbrev pub resolve_with : String → String → Tree → ChunkFailure ⊎ Tree → Resolved
resolve_with input files t (inl e) = unresolved e
resolve_with input files t (inr new) = resolved input files (new ++ t)

-- The files of a list are read from the backend, whatever the mode.
unfoldable pub fetch_files :
    Machine → StorageBackend → Objects → String → List String → Tree → ChunkFailure ⊎ Tree
unfolding base join
fetch_files m b s into [] t = inr t
fetch_files m b s into (key ∷ keys) t =
    let path = join (into ∷ (base key ∷ [])) in
    elim (b.read_object key s) [
      | none ↦ inl no_source
      | some bytes ↦
          if m.creates path
          then fetch_files m b s into keys (insert path (file bytes) t)
          else inl not_created
    ]

abbrev pub files_of : String → String
files_of work = join (work ∷ ("files" ∷ []))

-- Before the steps: the directory with the files of the payload, "" where it lists none.
unfoldable pub fetch_listed :
    Machine → StorageBackend → ProcessPayload → String → Objects → Tree → Resolved
unfolding fetch_files join
fetch_listed m b p work s t =
    let fetched =
      fetch_files m b s (files_of work) p.file_list (insert (files_of work) (folder true) t) in
    if is_empty p.file_list
    then resolved "" "" t
    else if not (m.makes_directory (files_of work))
    then unresolved not_created
    else elim fetched [ inl e ↦ unresolved e | inr new ↦ resolved "" (files_of work) new ]

-- A directory with one entry stands for that entry.
unfoldable pub sole_entry : Cache → String → Tree → String
unfolding join
sole_entry c files t = elim (c.read_dir files t) [
  | none ↦ files
  | some [] ↦ files
  | some (name ∷ []) ↦ join (files ∷ (name ∷ []))
  | some (name ∷ (other ∷ names)) ↦ files
]

-- The first step on a shared mount: the chunk's file there, or else the source.
unfoldable pub first_shared :
    Machine → StorageBackend → ProcessPayload → String → String → Objects → String → Tree → Resolved
unfolding chunk_bin_path derive_mount_base_path standing download join ext
first_shared m b p mode work s files t =
    let path =
      chunk_bin_path (derive_mount_base_path m.mount_path mode) p.dataset_id p.chunk_index in
    if not (is_absent path (t ++ standing m path))
    then resolved path files (t ++ standing m path)
    else if not (p.source_path == "")
    then resolve_with (source_file work p.source_path) files t
        (download m b p.source_path (source_file work p.source_path) s)
    else unresolved no_chunk_file

-- The first step elsewhere: the files that were fetched, or else the source, a directory or a file.
unfoldable pub first_remote :
    Machine → Cache → StorageBackend → ProcessPayload → String → Objects → String → Tree → Resolved
unfolding sole_entry ends_with_slash download_directory download join ext
first_remote m c b p work s files t =
    if not (files == "")
    then resolved (sole_entry c files t) files t
    else if p.source_path == ""
    then unresolved no_source_path
    else if ends_with_slash p.source_path
    then resolve_with (files_of work) (files_of work) t (download_directory m b p (files_of work) s)
    else resolve_with (source_file work p.source_path) files t
        (download m b p.source_path (source_file work p.source_path) s)

unfoldable pub first_input :
    Machine
    → Cache
    → StorageBackend
    → ProcessPayload
    → String
    → String
    → Objects
    → String
    → Tree
    → Resolved
unfolding first_shared first_remote
first_input m c b p mode work s files t =
    if mode == "shared_mount"
    then first_shared m b p mode work s files t
    else first_remote m c b p work s files t

-- A text that is not empty, "" for any other field.
abbrev pub text_of : Field → String
text_of (text t) = t
text_of _ = ""

-- What the previous step reported: its output directory, or else its output file where it exists.
unfoldable pub reported_input : Machine → Option ChainFields → Tree → String
unfolding standing
reported_input m none t = ""
reported_input m (some fields) t =
    let path = text_of fields.output_path in
    if not (text_of fields.output_dir == "")
    then text_of fields.output_dir
    else if not (is_absent path (t ++ standing m path))
    then path
    else ""

-- The output that the step before left: in the cache, on the mount, or in the backend.
unfoldable pub cached_input :
    Machine
    → StorageBackend
    → ProcessPayload
    → String
    → String
    → String
    → Objects
    → ℕ
    → String
    → Tree
    → Resolved
unfolding chunk_out_path derive_mount_base_path standing download join
cached_input m b p mode cache work s i files t =
    let kept = step_out_dir cache (i - 1) in
    let path =
      chunk_out_path (derive_mount_base_path m.mount_path mode) p.dataset_id p.chunk_index in
    if not (is_absent kept t)
    then resolved kept files t
    else if mode == "shared_mount"
    then if is_absent path (t ++ standing m path)
      then unresolved no_previous_output
      else resolved path files (t ++ standing m path)
    else resolve_with (chunk_file work p.chunk_index ".out") files t
        (download m b (result_key p) (chunk_file work p.chunk_index ".out") s)

-- A later step: what the previous step reported, or else the files, or else its output.
unfoldable pub later_input :
    Machine
    → StorageBackend
    → ProcessPayload
    → String
    → String
    → String
    → Objects
    → ℕ
    → Option ChainFields
    → String
    → Tree
    → Resolved
unfolding reported_input cached_input
later_input m b p mode cache work s i previous files t =
    let reported = reported_input m previous t in
    if not (reported == "")
    then resolved reported files t
    else if not (files == "")
    then resolved files files t
    else cached_input m b p mode cache work s i files t

unfoldable pub step_input :
    Machine
    → Cache
    → StorageBackend
    → ProcessPayload
    → String
    → String
    → String
    → Objects
    → ℕ
    → Option ChainFields
    → String
    → Tree
    → Resolved
unfolding first_input later_input
step_input m c b p mode cache work s zero previous files t = first_input m c b p mode work s files t
step_input m c b p mode cache work s (suc i) previous files t =
    later_input m b p mode cache work s (suc i) previous files t
