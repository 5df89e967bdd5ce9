-- ===== src/Dispatcher/Handlers/Chunks/Lists.antt =====
-- `executeProcessChunkFileList`.
use sentrazero.Base.{
  ◌⊎◌, inl, inr, String, true, not, Option, none, some, List, [], ◌∷◌, if◌then◌else◌, ◌==◌,
}
use sentrazero.Base.Dict.{insert}
use sentrazero.Storage.Backends.{Bytes, Objects, StorageBackend}
use sentrazero.Dispatcher.Handlers.Paths.{base, derive_mount_base_path, is_abs, join}
use sentrazero.Dispatcher.Handlers.Chunks.{
  Machine, Job, ProcessPayload, ChunkFailure, no_work_dir, no_files, no_source, not_created, file,
  folder, Tree, is_empty, run_and_store,
}
use sentrazero.Dispatcher.Handlers.Chunks.Ranges.{mounted}

-- The bytes of one file of the list: `none` where it cannot be read.
unfoldable pub listed_file : Machine → StorageBackend → String → Objects → String → Option Bytes
unfolding derive_mount_base_path is_abs join
listed_file m b mode s path =
    if mode == "shared_mount"
    then m.open_file (mounted (derive_mount_base_path m.mount_path mode) path)
    else b.read_object path s

-- Each file is copied into the directory, under the last part of its path.
unfoldable pub copy_files :
    Machine → StorageBackend → String → Objects → String → List String → Tree → ChunkFailure ⊎ Tree
unfolding listed_file base
copy_files m b mode s into [] t = inr t
copy_files m b mode s into (path ∷ paths) t = elim (listed_file m b mode s path) [
  | none ↦ inl no_source
  | some bytes ↦
      if not (m.creates (join (into ∷ (base path ∷ []))))
      then inl not_created
      else copy_files m b mode s into paths (insert (join (into ∷ (base path ∷ []))) (file bytes) t)
]

unfoldable pub execute_process_chunk_file_list :
    Machine
    → StorageBackend
    → Job
    → ProcessPayload
    → String
    → Objects
    → Option ChunkFailure × Objects
unfolding copy_files run_and_store
execute_process_chunk_file_list m b j p mode s = elim (m.prepare_work_dir j.id) [
  | none ↦ (some no_work_dir, s)
  | some work ↦
      let into = join (work ∷ ("files" ∷ [])) in
      let copied = copy_files m b mode s into p.file_list ((into, folder true) ∷ []) in
      if is_empty p.file_list
      then (some no_files, s)
      else if not (m.makes_directory into)
      then (some not_created, s)
      else elim copied [ inl e ↦ (some e, s) | inr t ↦ run_and_store m b j p mode work into t s ]
]
