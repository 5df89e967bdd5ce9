-- ===== src/Dispatcher/Handlers/Chunks/Ranges.antt =====
-- `executeProcessChunkByteRange`.
use sentrazero.Base.{
  ℕ, ◌-◌, String, not, Option, none, some, [], ◌∷◌, length, take, drop, ltb, if◌then◌else◌, ◌==◌,
}
use sentrazero.Storage.Backends.{Bytes, Objects, StorageBackend}
use sentrazero.Dispatcher.Handlers.Paths.{is_abs, join, derive_mount_base_path}
use sentrazero.Dispatcher.Handlers.Chunks.{
  Machine, Job, ProcessPayload, ChunkFailure, no_work_dir, no_source_path, no_source, not_created,
  not_skipped, nothing_read, file, is_empty, chunk_file, run_and_store,
}

pub data Input : Type 0 where
  no_input : ChunkFailure → Input
  -- a file that was made, and its bytes
  input : String → Bytes → Input

-- The bytes from one offset up to another, as far as there are any.
abbrev pub section : Bytes → ℕ → ℕ → Bytes
section bytes from to = take (to - from) (drop from bytes)

abbrev pub mounted : String → String → String
mounted mount path = if is_abs path then path else join (mount ∷ (path ∷ []))

-- A section reader over a file of the mount.
unfoldable pub mounted_range : Machine → String → ProcessPayload → String → Input
unfolding derive_mount_base_path is_abs join
mounted_range m mode p work =
    let path = chunk_file work p.chunk_index ".bin" in
    elim (m.open_file (mounted (derive_mount_base_path m.mount_path mode) p.source_file_path)) [
      | none ↦ no_input no_source
      | some bytes ↦
          if not (m.creates path)
          then no_input not_created
          else input path (section bytes p.byte_range_start p.byte_range_end)
    ]

-- The object is read: the bytes before the range are skipped, those of the range are kept.
unfoldable pub remote_range : Machine → StorageBackend → ProcessPayload → String → Objects → Input
unfolding join
remote_range m b p work s =
    let path = join (work ∷ ("source.bin" ∷ [])) in
    elim (b.read_object p.source_file_path s) [
      | none ↦ no_input no_source
      | some bytes ↦
          if not (m.creates path)
          then no_input not_created
          else if ltb (length bytes) p.byte_range_start
          then no_input not_skipped
          else if is_empty (section bytes p.byte_range_start p.byte_range_end)
          then no_input nothing_read
          else input path (section bytes p.byte_range_start p.byte_range_end)
    ]

unfoldable pub range_input :
    Machine → StorageBackend → ProcessPayload → String → String → Objects → Input
unfolding mounted_range remote_range
range_input m b p mode work s =
    if p.source_file_path == ""
    then no_input no_source_path
    else if mode == "shared_mount"
    then mounted_range m mode p work
    else remote_range m b p work s

-- The failure, `none` where there is none, and the objects afterwards.
unfoldable pub execute_process_chunk_byte_range :
    Machine
    → StorageBackend
    → Job
    → ProcessPayload
    → String
    → Objects
    → Option ChunkFailure × Objects
unfolding range_input run_and_store
execute_process_chunk_byte_range m b j p mode s = elim (m.prepare_work_dir j.id) [
  | none ↦ (some no_work_dir, s)
  | some work ↦ elim (range_input m b p mode work s) [
    | no_input e ↦ (some e, s)
    | input path bytes ↦ run_and_store m b j p mode work path ((path, file bytes) ∷ []) s
  ]
]
