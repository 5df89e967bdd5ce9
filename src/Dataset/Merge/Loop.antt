-- ===== src/Dataset/Merge/Loop.antt =====
-- `StreamMerge` of internal/dataset/merge.go: the loop over the active chunks, and what follows it.
-- The files are arguments: what stands under a chunk's path, and what each call answers. Files are
-- lists of bytes; the partial file is opened with O_APPEND, so every write goes to its end, wherever
-- the file was positioned before. The branch that compresses (`config.Compressed`) is not modelled.
use sentrazero.Base.{
  ℕ, suc, ◌+◌, String, Bool, false, not, Option, none, some, List, [], ◌∷◌, ◌++◌, length, map, ltb,
  nat_eq, if◌then◌else◌, ◌==◌,
}
use sentrazero.Dataset.Merge.{ChunkInfo, MergeCheckpoint}
use sentrazero.Dataset.Merge.Plan.{active, by_index, calculate_required_space}

-- What `Stat`, `Open` and `Copy` find under a resolved path.
pub data ChunkFile : Type 0 where
  missing inaccessible directory unopenable : ChunkFile
  -- the copy fails after these bytes
  broken : List ℕ → ChunkFile
  content : List ℕ → ChunkFile

pub data MergeError : Type 0 where
  dataset_id_required agent_id_required no_output_directory insufficient_space : MergeError
  bad_checkpoint no_partial_file context_ended chunk_inaccessible chunk_is_directory : MergeError
  chunk_unopenable chunk_not_written sync_failed rename_failed : MergeError

pub record Files : Type 0 where
  -- `computeChunkChecksum`: the checksum and the size of the file under the chunk's own path
  pub probe : String → Option (String × ℕ)
  -- `none` where `resolveChunkPath` refuses the path
  pub resolve : ChunkInfo → Option String
  pub file : String → ChunkFile
  -- is the context still alive, does the sync succeed, is the checkpoint saved, at each position?
  pub alive : ℕ → Bool
  pub syncs : ℕ → Bool
  pub saves : ℕ → Bool

-- A chunk with no checksum gets that of its file, with the file's size.
unfoldable pub fill : Files → ChunkInfo → ChunkInfo
fill e c =
    if c.checksum == ""
    then elim (e.probe c.path) [
      | none ↦ c
      | some (checksum, size) ↦ record c { checksum = checksum; size_bytes = size }
    ]
    else c

-- The chunks of a merge: active, filled in and sorted.
unfoldable pub merge_chunks : Files → List ChunkInfo → List ChunkInfo
merge_chunks e chunks = by_index (map (fill e) (active chunks))

-- The variables of the loop: the partial file, the counters, the checkpoint in memory (`none` before
-- the first chunk) and the one on disk.
pub record Progress : Type 0 where
  pub partial : List ℕ
  pub bytes_written : ℕ
  pub merged_count : ℕ
  pub skipped_count : ℕ
  pub chunks_merged : List String
  pub saved : Option MergeCheckpoint

pub data Next : Type 0 where
  go : Progress → Next
  stop : MergeError → Progress → Next

abbrev pub skip : Progress → Progress
skip s = record s { skipped_count = s.skipped_count + 1 }

abbrev pub checkpoint_of : ChunkInfo → Progress → MergeCheckpoint
checkpoint_of c s = record {
  last_chunk_index = c.index;
  bytes_written = s.bytes_written;
  chunks_merged = s.chunks_merged;
}

-- After a successful copy of bytes that are not empty.
unfoldable pub record_chunk : Files → ℕ → ChunkInfo → List ℕ → Progress → Next
record_chunk e i c bytes s =
    let t = record s {
      partial = s.partial ++ bytes;
      bytes_written = s.bytes_written + length bytes;
      merged_count = s.merged_count + 1;
    } in
    let u = record t { chunks_merged = t.chunks_merged ++ c.chunk_id ∷ [] } in
    if e.syncs i
    then go (if e.saves i then record u { saved = some (checkpoint_of c u) } else u)
    else stop sync_failed t

-- The copy of one chunk's file.
unfoldable pub copy_chunk : Files → ℕ → ChunkInfo → ChunkFile → Progress → Next
unfolding record_chunk
copy_chunk e i c missing s = go (skip s)
copy_chunk e i c inaccessible s = stop chunk_inaccessible s
copy_chunk e i c directory s = stop chunk_is_directory s
copy_chunk e i c unopenable s = stop chunk_unopenable s
copy_chunk e i c (broken bytes) s =
    stop chunk_not_written (record s { partial = s.partial ++ bytes })
copy_chunk e i c (content []) s = go (skip s)
copy_chunk e i c (content (b ∷ bytes)) s = record_chunk e i c (b ∷ bytes) s

-- One round of the loop, `i` being the position among the active chunks.
unfoldable pub merge_chunk : Files → ℕ → ℕ → ChunkInfo → Progress → Next
unfolding copy_chunk
merge_chunk e resume_index i c s =
    if ltb i resume_index
    then go (record s { merged_count = s.merged_count + 1 })
    else if e.alive i
    then elim (e.resolve c) [ none ↦ go (skip s) | some path ↦ copy_chunk e i c (e.file path) s ]
    else stop context_ended s

unfoldable pub merge_loop : Files → ℕ → ℕ → List ChunkInfo → Progress → Next
merge_loop e resume_index i [] s = go s
merge_loop e resume_index i (c ∷ cs) s = elim (merge_chunk e resume_index i c s) [
  | go t ↦ merge_loop e resume_index (suc i) cs t
  | stop why t ↦ stop why t
]

-- What the calls around the loop answer.
pub record Setting : Type 0 where
  pub dataset_id : String
  pub agent_id : String
  pub makes_directory : Bool
  -- `none` where the space cannot be read
  pub available : Option ℕ
  pub checkpoint_readable : Bool
  pub opens_partial : Bool
  pub syncs_output : Bool
  pub renames : Bool
  pub clears_checkpoint : Bool
  pub duration_ms : ℕ

-- The files of one output path, and the chunk files whose removal was asked for.
pub record Disk : Type 0 where
  pub partial : Option (List ℕ)
  pub checkpoint : Option MergeCheckpoint
  pub output : Option (List ℕ)
  pub removed : List String

pub data Finish : Type 0 where
  -- the merge's result: merged, skipped
  finished : ℕ → ℕ → Finish
  failed : MergeError → Finish
  -- the division by a duration of 0 ms
  panicked : Finish

abbrev pub resume_index_of : Option MergeCheckpoint → ℕ
resume_index_of none = 0
resume_index_of (some k) = k.last_chunk_index + 1

abbrev pub bytes_before : Option MergeCheckpoint → ℕ
bytes_before none = 0
bytes_before (some k) = k.bytes_written

abbrev pub bytes_of : Option (List ℕ) → List ℕ
bytes_of none = []
bytes_of (some bytes) = bytes

abbrev pub start : Disk → Progress
start d = record {
  partial = bytes_of d.partial;
  bytes_written = bytes_before d.checkpoint;
  merged_count = 0;
  skipped_count = 0;
  chunks_merged = [];
  saved = d.checkpoint;
}

-- `cleanupChunks`, whatever `config.DeleteChunksAfter` says: it removes the chunk's own path.
unfoldable pub cleanup_chunks : List ChunkInfo → List String → List String
cleanup_chunks cs removed = map (λ c. c.path) cs ++ removed

-- From the end of the loop on: the clean-up, the rename, the cleared checkpoint and the result.
unfoldable pub finish_merge : Setting → List ChunkInfo → Next → Disk → Finish × Disk
finish_merge e cs (stop why s) d =
    (failed why, record d { partial = some s.partial; checkpoint = s.saved })
finish_merge e cs (go s) d =
    let gone = cleanup_chunks cs d.removed in
    if not e.syncs_output
    then (
      failed sync_failed,
      record d { partial = some s.partial; checkpoint = s.saved; removed = gone },
    )
    else if not e.renames
    then (
      failed rename_failed,
      record d { partial = some s.partial; checkpoint = s.saved; removed = gone },
    )
    else (
      if nat_eq e.duration_ms 0 then panicked else finished s.merged_count s.skipped_count,
      record {
        partial = none;
        checkpoint = if e.clears_checkpoint then none else s.saved;
        output = some s.partial;
        removed = gone;
      },
    )

abbrev pub lacks_space : Setting → List ChunkInfo → Bool
lacks_space e chunks = elim e.available [
  | none ↦ false
  | some bytes ↦ ltb bytes (calculate_required_space chunks)
]

unfoldable pub stream_merge : Setting → Files → List ChunkInfo → Disk → Finish × Disk
stream_merge e f chunks d =
    let cs = merge_chunks f chunks in
    if e.dataset_id == ""
    then (failed dataset_id_required, d)
    else if e.agent_id == ""
    then (failed agent_id_required, d)
    else if not e.makes_directory
    then (failed no_output_directory, d)
    else if lacks_space e cs
    then (failed insufficient_space, d)
    else if not e.checkpoint_readable
    then (failed bad_checkpoint, d)
    else if not e.opens_partial
    then (failed no_partial_file, d)
    else finish_merge e cs (merge_loop f (resume_index_of d.checkpoint) 0 cs (start d)) d
