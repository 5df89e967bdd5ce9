-- ===== src/Tests/Merges.antt =====
-- A dataset of three chunks, one of them skipped, and its merges.
use sentrazero.Base.{
  ℕ, ◌+◌, ◌≡◌, refl, String, Bool, true, false, none, some, List, [], ◌∷◌, take, arith, ◌==◌,
  if◌then◌else◌,
}
use sentrazero.Dataset.Merge.{ChunkInfo, MergeCheckpoint}
use sentrazero.Dataset.Merge.Plan.{by_index, place, calculate_required_space, total_size}
use sentrazero.Dataset.Merge.Loop.{
  Files, content, Setting, Disk, finished, fill, merge_chunks, stream_merge,
}
use sentrazero.Dataset.Merge.Output.{all_bytes, bytes_in, CanMerge, IsReady}
use sentrazero.Dataset.Merge.Resume.{stream_merge_lem, resumed_merge_lem}

abbrev pub chunk : String → ℕ → Bool → ChunkInfo
chunk path index is_skipped = record {
  chunk_id = path;
  path = path;
  index = index;
  size_bytes = 2;
  checksum = "sum";
  is_skipped = is_skipped;
}

-- Chunk 1 is skipped, so chunk 2 is the second of the active ones.
abbrev pub chunks : List ChunkInfo
chunks = chunk "b" 2 false ∷ (chunk "a" 0 false ∷ (chunk "c" 1 true ∷ []))

abbrev contents : String → List ℕ
contents path = if path == "a" then 1 ∷ (2 ∷ []) else 3 ∷ (4 ∷ [])

abbrev pub files : Files
files = record {
  probe = λ path. none;
  resolve = λ c. some c.path;
  file = λ path. content (contents path);
  alive = λ i. true;
  syncs = λ i. true;
  saves = λ i. true;
}

abbrev pub setting : Setting
setting = record {
  dataset_id = "dataset-1";
  agent_id = "agent-1";
  makes_directory = true;
  available = some 1_000_000;
  checkpoint_readable = true;
  opens_partial = true;
  syncs_output = true;
  renames = true;
  clears_checkpoint = true;
  duration_ms = 12;
}

abbrev pub empty_disk : Disk
empty_disk = record { partial = none; checkpoint = none; output = none; removed = [] }

abbrev pub checkpoint : ℕ → MergeCheckpoint
checkpoint index = record { last_chunk_index = index; bytes_written = 2; chunks_merged = "a" ∷ [] }

-- The disk after the first chunk was merged.
abbrev pub interrupted : Disk
interrupted = record empty_disk { partial = some (1 ∷ (2 ∷ [])); checkpoint = some (checkpoint 0) }

is_ready : IsReady setting (merge_chunks files chunks)
unfolding merge_chunks fill by_index place calculate_required_space total_size
is_ready = record {
  dataset = refl;
  agent = refl;
  directory = refl;
  room = refl;
  checkpoint = refl;
  opens = refl;
  syncs = refl;
  renames = refl;
  clears = refl;
  lasts = omega arith;
}

can_merge : CanMerge files 0 (merge_chunks files chunks)
unfolding merge_chunks fill by_index place
can_merge = (refl, refl, refl, (refl, refl, refl, tt))

stream_merge_lem_example :
    (merged skipped : ℕ) × (removed : List String) × (merged + skipped ≡ 2)
    × (stream_merge setting files chunks empty_disk ≡ (
      finished merged skipped,
      record {
        partial = none;
        checkpoint = none;
        output = some (1 ∷ (2 ∷ (3 ∷ (4 ∷ []))));
        removed = removed;
      },
    ))
unfolding merge_chunks fill by_index place all_bytes bytes_in
stream_merge_lem_example = stream_merge_lem setting files chunks empty_disk is_ready can_merge

prefix_written : interrupted.partial ≡ some (all_bytes files (take 1 (merge_chunks files chunks)))
unfolding merge_chunks fill by_index place all_bytes bytes_in
prefix_written = refl

resumed_merge_lem_example :
    (stream_merge setting files chunks interrupted).1.output
    ≡ (stream_merge setting files chunks empty_disk).1.output
resumed_merge_lem_example =
    resumed_merge_lem setting files chunks interrupted (checkpoint 0) is_ready can_merge refl
      prefix_written
