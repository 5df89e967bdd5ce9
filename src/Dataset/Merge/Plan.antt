-- ===== src/Dataset/Merge/Plan.antt =====
-- Which chunks a merge takes, in which order and in which stages, and the room that it needs.
use sentrazero.Base.{
  ℕ, ◌+◌, ◌*◌, ◌/◌, ◌^◌, String, Bool, not, List, [], ◌∷◌, ◌++◌, length, select, ltb, leb,
  if◌then◌else◌, ◌||◌, ◌==◌,
}
use sentrazero.Dataset.Merge.{
  ChunkInfo, disk_safety_margin_percent, chunk_count_threshold, dataset_size_threshold_gb,
  max_chunks_per_pass,
}

abbrev pub active : List ChunkInfo → List ChunkInfo
active = select (λ c. not c.is_skipped)

unfoldable pub total_size : List ChunkInfo → ℕ
total_size [] = 0
total_size (c ∷ cs) = (if c.is_skipped then 0 else c.size_bytes) + total_size cs

-- The margin is computed in floating point; below 2^49 bytes that is the whole part of 15 percent.
unfoldable pub calculate_required_space : List ChunkInfo → ℕ
unfolding total_size
calculate_required_space chunks =
    total_size chunks + total_size chunks * disk_safety_margin_percent / 100

-- `sort.Slice` by index; the order of equal indices is the list's.
unfoldable pub place : ChunkInfo → List ChunkInfo → List ChunkInfo
place c [] = c ∷ []
place c (d ∷ ds) = let rest = place c ds in if ltb d.index c.index then d ∷ rest else c ∷ d ∷ ds

-- Chunks of one index keep their order; `sort.Slice` may put them in another.
unfoldable pub by_index : List ChunkInfo → List ChunkInfo
unfolding place
by_index [] = []
by_index (c ∷ cs) = place c (by_index cs)

-- `totalSizeGB > 50` in whole bytes.
unfoldable pub should_use_tree_merge : List ChunkInfo → ℕ → Bool
should_use_tree_merge chunks total =
    ltb chunk_count_threshold (length (active chunks))
    || ltb (dataset_size_threshold_gb * 2 ^ 30) total

-- The loop of `planTreeMerge`: a stage is closed when it is full, or with the last chunk.
unfoldable pub plan_stages : List ChunkInfo → List ChunkInfo → List (List ChunkInfo)
plan_stages current [] = []
plan_stages current (c ∷ []) = (current ++ c ∷ []) ∷ []
plan_stages current (c ∷ d ∷ cs) =
    let closed = (current ++ c ∷ []) ∷ plan_stages [] (d ∷ cs) in
    let still_open = plan_stages (current ++ c ∷ []) (d ∷ cs) in
    if leb max_chunks_per_pass (length (current ++ c ∷ [])) then closed else still_open

unfoldable pub plan_tree_merge : List ChunkInfo → List (List ChunkInfo)
unfolding by_index plan_stages
plan_tree_merge chunks = plan_stages [] (by_index (active chunks))

unfoldable pub checksums_of : List ChunkInfo → List String
checksums_of [] = []
checksums_of (c ∷ cs) =
    let rest = checksums_of cs in
    if c.is_skipped || c.checksum == "" then rest else c.checksum ∷ rest

-- `computeDatasetChecksum` writes these texts to the hash, one after the other.
unfoldable pub hashed_checksums : List ChunkInfo → List String
unfolding by_index checksums_of
hashed_checksums chunks = checksums_of (by_index chunks)
