-- ===== src/Dataset/Merge.antt =====
-- internal/dataset/merge.go: the data of a merge.
pub mod Plan
pub mod Stages
pub mod Loop
pub mod Output
pub mod Resume
use sentrazero.Base.{ℕ, String, Bool, List, Option}

-- A chunk's index is not negative.
pub record ChunkInfo : Type 0 where
  pub chunk_id : String
  pub path : String
  pub index : ℕ
  pub size_bytes : ℕ
  pub checksum : String
  pub is_skipped : Bool

pub record MergeCheckpoint : Type 0 where
  pub last_chunk_index : ℕ
  pub bytes_written : ℕ
  pub chunks_merged : List String

abbrev pub disk_safety_margin_percent : ℕ
disk_safety_margin_percent = 15

abbrev pub chunk_count_threshold : ℕ
chunk_count_threshold = 200

abbrev pub dataset_size_threshold_gb : ℕ
dataset_size_threshold_gb = 50

abbrev pub max_chunks_per_pass : ℕ
max_chunks_per_pass = 64
