-- ===== src/Dataset/Recovery/Resumption.antt =====
-- `ResumeMergeFromRecovery` of internal/dataset/recovery.go, on top of the merge. The hashes of a file
-- and of a list of texts are arguments. The sort of `config.Chunks` is not modelled: nothing reads
-- them afterwards.
use sentrazero.Base.{
  ℕ, String, Bool, Option, none, some, List, [], ◌∷◌, length, select, has, not, ◌&&◌, ◌==◌,
  if◌then◌else◌,
}
use sentrazero.Dataset.Merge.{ChunkInfo}
use sentrazero.Dataset.Merge.Plan.{hashed_checksums}
use sentrazero.Dataset.Merge.Loop.{
  Setting, Files, Disk, Finish, finished, failed, panicked, stream_merge,
}
use sentrazero.Dataset.Recovery.{
  Directory, LoadError, no_state, load_error, loaded, load_merge_recovery_state,
  clear_merge_recovery_state, MergeRecoveryState,
}

pub record Hashes : Type 0 where
  -- `none` where the file cannot be read
  pub of_file : List ℕ → Option String
  pub of_texts : List String → String

pub data Resumption : Type 0 where
  not_loaded : LoadError → Resumption
  merged : Finish → Resumption
  -- the checksum and the size of an output that is there
  verified : String → ℕ → Resumption

-- The chunks that the state does not call merged and that are not skipped.
abbrev pub chunks_to_merge : List String → List ChunkInfo → List ChunkInfo
chunks_to_merge ids = select (λ c. not (has c.chunk_id ids) && not c.is_skipped)

-- The errors of `computeChecksumDirect` are dropped.
unfoldable pub verify_output : Hashes → List ChunkInfo → List ℕ → Resumption
verify_output h chunks bytes =
    let (checksum, size) : String × ℕ = elim (h.of_file bytes) [
      | none ↦ ("", 0)
      | some sum ↦ (sum, length bytes)
    ] in
    let dataset_checksum = h.of_texts (hashed_checksums chunks) in
    verified (if dataset_checksum == "" then checksum else dataset_checksum) size

-- The state is cleared once the merge succeeds.
unfoldable pub settle : String → Bool → Directory → Finish × Disk → Resumption × Directory × Disk
unfolding clear_merge_recovery_state
settle id removes r (finished m k, after) =
    (merged (finished m k), clear_merge_recovery_state removes id r, after)
settle id removes r (failed why, after) = (merged (failed why), r, after)
settle id removes r (panicked, after) = (merged panicked, r, after)

-- The merge of what is left.
unfoldable pub merge_left :
    Setting → Files → Bool → List ChunkInfo → Directory → Disk → Resumption × Directory × Disk
unfolding settle
merge_left e f removes left r d = settle e.dataset_id removes r (stream_merge e f left d)

unfoldable pub resume_loaded :
    Setting
    → Files
    → Hashes
    → Bool
    → List ChunkInfo
    → MergeRecoveryState
    → Directory
    → Disk
    → Resumption × Directory × Disk
unfolding merge_left verify_output
resume_loaded e f h removes chunks s r d = elim (chunks_to_merge s.chunks_merged chunks) [
  | [] ↦ elim d.output [
    | some bytes ↦ (verify_output h chunks bytes, r, d)
    | none ↦ merge_left e f removes [] r d
  ]
  | c ∷ cs ↦ merge_left e f removes (c ∷ cs) r d
]

unfoldable pub resume_merge_from_recovery :
    Setting
    → Files
    → Hashes
    → Bool
    → List ChunkInfo
    → Directory
    → Disk
    → Resumption × Directory × Disk
unfolding resume_loaded load_merge_recovery_state
resume_merge_from_recovery e f h removes chunks r d =
    elim (load_merge_recovery_state e.dataset_id r) [
      | load_error why ↦ (not_loaded why, r, d)
      | no_state ↦ let (result, after) = stream_merge e f chunks d in (merged result, r, after)
      | loaded s ↦ resume_loaded e f h removes chunks s r d
    ]
