-- ===== src/Dataset/Recovery/Losses.antt =====
-- What a resumption writes, and what it leaves out.
use mathlib.Core.List.{append-nil}
use sentrazero.Base.{
  ℕ, ◌+◌, ◌≤◌, ◌<◌, ◌≡◌, refl, ap, ◌∙◌, String, true, false, none, some, count, has, has-eq-false,
  has-of-count, Bool-cases, inl, inr, List, [], ◌∷◌, ◌++◌, length, drop, arith, eq_refl,
}
use sentrazero.Base.Dict.{lookup-delete}
use sentrazero.Dataset.Merge.{ChunkInfo, MergeCheckpoint}
use sentrazero.Dataset.Merge.Plan.{active}
use sentrazero.Dataset.Merge.Loop.{
  Files, Setting, Disk, finished, resume_index_of, bytes_of, stream_merge, merge_chunks,
}
use sentrazero.Dataset.Merge.Output.{all_bytes, CanMerge, IsReady}
use sentrazero.Dataset.Merge.Resume.{stream_merge_lem, drop_all, length-merge_chunks}
use sentrazero.Dataset.Recovery.{
  MergeRecoveryState, Directory, loaded, no_state, load_merge_recovery_state, parse_state,
  clear_merge_recovery_state,
}
use sentrazero.Dataset.Recovery.Resumption.{
  Hashes, merged, chunks_to_merge, merge_left, settle, resume_loaded, resume_merge_from_recovery,
}

active-chunks_to_merge :
    (names : List String) (cs : List ChunkInfo)
    → active (chunks_to_merge names cs) ≡ chunks_to_merge names cs
active-chunks_to_merge names [] = refl
active-chunks_to_merge names (c ∷ cs) = ground (arith, active-chunks_to_merge names cs)

load-cleared :
    (id : String) (d : Directory)
    → load_merge_recovery_state id (clear_merge_recovery_state true id d) ≡ no_state
unfolding load_merge_recovery_state clear_merge_recovery_state parse_state
load-cleared id d = ground (arith, eq_refl id, lookup-delete id id d.files)

resume_left :
    (e : Setting) (f : Files) (h : Hashes) (chunks : List ChunkInfo) (s : MergeRecoveryState)
    (r : Directory) (d : Disk)
    → load_merge_recovery_state e.dataset_id r ≡ loaded s
    → 0 < length (chunks_to_merge s.chunks_merged chunks)
    → resume_merge_from_recovery e f h true chunks r d
      ≡ merge_left e f true (chunks_to_merge s.chunks_merged chunks) r d
unfolding resume_merge_from_recovery resume_loaded
resume_left e f h chunks s r d l g = ground (arith, l)

left_merged :
    (e : Setting) (f : Files) (left : List ChunkInfo) (r : Directory) (d after : Disk) (n k : ℕ)
    → stream_merge e f left d ≡ (finished n k, after)
    → merge_left e f true left r d
      ≡ (merged (finished n k), clear_merge_recovery_state true e.dataset_id r, after)
unfolding merge_left settle
left_merged e f left r d after n k run = rw run refl

-- The chunks that are left of a list, in their order: those that are not skipped and whose id is not
-- among the merged ones.
pub data IsLeft (merged_ids : List String) : List ChunkInfo → List ChunkInfo → Type 0 where
  nothing : IsLeft merged_ids [] []
  merged_before :
      {c : ChunkInfo} {cs left : List ChunkInfo}
      → 0 < count c.chunk_id merged_ids
      → IsLeft merged_ids cs left
      → IsLeft merged_ids (c ∷ cs) left
  skipped :
      {c : ChunkInfo} {cs left : List ChunkInfo}
      → c.is_skipped ≡ true
      → IsLeft merged_ids cs left
      → IsLeft merged_ids (c ∷ cs) left
  still_left :
      {c : ChunkInfo} {cs left : List ChunkInfo}
      → count c.chunk_id merged_ids ≡ 0
      → c.is_skipped ≡ false
      → IsLeft merged_ids cs left
      → IsLeft merged_ids (c ∷ cs) (c ∷ left)

-- The resumption merges the chunks that are left.
resumed_left :
    (e : Setting) (f : Files) (h : Hashes) (chunks : List ChunkInfo) (s : MergeRecoveryState)
    (r : Directory) (d : Disk)
    → load_merge_recovery_state e.dataset_id r ≡ loaded s
    → 0 < length (chunks_to_merge s.chunks_merged chunks)
    → IsReady e (merge_chunks f (chunks_to_merge s.chunks_merged chunks))
    → CanMerge f 0 (merge_chunks f (chunks_to_merge s.chunks_merged chunks))
    → (n k : ℕ) × (removed : List String) × (n + k
        ≡ length (chunks_to_merge s.chunks_merged chunks))
      × (load_merge_recovery_state e.dataset_id (resume_merge_from_recovery e f h true chunks r d).1
          ≡ no_state)
      × ((resume_merge_from_recovery e f h true chunks r d).0 ≡ merged (finished n k))
      × ((resume_merge_from_recovery e f h true chunks r d).2 ≡ record {
        partial = none;
        checkpoint = none;
        output = some (
            bytes_of d.partial
            ++ all_bytes f (
                drop
                  (resume_index_of d.checkpoint)
                  (merge_chunks f (chunks_to_merge s.chunks_merged chunks))));
        removed = removed;
      })
resumed_left e f h chunks s r d l g ready can =
    let left = chunks_to_merge s.chunks_merged chunks in
    let (n, k, removed, total, run) = stream_merge_lem e f left d ready can in
    let same = active-chunks_to_merge s.chunks_merged chunks in
    let resumed = resume_left e f h chunks s r d l g ∙ left_merged e f left r d _ n k run in
    (
      n,
      k,
      removed,
      omega (arith, total, ap length same),
      rw (resumed) (load-cleared e.dataset_id r),
      rw (resumed) refl,
      rw (resumed) refl,
    )

is_member : (k : String) (xs : List String) → 0 < count k xs → has k xs ≡ true
is_member k xs h = elim (Bool-cases (has k xs)) [
  | inl e ↦ e
  | inr e ↦ absurd (omega (arith, h, has-eq-false k xs e))
]

-- The chunks that are left are those that the resumption merges.
IsLeft-chunks :
    (ids : List String) (chunks left : List ChunkInfo)
    → IsLeft ids chunks left
    → left ≡ chunks_to_merge ids chunks
IsLeft-chunks ids [] _ nothing = refl
IsLeft-chunks ids (c ∷ cs) left (merged_before m rest) =
    ground (arith, is_member c.chunk_id ids m, IsLeft-chunks ids cs left rest)
IsLeft-chunks ids (c ∷ cs) left (skipped s rest) = ground (arith, s, IsLeft-chunks ids cs _ rest)
IsLeft-chunks ids (c ∷ cs) _ (still_left m s rest) =
    ground (arith, has-of-count c.chunk_id ids m, s, IsLeft-chunks ids cs _ rest)

-- A resumption from a state that leaves some chunk to merge, one that is not skipped and whose id the
-- state does not name as merged, where nothing fails: it counts each of the chunks that are left once,
-- as merged or as skipped, ends with no state, no checkpoint and no partial file, and its output is the
-- bytes of the partial file and then those of the chunks left, in the order of their indices, without
-- as many of the first ones as the last index of the merge's own checkpoint and one more.
pub resume_lem :
    (e : Setting) (f : Files) (h : Hashes) (chunks left : List ChunkInfo) (s : MergeRecoveryState)
    (r : Directory) (d : Disk)
    → load_merge_recovery_state e.dataset_id r ≡ loaded s
    → IsLeft s.chunks_merged chunks left
    → 0 < length left
    → IsReady e (merge_chunks f left)
    → CanMerge f 0 (merge_chunks f left)
    → (n k : ℕ) × (removed : List String) × (n + k ≡ length left)
      × (load_merge_recovery_state e.dataset_id (resume_merge_from_recovery e f h true chunks r d).1
          ≡ no_state)
      × ((resume_merge_from_recovery e f h true chunks r d).0 ≡ merged (finished n k))
      × ((resume_merge_from_recovery e f h true chunks r d).2 ≡ record {
        partial = none;
        checkpoint = none;
        output = some (
            bytes_of d.partial
            ++ all_bytes f (drop (resume_index_of d.checkpoint) (merge_chunks f left)));
        removed = removed;
      })
resume_lem e f h chunks left s r d l rest g ready can =
    let same = IsLeft-chunks s.chunks_merged chunks left rest in
    let (n, k, removed, total, cleared, done, disk) =
      resumed_left e f h chunks s r d l (rw same at g) (rw same at ready) (rw same at can) in
    rw same (n, k, removed, total, cleared, done, disk)

-- Where the state leaves some chunk to merge, nothing fails, and the merge's own checkpoint has an
-- index that is one less than the number of chunks left or larger, a resumption writes no more than
-- the partial file held: none of the chunks that are left is in the output.
pub resume_drops_rest :
    (e : Setting) (f : Files) (h : Hashes) (chunks : List ChunkInfo) (s : MergeRecoveryState)
    (r : Directory) (d : Disk) (c : MergeCheckpoint)
    → load_merge_recovery_state e.dataset_id r ≡ loaded s
    → 0 < length (chunks_to_merge s.chunks_merged chunks)
    → IsReady e (merge_chunks f (chunks_to_merge s.chunks_merged chunks))
    → CanMerge f 0 (merge_chunks f (chunks_to_merge s.chunks_merged chunks))
    → d.checkpoint ≡ some c
    → length (chunks_to_merge s.chunks_merged chunks) ≤ c.last_chunk_index + 1
    → (resume_merge_from_recovery e f h true chunks r d).2.output ≡ some (bytes_of d.partial)
unfolding all_bytes
resume_drops_rest e f h chunks s r d c l g ready can p q =
    let left = chunks_to_merge s.chunks_merged chunks in
    let (_, _, _, _, _, _, disk) = resumed_left e f h chunks s r d l g ready can in
    let same = active-chunks_to_merge s.chunks_merged chunks in
    let none_left =
      drop_all (c.last_chunk_index + 1) (merge_chunks f left)
        (omega (arith, length-merge_chunks f left, ap length same)) in
    rw (disk, p, none_left, append-nil (bytes_of d.partial)) refl
