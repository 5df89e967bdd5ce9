-- ===== src/Dataset/Merge/Resume.antt =====
-- What a merge that is not interrupted leaves, from the start or from a checkpoint.
use mathlib.Core.List.{append-nil, append_assoc}
use sentrazero.Base.{
  ℕ, zero, suc, ◌+◌, ◌≤◌, ◌<◌, ◌≡◌, refl, sym, String, false, none, some, List, [], ◌∷◌, ◌++◌,
  length, nat_eq, arith, ap, ◌∙◌, map, take, drop,
}
use sentrazero.Dataset.Merge.{ChunkInfo, MergeCheckpoint}
use sentrazero.Dataset.Merge.Plan.{active, place, by_index}
use sentrazero.Dataset.Merge.Loop.{
  Files, Progress, go, merge_chunk, merge_loop, fill, Setting, Disk, finished, resume_index_of,
  bytes_of, start, finish_merge, stream_merge, merge_chunks, cleanup_chunks,
}
use sentrazero.Dataset.Merge.Output.{
  all_bytes, bytes_in, Writes, first_round, loop_lem, CanMerge, loop-goes, IsReady,
}

place-length : (c : ChunkInfo) (cs : List ChunkInfo) → length (place c cs) ≡ suc (length cs)
unfolding place
place-length c [] = refl
place-length c (d ∷ cs) = ground (arith, place-length c cs)

by_index-length : (cs : List ChunkInfo) → length (by_index cs) ≡ length cs
unfolding by_index
by_index-length [] = refl
by_index-length (c ∷ cs) = omega (arith, place-length c (by_index cs), by_index-length cs)

length-map-fill : (e : Files) (cs : List ChunkInfo) → length (map (fill e) cs) ≡ length cs
length-map-fill e [] = refl
length-map-fill e (c ∷ cs) = omega (arith, length-map-fill e cs)

pub length-merge_chunks :
    (e : Files) (chunks : List ChunkInfo) → length (merge_chunks e chunks) ≡ length (active chunks)
unfolding merge_chunks
length-merge_chunks e chunks =
    by_index-length (map (fill e) (active chunks)) ∙ length-map-fill e (active chunks)

passed_round :
    (e : Files) (r i : ℕ) (c : ChunkInfo) (s u : Progress)
    → i < r
    → merge_chunk e r i c s ≡ go u
    → Writes [] 1 s u
unfolding merge_chunk
passed_round e r i c s u h g = ground (arith, append-nil s.partial)

-- The loop passes over as many chunks as the resumption index says and merges the others.
resumed_loop :
    (e : Files) (n i : ℕ) (cs : List ChunkInfo) (s t : Progress)
    → merge_loop e (n + i) i cs s ≡ go t
    → Writes (all_bytes e (drop n cs)) (length cs) s t
unfolding merge_loop all_bytes
resumed_loop e zero i cs s t g = loop_lem e (0 + i) i cs s t (omega arith) g
resumed_loop e (suc n) i [] s t g = ground (arith, append-nil s.partial)
resumed_loop e (suc n) i (c ∷ cs) s t g =
    let (u, a, b) = first_round e (suc n + i) i c cs s t g in
    let passed = passed_round e (suc n + i) i c s u (omega arith) a in
    let same : suc n + i ≡ n + suc i = omega arith in
    let rest = resumed_loop e n (suc i) cs u t (rw (sym same) b) in
    ground (arith, append-nil s.partial, passed, rest)

-- Where nothing before the loop fails, a merge is its loop and what follows.
ready_merge :
    (e : Setting) (f : Files) (chunks : List ChunkInfo) (d : Disk)
    → IsReady e (merge_chunks f chunks)
    → stream_merge e f chunks d
      ≡ finish_merge e
          (merge_chunks f chunks)
          (merge_loop f (resume_index_of d.checkpoint) 0 (merge_chunks f chunks) (start d))
          d
unfolding stream_merge
ready_merge e f chunks d h =
    rw (h.dataset, h.agent, h.directory, h.room, h.checkpoint, h.opens) refl

ready_finish :
    (e : Setting) (cs : List ChunkInfo) (t : Progress) (d : Disk)
    → IsReady e cs
    → finish_merge e cs (go t) d ≡ (
      finished t.merged_count t.skipped_count,
      record {
        partial = none;
        checkpoint = none;
        output = some t.partial;
        removed = cleanup_chunks cs d.removed;
      },
    )
unfolding finish_merge
ready_finish e cs t d h =
    let lasts : nat_eq e.duration_ms 0 ≡ false = ground (arith, h.lasts) in
    rw (h.syncs, h.renames, h.clears, lasts) refl

all_bytes-take :
    (e : Files) (n : ℕ) (cs : List ChunkInfo)
    → all_bytes e (take n cs) ++ all_bytes e (drop n cs) ≡ all_bytes e cs
unfolding all_bytes
all_bytes-take e zero cs = refl
all_bytes-take e (suc n) [] = refl
all_bytes-take e (suc n) (c ∷ cs) =
    append_assoc (bytes_in e c) (all_bytes e (take n cs)) (all_bytes e (drop n cs))
    ∙ ap (λ xs. bytes_in e c ++ xs) (all_bytes-take e n cs)

pub drop_all : (n : ℕ) (cs : List ChunkInfo) → length cs ≤ n → drop n cs ≡ []
drop_all zero [] h = refl
drop_all zero (c ∷ cs) h = ground (arith, h)
drop_all (suc n) [] h = refl
drop_all (suc n) (c ∷ cs) h = drop_all n cs (omega arith)

-- A merge in which nothing fails finishes: it counts every active chunk once, as merged or as
-- skipped, leaves no partial file and no checkpoint, and its output is what the partial file held and
-- then the bytes of the active chunks in the order of their indices, without as many of the first
-- ones as the checkpoint's last index and one more.
pub stream_merge_lem :
    (e : Setting) (f : Files) (chunks : List ChunkInfo) (d : Disk)
    → IsReady e (merge_chunks f chunks)
    → CanMerge f 0 (merge_chunks f chunks)
    → (merged skipped : ℕ) × (removed : List String) × (merged + skipped ≡ length (active chunks))
      × (stream_merge e f chunks d ≡ (
        finished merged skipped,
        record {
          partial = none;
          checkpoint = none;
          output = some (
              bytes_of d.partial
              ++ all_bytes f (drop (resume_index_of d.checkpoint) (merge_chunks f chunks)));
          removed = removed;
        },
      ))
stream_merge_lem e f chunks d h g =
    let cs = merge_chunks f chunks in
    let r = resume_index_of d.checkpoint in
    let (t, l) = loop-goes f r 0 cs (start d) g in
    let same : r + 0 ≡ r = omega arith in
    let (a, b, c) = resumed_loop f r 0 cs (start d) t (rw same l) in
    (
      t.merged_count,
      t.skipped_count,
      cleanup_chunks cs d.removed,
      omega (arith, c, length-merge_chunks f chunks),
      rw (ready_merge e f chunks d h, l, ready_finish e cs t d h, a) refl,
    )

-- A merge resumed from a checkpoint whose partial file holds the bytes of the chunks up to the one
-- the checkpoint names, where that chunk's index is its position, writes what a merge from the start
-- writes.
pub resumed_merge_lem :
    (e : Setting) (f : Files) (chunks : List ChunkInfo) (d : Disk) (k : MergeCheckpoint)
    → IsReady e (merge_chunks f chunks)
    → CanMerge f 0 (merge_chunks f chunks)
    → d.checkpoint ≡ some k
    → d.partial ≡ some (all_bytes f (take (k.last_chunk_index + 1) (merge_chunks f chunks)))
    → (stream_merge e f chunks d).1.output
      ≡ (stream_merge e f chunks (record d { partial = none; checkpoint = none })).1.output
resumed_merge_lem e f chunks d k h g p q =
    let cs = merge_chunks f chunks in
    let (_, _, _, _, resumed) = stream_merge_lem e f chunks d h g in
    let (_, _, _, _, fresh) =
      stream_merge_lem e f chunks (record d { partial = none; checkpoint = none }) h g in
    rw (resumed, fresh, p, q, all_bytes-take f (k.last_chunk_index + 1) cs) refl

-- A checkpoint whose index is at least the number of active chunks makes the next merge, where
-- nothing fails, write nothing: the output is the partial file as it was.
pub resumed_past_end :
    (e : Setting) (f : Files) (chunks : List ChunkInfo) (d : Disk) (k : MergeCheckpoint)
    → IsReady e (merge_chunks f chunks)
    → CanMerge f 0 (merge_chunks f chunks)
    → d.checkpoint ≡ some k
    → length (active chunks) ≤ k.last_chunk_index + 1
    → (stream_merge e f chunks d).1.output ≡ some (bytes_of d.partial)
unfolding all_bytes
resumed_past_end e f chunks d k h g p q =
    let cs = merge_chunks f chunks in
    let (_, _, _, _, resumed) = stream_merge_lem e f chunks d h g in
    let n = k.last_chunk_index + 1 in
    let none_left = drop_all n cs (omega (arith, length-merge_chunks f chunks)) in
    rw (resumed, p, none_left, append-nil (bytes_of d.partial)) refl
