-- ===== src/Dispatcher/Handlers/Merging/Ordered.antt =====
-- The chunks of a local merge: their order, and what `StreamMerge` makes of them.
use sentrazero.Base.{
  ℕ, suc, ◌≤◌, ◌≡◌, inl, inr, refl, ap, ◌∙◌, String, Bool, false, none, some, List, [], ◌∷◌, map,
  arith, Bool-cases, Option-cases,
}
use sentrazero.Storage.Backends.{Bytes, Objects, StorageBackend}
use sentrazero.Dataset.Merge.{ChunkInfo}
use sentrazero.Dataset.Merge.Plan.{active, by_index, place}
use sentrazero.Dataset.Merge.Loop.{Files, Setting, Disk, Finish, fill, merge_chunks, stream_merge}
use sentrazero.Dataset.Merge.Output.{all_bytes, CanMerge, IsReady}
use sentrazero.Dataset.Merge.Resume.{stream_merge_lem}
use sentrazero.Dispatcher.Handlers.Merging.{
  World, MergePayload, MergeChunk, MergeConfig, ok, local, regular, local_chunk, local_chunks,
  resolve_chunk, stat_chunk, merge_config, refusal, backend_of, is_concat_merge, use_s3_merge,
  merge_with, execute_concat_merge, remote_merge, write_merged, execute_merge_dataset, read_results,
  merge_readers, concat,
}
use sentrazero.Dispatcher.Handlers.Merging.Stored.{Result-cases}
use sentrazero.Dispatcher.Handlers.Merging.Whole.{
  setting_of, merge_files, conclude_merge, merge_whole,
}

-- The indices grow, from `n` on.
abbrev Ascending : ℕ → List ChunkInfo → Type 0
Ascending n [] = Unit {0}
Ascending n (c ∷ cs) = (n ≤ c.index) × Ascending (suc c.index) cs

Ascending-le : (m n : ℕ) (cs : List ChunkInfo) → m ≤ n → Ascending n cs → Ascending m cs
Ascending-le m n [] h a = tt
Ascending-le m n (c ∷ cs) h (a, as') = (omega arith, as')

Ascending-active : (n : ℕ) (cs : List ChunkInfo) → Ascending n cs → Ascending n (active cs)
Ascending-active n [] a = tt
Ascending-active n (c ∷ cs) (a, rest) =
    let kept = Ascending-active (suc c.index) cs rest in
    elim (Bool-cases c.is_skipped) [
      | inl e ↦ rw e (Ascending-le n (suc c.index) (active cs) (omega arith) kept)
      | inr e ↦ rw e (a, kept)
    ]

index-fill : (f : Files) (c : ChunkInfo) → (fill f c).index ≡ c.index
unfolding fill
index-fill f c = ground arith

Ascending-fill :
    (f : Files) (n : ℕ) (cs : List ChunkInfo) → Ascending n cs → Ascending n (map (fill f) cs)
Ascending-fill f n [] a = tt
Ascending-fill f n (c ∷ cs) (a, rest) =
    rw (index-fill f c) (a, Ascending-fill f (suc c.index) cs rest)

place-first :
    (c : ChunkInfo) (cs : List ChunkInfo) → Ascending (suc c.index) cs → place c cs ≡ c ∷ cs
unfolding place
place-first c [] a = refl
place-first c (d ∷ cs) (a, rest) = ground arith

by_index-Ascending : (n : ℕ) (cs : List ChunkInfo) → Ascending n cs → by_index cs ≡ cs
unfolding by_index
by_index-Ascending n [] a = refl
by_index-Ascending n (c ∷ cs) (a, rest) =
    ap (place c) (by_index-Ascending (suc c.index) cs rest) ∙ place-first c cs rest

-- A chunk of the merge that is not skipped is a file of its size.
abbrev pub IsThere : World → List ChunkInfo → Type 0
IsThere w [] = Unit {0}
IsThere w (c ∷ cs) = (c.is_skipped ≡ false → w.stat c.path ≡ regular c.size_bytes) × IsThere w cs

-- Without a partial payload, a chunk is skipped exactly where the payload says so.
abbrev pub Skips : Bool → List MergeChunk → List ChunkInfo → Type 0
Skips is_partial [] [] = Unit {0}
Skips is_partial (c ∷ cs) (x ∷ xs) =
    (x.chunk_id ≡ c.chunk_id)
    × (is_partial ≡ false → x.is_skipped ≡ c.is_skipped)
    × Skips is_partial cs xs
Skips is_partial _ _ = ⊥

stat_chunk-ok :
    (w : World) (p : MergePayload) (n : ℕ) (c : MergeChunk) (path : String) (x : ChunkInfo)
    → stat_chunk w p n c path ≡ ok x
    → (x.index ≡ n)
      × (x.chunk_id ≡ c.chunk_id)
      × (p.is_partial ≡ false → x.is_skipped ≡ c.is_skipped)
      × (x.is_skipped ≡ false → w.stat x.path ≡ regular x.size_bytes)
unfolding stat_chunk
stat_chunk-ok w p n c path x h = (ground arith, ground arith, λ q. ground arith, λ q. ground arith)

local_chunk-ok :
    (w : World) (p : MergePayload) (n : ℕ) (c : MergeChunk) (x : ChunkInfo)
    → local_chunk w p n c ≡ ok x
    → (x.index ≡ n)
      × (x.chunk_id ≡ c.chunk_id)
      × (p.is_partial ≡ false → x.is_skipped ≡ c.is_skipped)
      × (x.is_skipped ≡ false → w.stat x.path ≡ regular x.size_bytes)
unfolding local_chunk
local_chunk-ok w p n c x h = elim (Result-cases (resolve_chunk w p c)) [
  | inl (e, r) ↦ ground (arith, r)
  | inr (path, r) ↦ stat_chunk-ok w p n c path x (ground (arith, r))
]

local_chunks-cons :
    (w : World) (p : MergePayload) (n : ℕ) (c : MergeChunk) (cs : List MergeChunk)
    (xs : List ChunkInfo)
    → local_chunks w p n (c ∷ cs) ≡ ok xs
    → (y : ChunkInfo) × (ys : List ChunkInfo) × (xs ≡ y ∷ ys)
      × (local_chunk w p n c ≡ ok y)
      × (local_chunks w p (suc n) cs ≡ ok ys)
unfolding local_chunks
local_chunks-cons w p n c cs xs h = elim (Result-cases (local_chunk w p n c)) [
  | inl (e, r) ↦ cc (r)
  | inr (y, r) ↦ elim (Result-cases (local_chunks w p (suc n) cs)) [
    | inl (e, q) ↦ cc (r, q)
    | inr (ys, q) ↦ (y, ys, ground (arith, r, q), r, q)
  ]
]

local_chunks-ok :
    (w : World) (p : MergePayload) (n : ℕ) (cs : List MergeChunk) (xs : List ChunkInfo)
    → local_chunks w p n cs ≡ ok xs
    → Ascending n xs × IsThere w xs × Skips p.is_partial cs xs
unfolding local_chunks
local_chunks-ok w p n [] [] h = (tt, tt, tt)
local_chunks-ok w p n [] (x ∷ xs) h = cc
local_chunks-ok w p n (c ∷ cs) xs h =
    let (y, ys, e, first, others) = local_chunks-cons w p n c cs xs h in
    let (index, id, skips, there) = local_chunk-ok w p n c y first in
    let (ascending, all_there, all_skips) = local_chunks-ok w p (suc n) cs ys others in
    rw e (
      (omega arith, Ascending-le (suc y.index) (suc n) ys (omega arith) ascending),
      (there, all_there),
      (id, skips, all_skips),
    )

write_merged-local :
    (b : StorageBackend) (p : MergePayload) (bytes : Bytes) (s t : Objects) (cfg : MergeConfig)
    → write_merged b p bytes s ≡ (local cfg, t)
    → ⊥
unfolding write_merged
write_merged-local b p bytes s t cfg h = ground arith

concat-local :
    (b : StorageBackend) (p : MergePayload) (s t : Objects) (cfg : MergeConfig)
    → execute_concat_merge b p s ≡ (local cfg, t)
    → ⊥
unfolding execute_concat_merge
concat-local b p s t cfg h = elim (Result-cases (read_results b p p.chunks s)) [
  | inl (why, r) ↦ ground (arith, r)
  | inr (readers, r) ↦ write_merged-local b p (concat readers) s t cfg (ground (arith, r))
]

remote-local :
    (b : StorageBackend) (p : MergePayload) (s t : Objects) (cfg : MergeConfig)
    → remote_merge b p s ≡ (local cfg, t)
    → ⊥
unfolding remote_merge
remote-local b p s t cfg h = elim (Result-cases (read_results b p p.chunks s)) [
  | inl (why, r) ↦ ground (arith, r)
  | inr (readers, r) ↦ elim (Result-cases (merge_readers readers)) [
    | inl (why, m) ↦ ground (arith, r, m)
    | inr (bytes, m) ↦ write_merged-local b p bytes s t cfg (ground (arith, r, m))
  ]
]

-- A call of a local merge comes from the payload's chunks, with the objects as they were.
abbrev pub Calls : World → MergePayload → Objects → MergeConfig → Objects → Type 0
Calls w p s cfg t =
    (xs : List ChunkInfo) × (local_chunks w p 0 p.chunks ≡ ok xs)
    × (cfg ≡ merge_config w p xs)
    × (t ≡ s)

merge_with-local :
    (w : World) (b : StorageBackend) (p : MergePayload) (s t : Objects) (cfg : MergeConfig)
    → merge_with w b p s ≡ (local cfg, t)
    → Calls w p s cfg t
unfolding merge_with
merge_with-local w b p s t cfg h = elim (Bool-cases (is_concat_merge p)) [
  | inl c ↦ absurd (concat-local b p s t cfg (ground (arith, c)))
  | inr c ↦ elim (Bool-cases (use_s3_merge b p)) [
    | inl u ↦ absurd (remote-local b p s t cfg (ground (arith, c, u)))
    | inr u ↦ elim (Result-cases (local_chunks w p 0 p.chunks)) [
      | inl (e, r) ↦ absurd (ground (arith, c, u, r))
      | inr (xs, r) ↦ (xs, r, ground (arith, c, u, r), ground (arith, c, u, r))
    ]
  ]
]

pub execute-local :
    (w : World) (p : MergePayload) (s t : Objects) (cfg : MergeConfig)
    → execute_merge_dataset w p s ≡ (local cfg, t)
    → Calls w p s cfg t
unfolding execute_merge_dataset
execute-local w p s t cfg h = elim (Option-cases (refusal p)) [
  | inr (e, r) ↦ absurd (ground (arith, r))
  | inl r ↦ elim (Result-cases (backend_of w p)) [
    | inl (e, q) ↦ absurd (ground (arith, r, q))
    | inr (b, q) ↦ merge_with-local w b p s t cfg (ground (arith, r, q))
  ]
]

-- Where the handler calls a local merge, the objects are as they were, and the merge is of the
-- payload's dataset and agent. Its chunks are those of the payload in its order, each with its id; one
-- that is not skipped is a regular file of the size it has, and unless the payload is partial exactly
-- those are skipped that the payload calls skipped. The merge takes the chunks that are not skipped
-- in this order.
pub local_merge_lem :
    (w : World) (p : MergePayload) (s t : Objects) (cfg : MergeConfig)
    → execute_merge_dataset w p s ≡ (local cfg, t)
    → (t ≡ s)
      × (cfg.dataset_id ≡ p.dataset_id)
      × (cfg.agent_id ≡ w.agent_id)
      × Skips p.is_partial p.chunks cfg.chunks
      × IsThere w cfg.chunks
      × ((f : Files) → merge_chunks f cfg.chunks ≡ map (fill f) (active cfg.chunks))
unfolding merge_config merge_chunks
local_merge_lem w p s t cfg h =
    let (xs, read, made, same) = execute-local w p s t cfg h in
    let (ascending, there, skips) = local_chunks-ok w p 0 p.chunks xs read in
    rw made (
      same,
      refl,
      refl,
      skips,
      there,
      λ f.
          by_index-Ascending 0 (map (fill f) (active xs))
            (Ascending-fill f 0 (active xs) (Ascending-active 0 xs ascending)),
    )

whole-output :
    (w : World) (p : MergePayload) (s t : Objects) (cfg : MergeConfig) (e : Setting) (f : Files)
    (others : MergeConfig → Disk → Finish × Disk) (d : Disk)
    → execute_merge_dataset w p s ≡ (local cfg, t)
    → p.use_tree_merge ≡ false
    → p.compressed ≡ false
    → (merge_whole w e f others p s d).2 ≡ (stream_merge (setting_of e cfg) f cfg.chunks d).1
unfolding merge_whole conclude_merge merge_files merge_config
whole-output w p s t cfg e f others d h tree gzip =
    let (xs, read, made, same) = execute-local w p s t cfg h in
    rw (h, merge_whole, conclude_merge, made, tree, gzip) refl

-- Where the handler calls a merge of local files that is neither a tree merge nor compressed, nothing
-- of it fails and nothing is left of an earlier one, the output has the bytes of the chunks that are
-- not skipped, in the order of the payload.
pub local_merge_output :
    (w : World) (p : MergePayload) (s t : Objects) (cfg : MergeConfig) (e : Setting) (f : Files)
    (others : MergeConfig → Disk → Finish × Disk) (d : Disk)
    → execute_merge_dataset w p s ≡ (local cfg, t)
    → p.use_tree_merge ≡ false
    → p.compressed ≡ false
    → IsReady (setting_of e cfg) (merge_chunks f cfg.chunks)
    → CanMerge f 0 (merge_chunks f cfg.chunks)
    → d.checkpoint ≡ none
    → d.partial ≡ none
    → (merge_whole w e f others p s d).2.output
      ≡ some (all_bytes f (map (fill f) (active cfg.chunks)))
local_merge_output w p s t cfg e f others d h tree gzip ready can c q =
    let (_, _, _, _, _, order) = local_merge_lem w p s t cfg h in
    let (_, _, _, _, run) = stream_merge_lem (setting_of e cfg) f cfg.chunks d ready can in
    ap (λ x. x.output) (whole-output w p s t cfg e f others d h tree gzip)
    ∙ rw (run, c, q, order f) refl
