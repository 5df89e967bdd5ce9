-- ===== src/Dispatcher/Handlers/Merging/Failures.antt =====
-- What a merge that fails leaves.
use sentrazero.Base.{
  ◌≡◌, ◌≢◌, ◌⊎◌, inl, inr, refl, ap, sym, ◌∙◌, String, true, false, List, arith, Bool-cases, ◌==◌,
}
use sentrazero.Base.Dict.{lookup}
use sentrazero.Storage.Keys.{PathType}
use sentrazero.Storage.Backends.{Objects, StorageBackend, IsStore}
use sentrazero.Dataset.Merge.{ChunkInfo}
use sentrazero.Dataset.Merge.Loop.{
  Files, Setting, Disk, Finish, finished, panicked, MergeError, Next, go, stop, finish_merge,
  lacks_space, merge_chunks, merge_loop, resume_index_of, start, stream_merge,
}
use sentrazero.Dispatcher.Handlers.Merging.{
  World, MergePayload, MergeConfig, MergeFailure, MergeEnd, local, stored, ok, backend_of, key_of,
  merge_config, execute_merge_dataset,
}
use sentrazero.Dispatcher.Handlers.Merging.Stored.{refused_merge_lem}
use sentrazero.Dispatcher.Handlers.Merging.Ordered.{execute-local}
use sentrazero.Dispatcher.Handlers.Merging.Whole.{
  Ending, setting_of, merge_files, conclude_merge, merge_whole, returns_error,
}

-- The output of the disk is as it was, and so are the chunk files, unless the end of the merge fails.
abbrev pub IsKept : Setting → Disk → Disk → Type 0
IsKept e d after =
    (after.output ≡ d.output)
    × ((after.removed ≡ d.removed) ⊎ (e.syncs_output ≡ false) ⊎ (e.renames ≡ false))

finish-IsKept :
    (e : Setting) (cs : List ChunkInfo) (x : Next) (d after : Disk) (why : MergeError)
    → finish_merge e cs x d ≡ (Finish.failed why, after)
    → IsKept e d after
unfolding finish_merge
finish-IsKept e cs (stop reason s) d after why h = (ground (arith, h), inl (ground (arith, h)))
finish-IsKept e cs (go s) d after why h = elim (Bool-cases e.syncs_output) [
  | inr q ↦ (ground (arith, h, q), inr (inl q))
  | inl q ↦ elim (Bool-cases e.renames) [
    | inr r ↦ (ground (arith, h, q, r), inr (inr r))
    | inl r ↦ ground (arith, h, q, r)
  ]
]

stream-IsKept :
    (e : Setting) (f : Files) (cs : List ChunkInfo) (d after : Disk) (why : MergeError)
    → stream_merge e f cs d ≡ (Finish.failed why, after)
    → IsKept e d after
unfolding stream_merge
stream-IsKept e f cs d after why h =
    let xs = merge_chunks f cs in
    let early : (d ≡ after) → IsKept e d after =
      λ q. (ap (λ x. x.output) (sym q), inl (ap (λ x. x.removed) (sym q))) in
    elim (Bool-cases (e.dataset_id == "")) [
      | inl q ↦ early (ground (arith, h, q))
      | inr q ↦ elim (Bool-cases (e.agent_id == "")) [
        | inl r ↦ early (ground (arith, h, q, r))
        | inr r ↦ elim (Bool-cases e.makes_directory) [
          | inr m ↦ early (ground (arith, h, q, r, m))
          | inl m ↦ elim (Bool-cases (lacks_space e xs)) [
            | inl l ↦ early (ground (arith, h, q, r, m, l))
            | inr l ↦ elim (Bool-cases e.checkpoint_readable) [
              | inr c ↦ early (ground (arith, h, q, r, m, l, c))
              | inl c ↦ elim (Bool-cases e.opens_partial) [
                | inr o ↦ early (ground (arith, h, q, r, m, l, c, o))
                | inl o ↦
                    finish-IsKept e xs (merge_loop f (resume_index_of d.checkpoint) 0 xs (start d))
                      d after why (ground (arith, h, q, r, m, l, c, o))
              ]
            ]
          ]
        ]
      ]
    ]

End-cases :
    (x : MergeEnd)
    → ((e : MergeFailure) × (x ≡ MergeEnd.failed e))
      ⊎ ((x ≡ stored) ⊎ ((cfg : MergeConfig) × (x ≡ local cfg)))
End-cases (MergeEnd.failed e) = inl (e, refl)
End-cases stored = inr (inl refl)
End-cases (local cfg) = inr (inr (cfg, refl))

Finish-cases :
    (x : Finish)
    → (returns_error (Ending.merged_files x) ≡ true)
    → (why : MergeError) × (x ≡ Finish.failed why)
Finish-cases (finished m k) h = absurd (ground arith)
Finish-cases panicked h = absurd (ground arith)
Finish-cases (Finish.failed why) h = (why, refl)

true-ne-false : true ≡ false → ⊥
true-ne-false h = ground (arith, h)

files-stream :
    (w : World) (e : Setting) (f : Files) (others : MergeConfig → Disk → Finish × Disk)
    (p : MergePayload) (s t : Objects) (d : Disk) (cfg : MergeConfig)
    → p.use_tree_merge ≡ false
    → p.compressed ≡ false
    → execute_merge_dataset w p s ≡ (local cfg, t)
    → merge_files e f others cfg d ≡ stream_merge (setting_of e cfg) f cfg.chunks d
unfolding merge_files merge_config
files-stream w e f others p s t d cfg tree gzip h =
    let (xs, read, made, same) = execute-local w p s t cfg h in rw (made, tree, gzip) refl

local_merge-failed :
    (w : World) (e : Setting) (f : Files) (others : MergeConfig → Disk → Finish × Disk)
    (p : MergePayload) (s t : Objects) (d : Disk) (cfg : MergeConfig) (j : String)
    → p.use_tree_merge ≡ false
    → p.compressed ≡ false
    → execute_merge_dataset w p s ≡ (local cfg, t)
    → returns_error (merge_whole w e f others p s d).0 ≡ true
    → (lookup j (merge_whole w e f others p s d).1 ≡ lookup j s)
      × IsKept e d (merge_whole w e f others p s d).2
unfolding merge_whole conclude_merge
local_merge-failed w e f others p s t d cfg j tree gzip h fails =
    let (xs, read, made, same) = execute-local w p s t cfg h in
    let run = files-stream w e f others p s t d cfg tree gzip h in
    let after = (stream_merge (setting_of e cfg) f cfg.chunks d).1 in
    let end = (stream_merge (setting_of e cfg) f cfg.chunks d).0 in
    let whole : merge_whole w e f others p s d ≡ (Ending.merged_files end, t, after) =
      ap (conclude_merge e f others d) h ∙ rw run refl in
    let (why, q) = Finish-cases end (sym (ap (λ x. returns_error x.0) whole) ∙ fails) in
    rw whole
      (ap (lookup j) same, stream-IsKept (setting_of e cfg) f cfg.chunks d after why (cc (q)))

-- Where the backend of the merge is a store and the merge, neither a tree merge nor compressed,
-- returns an error, no call of the backend has changed another object than the merged one, and the
-- local output is as it was. The local chunk files are there as before, unless the last sync of the
-- output or its rename fails.
pub failed_merge_lem :
    (w : World) (e : Setting) (f : Files) (others : MergeConfig → Disk → Finish × Disk)
    (p : MergePayload) (b : StorageBackend) (s : Objects) (d : Disk) (j : String)
    → IsStore b
    → backend_of w p ≡ ok b
    → p.use_tree_merge ≡ false
    → p.compressed ≡ false
    → returns_error (merge_whole w e f others p s d).0 ≡ true
    → key_of p 0 PathType.merged ≢ j
    → (lookup j (merge_whole w e f others p s d).1 ≡ lookup j s)
      × IsKept e d (merge_whole w e f others p s d).2
unfolding merge_whole conclude_merge merge_files merge_config
failed_merge_lem w e f others p b s d j store g tree gzip h o =
    let t = (execute_merge_dataset w p s).1 in
    elim (End-cases (execute_merge_dataset w p s).0) [
      | inl (why, r) ↦
          let before : execute_merge_dataset w p s ≡ (MergeEnd.failed why, t) = cc (r) in
          rw (ap (conclude_merge e f others d) before)
            (refused_merge_lem w p b s t why j store g before o, (refl, inl refl))
      | inr (inl r) ↦
          let kept : execute_merge_dataset w p s ≡ (stored, t) = cc (r) in
          absurd
            (true-ne-false (sym h ∙ ap (λ x. returns_error (conclude_merge e f others d x).0) kept))
      | inr (inr (cfg, r)) ↦ local_merge-failed w e f others p s t d cfg j tree gzip (cc (r)) h
    ]
