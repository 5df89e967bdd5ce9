-- ===== src/Dispatcher/Handlers/Compound/Results.antt =====
-- What a compound job that ends has reported, and which objects it changes.
use sentrazero.Base.{
  ℕ, ◌+◌, ◌-◌, ◌≡◌, ◌≢◌, ◌⊎◌, inl, inr, refl, ◌∙◌, String, Option, none, some, List, [], ◌∷◌, ◌++◌,
  length, drop, arith, ◌==◌, Option-cases, Bool-cases,
}
use sentrazero.Base.Dict.{lookup}
use sentrazero.Storage.Backends.{Objects, StorageBackend, IsStore}
use sentrazero.Dispatcher.Handlers.Paths.{first_non_empty}
use sentrazero.Dispatcher.Handlers.Merging.Stored.{apart}
use sentrazero.Dispatcher.Handlers.Chunks.{
  Machine, Job, ProcessPayload, ChunkFailure, Tree, result_key,
}
use sentrazero.Dispatcher.Handlers.Chunks.Results.{node-others}
use sentrazero.Dispatcher.Handlers.Compound.{Cache, get_compound_cache_dir, step_out_dir}
use sentrazero.Dispatcher.Handlers.Compound.Inputs.{fetch_listed}
use sentrazero.Dispatcher.Handlers.Compound.Finish.{
  Ended, store_file, store_meta, store_last, upload_file_path, listed_files, finish, run_compound,
  execute_compound_process_chunk,
}
use sentrazero.Dispatcher.Handlers.Compound.Loop.{Report, failed, LoopState, Place}
use sentrazero.Dispatcher.Handlers.Compound.Progress.{
  completed_from, InOrder, Resolved-cases, execute_steps-InOrder,
}

-- Either every step left is reported as completed, or the job fails and stores nothing.
abbrev pub Accounts : ℕ → ℕ → Objects → Ended → Type 0
Accounts start total s x =
    (n : ℕ) × (last : List Report) × (x.reports ≡ completed_from start n ++ last)
    × (((n ≡ total) × (last ≡ []))
        ⊎ ((x.failed_with ≢ none)
            × (x.objects ≡ s)
            × ((last ≡ []) ⊎ (last ≡ failed (start + n) ∷ []))))

some-ne-none : (e : ChunkFailure) → some e ≢ none
some-ne-none e h = ground (arith, h)

early :
    (start total : ℕ) (s : Objects) (e : ChunkFailure) (t : Tree)
    → Accounts start total s (record { failed_with = some e; local = t; reports = []; objects = s })
early start total s e t = (0, [], refl, inr (some-ne-none e, refl, inl refl))

finish-reports :
    (m : Machine) (c : Cache) (b : StorageBackend) (p : ProcessPayload) (at : Place) (s : Objects)
    (st : LoopState)
    → (finish m c b p at s (none, st)).reports ≡ st.reports
unfolding finish
finish-reports m c b p at s st = elim (Option-cases (store_last m c b p at st s).0) [
  | inl q ↦ ground (arith, q)
  | inr (e, q) ↦ ground (arith, q)
]

finish-Accounts :
    (m : Machine) (c : Cache) (b : StorageBackend) (p : ProcessPayload) (at : Place) (s : Objects)
    (start total : ℕ) (x : Option ChunkFailure × LoopState)
    → InOrder start total x.0 [] x.1.reports
    → Accounts start total s (finish m c b p at s x)
unfolding finish
finish-Accounts m c b p at s start total (none, st) (n, last, (e, e'), r) =
    (n, last, finish-reports m c b p at s st ∙ r, inl (e, e'))
finish-Accounts m c b p at s start total (some why, st) (n, last, (e, e'), r) =
    (n, last, r, inr (some-ne-none why, refl, e'))

run-Accounts :
    (m : Machine) (c : Cache) (b : StorageBackend) (j : Job) (p : ProcessPayload) (at : Place)
    (t : Tree) (s : Objects)
    → Accounts p.current_step_index
        (length (drop p.current_step_index p.steps))
        s
        (run_compound m c b j p at t s)
unfolding run_compound
run-Accounts m c b j p at t s =
    let start = p.current_step_index in
    let left = drop start p.steps in
    elim (Resolved-cases (fetch_listed m b p at.work_dir s t)) [
      | inl (e, q) ↦ rw (q, run_compound) (early start (length left) s e t)
      | inr (input, files, t', q) ↦
          rw (q, run_compound)
            (finish-Accounts m c b p at s start (length left) _
              (execute_steps-InOrder m c b j p at s start left _))
    ]

-- A compound job, whatever its machine, plugins and backend do: it reports the steps from its current
-- step on as completed, in their order and each once. Either these are all the steps that are left, or
-- the job fails with the objects as they were, and reports at most one failure, that of the next step.
pub compound_reports :
    (m : Machine) (c : Cache) (b : StorageBackend) (j : Job) (p : ProcessPayload) (mode : String)
    (t : Tree) (s : Objects)
    → Accounts p.current_step_index
        (length (drop p.current_step_index p.steps))
        s
        (execute_compound_process_chunk m c b j p mode t s)
unfolding execute_compound_process_chunk
compound_reports m c b j p mode t s =
    let start = p.current_step_index in
    let total = length (drop start p.steps) in
    let cache = get_compound_cache_dir c j.execution_id p.chunk_id in
    elim (Bool-cases (m.makes_directory cache)) [
      | inr q ↦ rw (q, execute_compound_process_chunk) (early start total s _ t)
      | inl q ↦
          elim (Option-cases (m.prepare_work_dir (first_non_empty (j.id ∷ (p.chunk_id ∷ []))))) [
            | inl w ↦ rw (q, execute_compound_process_chunk, w) (early start total s _ t)
            | inr (work, w) ↦
                rw (q, execute_compound_process_chunk, w) (run-Accounts m c b j p _ _ s)
          ]
    ]

-- Every object but the chunk's result stays as it was.
module _ (b : StorageBackend) (store : IsStore b) (k : String) where
  file-others :
      (m : Machine) (p : ProcessPayload) (mode path : String) (t : Tree) (s : Objects)
      → result_key p ≢ k
      → lookup k (store_file m b p mode path t s).2 ≡ lookup k s
  unfolding store_file
  file-others m p mode path t s h = elim (Bool-cases (mode == "shared_mount")) [
    | inr q ↦ ground (arith, q, node-others b store k (result_key p) (lookup path t) s h)
    | inl q ↦ ground (arith, q)
  ]

  meta-others :
      (m : Machine) (c : Cache) (p : ProcessPayload) (mode dir : String) (st : LoopState)
      (s : Objects)
      → result_key p ≢ k
      → lookup k (store_meta m c b p mode dir st s).2 ≡ lookup k s
  unfolding store_meta
  meta-others m c p mode dir st s h =
      let meta = c.meta_json dir (listed_files st.previous_data) (length p.steps) in
      ground (arith, store.write-others (result_key p) k meta s (apart (result_key p) k h))

  last-others :
      (m : Machine) (c : Cache) (p : ProcessPayload) (at : Place) (st : LoopState) (s : Objects)
      → result_key p ≢ k
      → lookup k (store_last m c b p at st s).2 ≡ lookup k s
  unfolding store_last
  last-others m c p at st s h =
      let dir = step_out_dir at.cache (length p.steps - 1) in
      ground (
        arith,
        file-others m p at.mode (upload_file_path c dir st) st.local s h,
        meta-others m c p at.mode dir st s h,
      )

  finish-others :
      (m : Machine) (c : Cache) (p : ProcessPayload) (at : Place) (s : Objects)
      (x : Option ChunkFailure × LoopState)
      → result_key p ≢ k
      → lookup k (finish m c b p at s x).objects ≡ lookup k s
  unfolding finish
  finish-others m c p at s (some e, st) h = refl
  finish-others m c p at s (none, st) h = elim (Option-cases (store_last m c b p at st s).0) [
    | inl q ↦ ground (arith, q, last-others m c p at st s h)
    | inr (e, q) ↦ ground (arith, q, last-others m c p at st s h)
  ]

  run_compound-others :
      (m : Machine) (c : Cache) (j : Job) (p : ProcessPayload) (at : Place) (t : Tree) (s : Objects)
      → result_key p ≢ k
      → lookup k (run_compound m c b j p at t s).objects ≡ lookup k s
  unfolding run_compound
  run_compound-others m c j p at t s h =
      elim (Resolved-cases (fetch_listed m b p at.work_dir s t)) [
        | inl (e, q) ↦ rw (q, run_compound) refl
        | inr (input, files, t', q) ↦ rw (q, run_compound) (finish-others m c p at s _ h)
      ]

  -- Over a store that keeps its laws, a compound job changes no object but the result of its chunk,
  -- whether it succeeds or fails.
  pub compound-others :
      (m : Machine) (c : Cache) (j : Job) (p : ProcessPayload) (mode : String) (t : Tree)
      (s : Objects)
      → result_key p ≢ k
      → lookup k (execute_compound_process_chunk m c b j p mode t s).objects ≡ lookup k s
  unfolding execute_compound_process_chunk
  compound-others m c j p mode t s h =
      let cache = get_compound_cache_dir c j.execution_id p.chunk_id in
      elim (Bool-cases (m.makes_directory cache)) [
        | inr q ↦ rw (q, execute_compound_process_chunk) refl
        | inl q ↦
            elim (Option-cases (m.prepare_work_dir (first_non_empty (j.id ∷ (p.chunk_id ∷ []))))) [
              | inl w ↦ rw (q, execute_compound_process_chunk, w) refl
              | inr (work, w) ↦
                  rw (q, execute_compound_process_chunk, w) (run_compound-others m c j p _ _ s h)
            ]
      ]
