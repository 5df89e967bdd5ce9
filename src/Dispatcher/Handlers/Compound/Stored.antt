-- ===== src/Dispatcher/Handlers/Compound/Stored.antt =====
-- The result of a compound job that succeeds.
use sentrazero.Base.{
  ℕ, ◌<◌, ◌-◌, ◌≡◌, ◌≢◌, inl, inr, refl, sym, ap, subst, ◌∙◌, String, true, false, Option, none,
  some, List, [], ◌∷◌, length, drop, arith, ◌==◌, Option-cases, Bool-cases,
}
use sentrazero.Base.Dict.{lookup}
use sentrazero.Storage.Backends.{Bytes, Objects, StorageBackend, IsStore}
use sentrazero.Dispatcher.Handlers.Merging.Stored.{apart}
use sentrazero.Dispatcher.Handlers.Paths.{ends_with_slash, first_non_empty}
use sentrazero.Dispatcher.Handlers.Chunks.{
  Machine, Job, ProcessPayload, ChunkFailure, Tree, file, result_key, is_empty,
}
use sentrazero.Dispatcher.Handlers.Chunks.Pipeline.{IsReadable, node-stored}
use sentrazero.Dispatcher.Handlers.Chunks.Steps.{apply_all}
use sentrazero.Dispatcher.Handlers.Compound.{
  Cache, get_compound_cache_dir, step_out_dir, step_out_path,
}
use sentrazero.Dispatcher.Handlers.Compound.Inputs.{fetch_listed}
use sentrazero.Dispatcher.Handlers.Compound.Finish.{
  upload_file_path, store_file, store_last, finish, run_compound, execute_compound_process_chunk,
}
use sentrazero.Dispatcher.Handlers.Compound.Loop.{LoopState, Place, execute_steps}
use sentrazero.Dispatcher.Handlers.Compound.Places.{path_ne_empty}
use sentrazero.Dispatcher.Handlers.Compound.Chain.{Holds}
use sentrazero.Dispatcher.Handlers.Compound.Chained.{ChainAll}
use sentrazero.Dispatcher.Handlers.Compound.Sourced.{fresh, all-Holds}

pub last-uploaded :
    (c : Cache) (dir path : String) (x : Bytes) (u : LoopState)
    → u.last_output_path ≡ path
    → lookup path u.local ≡ some (file x)
    → upload_file_path c dir u ≡ path
unfolding upload_file_path
last-uploaded c dir path x u l there = ground (arith, l, there)

file-stored :
    (m : Machine) (b : StorageBackend) (p : ProcessPayload) (mode path : String) (x : Bytes)
    (t t' : Tree) (s after : Objects)
    → IsStore b
    → (mode == "shared_mount") ≡ false
    → lookup path t ≡ some (file x)
    → store_file m b p mode path t s ≡ (none, t', after)
    → lookup (result_key p) after ≡ some x
unfolding store_file
file-stored m b p mode path x t t' s after store e there h =
    node-stored b (result_key p) x s after store (ground (arith, e, there, h))

module _ (m : Machine) (c : Cache) (b : StorageBackend) (j : Job) (p : ProcessPayload) (at : Place)
    (s : Objects) where
  -- The file of the last step is stored.
  last-stored :
      (i : ℕ) (x : Bytes) (u : LoopState) (t : Tree) (after : Objects)
      → IsStore b
      → (at.mode == "shared_mount") ≡ false
      → Holds at.cache i x u
      → store_last m c b p at u s ≡ (none, t, after)
      → lookup (result_key p) after ≡ some x
  unfolding store_last
  last-stored i x u t after store e holds h =
      let path = step_out_path at.cache i in
      let dir = step_out_dir at.cache (length p.steps - 1) in
      let uploaded = last-uploaded c dir path x u holds.last holds.held in
      file-stored m b p at.mode path x u.local t s after store e holds.held
        (rw (uploaded, store_last, apart path "" (path_ne_empty at.cache i)) at h)

  pub finish-stored :
      (i : ℕ) (x : Bytes) (u : LoopState)
      → IsStore b
      → (at.mode == "shared_mount") ≡ false
      → Holds at.cache i x u
      → (finish m c b p at s (none, u)).failed_with ≡ none
      → lookup (result_key p) (finish m c b p at s (none, u)).objects ≡ some x
  unfolding finish
  finish-stored i x u store e holds h =
      let out = store_last m c b p at u s in
      elim (Option-cases out.0) [
        | inr (why, q) ↦ ground (arith, rw (q, finish) at h)
        | inl q ↦
            rw (q, finish)
              (last-stored i x u out.1 out.2 store e holds (ap (λ y. (y, out.1, out.2)) q))
      ]

  -- The job from its first step on, without a list of files.
  pub whole_run :
      (t : Tree)
      → p.current_step_index ≡ 0
      → is_empty p.file_list ≡ true
      → run_compound m c b j p at t s
        ≡ finish m c b p at s (execute_steps m c b j p at s 0 p.steps (fresh t))
  unfolding run_compound fetch_listed
  whole_run t start bare =
      rw (bare, run_compound)
        (ap (λ k. finish m c b p at s (execute_steps m c b j p at s k (drop k p.steps) (fresh t)))
          start)

  pub all-stored :
      (gs : List (Bytes → Bytes)) (x : Bytes) (ran : Option ChunkFailure × LoopState)
      → IsStore b
      → (at.mode == "shared_mount") ≡ false
      → (ran.0 ≡ none → (i : ℕ) × Holds at.cache i (apply_all gs x) ran.1)
      → (finish m c b p at s ran).failed_with ≡ none
      → lookup (result_key p) (finish m c b p at s ran).objects ≡ some (apply_all gs x)
  unfolding finish
  all-stored gs x (some why, u) store e holds h = ground (arith, h)
  all-stored gs x (none, u) store e holds h =
      let (i, held) = holds refl in finish-stored i (apply_all gs x) u store e held h

  run-stored :
      (gs : List (Bytes → Bytes)) (x : Bytes) (t : Tree)
      → IsStore b
      → ChainAll m c at.cache p.steps gs
      → 0 < length p.steps
      → p.current_step_index ≡ 0
      → is_empty p.file_list ≡ true
      → (at.mode == "shared_mount") ≡ false
      → p.source_path ≢ ""
      → ends_with_slash p.source_path ≡ false
      → b.read_object p.source_path s ≡ some x
      → (run_compound m c b j p at t s).failed_with ≡ none
      → lookup (result_key p) (run_compound m c b j p at t s).objects ≡ some (apply_all gs x)
  run-stored gs x t store plugins some_step start bare e named one r h =
      let ran = execute_steps m c b j p at s 0 p.steps (fresh t) in
      let whole = whole_run t start bare in
      subst (λ y. lookup (result_key p) y.objects ≡ some (apply_all gs x)) (sym whole)
        (all-stored gs x ran store e
          (λ q.
            all-Holds m c b j p at s p.steps gs (fresh t) ran.1 x plugins some_step e named one r
              refl (ap (λ y. (y, ran.1)) q))
          (ap (λ y. y.failed_with) (sym whole) ∙ h))

-- A compound job from its first step on, over a store whose objects can be read and that is no shared
-- mount, for a chunk with a source that is no directory and without a list of files, whose plugins
-- each read their input file, write their output file and report it: if the job succeeds, the result
-- of the chunk is what all of them, one after the other, make of the source.
pub compound_chain :
    (m : Machine) (c : Cache) (b : StorageBackend) (j : Job) (p : ProcessPayload) (mode : String)
    (gs : List (Bytes → Bytes)) (x : Bytes) (t : Tree) (s : Objects)
    → IsStore b
    → IsReadable b
    → ChainAll m c (get_compound_cache_dir c j.execution_id p.chunk_id) p.steps gs
    → 0 < length p.steps
    → p.current_step_index ≡ 0
    → is_empty p.file_list ≡ true
    → (mode == "shared_mount") ≡ false
    → p.source_path ≢ ""
    → ends_with_slash p.source_path ≡ false
    → lookup p.source_path s ≡ some x
    → (execute_compound_process_chunk m c b j p mode t s).failed_with ≡ none
    → lookup (result_key p) (execute_compound_process_chunk m c b j p mode t s).objects
      ≡ some (apply_all gs x)
unfolding execute_compound_process_chunk
compound_chain m c b j p mode gs x t s store readable plugins some_step start bare e named one held
      h =
    let cache = get_compound_cache_dir c j.execution_id p.chunk_id in
    let r = readable.read p.source_path s x held in
    elim (Bool-cases (m.makes_directory cache)) [
      | inr q ↦ ground (arith, rw (q, execute_compound_process_chunk) at h)
      | inl q ↦
          elim (Option-cases (m.prepare_work_dir (first_non_empty (j.id ∷ (p.chunk_id ∷ []))))) [
            | inl w ↦ ground (arith, rw (q, execute_compound_process_chunk, w) at h)
            | inr (work, w) ↦
                rw (q, execute_compound_process_chunk, w)
                  (run-stored m c b j p _ s gs x _ store plugins some_step start bare e named one r
                    (rw (q, execute_compound_process_chunk, w) at h))
          ]
    ]
