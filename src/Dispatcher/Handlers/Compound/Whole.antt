-- ===== src/Dispatcher/Handlers/Compound/Whole.antt =====
-- A whole compound job whose calls all succeed.
use sentrazero.Base.{
  ℕ, ◌<◌, ◌≡◌, ◌≢◌, refl, ap, ◌∙◌, String, true, false, Option, none, some, List, [], ◌∷◌, length,
  arith, ◌==◌,
}
use sentrazero.Base.Dict.{lookup}
use sentrazero.Storage.Backends.{Bytes, Objects, StorageBackend, IsStore}
use sentrazero.Dispatcher.Handlers.Paths.{ends_with_slash, first_non_empty}
use sentrazero.Dispatcher.Handlers.Chunks.{
  Machine, Job, ProcessPayload, ChunkFailure, Tree, result_key, is_empty,
}
use sentrazero.Dispatcher.Handlers.Chunks.Pipeline.{IsReadable}
use sentrazero.Dispatcher.Handlers.Chunks.Steps.{apply_all}
use sentrazero.Dispatcher.Handlers.Compound.{Cache, get_compound_cache_dir}
use sentrazero.Dispatcher.Handlers.Compound.Finish.{
  finish, run_compound, execute_compound_process_chunk,
}
use sentrazero.Dispatcher.Handlers.Compound.Loop.{LoopState, Place, execute_steps}
use sentrazero.Dispatcher.Handlers.Compound.Chain.{Holds}
use sentrazero.Dispatcher.Handlers.Compound.Chained.{ChainAll}
use sentrazero.Dispatcher.Handlers.Compound.Stored.{whole_run, compound_chain}
use sentrazero.Dispatcher.Handlers.Compound.Sourced.{fresh, all-Holds}
use sentrazero.Dispatcher.Handlers.Compound.Completion.{Works, AllNamed, all_done, last_done}

module _ (m : Machine) (c : Cache) (b : StorageBackend) (works : Works m c b) (j : Job)
    (p : ProcessPayload) (at : Place) (s : Objects) where
  finish_done :
      (i : ℕ) (x : Bytes) (ran : Option ChunkFailure × LoopState)
      → (at.mode == "shared_mount") ≡ false
      → ran.0 ≡ none
      → Holds at.cache i x ran.1
      → (finish m c b p at s ran).failed_with ≡ none
  unfolding finish
  finish_done i x (some why, u) e h holds = ground (arith, h)
  finish_done i x (none, u) e h holds =
      rw (last_done m c b works j p at s i x u e holds, finish) refl

  run_done :
      (gs : List (Bytes → Bytes)) (x : Bytes) (t : Tree)
      → ChainAll m c at.cache p.steps gs
      → AllNamed m p.steps
      → 0 < length p.steps
      → p.current_step_index ≡ 0
      → is_empty p.file_list ≡ true
      → (at.mode == "shared_mount") ≡ false
      → p.source_path ≢ ""
      → ends_with_slash p.source_path ≡ false
      → b.read_object p.source_path s ≡ some x
      → (run_compound m c b j p at t s).failed_with ≡ none
  run_done gs x t plugins names some_step start bare e named one r =
      let ran = execute_steps m c b j p at s 0 p.steps (fresh t) in
      let q = all_done m c b works j p at s p.steps gs t x plugins names e named one r in
      let (i, holds) =
        all-Holds m c b j p at s p.steps gs (fresh t) ran.1 x plugins some_step e named one r refl
          (ap (λ y. (y, ran.1)) q) in
      ap (λ y. y.failed_with) (whole_run m c b j p at s t start bare)
      ∙ finish_done i (apply_all gs x) ran e q holds

-- Where the calls of the handler succeed, objects can be read, and every step has a plugin with a
-- name that reads its input file, writes its output file and reports it: a compound job with some
-- step, from its first step on, over a store that is no shared mount, for a chunk with a source that
-- is no directory and without a list of files, succeeds, and the result of the chunk is what all the
-- plugins, one after the other, make of the source.
pub compound_result :
    (m : Machine) (c : Cache) (b : StorageBackend) (j : Job) (p : ProcessPayload) (mode : String)
    (gs : List (Bytes → Bytes)) (x : Bytes) (t : Tree) (s : Objects)
    → Works m c b
    → IsStore b
    → IsReadable b
    → ChainAll m c (get_compound_cache_dir c j.execution_id p.chunk_id) p.steps gs
    → AllNamed m p.steps
    → 0 < length p.steps
    → p.current_step_index ≡ 0
    → is_empty p.file_list ≡ true
    → (mode == "shared_mount") ≡ false
    → p.source_path ≢ ""
    → ends_with_slash p.source_path ≡ false
    → lookup p.source_path s ≡ some x
    → ((execute_compound_process_chunk m c b j p mode t s).failed_with ≡ none)
      × (lookup (result_key p) (execute_compound_process_chunk m c b j p mode t s).objects
          ≡ some (apply_all gs x))
unfolding execute_compound_process_chunk
compound_result m c b j p mode gs x t s works store readable plugins names some_step start bare e
      named one held =
    let cache = get_compound_cache_dir c j.execution_id p.chunk_id in
    let r = readable.read p.source_path s x held in
    let (work, w) = works.prepares (first_non_empty (j.id ∷ (p.chunk_id ∷ []))) in
    let done : (execute_compound_process_chunk m c b j p mode t s).failed_with ≡ none =
      rw (works.makes cache, execute_compound_process_chunk, w)
        (run_done m c b works j p _ s gs x _ plugins names some_step start bare e named one r) in
    (
      done,
      compound_chain m c b j p mode gs x t s store readable plugins some_step start bare e named one
          held done,
    )
