-- ===== src/Dispatcher/Handlers/Compound/Equivalence.antt =====
-- A compound job against one plain job for each step.
use sentrazero.Base.{
  ◌<◌, ◌≡◌, ◌≢◌, refl, sym, ◌∙◌, String, true, false, none, some, List, ◌∷◌, length, ltb, arith,
  ◌==◌,
}
use sentrazero.Base.Dict.{lookup}
use sentrazero.Storage.Backends.{Bytes, Objects, StorageBackend, IsStore}
use sentrazero.Dispatcher.Handlers.Paths.{ends_with_slash}
use sentrazero.Dispatcher.Handlers.Chunks.{
  Machine, Job, ProcessPayload, Tree, result_key, plugin_of, is_empty,
}
use sentrazero.Dispatcher.Handlers.Chunks.Plain.{process_plain}
use sentrazero.Dispatcher.Handlers.Chunks.Pipeline.{Transforms, IsReadable}
use sentrazero.Dispatcher.Handlers.Chunks.Steps.{Transform, process_steps, step_result, steps_chain}
use sentrazero.Dispatcher.Handlers.Compound.{Cache, get_compound_cache_dir}
use sentrazero.Dispatcher.Handlers.Compound.Finish.{execute_compound_process_chunk}
use sentrazero.Dispatcher.Handlers.Compound.Chained.{ChainAll}
use sentrazero.Dispatcher.Handlers.Compound.Completion.{Works, AllNamed}
use sentrazero.Dispatcher.Handlers.Compound.Whole.{compound_result}

-- Where the calls of the handler succeed, over a store whose objects can be read and that is no shared
-- mount, for a chunk with a source that is no directory and without a list of files: a compound job
-- with some step, from its first step on, whose plugins have names and each read their input file,
-- write their output file and report it, leaves the same result of the chunk as plain jobs, the first
-- of them of the first step and the others of later ones, that all succeed and whose plugins make the
-- same of their input.
pub compound_as_steps :
    (m : Machine) (c : Cache) (b : StorageBackend) (j first : Job) (others : List Job)
    (p : ProcessPayload) (mode : String) (g : Bytes → Bytes) (gs : List (Bytes → Bytes)) (x : Bytes)
    (t t' : Tree) (s s' u : Objects)
    → Works m c b
    → IsStore b
    → IsReadable b
    → ChainAll m c (get_compound_cache_dir c j.execution_id p.chunk_id) p.steps (g ∷ gs)
    → AllNamed m p.steps
    → 0 < length p.steps
    → p.current_step_index ≡ 0
    → is_empty p.file_list ≡ true
    → (mode == "shared_mount") ≡ false
    → p.source_path ≢ ""
    → ends_with_slash p.source_path ≡ false
    → lookup p.source_path s ≡ some x
    → Transforms m (plugin_of m first p) g
    → Transform m p others gs
    → first.step_index ≡ 0
    → process_plain m b first p mode s ≡ (none, t', s')
    → process_steps m b p mode others s' ≡ (none, u)
    → lookup (result_key p) (execute_compound_process_chunk m c b j p mode t s).objects
      ≡ lookup (result_key p) u
compound_as_steps m c b j first others p mode g gs x t t' s s' u works store readable plugins names
      some_step start bare e named one held plugin later zeroth ran rest =
    let past : ltb 0 first.step_index ≡ false = ground (arith, zeroth) in
    let made =
      step_result m b first p mode g x t' s s' store readable plugin e (rw (past, one) refl)
        (rw past held) ran in
    (compound_result m c b j p mode (g ∷ gs) x t s works store readable plugins names some_step
      start bare e named one held).1
    ∙ sym (steps_chain m b p mode others gs (g x) s' u store readable e later made rest)
