-- ===== src/Tests/Compound.antt =====
-- A compound job of two steps on a concrete machine.
use sentrazero.Base.{
  subst, ◌≡◌, ◌≢◌, refl, sym, ap, ◌∙◌, String, true, false, Option, none, some, List, [], ◌∷◌,
  arith, eq_refl, eq_iff, ◌==◌,
}
use sentrazero.Base.Dict.{lookup, insert, lookup-insert}
use sentrazero.Base.Decimal.{decimal}
use sentrazero.Storage.Keys.{get_remote_path_with_slug}
use sentrazero.Storage.Backends.{Bytes, Objects, StorageBackend, IsStore}
use sentrazero.Storage.Mount.{read_file, write_file, remove_file}
use sentrazero.Dispatcher.Handlers.Paths.{ends_with_slash, join}
use sentrazero.Dispatcher.Handlers.Chunks.Plain.{process_plain}
use sentrazero.Dispatcher.Handlers.Chunks.Steps.{process_steps}
use sentrazero.Dispatcher.Handlers.Chunks.{
  CompoundStep, ProcessPayload, Node, file, folder, Tree, Run, output, run_error, result_key,
  resolve_plugin_name,
}
use sentrazero.Dispatcher.Handlers.Merging.{World}
use sentrazero.Dispatcher.Handlers.Chunks.Process.{
  execute_process_chunk, fill_payload, objects_after, process_mode, process_backend, reconcile,
  available, unavailable,
}
use sentrazero.Dispatcher.Handlers.Chunks.Others.{IsLawful, IsUnmounted, chunk-others}
use sentrazero.Dispatcher.Handlers.Compound.{
  Cache, get_compound_cache_dir, missing, ChainFields, Result, StepInput, step_out_dir,
  step_out_path,
}
use sentrazero.Dispatcher.Handlers.Compound.Inputs.{resolved, step_input}
use sentrazero.Dispatcher.Handlers.Compound.Finish.{execute_compound_process_chunk}
use sentrazero.Dispatcher.Handlers.Compound.Loop.{completed}
use sentrazero.Dispatcher.Handlers.Compound.Results.{Accounts, compound_reports}
use sentrazero.Dispatcher.Handlers.Compound.Chain.{names_file, Chains}
use sentrazero.Dispatcher.Handlers.Compound.Completion.{Works, AllNamed}
use sentrazero.Dispatcher.Handlers.Compound.Whole.{compound_result}
use sentrazero.Dispatcher.Handlers.Compound.Equivalence.{compound_as_steps}
use sentrazero.Tests.Chunks.{
  machine, bucket, bucket-IsStore, bucket-IsReadable, copies_input, job, payload, source, objects,
  world,
}

abbrev two_steps : List CompoundStep
two_steps =
    record { plugin_id = "copy-id"; config = "" }
    ∷ (record { plugin_id = "copy-id"; config = "" } ∷ [])

abbrev compound_payload : ProcessPayload
compound_payload = record payload { is_compound = true; steps = two_steps }

abbrev cache : String
cache = "/cache/execution-1/chunk-1"

-- The plugin writes what `g` makes of its input, and puts out its step.
abbrev make_output : (Bytes → Bytes) → StepInput → Tree → Option Node → Run × Tree
make_output g x t (some (file bytes)) =
    (output (x.context.step_index ∷ []), insert x.context.output_path (file (g bytes)) t)
make_output g x t n = (run_error "no input", t)

abbrev no_fields : ChainFields
no_fields = record { output_path = missing; output_dir = missing; file_list = missing }

abbrev read_result : Bytes → Option Result
read_result (i ∷ []) =
    some
      (record { data_fields = some (names_file (step_out_path cache i)); own_fields = no_fields })
read_result n = none

abbrev disk : (Bytes → Bytes) → Cache
disk g = record {
  cache_root = "/cache";
  execute_step = λ name x t. make_output g x t (lookup x.context.input_path t);
  result_of = read_result;
  removes_all = λ path. true;
  read_dir = λ path t. some ("source.csv" ∷ []);
  mod_time = λ path t. some 1;
  meta_json = λ dir files steps. [];
}

chains : (g : Bytes → Bytes) (name : String) → Chains machine (disk g) cache name g
chains g name = record {
  runs = λ x t bytes placed h. (
    x.context.step_index ∷ [],
    insert x.context.output_path (file (g bytes)) t,
    no_fields,
    rw h refl,
    refl,
    ap (λ path. some (record { data_fields = some (names_file path); own_fields = no_fields }))
        (sym placed),
    lookup-insert x.context.output_path x.context.output_path (file (g bytes)) t
        ∙ rw (eq_refl x.context.output_path) refl,
  );
}

disk-Works : (g : Bytes → Bytes) → Works machine (disk g) bucket
unfolding read_file write_file remove_file
disk-Works g = record {
  makes = λ path. refl;
  creates = λ path. refl;
  removes = λ path. refl;
  loads = λ name. refl;
  prepares = λ id. ("/tmp/work", refl);
  writes = λ k bytes s. refl;
}

abbrev grow : Bytes → Bytes
grow bytes = 7 ∷ bytes

-- The whole job, run.
compound_ran :
    (execute_compound_process_chunk machine
      (disk grow)
      bucket
      (job 0)
      compound_payload
      "s3"
      []
      objects).reports
    ≡ completed 0 ∷ (completed 1 ∷ [])
unfolding execute_compound_process_chunk read_file write_file remove_file lookup insert
    get_remote_path_with_slug decimal resolve_plugin_name
compound_ran = refl

compound_reports_example : Accounts 0 2 objects (
    execute_compound_process_chunk machine
      (disk grow)
      bucket
      (job 0)
      compound_payload
      "s3"
      []
      objects)
compound_reports_example =
    compound_reports machine (disk grow) bucket (job 0) compound_payload "s3" [] objects

unequal : (a b : String) → (a == b) ≡ false → a ≢ b
unequal a b q h = ground (arith, q, (eq_iff a b).1 h)

all_named : AllNamed machine two_steps
unfolding resolve_plugin_name lookup
all_named = (unequal _ _ refl, (unequal _ _ refl, tt))

source_named : payload.source_path ≢ ""
source_named = unequal _ _ refl

no_directory : ends_with_slash payload.source_path ≡ false
unfolding ends_with_slash
no_directory = refl

source_held : lookup "source.csv" objects ≡ some source
unfolding lookup
source_held = refl

compound_result_example :
    ((execute_compound_process_chunk machine
        (disk grow)
        bucket
        (job 0)
        compound_payload
        "s3"
        []
        objects).failed_with
      ≡ none)
    × (lookup
          (result_key payload)
          (execute_compound_process_chunk machine
            (disk grow)
            bucket
            (job 0)
            compound_payload
            "s3"
            []
            objects).objects
        ≡ some (7 ∷ (7 ∷ source)))
unfolding get_compound_cache_dir resolve_plugin_name
compound_result_example =
    compound_result machine (disk grow) bucket (job 0) compound_payload "s3" (grow ∷ (grow ∷ []))
      source [] objects (disk-Works grow) bucket-IsStore bucket-IsReadable
      (chains grow _, (chains grow _, tt)) all_named (omega arith) refl refl refl source_named
      no_directory source_held

-- The plain jobs of the two steps.
abbrev first_objects : Objects
first_objects = ("source.csv", source) ∷ (("d/chunks/chunk_0.out", source) ∷ [])

first_ran : process_plain machine bucket (job 0) compound_payload "s3" objects ≡ (
  none,
  ("/tmp/work/source.csv", file source) ∷ (("/tmp/work/chunk_0.out", file source) ∷ []),
  first_objects,
)
unfolding process_plain read_file write_file remove_file lookup insert get_remote_path_with_slug
    decimal resolve_plugin_name ends_with_slash
first_ran = refl

later_ran :
    process_steps machine bucket compound_payload "s3" (job 1 ∷ []) first_objects
    ≡ (none, first_objects)
unfolding process_steps process_plain read_file write_file remove_file lookup insert
    get_remote_path_with_slug decimal resolve_plugin_name
later_ran = refl

compound_as_steps_example :
    lookup
      (result_key payload)
      (execute_compound_process_chunk machine
        (disk (λ x. x))
        bucket
        (job 0)
        compound_payload
        "s3"
        []
        objects).objects
    ≡ lookup (result_key payload) first_objects
unfolding get_compound_cache_dir resolve_plugin_name
compound_as_steps_example =
    compound_as_steps machine (disk (λ x. x)) bucket (job 0) (job 0) (job 1 ∷ []) compound_payload
      "s3" (λ x. x) ((λ x. x) ∷ []) source [] _ objects first_objects first_objects
      (disk-Works (λ x. x)) bucket-IsStore bucket-IsReadable
      (chains (λ x. x) _, (chains (λ x. x) _, tt)) all_named (omega arith) refl refl refl
      source_named no_directory source_held (copies_input _) (omega arith, copies_input _, tt) refl
      first_ran later_ran

-- The step after the first, resumed: with the directory of the first in the cache, and with downloaded
-- files.
abbrev kept : Tree
kept = (step_out_dir cache 0, folder true) ∷ (("/tmp/work/files", folder true) ∷ [])

resumed_from_cache :
    step_input machine
      (disk grow)
      bucket
      compound_payload
      "s3"
      cache
      "/tmp/work"
      objects
      1
      none
      ""
      kept
    ≡ resolved "/cache/execution-1/chunk-1/step_0_output" "" kept
unfolding step_input lookup decimal join
resumed_from_cache = refl

resumed_from_files :
    step_input machine
      (disk grow)
      bucket
      compound_payload
      "s3"
      cache
      "/tmp/work"
      objects
      1
      none
      "/tmp/work/files"
      kept
    ≡ resolved "/tmp/work/files" "/tmp/work/files" kept
unfolding step_input lookup decimal join
resumed_from_files = refl

-- The same job by way of the choice of its handler, on the pool's backend.
abbrev pooled : World
pooled = record world { storage_backend = some bucket; new_s3_backend = λ cfg creds. bucket }

some_inj : (a b : StorageBackend) → some a ≡ some b → a ≡ b
some_inj a b h = ap (λ o. elim o [ none ↦ a | some x ↦ x ]) h

pooled-IsLawful : IsLawful pooled
pooled-IsLawful = record {
  s3_stores = λ cfg creds. bucket-IsStore;
  pool_stores = λ b h q. subst IsStore (some_inj _ _ h) bucket-IsStore;
}

chunk_stored :
    lookup "d/chunks/chunk_0.out" (
      objects_after (
        execute_process_chunk pooled machine
          (disk grow)
          (job 0)
          compound_payload
          payload
          []
          objects))
    ≡ some (7 ∷ (7 ∷ source))
unfolding execute_process_chunk read_file write_file remove_file lookup insert
    get_remote_path_with_slug decimal resolve_plugin_name
chunk_stored = refl

available_inj : (a b : StorageBackend) → available a ≡ available b → a ≡ b
available_inj a b h = ap (λ o. elim o [ unavailable e ↦ a | available x ↦ x ]) h

unmounted :
    IsUnmounted pooled (job 0) (process_mode (job 0) (fill_payload compound_payload payload))
unfolding process_backend process_mode fill_payload reconcile
unmounted b h =
    subst (λ x. (reconcile x "s3" == "shared_mount") ≡ false) (available_inj bucket b h) refl

result_is_no_source : result_key (fill_payload compound_payload payload) ≢ "source.csv"
unfolding get_remote_path_with_slug decimal fill_payload
result_is_no_source = unequal _ _ refl

chunk-others_example :
    lookup "source.csv" (
      objects_after (
        execute_process_chunk pooled machine
          (disk grow)
          (job 0)
          compound_payload
          payload
          []
          objects))
    ≡ lookup "source.csv" objects
chunk-others_example =
    chunk-others pooled machine (disk grow) (job 0) compound_payload payload [] "source.csv" objects
      pooled-IsLawful unmounted result_is_no_source
