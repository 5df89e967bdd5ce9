-- ===== src/Dispatcher/Handlers/Compound.antt =====
-- The compound job of a chunk (`executeCompoundProcessChunk`): its steps run one after the other on
-- this machine, each in an output directory of its own in the cache. This file has what the steps
-- share and the run of one plugin (`executePluginStepEx`). The indices of steps are not negative, and
-- a file of the backend is read whole.
pub mod Inputs
pub mod Loop
pub mod Finish
pub mod Progress
pub mod Results
mod Places
pub mod Chain
pub mod Chained
pub mod Sourced
pub mod Stored
pub mod Completion
pub mod Whole
pub mod Equivalence
use Prim.Native.String.{◌++◌}
use sentrazero.Base.{
  ℕ, ◌||◌, String, Bool, true, false, not, Option, none, some, List, [], ◌∷◌, if◌then◌else◌, ◌==◌,
}
use sentrazero.Base.Dict.{lookup}
use sentrazero.Base.Decimal.{decimal}
use sentrazero.Base.Texts.{contains_text}
use sentrazero.Storage.Backends.{Bytes}
use sentrazero.Dispatcher.Handlers.Paths.{first_non_empty, join}
use sentrazero.Dispatcher.Handlers.Chunks.{
  Machine, Job, CompoundStep, ProcessPayload, PluginContext, ChunkFailure, no_plugin, not_loaded,
  plugin_failed, Tree, Run, output, run_error, has_real_output, is_docker_error, fill_output,
  resolve_plugin_name, is_empty,
}

-- A key of a JSON object: it is missing, has a value that is no text, or has a text.
pub data Field : Type 0 where
  missing : Field
  no_text : Field
  text : String → Field

-- The keys that chain a step to the next one.
pub record ChainFields : Type 0 where
  pub output_path : Field
  pub output_dir : Field
  pub file_list : Field

-- The object that an output is parsed to: its own keys, and those of the object under `data`.
pub record Result : Type 0 where
  pub data_fields : Option ChainFields
  pub own_fields : ChainFields

-- What a plugin is given beyond the usual context: `output_dir` and `previous_data`.
pub record StepInput : Type 0 where
  pub context : PluginContext
  pub output_dir : String
  pub previous_data : Option ChainFields

-- What the compound handler calls beyond the rest. The cache's root is the parent of the directory of
-- an execution.
pub record Cache : Type 0 where
  pub cache_root : String
  pub execute_step : String → StepInput → Tree → Run × Tree
  -- `parsePluginOutputAsJSON`
  pub result_of : Bytes → Option Result
  pub removes_all : String → Bool
  -- the names in a directory, in their order, and the time of a file's change
  pub read_dir : String → Tree → Option (List String)
  pub mod_time : String → Tree → Option ℕ
  -- the metadata for a directory, a list of files and a number of steps
  pub meta_json : String → Field → ℕ → Bytes

unfoldable pub get_compound_cache_dir : Cache → String → String → String
unfolding join
get_compound_cache_dir c execution_id chunk_id =
    join (c.cache_root ∷ (execution_id ∷ (chunk_id ∷ [])))

abbrev pub step_out_dir : String → ℕ → String
step_out_dir cache i = join (cache ∷ (("step_" ++ (decimal i ++ "_output")) ∷ []))

abbrev pub step_out_path : String → ℕ → String
step_out_path cache i =
    join (step_out_dir cache i ∷ (("step_" ++ (decimal i ++ "_output.json")) ∷ []))

-- Is there a chaining key among the keys?
abbrev pub is_present : Field → Bool
is_present missing = false
is_present no_text = true
is_present (text t) = true

-- The previous data of the next step.
unfoldable pub chain_data : Option Result → Option ChainFields → Option ChainFields
chain_data none previous = previous
chain_data (some r) previous = elim r.data_fields [
  | some fields ↦ some fields
  | none ↦
      if is_present r.own_fields.output_path
        || (is_present r.own_fields.output_dir || is_present r.own_fields.file_list)
      then some r.own_fields
      else previous
]

abbrev pub step_context : Job → ProcessPayload → CompoundStep → ℕ → String → String → PluginContext
step_context j p step i input out = record {
  job_id = j.id;
  org_id = j.org_id;
  dataset_id = p.dataset_id;
  execution_id = j.execution_id;
  step_index = i;
  chunk_id = p.chunk_id;
  chunk_index = p.chunk_index;
  input_path = input;
  output_path = out;
  config = step.config;
}

-- The last run of a plugin: a failure with a real output file counts as a success without output.
unfoldable pub settle_run : String → Run × Tree → Option Bytes × Tree
unfolding has_real_output
settle_run path (output bytes, t) = (some bytes, t)
settle_run path (run_error why, t) = if has_real_output path t then (some [], t) else (none, t)

-- After the first run. A failure that names a control group runs the plugin again, and one that names
-- Docker runs it in the v2 runtime.
unfoldable pub after_step_run :
    Machine → Cache → String → StepInput → ProcessPayload → Job → Run × Tree → Option Bytes × Tree
unfolding has_real_output settle_run
after_step_run m c name input p j (output bytes, t) = (some bytes, t)
after_step_run m c name input p j (run_error why, t) =
    let path = input.context.output_path in
    if has_real_output path t
    then (some [], t)
    else if contains_text why "cgroup:"
    then settle_run path (c.execute_step name input t)
    else if is_docker_error why
    then m.fallback_to_v2 name
        (record p { input_path = input.context.input_path; output_path = path }) j t
    else (none, t)

pub data StepEnd : Type 0 where
  step_failed : ChunkFailure → Tree → StepEnd
  step_done : Option Result → Tree → StepEnd

-- The output is parsed, and written to the file that is expected where there is none.
unfoldable pub end_step : Machine → Cache → String → Option Bytes × Tree → StepEnd
unfolding fill_output
end_step m c path (none, t) = step_failed plugin_failed t
end_step m c path (some bytes, t) =
    step_done (if is_empty bytes then none else c.result_of bytes) (fill_output m path bytes t)

unfoldable pub execute_plugin_step_ex :
    Machine → Cache → Job → ProcessPayload → CompoundStep → StepInput → Tree → StepEnd
unfolding resolve_plugin_name after_step_run end_step
execute_plugin_step_ex m c j p step input t =
    let name = resolve_plugin_name m step.plugin_id "" in
    if name == ""
    then step_failed no_plugin t
    else if not (m.load_plugin name)
    then step_failed not_loaded t
    else end_step m c input.context.output_path
        (after_step_run m c name input p j (c.execute_step name input t))
