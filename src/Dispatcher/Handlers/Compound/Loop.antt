-- ===== src/Dispatcher/Handlers/Compound/Loop.antt =====
-- The steps of a compound job, and what is stored after the last one.
use sentrazero.Base.{
  ℕ, suc, ◌&&◌, ◌++◌, String, false, not, Option, none, some, List, [], ◌∷◌, if◌then◌else◌,
}
use sentrazero.Base.Dict.{insert}
use sentrazero.Storage.Backends.{Objects, StorageBackend}
use sentrazero.Dispatcher.Handlers.Paths.{is_below, join}
use sentrazero.Dispatcher.Handlers.Chunks.{
  Machine, Job, CompoundStep, ProcessPayload, ChunkFailure, not_created, not_cleaned, folder, Tree,
  is_absent,
}
use sentrazero.Dispatcher.Handlers.Compound.{
  Cache, ChainFields, StepEnd, step_failed, step_done, step_out_dir, step_out_path, step_context,
  chain_data, execute_plugin_step_ex,
}
use sentrazero.Dispatcher.Handlers.Compound.Inputs.{unresolved, resolved, step_input}

-- `reportStepProgress`: a step is completed, or failed.
pub data Report : Type 0 where
  completed : ℕ → Report
  failed : ℕ → Report

-- The variables of the loop, with the local files and the reports so far.
pub record LoopState : Type 0 where
  pub previous_data : Option ChainFields
  pub files_dir : String
  -- "" before the first step
  pub last_output_path : String
  pub local : Tree
  pub reports : List Report

-- `os.RemoveAll`
unfoldable pub remove_all : String → Tree → Tree
unfolding is_below
remove_all path [] = []
remove_all path ((k, n) ∷ t) =
    let rest = remove_all path t in if is_below path k then rest else (k, n) ∷ rest

pub data Cleaned : Type 0 where
  unclean : ChunkFailure → Cleaned
  clean : Tree → Cleaned

-- The output directory of a step, empty.
unfoldable pub clean_step : Machine → Cache → String → Tree → Cleaned
unfolding remove_all
clean_step m c path t =
    let emptied = if is_absent path t then t else remove_all path t in
    if not (is_absent path t) && not (c.removes_all path)
    then unclean not_cleaned
    else if m.makes_directory path
    then clean (insert path (folder false) emptied)
    else unclean not_created

-- After the plugin of a step. The state of a failure is that of the end of the job.
unfoldable pub after_step :
    String → ℕ → String → LoopState → StepEnd → Option ChunkFailure × LoopState
unfolding chain_data
after_step cache i files st (step_failed e t) =
    (some e, record st { files_dir = files; local = t; reports = st.reports ++ (failed i ∷ []) })
after_step cache i files st (step_done result t) = (
  none,
  record {
    previous_data = chain_data result st.previous_data;
    files_dir = files;
    last_output_path = step_out_path cache i;
    local = t;
    reports = st.reports ++ (completed i ∷ []);
  },
)

-- The directories and places of one job: the mode, the cache and the work directory.
pub record Place : Type 0 where
  pub mode : String
  pub cache : String
  pub work_dir : String

-- One step: its directory is cleaned, its input is found, its plugin is run.
unfoldable pub execute_step_at :
    Machine
    → Cache
    → StorageBackend
    → Job
    → ProcessPayload
    → Place
    → Objects
    → ℕ
    → CompoundStep
    → LoopState
    → Option ChunkFailure × LoopState
unfolding clean_step step_input after_step execute_plugin_step_ex join
execute_step_at m c b j p at s i step st =
    elim (clean_step m c (step_out_dir at.cache i) st.local) [
      | unclean e ↦ (some e, st)
      | clean t ↦
          elim (step_input m c b p at.mode at.cache at.work_dir s i st.previous_data st.files_dir
            t) [
              | unresolved e ↦ (some e, record st { local = t })
              | resolved input files t' ↦ after_step at.cache i files st (
                  execute_plugin_step_ex m c j p step
                    (record {
                      context = step_context j p step i input (step_out_path at.cache i);
                      output_dir = step_out_dir at.cache i;
                      previous_data = st.previous_data;
                    })
                    t')
            ]
    ]

-- The steps from one index on, up to the first failure.
unfoldable pub execute_steps :
    Machine
    → Cache
    → StorageBackend
    → Job
    → ProcessPayload
    → Place
    → Objects
    → ℕ
    → List CompoundStep
    → LoopState
    → Option ChunkFailure × LoopState
unfolding execute_step_at
execute_steps m c b j p at s i [] st = (none, st)
execute_steps m c b j p at s i (step ∷ steps) st =
    let after = execute_step_at m c b j p at s i step st in
    let rest = execute_steps m c b j p at s (suc i) steps after.1 in
    elim after.0 [ some e ↦ (some e, after.1) | none ↦ rest ]
