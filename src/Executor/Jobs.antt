-- ===== src/Executor/Jobs.antt =====
-- `ExecuteJob`, `GetJobStatus` and `GetRunningJobs`: the executor's record of its jobs.
-- `ExecuteJob` is the three parts that take the mutex or run: begin, the run, and conclude.
pub mod Records
use Prim.Native.String.{◌++◌}
use sentrazero.Base.{
  ℕ, ◌≤◌, ◌||◌, ◌&&◌, ◌==◌, String, Bool, true, false, not, Option, none, some, List, [], ◌∷◌,
  length, ltb, leb, nat_eq, if◌then◌else◌, map,
}
use sentrazero.Base.Dict.{Dict, lookup, insert, delete}
use sentrazero.Executor.{
  Job, Result, ExecutionPolicy, ExecutionMode, Runtime, RetryOutcome, default_policy, result_of,
  select_execution_modes, execute_runtime_with_retry,
}

pub record ExecutionState : Type 0 where
  pub running_jobs : Dict Job
  pub completed_jobs : Dict Result

abbrev pub max_completed : ℕ
max_completed = 1000

-- The loop for the key to evict, from the key and the duration chosen so far.
unfoldable pub oldest : String → ℕ → Dict Result → String
oldest key duration [] = key
oldest key duration ((k, r) ∷ completed) =
    let kept = oldest key duration completed in
    let taken = oldest k r.duration_ms completed in
    if key == "" || ltb r.duration_ms duration then taken else kept

unfoldable pub evict_completed : Dict Result → Dict Result
unfolding oldest delete
evict_completed completed =
    if leb max_completed (length completed)
    then if oldest "" 0 completed == "" then completed else delete (oldest "" 0 completed) completed
    else completed

unfoldable pub policy_of : Job → ExecutionPolicy
policy_of job = elim job.execution_policy [ none ↦ default_policy | some policy ↦ policy ]

unfoldable pub begin_job : Job → ExecutionState → ExecutionState
begin_job job s = record s { running_jobs = insert job.id job s.running_jobs }

-- The modes in their order, up to the first that succeeds; the selection yields one.
unfoldable pub run_modes :
    Runtime → ExecutionPolicy → List ExecutionMode → RetryOutcome → RetryOutcome
unfolding execute_runtime_with_retry
run_modes w policy [] last = last
run_modes w policy (mode ∷ modes) last =
    let this = execute_runtime_with_retry w policy mode in
    let rest = run_modes w policy modes this in
    if this.result.success && not this.failed then this else rest

-- The result as it is recorded, with the run id, the attempt's number, the duration and the policy.
unfoldable pub stamped : Job → String → ℕ → Result → Result
unfolding policy_of
stamped job generated duration r = record r {
  run_id = if job.run_id == "" then generated else job.run_id;
  attempt_number = if nat_eq job.attempt_number 0 then 1 else job.attempt_number;
  duration_ms = duration;
  execution_policy = some (policy_of job);
}

unfoldable pub conclude_job : Job → Result → ExecutionState → ExecutionState
unfolding evict_completed
conclude_job job r s = record {
  running_jobs = delete job.id s.running_jobs;
  completed_jobs = insert job.id r (evict_completed s.completed_jobs);
}

-- A job that is refused before it is recorded.
unfoldable pub refusal : Job → Option Result
refusal job =
    if not job.trusted
    then some (
        result_of false ("plugin " ++ job.plugin_id ++ " is not trusted and cannot be executed")
          "system_error")
    else if job.plugin_code == ""
    then some
        (result_of false "plugin_code is empty — no code to execute in v2 runtime" "system_error")
    else none

abbrev pub no_outcome : RetryOutcome
no_outcome = record { result = result_of false "" ""; failed = false; runs = 0; delays = [] }

unfoldable pub run_plugin_job : Runtime → Job → RetryOutcome
unfolding run_modes policy_of select_execution_modes
run_plugin_job w job =
    run_modes w (policy_of job) (select_execution_modes job.execution_mode) no_outcome

-- `generated` is what `generateRunID` yields, and `duration` the job's milliseconds.
unfoldable pub execute_job :
    Runtime → String → ℕ → Job → ExecutionState → ExecutionState × (Result × Bool)
unfolding refusal begin_job run_plugin_job stamped conclude_job
execute_job w generated duration job s = elim (refusal job) [
  | some r ↦ (s, (r, true))
  | none ↦ (
    conclude_job job (stamped job generated duration (run_plugin_job w job).result)
        (begin_job job s),
    (stamped job generated duration (run_plugin_job w job).result, (run_plugin_job w job).failed),
  )
]

-- Does the job run, and its result otherwise.
unfoldable pub get_job_status : String → ExecutionState → Bool × Option Result
get_job_status job_id s = elim (lookup job_id s.running_jobs) [
  | none ↦ (false, lookup job_id s.completed_jobs)
  | some job ↦ (true, none)
]

unfoldable pub get_running_jobs : ExecutionState → List Job
get_running_jobs s = map (λ entry. entry.1) s.running_jobs
