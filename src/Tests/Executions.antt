-- ===== src/Tests/Executions.antt =====
-- A trusted job whose runtime answers with an error of the network, and the executor's record.
use sentrazero.Base.{◌≡◌, refl, true, false, not, ◌&&◌, ◌==◌, none, [], arith, if◌then◌else◌}
use sentrazero.Base.Int.{pos, is_positive}
use sentrazero.Base.Dict.{occurs}
use sentrazero.Base.Letters.{to_lower}
use sentrazero.Executor.{Job, Runtime, ran, run_once, unsupported}
use sentrazero.Executor.Classify.{classify_error}
use sentrazero.Executor.Jobs.{ExecutionState, execute_job, run_plugin_job, policy_of}
use sentrazero.Executor.Runs.{run_plugin_job_once}
use sentrazero.Executor.Jobs.Records.{IsBounded, execute_job-IsBounded}

abbrev job : Job
job = record {
  id = "job-1";
  execution_mode = "runtime";
  timeout_seconds = pos 0;
  plugin_id = "csv";
  plugin_code = "return x";
  run_id = "";
  attempt_number = 0;
  execution_policy = none;
  trusted = true;
}

abbrev runtime : Runtime
runtime = record {
  attempt = λ n. ran false "Connection refused" false false;
  cancelled = λ n. false;
}

abbrev state : ExecutionState
state = record { running_jobs = []; completed_jobs = [] }

refused_connection : classify_error "Connection refused" ≡ "infra_error"
unfolding classify_error to_lower
refused_connection = refl

module_missing : classify_error "ModuleNotFoundError: No module named 'x'" ≡ "infra_error"
unfolding classify_error to_lower
module_missing = refl

syntax_class : classify_error "SyntaxError: invalid syntax" ≡ "plugin_error"
unfolding classify_error to_lower
syntax_class = refl

run_plugin_job_once_example : run_plugin_job runtime job ≡ (
    if job.execution_mode == "native" && not (is_positive (policy_of job).max_retries)
    then unsupported
    else run_once (runtime.attempt 0))
run_plugin_job_once_example = run_plugin_job_once runtime job

state-IsBounded : IsBounded state
unfolding occurs
state-IsBounded = record { once = λ j. omega arith; named = refl; room = omega arith }

execute_job-IsBounded_example : IsBounded (execute_job runtime "run-1" 40 job state).0
execute_job-IsBounded_example =
    execute_job-IsBounded runtime "run-1" 40 job state refl state-IsBounded
