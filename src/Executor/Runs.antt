-- ===== src/Executor/Runs.antt =====
-- How often the executor runs a job.
use sentrazero.Base.{
  ℕ, zero, suc, ◌≡◌, refl, String, Bool, true, false, not, ◌&&◌, ◌==◌, if◌then◌else◌, arith,
}
use sentrazero.Base.Int.{is_positive, pos_part}
use sentrazero.Executor.{
  Job, ExecutionPolicy, ExecutionMode, Runtime, Attempt, execute_runtime, run_once, unsupported,
  Result, result_of, no_directory, no_sandbox, ran, retry_attempts, execute_runtime_with_retry,
  select_execution_modes, native_mode, runtime_mode,
}
use sentrazero.Base.Letters.{to_lower}
use sentrazero.Base.Texts.{contains_any}
use sentrazero.Executor.Classify.{
  classify_error, class_of, system_errors, infra_errors, plugin_errors, retryable_patterns,
}
use sentrazero.Executor.Jobs.{run_plugin_job, run_modes, policy_of}

chosen :
    (a b c d : Bool)
    → ((if a
          then "system_error"
          else if b
          then "infra_error"
          else if c
          then "plugin_error"
          else if d
          then "infra_error"
          else "unknown")
        == "retryable")
      ≡ false
chosen true b c d = refl
chosen false true c d = refl
chosen false false true d = refl
chosen false false false true = refl
chosen false false false false = refl

-- No message is classified as an error to try again.
never_retryable : (message : String) → (class_of message == "retryable") ≡ false
unfolding class_of
never_retryable message =
    chosen (contains_any message system_errors) (contains_any message infra_errors)
      (contains_any message plugin_errors) (contains_any message retryable_patterns)

classified : (message : String) → (classify_error message == "retryable") ≡ false
unfolding classify_error
classified message = never_retryable (to_lower message)

abbrev branch : Bool → Bool → Bool → Bool → String → Result × Bool
branch blank oom_killed success failed error =
    if blank
    then if oom_killed
      then (result_of success "OOM killed" "fatal", failed)
      else (result_of success "" (classify_error ""), failed)
    else (result_of success error (classify_error error), failed)

branch_retried :
    (blank oom_killed success failed : Bool) (error : String)
    → ((branch blank oom_killed success failed error).0.error_classification == "retryable") ≡ false
branch_retried true true success failed error = refl
branch_retried true false success failed error = classified ""
branch_retried false oom_killed success failed error = classified error

never_retried : (a : Attempt) → ((execute_runtime a).0.error_classification == "retryable") ≡ false
unfolding execute_runtime
never_retried (no_directory message) = refl
never_retried (no_sandbox message) = refl
never_retried (ran success error oom_killed failed) =
    branch_retried (error == "") oom_killed success failed error

attempts_once :
    (w : Runtime) (policy : ExecutionPolicy) (left : ℕ)
    → retry_attempts w policy left 0 ≡ run_once (w.attempt 0)
unfolding retry_attempts
attempts_once w policy zero = refl
attempts_once w policy (suc left) = ground (arith, never_retried (w.attempt 0))

mode_once :
    (w : Runtime) (policy : ExecutionPolicy) (mode : ExecutionMode)
    → execute_runtime_with_retry w policy mode ≡ (
        if is_positive policy.max_retries
        then run_once (w.attempt 0)
        else elim mode [ native_mode ↦ unsupported | runtime_mode ↦ run_once (w.attempt 0) ])
unfolding execute_runtime_with_retry
mode_once w policy mode = rw (attempts_once w policy (pos_part policy.max_retries)) refl

-- An accepted job is run once whatever its policy says, its result is that of the one attempt, and no
-- pause is made; a job in native mode without retries is not run, and fails as unsupported.
pub run_plugin_job_once :
    (w : Runtime) (job : Job)
    → run_plugin_job w job ≡ (
        if job.execution_mode == "native" && not (is_positive (policy_of job).max_retries)
        then unsupported
        else run_once (w.attempt 0))
unfolding run_plugin_job run_modes select_execution_modes
run_plugin_job_once w job =
    ground
      (arith, mode_once w (policy_of job) native_mode, mode_once w (policy_of job) runtime_mode)
