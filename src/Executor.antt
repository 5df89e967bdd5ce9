-- ===== src/Executor.antt =====
-- cmd/agent/executor/v2/executor.go: the executor of plugin code, with its retries and its record of jobs.
-- Times are nanoseconds unless a name says otherwise. The runtime, which sets up an environment and
-- runs the code in it, is an argument: how each attempt ends.
pub mod Classify
pub mod Jobs
pub mod Runs
use sentrazero.Base.{
  ℕ, zero, suc, ◌+◌, ◌-◌, ◌*◌, ◌/◌, ◌&&◌, ◌==◌, String, Bool, true, false, not, Option, none, some,
  List, [], ◌∷◌, ltb, if◌then◌else◌, nat_eq,
}
use sentrazero.Base.Int.{ℤ, pos, is_positive, pos_part}
use sentrazero.Executor.Classify.{classify_error}

-- `retry_backoff_multiplier` is a float64, as a fraction, 0 where it is not positive.
pub record ExecutionPolicy : Type 0 where
  pub max_retries : ℤ
  pub retry_backoff_seconds : ℤ
  pub backoff_num : ℕ
  pub backoff_den : ℕ
  pub max_retry_delay_seconds : ℤ
  pub default_timeout_seconds : ℤ
  pub hard_timeout_seconds : ℤ

abbrev pub default_policy : ExecutionPolicy
default_policy = record {
  max_retries = pos 3;
  retry_backoff_seconds = pos 5;
  backoff_num = 0;
  backoff_den = 1;
  max_retry_delay_seconds = pos 300;
  default_timeout_seconds = pos 300;
  hard_timeout_seconds = pos 600;
}

-- The fields of a job that the executor reads itself.
pub record Job : Type 0 where
  pub id : String
  pub execution_mode : String
  pub timeout_seconds : ℤ
  pub plugin_id : String
  pub plugin_code : String
  pub run_id : String
  pub attempt_number : ℕ
  pub execution_policy : Option ExecutionPolicy
  pub trusted : Bool

-- Without the output data and the measurements, which pass through.
pub record Result : Type 0 where
  pub success : Bool
  pub error : String
  pub error_classification : String
  pub duration_ms : ℕ
  pub run_id : String
  pub attempt_number : ℕ
  pub execution_policy : Option ExecutionPolicy

pub data ExecutionMode : Type 0 where
  native_mode runtime_mode : ExecutionMode

-- How an attempt ends: without its directory, without a prepared sandbox, or with the runtime's
-- output, whether the kernel killed it for its memory, and whether there was an error besides.
pub data Attempt : Type 0 where
  no_directory no_sandbox : String → Attempt
  ran : Bool → String → Bool → Bool → Attempt

-- The attempts of a job, and whether its context ends before each of them.
pub record Runtime : Type 0 where
  pub attempt : ℕ → Attempt
  pub cancelled : ℕ → Bool

-- What a function returns, with how often it ran the code and the pauses that it made, the first
-- one first.
pub record RetryOutcome : Type 0 where
  pub result : Result
  pub failed : Bool
  pub runs : ℕ
  pub delays : List ℕ

abbrev pub result_of : Bool → String → String → Result
result_of success error class = record {
  success = success;
  error = error;
  error_classification = class;
  duration_ms = 0;
  run_id = "";
  attempt_number = 0;
  execution_policy = none;
}

unfoldable pub select_execution_modes : String → List ExecutionMode
select_execution_modes mode = if mode == "native" then native_mode ∷ [] else runtime_mode ∷ []

-- The timeout of an attempt, in seconds.
unfoldable pub timeout_of : Job → ExecutionPolicy → ℤ
timeout_of job policy =
    if is_positive job.timeout_seconds then job.timeout_seconds else policy.default_timeout_seconds

-- The result of an attempt, and whether it has an error.
unfoldable pub execute_runtime : Attempt → Result × Bool
execute_runtime (no_directory message) = (result_of false message "fatal", true)
execute_runtime (no_sandbox message) = (result_of false message "fatal", true)
execute_runtime (ran success error oom_killed failed) =
    if error == ""
    then if oom_killed
      then (result_of success "OOM killed" "fatal", failed)
      else (result_of success "" (classify_error ""), failed)
    else (result_of success error (classify_error error), failed)

abbrev pub run_once : Attempt → RetryOutcome
run_once a = record {
  result = (execute_runtime a).0;
  failed = (execute_runtime a).1;
  runs = 1;
  delays = [];
}

abbrev pub unsupported : RetryOutcome
unsupported = record {
  result = result_of false "unsupported execution mode" "fatal";
  failed = true;
  runs = 0;
  delays = [];
}

-- `policy.RetryBackoffMultiplier`, 2.0 where it is not positive, times a number, cut to a whole number.
abbrev pub multiplied : ExecutionPolicy → ℕ → ℕ
multiplied policy n =
    if nat_eq policy.backoff_num 0 then 2 * n else policy.backoff_num * n / policy.backoff_den

abbrev pub max_delay : ExecutionPolicy → ℕ
max_delay policy =
    if is_positive policy.max_retry_delay_seconds
    then pos_part policy.max_retry_delay_seconds * 1_000_000_000
    else 300_000_000_000

-- The pause before an attempt after the first. The product is a number of nanoseconds: neither factor
-- is multiplied by `time.Second`.
unfoldable pub delay_before : ExecutionPolicy → ℕ → ℕ
delay_before policy attempt =
    let delay = pos_part policy.retry_backoff_seconds * multiplied policy (attempt - 1) in
    if ltb (max_delay policy) delay then max_delay policy else delay

-- The attempts from one on, with that many left after it.
unfoldable pub retry_attempts : Runtime → ExecutionPolicy → ℕ → ℕ → RetryOutcome
unfolding execute_runtime delay_before
retry_attempts w policy zero attempt = run_once (w.attempt attempt)
retry_attempts w policy (suc left) attempt =
    let this = run_once (w.attempt attempt) in
    let rest = retry_attempts w policy left (suc attempt) in
    if not this.failed && this.result.success
    then this
    else if not (this.result.error_classification == "retryable")
    then this
    else if w.cancelled (suc attempt)
    then this
    else record rest {
      runs = 1 + rest.runs;
      delays = delay_before policy (suc attempt) ∷ rest.delays;
    }

unfoldable pub execute_runtime_with_retry : Runtime → ExecutionPolicy → ExecutionMode → RetryOutcome
unfolding retry_attempts
execute_runtime_with_retry w policy mode =
    if is_positive policy.max_retries
    then retry_attempts w policy (pos_part policy.max_retries) 0
    else elim mode [ native_mode ↦ unsupported | runtime_mode ↦ run_once (w.attempt 0) ]
