-- ===== src/Dispatcher/Pool.antt =====
-- internal/dispatcher/worker_pool.go: the state of the pool and the helpers of its operations.
-- The state is the package's variables; the in-flight jobs are those that a worker has received and
-- not finished, and `log` is the calls of the outside, the latest first. Counters do not wrap.
pub mod Submit
pub mod Execute
pub mod Workers
pub mod Admission
pub mod Rejection
pub mod Reports
pub mod Outcomes
pub mod Resize
pub mod Shutdown
pub mod Steps
pub mod Claims
pub mod Acceptance
pub mod Workforce
pub mod Exclusive
use sentrazero.Base.{
  ℕ, ◌+◌, String, Bool, not, Option, List, [], ◌∷◌, ◌&&◌, ◌==◌, if◌then◌else◌, remove,
}
use sentrazero.Dispatcher.Payload.{Payload}
use sentrazero.Dispatcher.Dedup.{Store}

pub record JobRequest : Type 0 where
  pub job_type : String
  pub payload : Payload
  pub job_id : String
  pub org_id : String
  pub trace_id : String
  pub execution_step_id : String
  pub execution_id : String

-- Why a job is reported as failed.
pub data Reason : Type 0 where
  queue_full lease_failed lease_invalid execution_id_missing shutdown : Reason
  handler_error : String → Reason

pub data Status : Type 0 where
  completed failed : Status

pub data Event : Type 0 where
  pause_sse : Event
  verify_lease report_start start_job : String → Event
  heartbeat_start heartbeat_stop : String → Event
  report_failure : String → Reason → Event
  record_plugin_start : String → String → String → Event
  record_plugin_end : String → Status → Event
  run_handler : String → Payload → String → Event
  complete_job : String → String → Status → Event

pub record Pool : Type 0 where
  -- `jobQueue != nil`, the channel's content and its capacity
  pub initialized : Bool
  pub queue : List JobRequest
  pub queue_cap : ℕ
  -- `runningJobs` and `activeJobs`
  pub running : List String
  pub active : List String
  pub in_flight : List JobRequest
  -- workers that wait in `select`; `active_workers` counts the busy ones too
  pub idle : ℕ
  pub active_workers : ℕ
  pub max_workers : ℕ
  pub total_processed : ℕ
  pub total_failed : ℕ
  -- `execClient != nil`, `pauseSSE != nil`
  pub has_client : Bool
  pub has_pause : Bool
  pub backpressure_enabled : Bool
  pub job_processing_paused : Bool
  pub shut_down : Bool
  pub dedup : Option Store
  -- jobs whose execution heartbeat is ticking
  pub heartbeats : List String
  pub log : List Event

abbrev pub emit : Event → Pool → Pool
emit e p = record p { log = e ∷ p.log }

-- `execClient != nil && req.jobID != ""`
abbrev pub tracked : JobRequest → Pool → Bool
tracked req p = p.has_client && not (req.job_id == "")

-- `delete(activeJobs, req.executionStepID)` and `delete(runningJobs, req.jobID)`, as the deferred
-- function of `executeJobSafe` and the full queue's branch of `SubmitJobWithMeta` make them.
unfoldable pub release_claims : JobRequest → Pool → Pool
release_claims req p = record p {
  active = if req.execution_step_id == "" then p.active else remove req.execution_step_id p.active;
  running = if req.job_id == "" then p.running else remove req.job_id p.running;
}
