-- ===== src/Dispatcher/Pool/Execute.antt =====
-- `executeJobSafe` of internal/dispatcher/worker_pool.go, one definition for each of its stages.
use sentrazero.Base.{◌+◌, String, Bool, not, ◌∷◌, ◌&&◌, ◌||◌, ◌==◌, if◌then◌else◌, put, remove}
use sentrazero.Dispatcher.Payload.{Payload, object, empty, malformed}
use sentrazero.Dispatcher.Pool.{
  Pool, JobRequest, Reason, Status, verify_lease, report_start, start_job, heartbeat_start,
  heartbeat_stop, report_failure, record_plugin_start, record_plugin_end, run_handler, complete_job,
  lease_failed, lease_invalid, execution_id_missing, handler_error, emit, tracked, release_claims,
}
use sentrazero.Dispatcher.Pool

-- The answer of `VerifyJobLease`.
pub data LeaseAnswer : Type 0 where
  lease_error lease_lost lease_held : LeaseAnswer

-- How `ExecuteJob` ends.
pub data Outcome : Type 0 where
  succeeded panicked : Outcome
  erred : String → Outcome

-- What the outside answers during one execution. The answers that are only logged (of
-- `ReportJobStart`, `StartJob`, `ReportJobFailure`, `CompleteJob`) have no effect on the agent.
pub record Answers : Type 0 where
  pub lease : LeaseAnswer
  pub plugin_execution_id : String
  pub handler : String → Payload → String → Outcome

-- An early return: the job counts as failed, and the backend hears of it if there is one.
unfoldable pub abort : Reason → JobRequest → Pool → Pool
abort why req p =
    let q = record p { total_failed = p.total_failed + 1 } in
    if tracked req q then emit (report_failure req.job_id why) q else q

-- Job start and the execution heartbeat.
unfoldable pub announce_start : JobRequest → Pool → Pool
announce_start req p =
    if tracked req p
    then record p {
      heartbeats = put req.job_id p.heartbeats;
      log = heartbeat_start req.job_id ∷ (start_job req.job_id ∷ (report_start req.job_id ∷ p.log));
    }
    else p

unfoldable pub plugin_of : JobRequest → String
plugin_of req = elim req.payload [
  | empty ↦ req.job_id
  | malformed ↦ req.job_id
  | object f ↦
      if not (f.plugin_id == "")
      then f.plugin_id
      else if not (f.plugin_name == "")
      then f.plugin_name
      else req.job_id
]

unfoldable pub records_plugin : JobRequest → Pool → Bool
records_plugin req p = p.has_client && not (req.org_id == "") && not (req.job_id == "")

unfoldable pub announce_plugin : JobRequest → Pool → Pool
announce_plugin req p =
    if records_plugin req p
    then emit (record_plugin_start req.org_id (plugin_of req) req.job_id) p
    else p

-- The payload's execution id, where it has one, replaces the request's.
unfoldable pub effective_execution_id : JobRequest → String
effective_execution_id req = elim req.payload [
  | empty ↦ req.execution_id
  | malformed ↦ req.execution_id
  | object f ↦ if f.execution_id == "" then req.execution_id else f.execution_id
]

-- `RecordPluginExecutionEnd`, where a start was recorded and returned an id, and the end of the
-- heartbeat.
unfoldable pub announce_end : Answers → Status → JobRequest → Pool → Pool
announce_end a status req p =
    let q =
      if records_plugin req p && not (a.plugin_execution_id == "")
      then emit (record_plugin_end a.plugin_execution_id status) p
      else p in
    if tracked req q
    then record q {
      heartbeats = remove req.job_id q.heartbeats;
      log = heartbeat_stop req.job_id ∷ q.log;
    }
    else q

-- The failure path.
unfoldable pub conclude_failure : String → String → JobRequest → Pool → Pool
conclude_failure message execution_id req p =
    let q = record p { total_failed = p.total_failed + 1 } in
    if tracked req q
    then record q {
      log =
          complete_job execution_id req.job_id Pool.failed
          ∷ (report_failure req.job_id (handler_error message) ∷ q.log);
    }
    else q

-- The success path.
unfoldable pub conclude_success : String → JobRequest → Pool → Pool
conclude_success execution_id req p =
    let q = record p { total_processed = p.total_processed + 1 } in
    if q.has_client && (not (execution_id == "") || not (req.job_id == ""))
    then emit (complete_job execution_id req.job_id Pool.completed) q
    else q

-- `ExecuteJob` and what follows it. A panic leaves through the deferred functions.
unfoldable pub run_job : Answers → String → JobRequest → Pool → Pool
run_job a execution_id req p =
    let q = emit (run_handler req.job_type req.payload execution_id) p in
    elim (a.handler req.job_type req.payload execution_id) [
      | panicked ↦ q
      | erred message ↦ conclude_failure message execution_id req (announce_end a Pool.failed req q)
      | succeeded ↦ conclude_success execution_id req (announce_end a Pool.completed req q)
    ]

-- `req.executionID == "" && req.jobType != "scan_dataset"`, after the override
abbrev pub misses_execution_id : JobRequest → Bool
misses_execution_id req = effective_execution_id req == "" && not (req.job_type == "scan_dataset")

-- From the job start on.
unfoldable pub start_and_run : Answers → JobRequest → Pool → Pool
start_and_run a req p =
    let q = announce_plugin req (announce_start req p) in
    if misses_execution_id req
    then abort execution_id_missing req q
    else run_job a (effective_execution_id req) req q

-- The lease check, and the rest behind it.
unfoldable pub check_and_run : Answers → JobRequest → Pool → Pool
check_and_run a req p =
    if tracked req p
    then elim a.lease [
      | lease_error ↦ abort lease_failed req (emit (verify_lease req.job_id) p)
      | lease_lost ↦ abort lease_invalid req (emit (verify_lease req.job_id) p)
      | lease_held ↦ start_and_run a req (emit (verify_lease req.job_id) p)
    ]
    else start_and_run a req p

unfoldable pub execute_job_safe : Answers → JobRequest → Pool → Pool
execute_job_safe a req p = release_claims req (check_and_run a req p)
