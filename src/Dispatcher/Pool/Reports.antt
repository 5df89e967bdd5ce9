-- ===== src/Dispatcher/Pool/Reports.antt =====
-- The calls that one execution makes of the backend, in order.
use sentrazero.Base.{
  ℕ, ◌+◌, ◌≡◌, ◌≢◌, none, String, true, false, not, List, ◌∷◌, ◌&&◌, ◌||◌, ◌==◌, if◌then◌else◌, has,
  arith, eq_iff, has-remove, has-put,
}
use sentrazero.Dispatcher.Payload.{Payload}
use sentrazero.Dispatcher.Pool.{
  Pool, JobRequest, Event, Reason, Status, verify_lease, report_start, start_job, heartbeat_start,
  heartbeat_stop, report_failure, record_plugin_start, record_plugin_end, run_handler, complete_job,
  completed, failed, lease_failed, lease_invalid, execution_id_missing, handler_error, emit,
  tracked, release_claims,
}
use sentrazero.Dispatcher.Pool.Execute.{
  Answers, Outcome, succeeded, panicked, erred, LeaseAnswer, lease_held, lease_error, lease_lost,
  abort, announce_start, plugin_of, records_plugin, announce_plugin, effective_execution_id,
  announce_end, conclude_failure, conclude_success, run_job, misses_execution_id, start_and_run,
  check_and_run, execute_job_safe,
}
use sentrazero.Dispatcher.Pool.Workers.{panics}
use sentrazero.Dispatcher.Pool.Submit.{submit_job_with_meta}

-- What a missing lease is reported as.
abbrev pub lease_reason : LeaseAnswer → Reason
lease_reason lease_error = lease_failed
lease_reason lease_lost = lease_invalid
lease_reason lease_held = lease_invalid

-- With a client and a job id but no valid lease the handler does not run: the backend is asked for
-- the lease and told of the failure, nothing else is called, and the job counts as failed.
pub execute_unleased :
    (a : Answers) (req : JobRequest) (p : Pool)
    → tracked req p ≡ true
    → a.lease ≢ lease_held
    → ((execute_job_safe a req p).log
        ≡ report_failure req.job_id (lease_reason a.lease) ∷ (verify_lease req.job_id ∷ p.log))
      × ((execute_job_safe a req p).total_processed ≡ p.total_processed)
      × ((execute_job_safe a req p).total_failed ≡ p.total_failed + 1)
      × ((execute_job_safe a req p).heartbeats ≡ p.heartbeats)
unfolding execute_job_safe release_claims check_and_run abort
execute_unleased a req p t h = ground arith

-- The log of a run that returns: `tail` is what stood there before.
run-log :
    (a : Answers) (id : String) (req : JobRequest) (p : Pool)
    → tracked req p ≡ true
    → (run_job a id req p).log ≡ elim (a.handler req.job_type req.payload id) [
      | panicked ↦ run_handler req.job_type req.payload id ∷ p.log
      | succeeded ↦
          complete_job id req.job_id completed
          ∷ (announce_end a completed req (emit (run_handler req.job_type req.payload id) p)).log
      | erred message ↦
          complete_job id req.job_id failed
          ∷ (report_failure req.job_id (handler_error message)
              ∷ (announce_end a failed req (emit (run_handler req.job_type req.payload id) p)).log)
    ]
unfolding run_job announce_end conclude_failure conclude_success
run-log a id req p t = ground arith

-- Where the heartbeat of a job stands after its execution.
run-heartbeat :
    (a : Answers) (id : String) (req : JobRequest) (p : Pool) (j : String)
    → tracked req p ≡ true
    → has j (run_job a id req p).heartbeats ≡ elim (a.handler req.job_type req.payload id) [
      | panicked ↦ has j p.heartbeats
      | _ ↦ if req.job_id == j then false else has j p.heartbeats
    ]
unfolding run_job announce_end conclude_failure conclude_success
run-heartbeat a id req p j t =
    ground (arith, has-remove req.job_id j p.heartbeats, eq_iff req.job_id j)

-- With a client, a job id and a valid lease, the heartbeat of a job is stopped when its execution
-- ends, except in two cases: a job without an execution id returns early with its heartbeat
-- ticking, and so does a panic.
pub execute-heartbeat :
    (a : Answers) (req : JobRequest) (p : Pool)
    → tracked req p ≡ true
    → a.lease ≡ lease_held
    → has req.job_id (execute_job_safe a req p).heartbeats
      ≡ (misses_execution_id req || panics a req p)
unfolding execute_job_safe release_claims check_and_run start_and_run abort announce_start
    announce_plugin panics
execute-heartbeat a req p t h = ground (
  arith,
  run-heartbeat a (effective_execution_id req) req
      (announce_plugin req (announce_start req (emit (verify_lease req.job_id) p))) req.job_id,
  eq_iff req.job_id req.job_id,
  has-put req.job_id req.job_id p.heartbeats,
)

-- The records of a plugin execution, where the organisation is known.
abbrev pub plugin_begun : JobRequest → Pool → List Event → List Event
plugin_begun req p log =
    if records_plugin req p
    then record_plugin_start req.org_id (plugin_of req) req.job_id ∷ log
    else log

abbrev pub plugin_ended : Answers → Status → JobRequest → Pool → List Event → List Event
plugin_ended a status req p log =
    if records_plugin req p && not (a.plugin_execution_id == "")
    then record_plugin_end a.plugin_execution_id status ∷ log
    else log

-- With a client, a job id, a valid lease and an execution id, the calls of an execution are, in
-- order: the lease, the start, the heartbeat, the plugin's record, the handler, the record's end,
-- the heartbeat's end and the completion, which a failure's report comes before. The plugin's
-- records are made where the organisation is known. A panic ends the calls with the handler.
pub execute_reports :
    (a : Answers) (req : JobRequest) (p : Pool)
    → tracked req p ≡ true
    → a.lease ≡ lease_held
    → misses_execution_id req ≡ false
    → (execute_job_safe a req p).log ≡ (
        let id = effective_execution_id req in
        let begun =
          run_handler req.job_type req.payload id
          ∷ plugin_begun req p (
              heartbeat_start req.job_id
              ∷ (start_job req.job_id
                  ∷ (report_start req.job_id ∷ (verify_lease req.job_id ∷ p.log)))) in
        elim (a.handler req.job_type req.payload id) [
          | panicked ↦ begun
          | succeeded ↦
              complete_job id req.job_id completed
              ∷ (heartbeat_stop req.job_id ∷ plugin_ended a completed req p begun)
          | erred message ↦
              complete_job id req.job_id failed
              ∷ (report_failure req.job_id (handler_error message)
                  ∷ (heartbeat_stop req.job_id ∷ plugin_ended a failed req p begun))
        ])
unfolding execute_job_safe release_claims check_and_run start_and_run announce_start announce_plugin
    records_plugin announce_end
execute_reports a req p t h e = ground (
  arith,
  run-log a (effective_execution_id req) req
      (announce_plugin req (announce_start req (emit (verify_lease req.job_id) p))),
)

start_and_run-misses :
    (a : Answers) (req : JobRequest) (p : Pool)
    → misses_execution_id req ≡ true
    → start_and_run a req p
      ≡ abort execution_id_missing req (announce_plugin req (announce_start req p))
unfolding start_and_run
start_and_run-misses a req p h = rw h

merge-misses :
    (req : JobRequest)
    → req.job_type ≡ "merge_dataset"
    → effective_execution_id req ≡ ""
    → misses_execution_id req ≡ true
merge-misses req merge none_given = simp (none_given, merge)

-- A merge job without an execution id in its request or its payload can be accepted, and its
-- execution never reaches the handler: whatever the handler would do, the result is the same, and
-- the job counts as failed.
pub merge_dataset_never_runs :
    (now : ℕ) (req : JobRequest) (p q : Pool) (a : Answers)
    (h : String → Payload → String → Outcome)
    → req.job_type ≡ "merge_dataset"
    → effective_execution_id req ≡ ""
    → (submit_job_with_meta now req p).1 ≡ none
    → (execute_job_safe a req q ≡ execute_job_safe (record a { handler = h }) req q)
      × ((execute_job_safe a req q).total_failed ≡ q.total_failed + 1)
      × ((execute_job_safe a req q).total_processed ≡ q.total_processed)
unfolding execute_job_safe release_claims check_and_run announce_start announce_plugin abort
merge_dataset_never_runs now req p q a h merge none_given accepted =
    let b = record a { handler = h } in
    let r = emit (verify_lease req.job_id) q in
    let missing = merge-misses req merge none_given in
    ground (
      arith,
      start_and_run-misses a req q missing,
      start_and_run-misses b req q missing,
      start_and_run-misses a req r missing,
      start_and_run-misses b req r missing,
    )
