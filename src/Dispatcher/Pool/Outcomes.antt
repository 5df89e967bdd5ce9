-- ===== src/Dispatcher/Pool/Outcomes.antt =====
-- What one execution does: its claims, its count, its reports and its heartbeat.
use sentrazero.Base.{
  ℕ, ◌+◌, ◌≡◌, String, false, not, ◌&&◌, ◌==◌, if◌then◌else◌, has, arith, eq_iff, has-remove,
}
use sentrazero.Dispatcher.Pool.{Pool, JobRequest, verify_lease, emit, release_claims}
use sentrazero.Dispatcher.Pool.Execute.{
  Answers, panicked, abort, announce_start, announce_plugin, effective_execution_id, announce_end,
  conclude_failure, conclude_success, run_job, misses_execution_id, start_and_run, check_and_run,
  execute_job_safe,
}
use sentrazero.Dispatcher.Pool.Workers.{panics}

-- The parts of the state that only the claims' release changes.
pub record SameClaims (p q : Pool) : Type 0 where
  pub queue : q.queue ≡ p.queue
  pub in_flight : q.in_flight ≡ p.in_flight
  pub running : q.running ≡ p.running
  pub active : q.active ≡ p.active
  pub queue_cap : q.queue_cap ≡ p.queue_cap
  pub idle : q.idle ≡ p.idle
  pub active_workers : q.active_workers ≡ p.active_workers
  pub max_workers : q.max_workers ≡ p.max_workers
  pub dedup : q.dedup ≡ p.dedup

run-SameClaims :
    (a : Answers) (id : String) (req : JobRequest) (p : Pool) → SameClaims p (run_job a id req p)
unfolding run_job announce_end conclude_failure conclude_success
run-SameClaims a id req p = ground arith

start-SameClaims :
    (a : Answers) (req : JobRequest) (p : Pool) → SameClaims p (start_and_run a req p)
unfolding start_and_run announce_start announce_plugin abort
start-SameClaims a req p = ground (
  arith,
  run-SameClaims a (effective_execution_id req) req (announce_plugin req (announce_start req p)),
)

pub check-SameClaims :
    (a : Answers) (req : JobRequest) (p : Pool) → SameClaims p (check_and_run a req p)
unfolding check_and_run abort
check-SameClaims a req p =
    ground
      (arith, start-SameClaims a req p, start-SameClaims a req (emit (verify_lease req.job_id) p))

-- After an execution, however it ended, its job id and its execution step are free again, where
-- they are given, and every other claim stands as before.
pub execute-releases :
    (a : Answers) (req : JobRequest) (p : Pool) (j : String)
    → (has j (execute_job_safe a req p).running
        ≡ (if not (req.job_id == "") && req.job_id == j then false else has j p.running))
      × (has j (execute_job_safe a req p).active ≡ (
          if not (req.execution_step_id == "") && req.execution_step_id == j
          then false
          else has j p.active))
unfolding execute_job_safe release_claims
execute-releases a req p j = ground (
  arith,
  check-SameClaims a req p,
  has-remove req.job_id j (check_and_run a req p).running,
  has-remove req.execution_step_id j (check_and_run a req p).active,
  eq_iff req.job_id j,
  eq_iff req.execution_step_id j,
)

-- Each execution that does not panic adds one to exactly one of the two counters.
abbrev pub tally : Pool → ℕ
tally p = p.total_processed + p.total_failed

run-tally :
    (a : Answers) (id : String) (req : JobRequest) (p : Pool)
    → tally (run_job a id req p)
      ≡ elim (a.handler req.job_type req.payload id) [ panicked ↦ tally p | _ ↦ tally p + 1 ]
unfolding run_job announce_end conclude_failure conclude_success
run-tally a id req p = ground arith

start-tally :
    (a : Answers) (req : JobRequest) (p : Pool)
    → tally (start_and_run a req p) ≡ (
        if misses_execution_id req
        then tally p + 1
        else elim (a.handler req.job_type req.payload (effective_execution_id req)) [
          | panicked ↦ tally p
          | _ ↦ tally p + 1
        ])
unfolding start_and_run announce_start announce_plugin abort
start-tally a req p = ground (
  arith,
  run-tally a (effective_execution_id req) req (announce_plugin req (announce_start req p)),
)

-- An execution is counted once, as processed or as failed, unless the handler panics: then it is
-- not counted at all.
pub tally-execute :
    (a : Answers) (req : JobRequest) (p : Pool)
    → tally (execute_job_safe a req p) ≡ (if panics a req p then tally p else tally p + 1)
unfolding execute_job_safe release_claims check_and_run abort panics
tally-execute a req p =
    ground (arith, start-tally a req p, start-tally a req (emit (verify_lease req.job_id) p))
