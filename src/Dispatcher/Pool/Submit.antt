-- ===== src/Dispatcher/Pool/Submit.antt =====
-- `SubmitJobWithMeta` of internal/dispatcher/worker_pool.go.
use sentrazero.Base.{
  ℕ, ◌+◌, ◌*◌, String, Bool, false, not, Option, none, some, [], ◌∷◌, ◌++◌, ◌&&◌, ◌==◌, ltb,
  if◌then◌else◌, has, put, remove, length,
}
use sentrazero.Dispatcher.Dedup.{Store, contains, add}
use sentrazero.Dispatcher.Pool.{
  Pool, JobRequest, pause_sse, report_failure, emit, tracked, release_claims,
}
use sentrazero.Dispatcher.Pool

pub data SubmitError : Type 0 where
  not_initialized job_id_required execution_id_required job_type_required : SubmitError
  seen_within_ttl already_running step_active queue_full : SubmitError

-- `queueUtil > HighWaterMarkPercent`, with 0.8 = 4/5: the quotient of the two lengths is rounded to
-- the nearest double, which keeps the order.
abbrev pub above_high_water : Pool → Bool
above_high_water p = ltb (4 * p.queue_cap) (5 * length p.queue)

unfoldable pub signal_pause : Pool → Pool
signal_pause p =
    if above_high_water p && p.backpressure_enabled && p.has_pause then emit pause_sse p else p

-- `globalDedupStore != nil && globalDedupStore.Contains(jobID)`
unfoldable pub seen : Option Store → String → ℕ → Bool
seen none job_id now = false
seen (some s) job_id now = contains s job_id now

unfoldable pub remember : String → ℕ → Option Store → Option Store
remember job_id now none = none
remember job_id now (some s) = some (add job_id now s)

-- The branch of a full queue.
unfoldable pub drop_job : JobRequest → Pool → Pool
drop_job req p =
    let q = release_claims req p in
    let r = record q { total_failed = q.total_failed + 1 } in
    if tracked req r then emit (report_failure req.job_id Pool.queue_full) r else r

-- From the measure of the queue on.
unfoldable pub enqueue : ℕ → JobRequest → Pool → Pool × Option SubmitError
enqueue now req p =
    let q = signal_pause p in
    if ltb (length q.queue) q.queue_cap
    then (record q { queue = q.queue ++ req ∷ []; dedup = remember req.job_id now q.dedup }, none)
    else (drop_job req q, some queue_full)

-- The claim of the execution step; a taken step gives the job's own claim back.
unfoldable pub claim_step : ℕ → JobRequest → Pool → Pool × Option SubmitError
claim_step now req p =
    if req.execution_step_id == ""
    then enqueue now req p
    else if has req.execution_step_id p.active
    then (record p { running = remove req.job_id p.running }, some step_active)
    else enqueue now req (record p { active = put req.execution_step_id p.active })

-- The claim of the job id.
unfoldable pub claim_job : ℕ → JobRequest → Pool → Pool × Option SubmitError
claim_job now req p =
    if has req.job_id p.running
    then (p, some already_running)
    else claim_step now req (record p { running = put req.job_id p.running })

-- `executionID == "" && jobType != "scan_dataset" && jobType != "merge_dataset"`
abbrev pub lacks_execution_id : JobRequest → Bool
lacks_execution_id req =
    req.execution_id == ""
    && not (req.job_type == "scan_dataset")
    && not (req.job_type == "merge_dataset")

unfoldable pub submit_job_with_meta : ℕ → JobRequest → Pool → Pool × Option SubmitError
submit_job_with_meta now req p =
    if not p.initialized
    then (p, some not_initialized)
    else if req.job_id == ""
    then (p, some job_id_required)
    else if lacks_execution_id req
    then (p, some execution_id_required)
    else if req.job_type == ""
    then (p, some job_type_required)
    else if seen p.dedup req.job_id now
    then (p, some seen_within_ttl)
    else claim_job now req p
