-- ===== src/Dispatcher/Pool/Workers.antt =====
-- The workers, the resize, the shutdown and the metrics of internal/dispatcher/worker_pool.go, and
-- of internal/dispatcher/introspection.go.
use sentrazero.Base.{
  ℕ, zero, suc, ◌+◌, ◌-◌, ◌*◌, String, Bool, true, false, not, List, [], ◌∷◌, ◌&&◌, ◌||◌, ltb,
  nat_eq, if◌then◌else◌, has, size, length,
}
use sentrazero.Base.Int.{ℤ, is_positive, pos_part}
use sentrazero.Dispatcher.Pool.{Pool, JobRequest, Event, report_failure, shutdown, tracked}
use sentrazero.Dispatcher.Pool.Execute.{
  Answers, Outcome, LeaseAnswer, misses_execution_id, effective_execution_id, execute_job_safe,
}

abbrev pub default_max_workers : ℕ
default_max_workers = 4

abbrev pub default_queue_size : ℕ
default_queue_size = 128

-- `startWorker`, that many times.
unfoldable pub start_workers : ℕ → Pool → Pool
start_workers k p = record p { idle = p.idle + k; active_workers = p.active_workers + k }

-- `runtime.NumCPU() * 2`, at least 1
abbrev pub max_allowed : ℕ → ℕ
max_allowed num_cpu = if ltb (num_cpu * 2) 1 then 1 else num_cpu * 2

unfoldable pub worker_count : ℤ → ℕ → ℕ
worker_count n num_cpu =
    let wanted = if is_positive n then pos_part n else default_max_workers in
    if ltb (max_allowed num_cpu) wanted then max_allowed num_cpu else wanted

unfoldable pub init_worker_pool : ℤ → ℕ → Pool → Pool
init_worker_pool n num_cpu p = start_workers (worker_count n num_cpu) (record p {
  initialized = true;
  queue = [];
  queue_cap = default_queue_size;
  max_workers = worker_count n num_cpu;
})

-- One non-blocking send on the unbuffered `resizeSignal`: an idle worker takes it and returns, and
-- where none waits the signal is lost.
unfoldable pub signal_resize : Pool → Pool
signal_resize p =
    if ltb 0 p.idle
    then record p { idle = p.idle - 1; active_workers = p.active_workers - 1 }
    else p

unfoldable pub signal_resizes : ℕ → Pool → Pool
signal_resizes zero p = p
signal_resizes (suc k) p = signal_resizes k (signal_resize p)

abbrev pub at_least_one : ℤ → ℕ
at_least_one n = if is_positive n then pos_part n else 1

unfoldable pub resize_to : ℕ → Pool → Pool
resize_to count p =
    if nat_eq count p.max_workers
    then p
    else if ltb p.max_workers count
    then record (start_workers (count - p.max_workers) p) { max_workers = count }
    else record (signal_resizes (p.max_workers - count) p) { max_workers = count }

unfoldable pub set_max_workers : ℤ → Pool → Pool
set_max_workers n p = resize_to (at_least_one n) p

-- Does the handler run, and panic?
unfoldable pub panics : Answers → JobRequest → Pool → Bool
panics a req p =
    let crashed : Bool = elim (a.handler req.job_type req.payload (effective_execution_id req)) [
      | Outcome.panicked ↦ true
      | Outcome.succeeded ↦ false
      | Outcome.erred message ↦ false
    ] in
    let leased : Bool = elim a.lease [
      | LeaseAnswer.lease_held ↦ true
      | LeaseAnswer.lease_error ↦ not (tracked req p)
      | LeaseAnswer.lease_lost ↦ not (tracked req p)
    ] in
    leased && not (misses_execution_id req) && crashed

-- A worker receives a job from the queue: `rest` is what it leaves there.
unfoldable pub receive : JobRequest → List JobRequest → Pool → Pool
receive req rest p = record p { queue = rest; in_flight = req ∷ p.in_flight; idle = p.idle - 1 }

-- The worker's round for a job that it holds, `others` being the jobs that the other workers hold.
-- After a panic the worker is gone; otherwise it waits again.
unfoldable pub work : Answers → JobRequest → List JobRequest → Pool → Pool
work a req others p =
    let q = record (execute_job_safe a req p) { in_flight = others } in
    if panics a req p
    then record q { active_workers = q.active_workers - 1 }
    else record q { idle = q.idle + 1 }

-- `StopWorkerPool` closes `shutdownSignal`; an idle worker that sees it returns.
unfoldable pub stop_worker_pool : Pool → Pool
stop_worker_pool p = record p { shut_down = true }

unfoldable pub leave : Pool → Pool
leave p = if p.shut_down then signal_resize p else p

unfoldable pub set_backpressure : Bool → Pool → Pool
set_backpressure enabled p = record p { backpressure_enabled = enabled }

unfoldable pub pause_job_processing : Pool → Pool
pause_job_processing p = record p { job_processing_paused = true }

unfoldable pub resume_job_processing : Pool → Pool
resume_job_processing p = record p { job_processing_paused = false }

-- `QueueUtilization() < LowWaterMarkPercent`, with 0.5 = 1/2
unfoldable pub should_resume_sse : Pool → Bool
should_resume_sse p =
    if not p.initialized
    then true
    else if nat_eq p.queue_cap 0
    then true
    else ltb (2 * length p.queue) p.queue_cap

unfoldable pub active_jobs_count : Pool → ℕ
active_jobs_count p = size p.running

unfoldable pub is_job_active : String → Pool → Bool
is_job_active job_id p = has job_id p.active || has job_id p.running

unfoldable pub report_each : List String → List Event → List Event
report_each [] log = log
report_each (id ∷ ids) log = report_each ids (report_failure id shutdown ∷ log)

-- With a `*backend.ExecutionClient`: one report for each key of the two maps.
unfoldable pub report_in_flight_failures : Pool → Pool
report_in_flight_failures p = record p { log = report_each p.running (report_each p.active p.log) }

-- `QueueLength` of internal/dispatcher/introspection.go.
unfoldable pub queue_length : Pool → ℕ
queue_length p = if p.initialized then length p.queue else 0
