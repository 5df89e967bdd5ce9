-- ===== src/Tests/Pool.antt =====
-- A pool of two workers, its submissions and its executions.
use sentrazero.Base.{
  ◌+◌, ◌≡◌, refl, true, false, none, some, [], ◌∷◌, ◌++◌, has, put, count, length, arith, ◌↔◌, ◌≤◌,
  ◌<◌,
}
use sentrazero.Base.Int.{pos}
use sentrazero.Dispatcher.Payload.{Fields, object, empty}
use sentrazero.Dispatcher.Dedup.{contains, Store, default_dedup_ttl, default_dedup_max_jobs}
use sentrazero.Dispatcher.Dedup
use sentrazero.Dispatcher.Pool.{
  Pool, JobRequest, verify_lease, complete_job, completed, heartbeat_stop, heartbeat_start,
  record_plugin_end, record_plugin_start, run_handler, start_job, report_start,
}
use sentrazero.Base.Dict.{lookup}
use sentrazero.Dispatcher.Pool.Submit.{
  seen, claim_job, claim_step, enqueue, signal_pause, submit_job_with_meta, already_running,
}
use sentrazero.Dispatcher.Pool.Execute.{
  Answers, lease_held, lease_lost, succeeded, panicked, execute_job_safe, effective_execution_id,
  records_plugin, plugin_of,
}
use sentrazero.Dispatcher.Pool.Workers.{
  init_worker_pool, start_workers, receive, work, worker_count,
}
use sentrazero.Dispatcher.Pool.Admission.{Admits, Admits-accepted, submit-accepts_iff}
use sentrazero.Dispatcher.Pool.Rejection.{Untouched, rejected-Untouched}
use sentrazero.Dispatcher.Pool.Outcomes.{execute-releases}
use sentrazero.Dispatcher.Pool.Reports.{execute_reports}
use sentrazero.Dispatcher.Pool.Steps.{Reach, submits, receives, works, here, next}
use sentrazero.Dispatcher.Pool.Claims.{job_ids, step_ids}
use sentrazero.Dispatcher.Pool.Exclusive.{IsUnused, never_held_twice}

abbrev store : Store
store = record {
  ttl = default_dedup_ttl;
  max_jobs = default_dedup_max_jobs;
  jobs = [];
  pending = none;
  timer = true;
  file = Dedup.missing;
}

abbrev pub unused : Pool
unused = record {
  initialized = false;
  queue = [];
  queue_cap = 0;
  running = [];
  active = [];
  in_flight = [];
  idle = 0;
  active_workers = 0;
  max_workers = 0;
  total_processed = 0;
  total_failed = 0;
  has_client = true;
  has_pause = true;
  backpressure_enabled = true;
  job_processing_paused = false;
  shut_down = false;
  dedup = some store;
  heartbeats = [];
  log = [];
}

-- The pool after `InitWorkerPool(2)` on four processors.
abbrev ready : Pool
ready = record unused {
  initialized = true;
  queue_cap = 128;
  idle = 2;
  active_workers = 2;
  max_workers = 2;
}

abbrev pub fields : Fields
fields = record {
  id = "";
  job_type = "process";
  chunk_id = "chunk-1";
  dataset_id = "dataset-1";
  plugin_id = "csv";
  plugin_name = "";
  plugin_code = "";
  execution_id = "";
  job_id = "";
}

abbrev job : JobRequest
job = record {
  job_type = "process";
  payload = object fields;
  job_id = "job-1";
  org_id = "org-1";
  trace_id = "trace-1";
  execution_step_id = "step-1";
  execution_id = "execution-1";
}

abbrev merge_job : JobRequest
merge_job = record job { job_type = "merge_dataset"; payload = empty; execution_id = "" }

abbrev lost_answers : Answers
lost_answers = record {
  lease = lease_lost;
  plugin_execution_id = "plugin-run-1";
  handler = λ t p e. succeeded;
}

abbrev held_answers : Answers
held_answers = record {
  lease = lease_held;
  plugin_execution_id = "plugin-run-1";
  handler = λ t p e. succeeded;
}

abbrev panic_answers : Answers
panic_answers = record {
  lease = lease_held;
  plugin_execution_id = "plugin-run-1";
  handler = λ t p e. panicked;
}

-- The pool while the job runs.
abbrev busy : Pool
busy = record ready {
  running = "job-1" ∷ [];
  active = "step-1" ∷ [];
  in_flight = job ∷ [];
  idle = 1;
}

Admits-merge_job : Admits 5 merge_job ready
unfolding seen contains lookup has
Admits-merge_job = record {
  ready = refl;
  named = refl;
  identified = refl;
  typed = refl;
  unseen = refl;
  not_running = refl;
  step_free = λ h. refl;
  room = omega arith;
}

Admits-job : Admits 5 job ready
unfolding seen contains lookup has
Admits-job = record {
  ready = refl;
  named = refl;
  identified = refl;
  typed = refl;
  unseen = refl;
  not_running = refl;
  step_free = λ h. refl;
  room = omega arith;
}

submit-accepts_iff_example : ((submit_job_with_meta 5 job ready).1 ≡ none) ↔ Admits 5 job ready
submit-accepts_iff_example = submit-accepts_iff 5 job ready

running_already : (submit_job_with_meta 5 job busy).1 ≡ some already_running
unfolding submit_job_with_meta claim_job seen contains lookup has
running_already = refl

rejected-Untouched_example : Untouched busy (submit_job_with_meta 5 job busy).0
rejected-Untouched_example = rejected-Untouched 5 job busy already_running running_already

execute-releases_example :
    (has "job-1" (execute_job_safe held_answers job busy).running ≡ false)
    × (has "job-1" (execute_job_safe held_answers job busy).active ≡ false)
unfolding has
execute-releases_example = execute-releases held_answers job busy "job-1"

execute_reports_example :
    (execute_job_safe held_answers job busy).log
    ≡ complete_job "execution-1" "job-1" completed
      ∷ (heartbeat_stop "job-1"
          ∷ (record_plugin_end "plugin-run-1" completed
              ∷ (run_handler "process" (object fields) "execution-1"
                  ∷ (record_plugin_start "org-1" "csv" "job-1"
                      ∷ (heartbeat_start "job-1"
                          ∷ (start_job "job-1"
                              ∷ (report_start "job-1" ∷ (verify_lease "job-1" ∷ []))))))))
unfolding effective_execution_id records_plugin plugin_of
execute_reports_example = execute_reports held_answers job busy refl refl refl

merge_accepted : (submit_job_with_meta 5 merge_job ready).1 ≡ none
unfolding submit_job_with_meta claim_job seen contains lookup has
merge_accepted = (Admits-accepted 5 merge_job ready Admits-merge_job).0

pub unused-IsUnused : IsUnused unused
unused-IsUnused = record {
  running = refl;
  active = refl;
  in_flight = refl;
  idle = refl;
  active_workers = refl;
}

-- The job is submitted, received and finished, and the pool takes it a second time.
abbrev after_submit : Pool
after_submit = (submit_job_with_meta 5 job (init_worker_pool (pos 2) 4 unused)).0

queued : (after_submit.queue ≡ job ∷ []) × (0 < after_submit.idle)
unfolding init_worker_pool start_workers worker_count submit_job_with_meta claim_job claim_step
    enqueue signal_pause seen contains lookup has put
queued = (refl, omega arith)

received : (receive job [] after_submit).in_flight ≡ job ∷ []
unfolding init_worker_pool start_workers worker_count submit_job_with_meta claim_job claim_step
    enqueue signal_pause seen contains lookup has put receive
received = refl

abbrev finished_pool : Pool
finished_pool = work held_answers job ([] ++ []) (receive job [] after_submit)

history : Reach (init_worker_pool (pos 2) 4 unused) finished_pool
history =
    next
      (next (next here (submits 5 job (init_worker_pool (pos 2) 4 unused)))
        (receives job [] after_submit queued.0 queued.1))
      (works held_answers job [] [] (receive job [] after_submit) received)

never_held_twice_example :
    (count "job-1" (job_ids finished_pool.queue) + count "job-1" (job_ids finished_pool.in_flight)
      ≤ 1)
    × (count "step-1" (step_ids finished_pool.queue)
          + count "step-1" (step_ids finished_pool.in_flight)
        ≤ 1)
    × (length finished_pool.queue ≤ finished_pool.queue_cap)
    × (finished_pool.active_workers ≡ finished_pool.idle + length finished_pool.in_flight)
never_held_twice_example =
    never_held_twice (pos 2) 4 unused finished_pool "job-1" "step-1" unused-IsUnused refl history
