-- ===== src/Tests/Polls.antt =====
-- A polling client without Redis, the jobs that its backend offers, and its loop.
use sentrazero.Base.{
  ◌+◌, ◌*◌, ◌^◌, ◌≡◌, refl, true, false, none, some, [], ◌∷◌, List, arith, has, size, ◌==◌,
  if◌then◌else◌,
}
use sentrazero.Base.Int.{pos}
use sentrazero.Base.Dict.{lookup}
use sentrazero.Dispatcher.Payload.{empty, object}
use sentrazero.Dispatcher.Pool.{Pool}
use sentrazero.Dispatcher.Pool.Workers.{
  init_worker_pool, active_jobs_count, queue_length, start_workers,
}
use sentrazero.Dispatcher.Dedup.{contains}
use sentrazero.Dispatcher.Pool.Submit.{
  submit_job_with_meta, seen, claim_job, claim_step, enqueue, signal_pause,
}
use sentrazero.Dispatcher.Pool.Claims.{job_ids}
use sentrazero.Realtime.Intervals.{Environment, default_settings, one_second}
use sentrazero.Realtime.Offers.{RealtimeJobPayload}
use sentrazero.Realtime.Client.{PollingClient, World, answered, unanswered, fetch_new_jobs}
use sentrazero.Realtime.Loops.{Loop, Poll, adaptive_run}
use sentrazero.Realtime.Bounds.{IsPaced, adaptive_run-IsPaced}
use sentrazero.Realtime.Cadence.{IsIdle, IsDoubling}
use sentrazero.Realtime.Reoffer.{reoffered_jobs_skipped}
use sentrazero.Tests.Pool.{unused, fields}

abbrev client : PollingClient
client = record {
  settings = default_settings;
  has_redis = false;
  done = false;
  running = true;
  sent_jobs = [];
  redis = [];
  current_interval = 5 * one_second;
  last_metrics = none;
  last_claimed_jobs = 0;
  requests = [];
}

abbrev job : RealtimeJobPayload
job = record {
  id = "";
  job_id = "job-1";
  job_type = "process";
  payload = object fields;
  job_payload = empty;
  execution_step_id = "step-1";
  execution_id = "execution-1";
  exec_id = "";
  org_id = "org-1";
}

abbrev world : World
world = record {
  host = "8 GB";
  clock = λ i. 1000 * one_second + i;
  trace_id = λ i. "trace";
  redis_answers = λ i. true;
}

abbrev pool : Pool
pool = init_worker_pool (pos 2) 4 unused

abbrev looping : Loop
looping = record {
  client = client;
  pool = pool;
  last_job_time = none;
  ceiling_polls = 0;
  last_wakeup = none;
  ticker = 5 * one_second;
}

abbrev offers : Poll
offers = record {
  now = 1001 * one_second;
  draw = 2 ^ 52;
  world = world;
  answer = answered true (job ∷ []);
}

abbrev silent : Poll
silent = record offers { answer = unanswered }

-- A first poll brings a job, and the second brings it again.
abbrev polls : List Poll
polls = offers ∷ offers ∷ silent ∷ []

fetched_job :
    job_ids (fetch_new_jobs world true offers.answer (client, pool)).0.1.queue ≡ "job-1" ∷ []
unfolding fetch_new_jobs init_worker_pool lookup submit_job_with_meta start_workers seen contains
    claim_job has claim_step enqueue signal_pause
fetched_job = refl

abbrev paced : IsPaced looping
paced = (refl, omega arith, omega arith)

adaptive_run-IsPaced_example : IsPaced (adaptive_run polls looping)
adaptive_run-IsPaced_example = adaptive_run-IsPaced polls looping refl paced

abbrev steady : Loop
steady = record looping {
  client = record client {
    settings = record default_settings { poll_jitter = record { num = 0; den = 1 } };
  };
}

steady-IsIdle : IsIdle steady
unfolding init_worker_pool active_jobs_count size start_workers queue_length
steady-IsIdle = (refl, refl, refl)

steady-IsDoubling : IsDoubling steady.client.settings
steady-IsDoubling = (refl, refl, refl)

-- A queue that is full refuses the job, and the poll after it does not submit it again.
abbrev full_pool : Pool
full_pool = record pool { queue_cap = 0 }

reoffered_jobs_skipped_example :
    (fetch_new_jobs world true
      (answered true (job ∷ []))
      (fetch_new_jobs world true (answered true (job ∷ [])) (client, full_pool)).0).0.1
    ≡ (fetch_new_jobs world true (answered true (job ∷ [])) (client, full_pool)).0.1
reoffered_jobs_skipped_example =
    reoffered_jobs_skipped world world true true (job ∷ []) client full_pool refl

abbrev environment : Environment
environment = record {
  getenv = λ name. if name == "SENTRA_MIN_POLL_INTERVAL" then "1s" else "";
  parse_duration = λ text. if text == "1s" then some (pos one_second) else none;
  parse_float = λ text. none;
}
