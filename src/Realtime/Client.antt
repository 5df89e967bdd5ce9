-- ===== src/Realtime/Client.antt =====
-- The polling client: its state, one poll (`fetchNewJobs`) and the cleanup of the sent jobs.
-- A poll submits each job to the pool of the dispatcher, as the code calls SubmitJobWithMeta. The keys of the
-- deduplication in Redis are a map from the job's id to the instant at which the key expires. The key
-- `runtime_dependencies` of a job, which the code copies into its payload, is not among the fields of
-- the model's payload.
use sentrazero.Base.{
  ℕ, suc, ◌+◌, ◌-◌, ◌*◌, ◌&&◌, ◌==◌, String, Bool, true, false, not, Option, none, some, List, [],
  ◌∷◌, length, ltb, nat_eq, if◌then◌else◌,
}
use sentrazero.Base.Dict.{Dict, lookup, insert, retain}
use sentrazero.Dispatcher.Pool.{Pool, JobRequest}
use sentrazero.Dispatcher.Pool.Submit.{submit_job_with_meta}
use sentrazero.Realtime.Intervals.{Settings, one_second}
use sentrazero.Realtime.Offers.{
  RealtimeJobPayload, get_job_id, get_execution_id, get_payload, offered, well_formed,
}

-- The metrics, with what `sysinfo` reads as a text.
pub record Metrics : Type 0 where
  pub host : String
  pub active_workers : ℕ
  pub max_workers : ℕ
  pub claims_returned : ℕ

pub record PollRequest : Type 0 where
  pub claim_jobs : Bool
  pub metrics : Option Metrics

-- How a request for `poll_state` ends: without a request, without a response, with a status that is
-- not 200, with a body that does not arrive or decode, or with the decoded body.
pub data PollAnswer : Type 0 where
  unsent unanswered undecoded : PollAnswer
  refused : ℕ → PollAnswer
  answered : Bool → List RealtimeJobPayload → PollAnswer

-- The readings of the clock, the trace ids and whether Redis answers, for each job of a poll.
pub record World : Type 0 where
  pub host : String
  pub clock : ℕ → ℕ
  pub trace_id : ℕ → String
  pub redis_answers : ℕ → Bool

pub record PollingClient : Type 0 where
  pub settings : Settings
  -- `redisClient != nil`, `ctx.Err() != nil` and `running`
  pub has_redis : Bool
  pub done : Bool
  pub running : Bool
  pub sent_jobs : Dict ℕ
  pub redis : Dict ℕ
  pub current_interval : ℕ
  pub last_metrics : Option Metrics
  pub last_claimed_jobs : ℕ
  -- the requests made, the latest first
  pub requests : List PollRequest

abbrev pub sent_jobs_ttl : ℕ
sent_jobs_ttl = 600 * one_second

abbrev pub same_metrics : Metrics → Metrics → Bool
same_metrics m n =
    m.host == n.host
    && (nat_eq m.active_workers n.active_workers
        && (nat_eq m.max_workers n.max_workers && nat_eq m.claims_returned n.claims_returned))

abbrev pub metrics_of : World → PollingClient → Pool → Metrics
metrics_of w c p = record {
  host = w.host;
  active_workers = p.active_workers;
  max_workers = p.max_workers;
  claims_returned = c.last_claimed_jobs;
}

unfoldable pub current_metrics : Metrics → Option Metrics → Option Metrics
current_metrics m none = some m
current_metrics m (some last) = if same_metrics last m then none else some m

-- The body of the request, and the metrics that it remembers.
unfoldable pub request : World → Bool → PollingClient → Pool → PollingClient
unfolding current_metrics
request w claim c p = record c {
  requests =
      record { claim_jobs = claim; metrics = current_metrics (metrics_of w c p) c.last_metrics }
      ∷ c.requests;
  last_metrics = some (metrics_of w c p);
}

-- `SET sentra:dedup:<device>:<job> NX` with the time to live: is the key new.
unfoldable pub mark_job_processed : String → ℕ → Dict ℕ → Bool × Dict ℕ
mark_job_processed job_id now keys = elim (lookup job_id keys) [
  | none ↦ (true, insert job_id (now + sent_jobs_ttl) keys)
  | some expiry ↦
      if ltb now expiry then (false, keys) else (true, insert job_id (now + sent_jobs_ttl) keys)
]

-- The detection of duplicates: does the job go on, and what is remembered of it.
unfoldable pub first_time : World → ℕ → String → PollingClient → Bool × PollingClient
unfolding mark_job_processed
first_time w i job_id c =
    if c.has_redis
    then if w.redis_answers i
      then (
        (mark_job_processed job_id (w.clock i) c.redis).0,
        record c { redis = (mark_job_processed job_id (w.clock i) c.redis).1 },
      )
      else (false, c)
    else elim (lookup job_id c.sent_jobs) [
      | none ↦ (true, record c { sent_jobs = insert job_id (w.clock i) c.sent_jobs })
      | some stored ↦ (false, c)
    ]

unfoldable pub request_of : World → ℕ → RealtimeJobPayload → JobRequest
unfolding get_job_id get_execution_id get_payload
request_of w i j = record {
  job_type = j.job_type;
  payload = get_payload j;
  job_id = get_job_id j;
  org_id = j.org_id;
  trace_id = w.trace_id i;
  execution_step_id = j.execution_step_id;
  execution_id = get_execution_id j;
}

-- One round of the loop over the jobs. An error of the submission is only logged.
unfoldable pub offer : World → ℕ → RealtimeJobPayload → PollingClient × Pool → PollingClient × Pool
unfolding well_formed first_time request_of
offer w i j (c, p) =
    if well_formed j
    then if (first_time w i (get_job_id j) c).0
      then (
        (first_time w i (get_job_id j) c).1,
        (submit_job_with_meta (w.clock i) (request_of w i j) p).0,
      )
      else ((first_time w i (get_job_id j) c).1, p)
    else (c, p)

unfoldable pub offer_all :
    World → ℕ → List RealtimeJobPayload → PollingClient × Pool → PollingClient × Pool
unfolding offer
offer_all w i [] s = s
offer_all w i (j ∷ jobs) s = offer_all w (suc i) jobs (offer w i j s)

-- What follows the decoding, with the number that the poll returns.
unfoldable pub take_jobs :
    World → Bool → List RealtimeJobPayload → PollingClient × Pool → (PollingClient × Pool) × ℕ
unfolding offered offer_all
take_jobs w is_ok jobs s =
    if is_ok
    then (
      (
        record (offer_all w 0 (offered is_ok jobs) s).0 {
          last_claimed_jobs = length (offered is_ok jobs);
        },
        (offer_all w 0 (offered is_ok jobs) s).1,
      ),
      length (offered is_ok jobs),
    )
    else (s, 0)

unfoldable pub fetch_new_jobs :
    World → Bool → PollAnswer → PollingClient × Pool → (PollingClient × Pool) × ℕ
unfolding request take_jobs
fetch_new_jobs w claim answer (c, p) = if c.done then ((c, p), 0) else elim answer [
  | unsent ↦ ((record c { last_metrics = (request w claim c p).last_metrics }, p), 0)
  | unanswered ↦ ((request w claim c p, p), 0)
  | undecoded ↦ ((request w claim c p, p), 0)
  | refused status ↦ ((request w claim c p, p), 0)
  | answered is_ok jobs ↦ take_jobs w is_ok jobs (request w claim c p, p)
]

unfoldable pub stop_polling_client : PollingClient → PollingClient
stop_polling_client c = record c { done = true }

-- `now.Sub(storedTime) > sentJobsTTL` drops an id.
unfoldable pub cleanup_old_jobs : ℕ → PollingClient → PollingClient
cleanup_old_jobs now c = if c.has_redis then c else record c {
  sent_jobs = retain (λ stored. not (ltb sent_jobs_ttl (now - stored))) c.sent_jobs;
}
