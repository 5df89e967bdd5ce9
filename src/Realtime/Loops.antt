-- ===== src/Realtime/Loops.antt =====
-- The loops that poll: adaptive where there is no Redis, driven by its notifications where there is.
-- One round of a loop is a function of the round's event; a run is a list of events.
use sentrazero.Base.{
  ℕ, suc, ◌%◌, ◌||◌, String, Bool, true, false, not, Option, some, List, [], ◌∷◌, ltb, leb, nat_eq,
  if◌then◌else◌, ◌&&◌, ◌==◌,
}
use sentrazero.Dispatcher.Pool.{Pool}
use sentrazero.Dispatcher.Pool.Workers.{active_jobs_count, queue_length}
use sentrazero.Realtime.Intervals.{next_poll_interval, event_driven_safety, jittered}
use sentrazero.Realtime.Client.{World, PollAnswer, PollingClient, fetch_new_jobs}

-- A loop between two rounds: `lastJobTime`, `ceilingPolls` and `lastWakeup` are its local variables,
-- `ticker` the period of its ticker.
pub record Loop : Type 0 where
  pub client : PollingClient
  pub pool : Pool
  pub last_job_time : Option ℕ
  pub ceiling_polls : ℕ
  pub last_wakeup : Option ℕ
  pub ticker : ℕ

-- One poll: the instant after it, the draw of its jitter, the readings inside it, and its answer.
pub record Poll : Type 0 where
  pub now : ℕ
  pub draw : ℕ
  pub world : World
  pub answer : PollAnswer

-- `refreshActivity`, after the instant of the last poll with jobs.
unfoldable pub refresh_activity : ℕ → Pool → Option ℕ → Option ℕ
refresh_activity now p last =
    if ltb 0 (active_jobs_count p) || ltb 0 (queue_length p) then some now else last

-- The choice of claiming, with the polls at the ceiling counted.
unfoldable pub claims : ℕ → ℕ → ℕ → Bool × ℕ
claims ceiling interval ceiling_polls =
    if leb ceiling interval
    then (nat_eq (suc ceiling_polls % 3) 0, suc ceiling_polls)
    else (true, 0)

-- What follows a poll: the activity and the next interval.
unfoldable pub reschedule : Poll → ℕ → Loop → Loop
unfolding refresh_activity
reschedule e job_count l =
    let worked = if ltb 0 job_count then some e.now else l.last_job_time in
    let last = refresh_activity e.now l.pool worked in
    let current =
      next_poll_interval l.client.settings e.now e.draw job_count last l.client.current_interval in
    record l {
      last_job_time = last;
      client = record l.client { current_interval = current };
      ticker = current;
    }

unfoldable pub poll : Poll → Bool → Loop → Loop × ℕ
poll e claim l =
    let fetched = fetch_new_jobs e.world claim e.answer (l.client, l.pool) in
    (record l { client = fetched.0.0; pool = fetched.0.1 }, fetched.1)

-- The first poll of the adaptive loop, and each round on the ticker.
unfoldable pub adaptive_start : Poll → Loop → Loop
unfolding poll reschedule
adaptive_start e l = reschedule e (poll e true l).1 (poll e true l).0

-- The choice of the next round.
unfoldable pub next_claim : Loop → Bool × ℕ
unfolding claims
next_claim l =
    claims l.client.settings.max_idle_poll_interval l.client.current_interval l.ceiling_polls

unfoldable pub adaptive_tick : Poll → Loop → Loop
unfolding poll reschedule next_claim
adaptive_tick e l =
    let polled = poll e (next_claim l).0 (record l { ceiling_polls = (next_claim l).1 }) in
    reschedule e polled.1 polled.0

-- What the loop's `select` receives; `stopped` is the end of its context.
pub data Signal : Type 0 where
  stopped wakeup tick : Signal

-- Each round of the event-driven loop.
unfoldable pub event_driven_round : Signal → Poll → Loop → Loop
unfolding poll
event_driven_round stopped e l = record l { client = record l.client { running = false } }
event_driven_round wakeup e l =
    let awake = record l {
      last_wakeup = some e.now;
      ticker =
          jittered l.client.settings e.draw
            (event_driven_safety l.client.settings e.now (some e.now));
    } in
    (poll e true awake).0
event_driven_round tick e l =
    let awake = record l {
      ticker =
          jittered l.client.settings e.draw
            (event_driven_safety l.client.settings e.now l.last_wakeup);
    } in
    (poll e true awake).0

-- `start`, up to the choice of the loop.
unfoldable pub start : PollingClient → PollingClient
start c = record c { running = true; current_interval = c.settings.min_poll_interval }

unfoldable pub event_driven : String → PollingClient → Bool
event_driven org_id c = c.has_redis && not (org_id == "")

-- A run of the adaptive loop on its ticker.
unfoldable pub adaptive_run : List Poll → Loop → Loop
unfolding adaptive_tick
adaptive_run [] l = l
adaptive_run (e ∷ polls) l = adaptive_run polls (adaptive_tick e l)
