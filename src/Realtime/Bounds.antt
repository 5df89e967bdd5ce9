-- ===== src/Realtime/Bounds.antt =====
-- How long the adaptive loop waits between two polls.
use sentrazero.Base.{
  ℕ, suc, ◌+◌, ◌-◌, ◌*◌, ◌/◌, ◌≤◌, ◌<◌, ◌≡◌, refl, Bool, true, false, ◌&&◌, Option, some, ◌∙◌,
  String, ltb, ltb→lt, if◌then◌else◌, arith, List, [], ◌∷◌,
}
use native.Mathlib.Nat.{mul-le-mul_left}
use sentrazero.Realtime.Intervals.{
  default_settings, one_second, draws, jittered, backed_off, next_poll_interval,
}
use sentrazero.Realtime.Offers.{offered, get_job_id, RealtimeJobPayload}
use sentrazero.Realtime.Client.{
  PollingClient, fetch_new_jobs, request, take_jobs, World, first_time, offer, offer_all,
  PollAnswer, unsent, unanswered, undecoded, refused, answered,
}
use sentrazero.Dispatcher.Pool.{Pool}
use sentrazero.Realtime.Loops.{
  Loop, Poll, adaptive_tick, adaptive_run, poll, reschedule, next_claim, refresh_activity,
}

-- A product with a factor between 4/5 and 6/5, in parts of the draws.
scaled_up : (d f : ℕ) → f ≤ 6 * draws → 5 * (d * f / (5 * draws)) ≤ 6 * d
scaled_up d f h = omega (arith, mul-le-mul_left d h)

scaled_down : (d f : ℕ) → 4 * draws ≤ f → 4 * d ≤ 5 * (d * f / (5 * draws)) + 5
scaled_down d f h = omega (arith, mul-le-mul_left d h)

jittered-le : (draw d : ℕ) → draw < draws → 5 * jittered default_settings draw d ≤ 6 * d
unfolding jittered
jittered-le draw d h =
    ground (arith, scaled_up d (5 * draws + 2 * (draw * 1) - 1 * draws) (omega arith))

le-jittered : (draw d : ℕ) → 4 * d ≤ 5 * jittered default_settings draw d + 5
unfolding jittered
le-jittered draw d =
    ground (arith, scaled_down d (5 * draws + 2 * (draw * 1) - 1 * draws) (omega arith))

-- The ceiling of 300 seconds is not kept: the jitter is added after the cut.
next_poll_interval_bounds :
    (now draw job_count : ℕ) (last : Option ℕ) (current : ℕ)
    → draw < draws
    → 5 * one_second ≤ current
    → (5 * one_second ≤ next_poll_interval default_settings now draw job_count last current)
      × (next_poll_interval default_settings now draw job_count last current ≤ 360 * one_second)
unfolding next_poll_interval backed_off
next_poll_interval_bounds now draw job_count last current h low =
    let next = backed_off default_settings current in
    (
      ground (arith, le-jittered draw next, jittered-le draw next h),
      ground (arith, jittered-le draw next h),
    )

-- What a poll leaves as it was.
abbrev pub Paces : PollingClient → PollingClient → Type 0
Paces c d = (d.settings ≡ c.settings) × (d.current_interval ≡ c.current_interval)

first_time-Paces :
    (w : World) (i : ℕ) (job_id : String) (c : PollingClient) → Paces c (first_time w i job_id c).1
unfolding first_time
first_time-Paces w i job_id c = ground arith

offer-Paces :
    (w : World) (i : ℕ) (j : RealtimeJobPayload) (c : PollingClient) (p : Pool)
    → Paces c (offer w i j (c, p)).0
unfolding offer
offer-Paces w i j c p = ground (arith, first_time-Paces w i (get_job_id j) c)

offer_all-Paces :
    (w : World) (i : ℕ) (jobs : List RealtimeJobPayload) (c : PollingClient) (p : Pool)
    → Paces c (offer_all w i jobs (c, p)).0
unfolding offer_all
offer_all-Paces w i [] c p = (refl, refl)
offer_all-Paces w i (j ∷ jobs) c p =
    let now = offer-Paces w i j c p in
    let later = offer_all-Paces w (suc i) jobs (offer w i j (c, p)).0 (offer w i j (c, p)).1 in
    (later.0 ∙ now.0, later.1 ∙ now.1)

take_jobs-Paces :
    (w : World) (is_ok : Bool) (jobs : List RealtimeJobPayload) (c : PollingClient) (p : Pool)
    → Paces c (take_jobs w is_ok jobs (c, p)).0.0
unfolding take_jobs
take_jobs-Paces w true jobs c p = offer_all-Paces w 0 (offered true jobs) c p
take_jobs-Paces w false jobs c p = (refl, refl)

pub fetch-Paces :
    (w : World) (claim : Bool) (answer : PollAnswer) (c : PollingClient) (p : Pool)
    → Paces c (fetch_new_jobs w claim answer (c, p)).0.0
unfolding fetch_new_jobs request
fetch-Paces w claim unsent c p = ground arith
fetch-Paces w claim unanswered c p = ground arith
fetch-Paces w claim undecoded c p = ground arith
fetch-Paces w claim (refused status) c p = ground arith
fetch-Paces w claim (answered is_ok jobs) c p =
    ground (arith, take_jobs-Paces w is_ok jobs (request w claim c p) p)

-- The interval of a loop under the default settings.
abbrev pub IsPaced : Loop → Type 0
IsPaced l =
    (l.client.settings ≡ default_settings)
    × (5 * one_second ≤ l.client.current_interval)
    × (l.client.current_interval ≤ 360 * one_second)

abbrev pub fair_draws : List Poll → Bool
fair_draws [] = true
fair_draws (e ∷ polls) = ltb e.draw draws && fair_draws polls

poll-IsPaced : (e : Poll) (claim : Bool) (l : Loop) → IsPaced l → IsPaced (poll e claim l).0
unfolding poll
poll-IsPaced e claim l v =
    let kept = fetch-Paces e.world claim e.answer l.client l.pool in
    (kept.0 ∙ v.0, rw kept.1 v.1, rw kept.1 v.2)

reschedule-IsPaced :
    (e : Poll) (job_count : ℕ) (l : Loop)
    → ltb e.draw draws ≡ true
    → IsPaced l
    → IsPaced (reschedule e job_count l)
unfolding reschedule
reschedule-IsPaced e job_count l h v =
    let bounds =
      next_poll_interval_bounds e.now e.draw job_count
        (refresh_activity e.now l.pool (if ltb 0 job_count then some e.now else l.last_job_time))
        l.client.current_interval (ltb→lt e.draw draws h) v.1 in
    (v.0, rw v.0 bounds.0, rw v.0 bounds.1)

tick-IsPaced :
    (e : Poll) (l : Loop) → ltb e.draw draws ≡ true → IsPaced l → IsPaced (adaptive_tick e l)
unfolding adaptive_tick
tick-IsPaced e l h v =
    let counted = record l { ceiling_polls = (next_claim l).1 } in
    let polled = poll e (next_claim l).0 counted in
    reschedule-IsPaced e polled.1 polled.0 h (poll-IsPaced e (next_claim l).0 counted v)

-- An adaptive loop under the default settings that starts at an interval between 5 and 360 seconds
-- keeps to these bounds through every run of polls, whatever the backend answers, whatever the
-- clock reads and whatever the draws.
pub adaptive_run-IsPaced :
    (polls : List Poll) (l : Loop)
    → fair_draws polls ≡ true
    → IsPaced l
    → IsPaced (adaptive_run polls l)
unfolding adaptive_run
adaptive_run-IsPaced [] l h v = v
adaptive_run-IsPaced (e ∷ polls) l h v =
    adaptive_run-IsPaced polls (adaptive_tick e l) (ground (arith, h))
      (tick-IsPaced e l (ground (arith, h)) v)
