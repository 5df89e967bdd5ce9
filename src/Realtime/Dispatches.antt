-- ===== src/Realtime/Dispatches.antt =====
-- What polls do to the pool of the dispatcher.
use sentrazero.Base.{
  ℕ, suc, ◌+◌, ◌≤◌, ◌≡◌, ◌⊎◌, inl, inr, String, Bool, true, false, List, [], ◌∷◌, arith, Bool-cases,
  ◌==◌, count,
}
use sentrazero.Base.Int.{ℤ}
use sentrazero.Dispatcher.Pool.{Pool}
use sentrazero.Dispatcher.Pool.Submit.{submit_job_with_meta}
use sentrazero.Dispatcher.Pool.Workers.{init_worker_pool}
use sentrazero.Dispatcher.Pool.Claims.{job_ids, step_ids}
use sentrazero.Dispatcher.Pool.Steps.{Reach, submits, here, next}
use sentrazero.Dispatcher.Pool.Exclusive.{IsUnused, never_held_twice}
use sentrazero.Realtime.Offers.{RealtimeJobPayload, offered}
use sentrazero.Realtime.Client.{
  PollingClient, PollAnswer, unsent, unanswered, undecoded, refused, answered, World,
  fetch_new_jobs, request, take_jobs, offer, offer_all, request_of,
}
use sentrazero.Realtime.Loops.{
  Loop, Poll, next_claim, poll, reschedule, adaptive_tick, adaptive_run,
}

submitted_or_not :
    (w : World) (i : ℕ) (j : RealtimeJobPayload) (c : PollingClient) (q : Pool)
    → ((offer w i j (c, q)).1 ≡ q)
      ⊎ ((offer w i j (c, q)).1 ≡ (submit_job_with_meta (w.clock i) (request_of w i j) q).0)
unfolding offer
submitted_or_not w i j c q = ground arith

offer-Reach :
    (w : World) (i : ℕ) (j : RealtimeJobPayload) (c : PollingClient) {p q : Pool}
    → Reach p q
    → Reach p (offer w i j (c, q)).1
offer-Reach w i j c {q = q} r = elim (submitted_or_not w i j c q) [
  | inl e ↦ rw e r
  | inr e ↦ rw e (next r (submits (w.clock i) (request_of w i j) q))
]

offer_all-Reach :
    (w : World) (i : ℕ) (jobs : List RealtimeJobPayload) (c : PollingClient) {p q : Pool}
    → Reach p q
    → Reach p (offer_all w i jobs (c, q)).1
unfolding offer_all
offer_all-Reach w i [] c r = r
offer_all-Reach w i (j ∷ jobs) c {q = q} r =
    offer_all-Reach w (suc i) jobs (offer w i j (c, q)).0 (offer-Reach w i j c r)

take_jobs-Reach :
    (w : World) (is_ok : Bool) (jobs : List RealtimeJobPayload) (c : PollingClient) {p q : Pool}
    → Reach p q
    → Reach p (take_jobs w is_ok jobs (c, q)).0.1
unfolding take_jobs
take_jobs-Reach w true jobs c r = offer_all-Reach w 0 (offered true jobs) c r
take_jobs-Reach w false jobs c r = r

-- What a poll leaves: the pool as it was, or the pool after its jobs.
pub fetched_or_not :
    (w : World) (claim : Bool) (answer : PollAnswer) (c : PollingClient) (q : Pool)
    → ((fetch_new_jobs w claim answer (c, q)).0.1 ≡ q)
      ⊎ ((is_ok : Bool) × (jobs : List RealtimeJobPayload) × ((fetch_new_jobs w claim answer
              (c, q)).0.1
            ≡ (take_jobs w is_ok jobs (request w claim c q, q)).0.1))
unfolding fetch_new_jobs
fetched_or_not w claim unsent c q = inl (ground arith)
fetched_or_not w claim unanswered c q = inl (ground arith)
fetched_or_not w claim undecoded c q = inl (ground arith)
fetched_or_not w claim (refused status) c q = inl (ground arith)
fetched_or_not w claim (answered is_ok jobs) c q = elim (Bool-cases c.done) [
  | inl e ↦ inl (ground (arith, e))
  | inr e ↦ inr (is_ok, jobs, ground (arith, e))
]

fetch-Reach :
    (w : World) (claim : Bool) (answer : PollAnswer) (c : PollingClient) (q : Pool)
    → Reach q (fetch_new_jobs w claim answer (c, q)).0.1
fetch-Reach w claim answer c q = elim (fetched_or_not w claim answer c q) [
  | inl e ↦ rw e here
  | inr (is_ok, jobs, e) ↦ rw e (take_jobs-Reach w is_ok jobs (request w claim c q) here)
]

tick-Reach : (e : Poll) (l : Loop) → Reach l.pool (adaptive_tick e l).pool
unfolding adaptive_tick reschedule poll
tick-Reach e l = fetch-Reach e.world (next_claim l).0 e.answer l.client l.pool

trans-Reach : {p q r : Pool} → Reach p q → Reach q r → Reach p r
trans-Reach h here = h
trans-Reach h (next r s) = next (trans-Reach h r) s

run-Reach : (polls : List Poll) (l : Loop) → Reach l.pool (adaptive_run polls l).pool
unfolding adaptive_run
run-Reach [] l = here
run-Reach (e ∷ polls) l = trans-Reach (tick-Reach e l) (run-Reach polls (adaptive_tick e l))

-- After every run of polls on a pool that was reached from its initialisation with no job and no
-- worker, no job id stands twice among the queued and the in-flight jobs, and no execution step that is
-- not empty does, whatever jobs the backend offered and however often.
polls_never_hold_twice :
    (polls : List Poll) (n : ℤ) (num_cpu : ℕ) (p : Pool) (l : Loop) (j s : String)
    → IsUnused p
    → (s == "") ≡ false
    → Reach (init_worker_pool n num_cpu p) l.pool
    → let q = (adaptive_run polls l).pool in
      (count j (job_ids q.queue) + count j (job_ids q.in_flight) ≤ 1)
      × (count s (step_ids q.queue) + count s (step_ids q.in_flight) ≤ 1)
polls_never_hold_twice polls n num_cpu p l j s u h r =
    let all =
      never_held_twice n num_cpu p (adaptive_run polls l).pool j s u h
        (trans-Reach r (run-Reach polls l)) in
    (all.0, all.1)
