-- ===== src/Realtime/Reoffer.antt =====
-- A job that was offered once: without Redis, its id is remembered before its submission.
use sentrazero.Base.{
  ℕ, suc, ◌≡◌, inl, inr, refl, ◌∙◌, ap, String, Bool, true, false, not, ◌&&◌, ◌||◌, ◌==◌, none,
  some, List, [], ◌∷◌, if◌then◌else◌, arith, Bool-cases, eq_iff, eq_refl,
}
use sentrazero.Base.Dict.{lookup, lookup-insert}
use sentrazero.Dispatcher.Pool.{Pool}
use sentrazero.Realtime.Offers.{RealtimeJobPayload, offered, well_formed, get_job_id}
use sentrazero.Realtime.Client.{
  PollingClient, PollAnswer, answered, World, fetch_new_jobs, request, take_jobs, offer, offer_all,
  first_time,
}

-- Is the id in `sentJobs`.
abbrev pub is_sent : PollingClient → String → Bool
is_sent c job_id = elim (lookup job_id c.sent_jobs) [ none ↦ false | some stored ↦ true ]

abbrev pub all_sent : PollingClient → List RealtimeJobPayload → Bool
all_sent c [] = true
all_sent c (j ∷ jobs) = (not (well_formed j) || is_sent c (get_job_id j)) && all_sent c jobs

sent-first_time :
    (w : World) (i : ℕ) (job_id other : String) (c : PollingClient)
    → c.has_redis ≡ false
    → is_sent (first_time w i job_id c).1 other ≡ (job_id == other || is_sent c other)
unfolding first_time
sent-first_time w i job_id other c h =
    ground (arith, lookup-insert job_id other (w.clock i) c.sent_jobs, eq_iff job_id other)

client-offer :
    (w : World) (i : ℕ) (j : RealtimeJobPayload) (c : PollingClient) (p : Pool)
    → (offer w i j (c, p)).0 ≡ (if well_formed j then (first_time w i (get_job_id j) c).1 else c)
unfolding offer
client-offer w i j c p = ground arith

redis-offer :
    (w : World) (i : ℕ) (j : RealtimeJobPayload) (c : PollingClient) (p : Pool)
    → c.has_redis ≡ false
    → (offer w i j (c, p)).0.has_redis ≡ false
unfolding offer first_time
redis-offer w i j c p h = ground (arith, h)

sent-offer :
    (w : World) (i : ℕ) (j : RealtimeJobPayload) (other : String) (c : PollingClient) (p : Pool)
    → c.has_redis ≡ false
    → is_sent (offer w i j (c, p)).0 other
      ≡ (well_formed j && get_job_id j == other || is_sent c other)
sent-offer w i j other c p h = rw (client-offer w i j c p) (elim (Bool-cases (well_formed j)) [
  | inl e ↦ rw e (sent-first_time w i (get_job_id j) other c h)
  | inr e ↦ rw e refl
])

sent-offer_all :
    (w : World) (i : ℕ) (jobs : List RealtimeJobPayload) (other : String) (c : PollingClient)
    (p : Pool)
    → c.has_redis ≡ false
    → is_sent c other ≡ true
    → is_sent (offer_all w i jobs (c, p)).0 other ≡ true
unfolding offer_all
sent-offer_all w i [] other c p h k = k
sent-offer_all w i (j ∷ jobs) other c p h k =
    sent-offer_all w (suc i) jobs other (offer w i j (c, p)).0 (offer w i j (c, p)).1
      (redis-offer w i j c p h) (ground (arith, sent-offer w i j other c p h, k))

offer_all-all_sent :
    (w : World) (i : ℕ) (jobs : List RealtimeJobPayload) (c : PollingClient) (p : Pool)
    → c.has_redis ≡ false
    → all_sent (offer_all w i jobs (c, p)).0 jobs ≡ true
unfolding offer_all
offer_all-all_sent w i [] c p h = refl
offer_all-all_sent w i (j ∷ jobs) c p h =
    let later =
      offer_all-all_sent w (suc i) jobs (offer w i j (c, p)).0 (offer w i j (c, p)).1
        (redis-offer w i j c p h) in
    let kept =
      sent-offer_all w (suc i) jobs (get_job_id j) (offer w i j (c, p)).0 (offer w i j (c, p)).1
        (redis-offer w i j c p h) in
    elim (Bool-cases (well_formed j)) [
      | inl e ↦
          let first = sent-offer w i j (get_job_id j) c p h in
          let here = first ∙ rw e (rw (eq_refl (get_job_id j)) refl) in rw (kept here) (rw e later)
      | inr e ↦ rw e later
    ]

offer_sent :
    (w : World) (i : ℕ) (j : RealtimeJobPayload) (c : PollingClient) (p : Pool)
    → c.has_redis ≡ false
    → (not (well_formed j) || is_sent c (get_job_id j)) ≡ true
    → offer w i j (c, p) ≡ (c, p)
unfolding offer first_time
offer_sent w i j c p h k = ground (arith, h, k)

offer_all_sent :
    (w : World) (i : ℕ) (jobs : List RealtimeJobPayload) (c : PollingClient) (p : Pool)
    → c.has_redis ≡ false
    → all_sent c jobs ≡ true
    → offer_all w i jobs (c, p) ≡ (c, p)
unfolding offer_all
offer_all_sent w i [] c p h k = refl
offer_all_sent w i (j ∷ jobs) c p h k =
    rw (offer_sent w i j c p h (ground (arith, k)))
      (offer_all_sent w (suc i) jobs c p h (ground (arith, k)))

redis-offer_all :
    (w : World) (i : ℕ) (jobs : List RealtimeJobPayload) (c : PollingClient) (p : Pool)
    → c.has_redis ≡ false
    → (offer_all w i jobs (c, p)).0.has_redis ≡ false
unfolding offer_all
redis-offer_all w i [] c p h = h
redis-offer_all w i (j ∷ jobs) c p h =
    redis-offer_all w (suc i) jobs (offer w i j (c, p)).0 (offer w i j (c, p)).1
      (redis-offer w i j c p h)

-- The pool after a poll with these jobs.
pool-fetch :
    (w : World) (claim : Bool) (jobs : List RealtimeJobPayload) (c : PollingClient) (p : Pool)
    → c.done ≡ false
    → (fetch_new_jobs w claim (answered true jobs) (c, p)).0.1
      ≡ (offer_all w 0 (offered true jobs) (request w claim c p, p)).1
unfolding fetch_new_jobs take_jobs
pool-fetch w claim jobs c p h = ground (arith, h)

-- What the poll remembers.
client-fetch :
    (w : World) (claim : Bool) (jobs : List RealtimeJobPayload) (c : PollingClient) (p : Pool)
    → c.done ≡ false
    → c.has_redis ≡ false
    → let d = (fetch_new_jobs w claim (answered true jobs) (c, p)).0.0 in
      (d.has_redis ≡ false) × (all_sent d (offered true jobs) ≡ true)
unfolding fetch_new_jobs take_jobs request
client-fetch w claim jobs c p e h =
    let asked = request w claim c p in
    ground (
      arith,
      e,
      redis-offer_all w 0 (offered true jobs) asked p h,
      offer_all-all_sent w 0 (offered true jobs) asked p h,
    )

skipped :
    (w : World) (claim : Bool) (jobs : List RealtimeJobPayload) (d : PollingClient) (q : Pool)
    → d.has_redis ≡ false
    → all_sent d (offered true jobs) ≡ true
    → (fetch_new_jobs w claim (answered true jobs) (d, q)).0.1 ≡ q
unfolding fetch_new_jobs take_jobs request
skipped w claim jobs d q h k =
    let asked = request w claim d q in
    let same = ap (λ s. s.1) (offer_all_sent w 0 (offered true jobs) asked q h k) in
    elim (Bool-cases d.done) [
      | inl e ↦ ground (arith, e)
      | inr e ↦ pool-fetch w claim jobs d q e ∙ same
    ]

stopped :
    (w : World) (claim : Bool) (answer : PollAnswer) (s : PollingClient × Pool)
    → s.0.done ≡ true
    → (fetch_new_jobs w claim answer s).0 ≡ s
unfolding fetch_new_jobs
stopped w claim answer (c, p) h = ground (arith, h)

-- Without Redis, a poll that brings the jobs of the poll before it again leaves the pool as it was,
-- also where the pool refused some of them the first time.
pub reoffered_jobs_skipped :
    (v w : World) (claim again : Bool) (jobs : List RealtimeJobPayload) (c : PollingClient)
    (p : Pool)
    → c.has_redis ≡ false
    → let first = (fetch_new_jobs v claim (answered true jobs) (c, p)).0 in
      (fetch_new_jobs w again (answered true jobs) first).0.1 ≡ first.1
reoffered_jobs_skipped v w claim again jobs c p h = elim (Bool-cases c.done) [
  | inl e ↦
      let first = stopped v claim (answered true jobs) (c, p) e in
      ap (λ s. s.1)
        (stopped w again (answered true jobs) (fetch_new_jobs v claim (answered true jobs) (c, p)).0
          (rw first e))
  | inr e ↦
      let first = (fetch_new_jobs v claim (answered true jobs) (c, p)).0 in
      let kept = client-fetch v claim jobs c p e h in
      skipped w again jobs first.0 first.1 kept.0 kept.1
]
