-- ===== src/Dispatcher/Pool/Rejection.antt =====
-- A refused submission leaves no trace in the claims of `SubmitJobWithMeta`.
use sentrazero.Base.{
  ℕ, ◌≡◌, refl, String, false, some, ◌==◌, ltb, if◌then◌else◌, has, put, count, has-eq-false,
  length, arith, eq_iff, count-remove, count-put, Bool-cases, inl, inr,
}
use sentrazero.Dispatcher.Pool.{Pool, JobRequest, release_claims}
use sentrazero.Dispatcher.Pool.Submit.{
  SubmitError, signal_pause, drop_job, enqueue, claim_step, claim_job, submit_job_with_meta,
}

-- What a refused submission must leave as it was.
pub record Untouched (p q : Pool) : Type 0 where
  pub queue : q.queue ≡ p.queue
  pub in_flight : q.in_flight ≡ p.in_flight
  pub dedup : q.dedup ≡ p.dedup
  pub running : (j : String) → count j q.running ≡ count j p.running
  pub active : (j : String) → count j q.active ≡ count j p.active

Untouched-refl : (p : Pool) → Untouched p p
Untouched-refl p = record {
  queue = refl;
  in_flight = refl;
  dedup = refl;
  running = λ j. refl;
  active = λ j. refl;
}

claimed : JobRequest → Pool → Pool
claimed req p = record p { running = put req.job_id p.running }

-- The two claims of a job, made and given back.
record Claims (req : JobRequest) (p q : Pool) : Type 0 where
  queue : q.queue ≡ p.queue
  in_flight : q.in_flight ≡ p.in_flight
  dedup : q.dedup ≡ p.dedup
  running : q.running ≡ put req.job_id p.running
  active :
      q.active
      ≡ (if req.execution_step_id == "" then p.active else put req.execution_step_id p.active)

record Fresh (req : JobRequest) (p : Pool) : Type 0 where
  named : (req.job_id == "") ≡ false
  idle : has req.job_id p.running ≡ false
  free : (req.execution_step_id == "") ≡ false → has req.execution_step_id p.active ≡ false

release-Claims :
    (req : JobRequest) (p q : Pool)
    → Fresh req p
    → Claims req p q
    → Untouched p (release_claims req q)
unfolding release_claims
release-Claims req p q f c = record {
  queue = c.queue;
  in_flight = c.in_flight;
  dedup = c.dedup;
  running = λ j. ground (
    arith,
    f.named,
    f.idle,
    c.running,
    eq_iff req.job_id j,
    count-remove req.job_id j q.running,
    count-put req.job_id j p.running,
    has-eq-false req.job_id p.running,
  );
  active = λ j. ground (
    arith,
    f.free,
    c.active,
    eq_iff req.execution_step_id j,
    count-remove req.execution_step_id j q.active,
    count-put req.execution_step_id j p.active,
    has-eq-false req.execution_step_id p.active,
  );
}

drop-Untouched :
    (req : JobRequest) (p q : Pool) → Fresh req p → Claims req p q → Untouched p (drop_job req q)
unfolding drop_job
drop-Untouched req p q f c =
    let u = release-Claims req p q f c in
    record {
      queue = ground (arith, u.queue);
      in_flight = ground (arith, u.in_flight);
      dedup = ground (arith, u.dedup);
      running = λ j. ground (arith, u.running j);
      active = λ j. ground (arith, u.active j);
    }

enqueue-Untouched :
    (now : ℕ) (req : JobRequest) (p q : Pool) (e : SubmitError)
    → Fresh req p
    → Claims req p q
    → (enqueue now req q).1 ≡ some e
    → Untouched p (enqueue now req q).0
unfolding enqueue signal_pause
enqueue-Untouched now req p q e f c h =
    elim (Bool-cases (ltb (length (signal_pause q).queue) (signal_pause q).queue_cap)) [
      | inl roomy ↦ ground arith
      | inr full ↦ rw full (drop-Untouched req p (signal_pause q) f (ground arith))
    ]

claim_step-Untouched :
    (now : ℕ) (req : JobRequest) (p : Pool) (e : SubmitError)
    → (req.job_id == "") ≡ false
    → has req.job_id p.running ≡ false
    → (claim_step now req (claimed req p)).1 ≡ some e
    → Untouched p (claim_step now req (claimed req p)).0
unfolding claim_step claimed
claim_step-Untouched now req p e named idle h = elim (Bool-cases (req.execution_step_id == "")) [
  | inl none_given ↦ rw none_given (
      enqueue-Untouched now req p (claimed req p) e
        (record { named = named; idle = idle; free = λ h'. cc }) (ground arith)
        (rw none_given at h))
  | inr given ↦ elim (Bool-cases (has req.execution_step_id p.active)) [
    | inl taken ↦
        rw (given, taken)
          (record {
            queue = refl;
            in_flight = refl;
            dedup = refl;
            running = λ j. ground (
              arith,
              eq_iff req.job_id j,
              count-remove req.job_id j (put req.job_id p.running),
              count-put req.job_id j p.running,
              has-eq-false req.job_id p.running,
              has-eq-false req.job_id p.running,
            );
            active = λ j. refl;
          })
    | inr free ↦
        rw (given, free)
          (enqueue-Untouched now req p
            (record p {
              running = put req.job_id p.running;
              active = put req.execution_step_id p.active;
            })
            e (record { named = named; idle = idle; free = λ _. free }) (ground arith)
            (ground arith))
  ]
]

-- A refused submission leaves the queue, the jobs in flight, the store of seen jobs and every
-- claim of a job id or an execution step as they were, also where it had already made claims.
pub rejected-Untouched :
    (now : ℕ) (req : JobRequest) (p : Pool) (e : SubmitError)
    → (submit_job_with_meta now req p).1 ≡ some e
    → Untouched p (submit_job_with_meta now req p).0
unfolding submit_job_with_meta claim_job claimed
rejected-Untouched now req p e h =
    ground (arith, Untouched-refl p, claim_step-Untouched now req p e)
