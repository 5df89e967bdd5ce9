-- ===== src/Dispatcher/Pool/Workforce.antt =====
-- What receiving a job, finishing it and changing the number of workers do to the claims.
use sentrazero.Base.{
  ℕ, ◌+◌, ◌<◌, ◌≡◌, String, List, [], ◌∷◌, ◌++◌, ◌==◌, if◌then◌else◌, remove, count, length, arith,
  eq_iff, count-remove, Bool-cases, inl, inr, ltb, nat_eq, zero, suc, ◌-◌, ap, ◌⊎◌,
}
use sentrazero.Dispatcher.Pool.{Pool, JobRequest, release_claims}
use sentrazero.Dispatcher.Pool.Execute.{Answers, execute_job_safe}
use sentrazero.Dispatcher.Pool.Workers.{
  receive, work, resize_to, start_workers, signal_resize, signal_resizes,
}
use sentrazero.Dispatcher.Pool.Claims.{IsExclusive, job_ids, step_ids}
use sentrazero.Dispatcher.Pool.Outcomes.{check-SameClaims}

-- A change of the workers that keeps their count right.
restaff :
    (p : Pool) (i w : ℕ)
    → w ≡ i + length p.in_flight
    → IsExclusive p
    → IsExclusive (record p { idle = i; active_workers = w })
restaff p i w e v = record {
  unnamed = v.unnamed;
  once = v.once;
  held = v.held;
  step_once = v.step_once;
  step_held = v.step_held;
  room = v.room;
  staffed = e;
}

pub signal_resize-IsExclusive : (p : Pool) → IsExclusive p → IsExclusive (signal_resize p)
unfolding signal_resize
signal_resize-IsExclusive p v = elim (Bool-cases (ltb 0 p.idle)) [
  | inl e ↦ rw e (restaff p (p.idle - 1) (p.active_workers - 1) (ground (arith, v.staffed)) v)
  | inr e ↦ rw e v
]

signal_resizes-IsExclusive : (k : ℕ) (p : Pool) → IsExclusive p → IsExclusive (signal_resizes k p)
unfolding signal_resizes
signal_resizes-IsExclusive zero p v = v
signal_resizes-IsExclusive (suc k) p v =
    signal_resizes-IsExclusive k (signal_resize p) (signal_resize-IsExclusive p v)

-- The recorded maximum is no part of the invariant.
remax : (p : Pool) (n : ℕ) → IsExclusive p → IsExclusive (record p { max_workers = n })
remax p n v = record {
  unnamed = v.unnamed;
  once = v.once;
  held = v.held;
  step_once = v.step_once;
  step_held = v.step_held;
  room = v.room;
  staffed = v.staffed;
}

pub resize_to-IsExclusive : (n : ℕ) (p : Pool) → IsExclusive p → IsExclusive (resize_to n p)
unfolding resize_to start_workers
resize_to-IsExclusive n p v = elim (Bool-cases (nat_eq n p.max_workers)) [
  | inl e ↦ rw e v
  | inr e ↦ elim (Bool-cases (ltb p.max_workers n)) [
    | inl more ↦
        rw (e, more)
          (remax _ n (
            restaff p (p.idle + (n - p.max_workers)) (p.active_workers + (n - p.max_workers))
              (ground (arith, v.staffed)) v))
    | inr fewer ↦ rw (e, fewer) (remax _ n (signal_resizes-IsExclusive (p.max_workers - n) p v))
  ]
]

pub receive-IsExclusive :
    (req : JobRequest) (rest : List JobRequest) (p : Pool)
    → p.queue ≡ req ∷ rest
    → 0 < p.idle
    → IsExclusive p
    → IsExclusive (receive req rest p)
unfolding receive count
receive-IsExclusive req rest p e h v = record {
  unnamed = v.unnamed;
  once = v.once;
  held = λ j. ground (arith, v.held j);
  step_once = v.step_once;
  step_held = λ s n. ground (arith, v.step_held s n);
  room = ground (arith, v.room);
  staffed = ground (arith, v.staffed);
}

-- What stands in a list with one element taken out of the middle.
count_out :
    (req : JobRequest) (before after : List JobRequest) (j : String)
    → (count j (job_ids (before ++ req ∷ after))
        ≡ count j (job_ids (before ++ after)) + (if req.job_id == j then 1 else 0))
      × (count j (step_ids (before ++ req ∷ after))
          ≡ count j (step_ids (before ++ after)) + (if req.execution_step_id == j then 1 else 0))
      × (length (before ++ req ∷ after) ≡ length (before ++ after) + 1)
unfolding count
count_out req [] after j = (omega arith, omega arith, omega arith)
count_out req (x ∷ before) after j =
    let h = count_out req before after j in
    (omega (arith, h.0), omega (arith, h.1), omega (arith, h.2))

-- The state that a finished job leaves, before the worker's own count.
pub record Finished (req : JobRequest) (others : List JobRequest) (p q : Pool) : Type 0 where
  queue : q.queue ≡ p.queue
  queue_cap : q.queue_cap ≡ p.queue_cap
  in_flight : q.in_flight ≡ others
  running : q.running ≡ (if req.job_id == "" then p.running else remove req.job_id p.running)
  active :
      q.active
      ≡ (if req.execution_step_id == "" then p.active else remove req.execution_step_id p.active)
  workers :
      ((q.active_workers ≡ p.active_workers) × (q.idle ≡ p.idle + 1))
      ⊎ ((q.active_workers ≡ p.active_workers - 1) × (q.idle ≡ p.idle))

pub work-Finished :
    (a : Answers) (req : JobRequest) (others : List JobRequest) (p : Pool)
    → Finished req others p (work a req others p)
unfolding work execute_job_safe release_claims
work-Finished a req others p = ground (arith, check-SameClaims a req p)

pub Finished-IsExclusive :
    (req : JobRequest) (before after : List JobRequest) (p q : Pool)
    → p.in_flight ≡ before ++ req ∷ after
    → Finished req (before ++ after) p q
    → IsExclusive p
    → IsExclusive q
Finished-IsExclusive req before after p q e f v = record {
  unnamed = ground (arith, v.unnamed, f.running, count-remove req.job_id "" p.running);
  once = λ j. ground (arith, v.once j, f.running, count-remove req.job_id j p.running);
  held = λ j. ground (
    arith,
    v.held j,
    v.once j,
    v.unnamed,
    f.running,
    f.queue,
    f.in_flight,
    count-remove req.job_id j p.running,
    eq_iff req.job_id j,
    eq_iff req.job_id "",
    (count_out req before after j).0,
    ap (λ (l : List JobRequest). count j (job_ids l)) e,
  );
  step_once = λ s h.
      ground (arith, v.step_once s h, f.active, count-remove req.execution_step_id s p.active);
  step_held = λ s h. ground (
    arith,
    v.step_held s h,
    v.step_once s h,
    f.active,
    f.queue,
    f.in_flight,
    count-remove req.execution_step_id s p.active,
    eq_iff req.execution_step_id s,
    eq_iff req.execution_step_id "",
    eq_iff s "",
    (count_out req before after s).1,
    ap (λ (l : List JobRequest). count s (step_ids l)) e,
  );
  room = ground (arith, v.room, f.queue, f.queue_cap);
  staffed = ground (
    arith,
    v.staffed,
    f.workers,
    f.in_flight,
    (count_out req before after "").2,
    ap (λ (l : List JobRequest). length l) e,
  );
}
