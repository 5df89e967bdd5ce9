-- ===== src/Executor/Jobs/Records.antt =====
-- What the executor knows of its jobs.
use sentrazero.Base.{
  ℕ, suc, ◌≤◌, ◌<◌, ◌≡◌, ◌≢◌, Option-cases, ◌⊎◌, inl, inr, refl, String, true, false, none, some,
  [], ◌∷◌, length, if◌then◌else◌, ◌==◌, arith, eq_iff, eq_refl,
}
use sentrazero.Base.Dict.{
  Dict, lookup, insert, occurs, lookup-insert, lookup-delete, occurs-insert, occurs-delete,
  length-insert, length-delete,
}
use sentrazero.Executor.{Job, Result, Runtime}
use sentrazero.Executor.Jobs.{
  ExecutionState, oldest, evict_completed, begin_job, conclude_job, max_completed, execute_job,
  run_plugin_job, stamped, refusal, get_job_status,
}

-- The recorded results are a map without the empty id, of 1000 entries at most.
pub record IsBounded (s : ExecutionState) : Type 0 where
  pub once : (j : String) → occurs j s.completed_jobs ≤ 1
  pub named : occurs "" s.completed_jobs ≡ 0
  pub room : length s.completed_jobs ≤ max_completed

oldest-occurs :
    (key : String) (duration : ℕ) (m : Dict Result)
    → (oldest key duration m ≡ key) ⊎ (0 < occurs (oldest key duration m) m)
unfolding oldest occurs
oldest-occurs key duration [] = inl refl
oldest-occurs key duration ((k, r) ∷ m) = ground (
  arith,
  oldest-occurs k r.duration_ms m,
  oldest-occurs key duration m,
  eq_iff k (oldest k r.duration_ms m),
)

oldest-named :
    (key : String) (duration : ℕ) (m : Dict Result)
    → (key == "") ≡ false
    → occurs "" m ≡ 0
    → (oldest key duration m == "") ≡ false
unfolding oldest occurs
oldest-named key duration [] n h = n
oldest-named key duration ((k, r) ∷ m) n h =
    ground (arith, oldest-named k r.duration_ms m, oldest-named key duration m, n, h)

-- Where no id is empty, a map with an entry has one to evict.
oldest-first : (m : Dict Result) → occurs "" m ≡ 0 → 0 < length m → (oldest "" 0 m == "") ≡ false
unfolding oldest occurs
oldest-first [] h l = ground (arith, l)
oldest-first ((k, r) ∷ m) h l = ground (arith, oldest-named k r.duration_ms m, h)

room-evict :
    (m : Dict Result)
    → occurs "" m ≡ 0
    → length m ≤ max_completed
    → suc (length (evict_completed m)) ≤ max_completed
unfolding evict_completed
room-evict m h l = ground (
  arith,
  oldest-first m h,
  oldest-occurs "" 0 m,
  eq_iff (oldest "" 0 m) "",
  length-delete (oldest "" 0 m) m,
  l,
)

occurs-evict : (j : String) (m : Dict Result) → occurs j (evict_completed m) ≤ occurs j m
unfolding evict_completed
occurs-evict j m = ground (arith, occurs-delete (oldest "" 0 m) j m)

conclude-IsBounded :
    (job : Job) (r : Result) (s : ExecutionState)
    → (job.id == "") ≡ false
    → IsBounded s
    → IsBounded (conclude_job job r s)
unfolding conclude_job
conclude-IsBounded job r s h v =
    let m = evict_completed s.completed_jobs in
    let none_or_one : (j : String) → occurs j m ≤ 1 =
      λ j. omega (arith, occurs-evict j s.completed_jobs, v.once j) in
    let inserted : (j : String)
        → occurs j (insert job.id r m) ≡ (if job.id == j then 1 else occurs j m) =
      λ j.
        occurs-insert job.id j r m (ground (arith, none_or_one j))
          (ground (arith, none_or_one job.id)) in
    record {
      once = λ j. ground (arith, inserted j, none_or_one j);
      named = ground (arith, inserted "", occurs-evict "" s.completed_jobs, v.named, h);
      room = ground (arith, length-insert job.id r m, room-evict s.completed_jobs v.named v.room);
    }

refused_job :
    (w : Runtime) (generated : String) (duration : ℕ) (job : Job) (s : ExecutionState) (r : Result)
    → refusal job ≡ some r
    → execute_job w generated duration job s ≡ (s, (r, true))
unfolding execute_job
refused_job w generated duration job s r h = rw (h, execute_job) refl

accepted_job :
    (w : Runtime) (generated : String) (duration : ℕ) (job : Job) (s : ExecutionState)
    → refusal job ≡ none
    → execute_job w generated duration job s ≡ (
      conclude_job job
          (stamped job generated duration (run_plugin_job w job).result)
          (begin_job job s),
      (stamped job generated duration (run_plugin_job w job).result, (run_plugin_job w job).failed),
    )
unfolding execute_job
accepted_job w generated duration job s h = rw (h, execute_job) refl

begin-IsBounded : (job : Job) (s : ExecutionState) → IsBounded s → IsBounded (begin_job job s)
unfolding begin_job
begin-IsBounded job s v = record { once = v.once; named = v.named; room = v.room }

-- Every job with an id keeps the record of the results bounded: at most 1000 of them, one for each
-- id.
pub execute_job-IsBounded :
    (w : Runtime) (generated : String) (duration : ℕ) (job : Job) (s : ExecutionState)
    → (job.id == "") ≡ false
    → IsBounded s
    → IsBounded (execute_job w generated duration job s).0
execute_job-IsBounded w generated duration job s h v = elim (Option-cases (refusal job)) [
  | inl e ↦ rw (accepted_job w generated duration job s e) (
      conclude-IsBounded job (stamped job generated duration (run_plugin_job w job).result)
        (begin_job job s) h (begin-IsBounded job s v))
  | inr (r, e) ↦ rw (refused_job w generated duration job s r e) v
]

status-begin :
    (job : Job) (s : ExecutionState) → get_job_status job.id (begin_job job s) ≡ (true, none)
unfolding get_job_status begin_job
status-begin job s = ground (arith, lookup-insert job.id job.id job s.running_jobs, eq_refl job.id)

status-conclude :
    (job : Job) (r : Result) (s : ExecutionState)
    → get_job_status job.id (conclude_job job r s) ≡ (false, some r)
unfolding get_job_status conclude_job
status-conclude job r s = ground (
  arith,
  lookup-delete job.id job.id s.running_jobs,
  lookup-insert job.id job.id r (evict_completed s.completed_jobs),
  eq_refl job.id,
)

-- A refused job leaves the record as it was, and the caller gets an error. Any other is running until it
-- is done, and from then on its status is the result that its caller got.
pub execute_job_lem :
    (w : Runtime) (generated : String) (duration : ℕ) (job : Job) (s : ExecutionState)
    → let done = execute_job w generated duration job s in
      ((refusal job ≢ none) × (done.0 ≡ s) × (done.1.1 ≡ true))
      ⊎ ((refusal job ≡ none)
          × (get_job_status job.id (begin_job job s) ≡ (true, none))
          × (get_job_status job.id done.0 ≡ (false, some done.1.0)))
execute_job_lem w generated duration job s = elim (Option-cases (refusal job)) [
  | inl e ↦
      let same = accepted_job w generated duration job s e in
      let r = stamped job generated duration (run_plugin_job w job).result in
      inr (e, status-begin job s, rw same (status-conclude job r (begin_job job s)))
  | inr (r, e) ↦
      let same = refused_job w generated duration job s r e in
      inl ((λ f. ground (arith, e, f)), rw same refl, rw same refl)
]

lookup-evict :
    (other : String) (m : Dict Result)
    → (lookup other (evict_completed m) ≡ lookup other m)
      ⊎ (lookup other (evict_completed m) ≡ none)
unfolding evict_completed
lookup-evict other m = ground (arith, lookup-delete (oldest "" 0 m) other m)

status-other :
    (job : Job) (r : Result) (s : ExecutionState) (other : String)
    → (job.id == other) ≡ false
    → (get_job_status other (conclude_job job r (begin_job job s)) ≡ get_job_status other s)
      ⊎ (get_job_status other (conclude_job job r (begin_job job s)) ≡ (false, none))
unfolding get_job_status conclude_job begin_job
status-other job r s other h = ground (
  arith,
  lookup-delete job.id other (insert job.id job s.running_jobs),
  lookup-insert job.id other job s.running_jobs,
  lookup-insert job.id other r (evict_completed s.completed_jobs),
  lookup-evict other s.completed_jobs,
  h,
)

-- A job changes the status of another only by evicting its result.
pub other_statuses :
    (w : Runtime) (generated : String) (duration : ℕ) (job : Job) (s : ExecutionState)
    (other : String)
    → (job.id == other) ≡ false
    → (get_job_status other (execute_job w generated duration job s).0 ≡ get_job_status other s)
      ⊎ (get_job_status other (execute_job w generated duration job s).0 ≡ (false, none))
other_statuses w generated duration job s other h = elim (Option-cases (refusal job)) [
  | inl e ↦
      let r = stamped job generated duration (run_plugin_job w job).result in
      rw (accepted_job w generated duration job s e) (status-other job r s other h)
  | inr (r, e) ↦ inl (rw (refused_job w generated duration job s r e) refl)
]
