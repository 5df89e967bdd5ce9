-- ===== src/Environments/Histories.antt =====
-- The environment pool over every sequence of its operations.
use sentrazero.Base.{ℕ, Bool, arith}
use sentrazero.Environments.{EnvironmentPool, FileSystem}
use sentrazero.Environments.Keys.{Request}
use sentrazero.Environments.Eviction.{run_eviction, run_goroutines}
use sentrazero.Environments.Pool.{
  Setting, WaitEnd, became_ready, timed_out, context_done, acquire_environment, resume,
  release_environment, invalidate_environment, drop_id, shutdown,
}
use sentrazero.Environments.Capacity.{
  Fits, acquire-Fits, create_new-Fits, goroutines-Fits, invalidate-Fits,
}

-- What happens to a pool, in any order. An acquisition is one step; the source gives up the pool's
-- mutex around the eviction for the disk's sake, and what others do meanwhile is no step here.
pub data Step (p : EnvironmentPool) : EnvironmentPool → Type 0 where
  acquires : (w : Setting) (r : Request) → Step p (acquire_environment w r p).0
  resumes : (e : WaitEnd) (w : Setting) (r : Request) → Step p (resume e w r p).0
  releases :
      (w : Setting) (keep_warm : Bool) (at : ℕ) → Step p (release_environment w keep_warm at p)
  invalidates : (at : ℕ) → Step p (invalidate_environment at p)
  evicts : (disk : FileSystem) (now : ℕ) → Step p (run_eviction disk now p)
  cleans : (k : ℕ) → Step p (run_goroutines k p)
  ends : Step p (shutdown p)

pub data Reach (p : EnvironmentPool) : EnvironmentPool → Type 0 where
  here : Reach p p
  next : {q r : EnvironmentPool} → Reach p q → Step q r → Reach p r

Step-Fits : {n : ℕ} {p q : EnvironmentPool} → Step p q → Fits n n p → Fits n n q
unfolding resume release_environment invalidate_environment drop_id run_eviction shutdown
Step-Fits {p = p} (acquires w r) v = acquire-Fits w r p v
Step-Fits {p = p} (resumes became_ready w r) v = acquire-Fits w r p v
Step-Fits {p = p} (resumes timed_out w r) v = create_new-Fits w r p v
Step-Fits {p = p} (resumes context_done w r) v = v
Step-Fits {p = p} (releases w keep_warm at) v = record {
  maximum = ground (arith, v.maximum);
  bound = ground (arith, v.bound);
}
Step-Fits {p = p} (invalidates at) v = invalidate-Fits at p v
Step-Fits {p = p} (evicts disk now) v = record { maximum = v.maximum; bound = v.bound }
Step-Fits {p = p} (cleans k) v = goroutines-Fits k p v
Step-Fits {p = p} ends v = record { maximum = v.maximum; bound = omega arith }

-- In every history of a pool that starts with no more environments than its maximum, in which no other
-- step comes between an acquisition's look at the pool and its new entry, the pool never has more:
-- whatever acquisitions, releases, invalidations and evictions come, and however late their goroutines
-- run.
pub Reach-Fits : (n : ℕ) (p q : EnvironmentPool) → Reach p q → Fits n n p → Fits n n q
Reach-Fits n p q here v = v
Reach-Fits n p q (next {q = r} h s) v = Step-Fits s (Reach-Fits n p r h v)
