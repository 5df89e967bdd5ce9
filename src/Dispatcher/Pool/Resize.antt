-- ===== src/Dispatcher/Pool/Resize.antt =====
-- How many workers a resize leaves (`SetMaxWorkers`, `InitWorkerPool`).
use sentrazero.Base.{
  ℕ, zero, suc, ◌+◌, ◌-◌, ◌*◌, ◌≤◌, ◌<◌, ◌≡◌, refl, arith, ltb, if◌then◌else◌, inl, inr, false, ◌⊎◌,
}
use sentrazero.Base.Int.{ℤ, is_positive, pos_part, pos, negsuc}
use sentrazero.Dispatcher.Pool.{Pool}
use sentrazero.Dispatcher.Pool.Workers.{
  set_max_workers, at_least_one, resize_to, start_workers, signal_resize, signal_resizes,
  worker_count, max_allowed,
}

-- `k` signals stop as many workers as wait, `k` at most.
signal_resizes_lem :
    (k : ℕ) (p : Pool)
    → p.idle ≤ p.active_workers
    → ((signal_resizes k p).idle ≡ p.idle - k)
      × ((signal_resizes k p).active_workers + p.idle ≡ p.active_workers + (p.idle - k))
unfolding signal_resizes signal_resize
signal_resizes_lem zero p h = (omega arith, omega arith)
signal_resizes_lem (suc k) p h = ground (arith, signal_resizes_lem k (signal_resize p))

resize_to_workers :
    (count : ℕ) (p : Pool)
    → p.active_workers ≡ p.max_workers
    → p.idle ≤ p.active_workers
    → (resize_to count p).active_workers
      ≡ (if ltb count (p.active_workers - p.idle) then p.active_workers - p.idle else count)
unfolding resize_to start_workers
resize_to_workers count p e h = ground (arith, signal_resizes_lem (p.max_workers - count) p h)

-- From a pool whose live workers match its maximum, a resize leaves the requested number of workers,
-- or the busy ones where they are more: a busy worker misses the signal and is never stopped later.
-- The recorded maximum is the requested number all the same, 1 at least.
pub set_max_workers_lem :
    (n : ℤ) (p : Pool)
    → p.active_workers ≡ p.max_workers
    → p.idle ≤ p.active_workers
    → ((set_max_workers n p).max_workers ≡ at_least_one n)
      × ((set_max_workers n p).active_workers ≡ (
          if ltb (at_least_one n) (p.active_workers - p.idle)
          then p.active_workers - p.idle
          else at_least_one n))
unfolding set_max_workers
set_max_workers_lem n p e h =
    (unfold resize_to in ground arith, resize_to_workers (at_least_one n) p e h)

-- The pool starts with at least one worker and at most two for each processor, one worker at least
-- being allowed; a positive count within twice the processors is taken as it is.
pub worker_count_bounds :
    (n : ℤ) (num_cpu : ℕ)
    → (1 ≤ worker_count n num_cpu)
      × (worker_count n num_cpu ≤ max_allowed num_cpu)
      × ((worker_count n num_cpu ≡ pos_part n)
          ⊎ ((is_positive n ≡ false) ⊎ (2 * num_cpu < pos_part n)))
unfolding worker_count
worker_count_bounds (pos zero) num_cpu = (ground arith, ground arith, inr (inl refl))
worker_count_bounds (pos (suc n)) num_cpu = (ground arith, ground arith, ground arith)
worker_count_bounds (negsuc n) num_cpu = (ground arith, ground arith, inr (inl refl))
