-- ===== src/Dispatcher/Dedup/Cleanup.antt =====
-- What `cleanup` keeps and how many jobs it leaves.
use sentrazero.Base.{
  ℕ, zero, suc, ◌+◌, ◌-◌, ◌≤◌, ◌≡◌, String, Bool, not, [], ◌∷◌, length, ltb, if◌then◌else◌, ◌==◌,
  eq_iff, arith, refl,
}
use sentrazero.Base.Dict.{
  Dict, occurs, delete, occurs-delete, occurs-retain-le, lookup-retain, length-delete,
}
use sentrazero.Dispatcher.Dedup.{
  Store, contains, unexpired, place, by_expiry, evict, enforce_max, cleanup, default_dedup_max_jobs,
  save,
}
use sentrazero.Dispatcher.Dedup.Window.{IsMap}

occurs-place :
    (j k : String) (e : ℕ) (m : Dict ℕ)
    → occurs j (place k e m) ≡ (if k == j then 1 else 0) + occurs j m
unfolding place occurs
occurs-place j k e [] = refl
occurs-place j k e ((i, d) ∷ m) = ground (arith, occurs-place j k e m)

length-place : (k : String) (e : ℕ) (m : Dict ℕ) → length (place k e m) ≡ suc (length m)
unfolding place
length-place k e [] = refl
length-place k e ((i, d) ∷ m) = ground (arith, length-place k e m)

occurs-by_expiry : (j : String) (m : Dict ℕ) → occurs j (by_expiry m) ≡ occurs j m
unfolding by_expiry occurs
occurs-by_expiry j [] = refl
occurs-by_expiry j ((k, e) ∷ m) =
    ground (arith, occurs-place j k e (by_expiry m), occurs-by_expiry j m)

length-by_expiry : (m : Dict ℕ) → length (by_expiry m) ≡ length m
unfolding by_expiry
length-by_expiry [] = refl
length-by_expiry ((k, e) ∷ m) = omega (arith, length-place k e (by_expiry m), length-by_expiry m)

-- Every entry to evict is in the map, once.
abbrev IsPresent : Dict ℕ → Dict ℕ → Type 0
IsPresent entries jobs = (k : String) → occurs k entries ≤ occurs k jobs

IsPresent-later :
    (k : String) (e : ℕ) (entries jobs : Dict ℕ)
    → IsMap jobs
    → IsPresent ((k, e) ∷ entries) jobs
    → IsPresent entries (delete k jobs)
unfolding occurs
IsPresent-later k e entries jobs m p j =
    ground (arith, p j, m j, occurs-delete k j jobs, eq_iff k j)

delete-IsMap : (k : String) (jobs : Dict ℕ) → IsMap jobs → IsMap (delete k jobs)
delete-IsMap k jobs m j = ground (arith, m j, occurs-delete k j jobs)

IsPresent-now :
    (k : String) (e : ℕ) (entries jobs : Dict ℕ)
    → IsMap jobs
    → IsPresent ((k, e) ∷ entries) jobs
    → occurs k jobs ≡ 1
unfolding occurs
IsPresent-now k e entries jobs m p = ground (arith, p k, m k, eq_iff k k)

length-evict :
    (n : ℕ) (entries jobs : Dict ℕ)
    → IsMap jobs
    → IsPresent entries jobs
    → n ≤ length entries
    → length (evict n entries jobs) + n ≡ length jobs
unfolding evict
length-evict zero entries jobs m p h = omega arith
length-evict (suc n) [] jobs m p h = ground (arith, h)
length-evict (suc n) ((k, e) ∷ entries) jobs m p h = omega (
  arith,
  length-evict n entries (delete k jobs) (delete-IsMap k jobs m)
      (IsPresent-later k e entries jobs m p) (omega arith),
  length-delete k jobs,
  IsPresent-now k e entries jobs m p,
)

enforce_max-le : (jobs : Dict ℕ) → IsMap jobs → length (enforce_max jobs) ≤ default_dedup_max_jobs
unfolding enforce_max
enforce_max-le jobs m =
    let sorted : IsPresent (by_expiry jobs) jobs = λ k. omega (arith, occurs-by_expiry k jobs) in
    let shorter =
      length-evict (length jobs - default_dedup_max_jobs) (by_expiry jobs) jobs m sorted in
    ground (arith, shorter, length-by_expiry jobs)

jobs-cleanup :
    (written : Bool) (now : ℕ) (s : Store)
    → (cleanup written now s).jobs ≡ enforce_max (unexpired now s.jobs)
unfolding cleanup save
jobs-cleanup written now s = ground arith

-- A cleanup of a store in which no id stands twice leaves at most 1000 jobs, whatever maximum was
-- configured.
pub length-cleanup :
    (written : Bool) (now : ℕ) (s : Store)
    → IsMap s.jobs
    → length (cleanup written now s).jobs ≤ default_dedup_max_jobs
unfolding unexpired
length-cleanup written now s m = rw (jobs-cleanup written now s) (
    enforce_max-le (unexpired now s.jobs)
      (λ k. omega (arith, m k, occurs-retain-le (λ expiry. not (ltb expiry now)) k s.jobs)))

unforced : (jobs : Dict ℕ) → length jobs ≤ default_dedup_max_jobs → enforce_max jobs ≡ jobs
unfolding enforce_max
unforced jobs h = ground arith

-- In a store in which no id stands twice, and at most 1000 jobs have not expired, a cleanup
-- changes no answer from its instant on.
pub contains-cleanup :
    (written : Bool) (now later : ℕ) (s : Store) (j : String)
    → IsMap s.jobs
    → length (unexpired now s.jobs) ≤ default_dedup_max_jobs
    → now ≤ later
    → contains (cleanup written now s) j later ≡ contains s j later
unfolding contains unexpired
contains-cleanup written now later s j m h k =
    rw (jobs-cleanup written now s, unforced (unexpired now s.jobs) h)
      (ground (arith, lookup-retain (λ expiry. not (ltb expiry now)) j s.jobs (m j)))
