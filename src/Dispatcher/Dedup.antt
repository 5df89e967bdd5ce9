-- ===== src/Dispatcher/Dedup.antt =====
-- internal/dispatcher/job_dedup.go: the persistent deduplication of job ids.
-- A time is a number of nanoseconds, and each call that reads the clock takes the reading.
pub mod Window
pub mod Cleanup
use sentrazero.Base.{
  ℕ, ◌+◌, ◌-◌, ◌*◌, ◌%◌, ◌||◌, String, Bool, true, false, not, Option, none, some, List, [], ◌∷◌,
  length, ltb, leb, nat_eq, if◌then◌else◌, zero, suc,
}
use sentrazero.Base.Int.{ℤ, pos, negsuc, is_positive, pos_part}
use sentrazero.Base.Dict.{Dict, lookup, insert, delete, retain}

-- What stands on disk under `filePath`.
pub data StoreFile : Type 0 where
  missing unreadable corrupt : StoreFile
  saved : Dict ℕ → StoreFile

-- `pending` is the one slot of `snapshotCh`; `timer` says that the cleanup timer is set.
pub record Store : Type 0 where
  pub ttl : ℕ
  pub max_jobs : ℕ
  pub jobs : Dict ℕ
  pub pending : Option (Dict ℕ)
  pub timer : Bool
  pub file : StoreFile

abbrev pub minute : ℕ
minute = 60_000_000_000

abbrev pub default_dedup_ttl : ℕ
default_dedup_ttl = 60 * minute

abbrev pub default_dedup_max_jobs : ℕ
default_dedup_max_jobs = 1000

-- The entries that a load keeps: `expiry.After(now)`.
unfoldable pub live : ℕ → Dict ℕ → Dict ℕ
unfolding retain
live now = retain (λ expiry. ltb now expiry)

-- A file that is not there, cannot be read or does not parse leaves the store empty.
unfoldable pub load : ℕ → Store → Store
unfolding live
load now s = elim s.file [
  | missing ↦ s
  | unreadable ↦ s
  | corrupt ↦ s
  | saved jobs ↦ record s { jobs = live now jobs }
]

-- `parsed` is what `Sscanf` reads from SENTRA_DEDUP_MAX_JOBS, 0 where it is unset or no number.
unfoldable pub configured_max : ℤ → ℕ
configured_max parsed =
    if is_positive parsed
    then if ltb default_dedup_max_jobs (pos_part parsed)
      then pos_part parsed
      else default_dedup_max_jobs
    else default_dedup_max_jobs

unfoldable pub new_job_deduplication_store : ℤ → ℤ → StoreFile → ℕ → Store
unfolding load configured_max
new_job_deduplication_store ttl parsed file now = load now (record {
  ttl = if is_positive ttl then pos_part ttl else default_dedup_ttl;
  max_jobs = configured_max parsed;
  jobs = [];
  pending = none;
  timer = true;
  file = file;
})

-- The write and the rename may fail, which leaves the file as it was.
unfoldable pub save : Bool → Store → Store
save written s = if written then record s { file = saved s.jobs } else s

unfoldable pub contains : Store → String → ℕ → Bool
contains s job_id now = elim (lookup job_id s.jobs) [
  | none ↦ false
  | some expiry ↦ not (ltb expiry now)
]

-- Every tenth size sends a copy to the snapshot worker, unless one is waiting.
unfoldable pub add : String → ℕ → Store → Store
add job_id now s =
    let jobs = insert job_id (now + s.ttl) s.jobs in
    record s {
      jobs = jobs;
      pending =
          if nat_eq (length jobs % 10) 0
          then elim s.pending [ none ↦ some jobs | some waiting ↦ some waiting ]
          else s.pending;
    }

-- One round of `snapshotWorker`, with `saveSnapshot`.
unfoldable pub snapshot_worker : Bool → Store → Store
snapshot_worker written s = elim s.pending [
  | none ↦ s
  | some snapshot ↦
      if written
      then record s { pending = none; file = saved snapshot }
      else record s { pending = none }
]

unfoldable pub remove : String → Store → Store
remove job_id s = record s { jobs = delete job_id s.jobs }

unfoldable pub count : Store → ℕ → ℕ
unfolding live
count s now = length (live now s.jobs)

-- The entries that a cleanup keeps: not `now.After(expiry)`.
unfoldable pub unexpired : ℕ → Dict ℕ → Dict ℕ
unfolding retain
unexpired now = retain (λ expiry. not (ltb expiry now))

-- `sort.Slice` by expiry, oldest first. The order of equal expiries is the list's.
unfoldable pub place : String → ℕ → Dict ℕ → Dict ℕ
place k e [] = (k, e) ∷ []
place k e ((j, d) ∷ m) =
    let rest = place k e m in if ltb d e then (j, d) ∷ rest else (k, e) ∷ (j, d) ∷ m

unfoldable pub by_expiry : Dict ℕ → Dict ℕ
unfolding place
by_expiry [] = []
by_expiry ((k, e) ∷ m) = place k e (by_expiry m)

-- `for i := 0; i < evictCount && i < len(entries); i++ { delete(s.jobs, entries[i].jobID) }`
unfoldable pub evict : ℕ → Dict ℕ → Dict ℕ → Dict ℕ
unfolding delete
evict zero entries jobs = jobs
evict (suc n) [] jobs = jobs
evict (suc n) ((k, e) ∷ entries) jobs = evict n entries (delete k jobs)

unfoldable pub enforce_max : Dict ℕ → Dict ℕ
unfolding by_expiry evict
enforce_max jobs =
    if ltb default_dedup_max_jobs (length jobs)
    then evict (length jobs - default_dedup_max_jobs) (by_expiry jobs) jobs
    else jobs

-- Saves where an entry expired or was evicted.
unfoldable pub cleanup : Bool → ℕ → Store → Store
unfolding enforce_max unexpired save
cleanup written now s =
    let kept = unexpired now s.jobs in
    let t = record s { jobs = enforce_max kept } in
    if ltb (length kept) (length s.jobs) || ltb default_dedup_max_jobs (length kept)
    then save written t
    else t

-- The snapshot worker goes on after a close: a snapshot that it still holds may be written over this
-- file later, as a step of its own.
unfoldable pub close : Bool → Store → Store
unfolding save
close written s = save written (record s { timer = false })
