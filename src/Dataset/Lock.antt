-- ===== src/Dataset/Lock.antt =====
-- internal/dataset/lock.go: the data of the merge locks.
pub mod Backend
pub mod Exclusion
pub mod Keyed
pub mod Manager
pub mod Shutdown
use sentrazero.Base.{ℕ, ◌*◌, String, Bool, ◌&&◌, ◌==◌, nat_eq}

abbrev pub second : ℕ
second = 1_000_000_000

abbrev pub merge_lock_duration : ℕ
merge_lock_duration = 30 * (60 * second)

-- `fmt.Sprintf("lock_%s_%d", datasetID, now.UnixNano())`: the text and the pair determine each other.
pub record LockId : Type 0 where
  pub dataset_id : String
  pub nanos : ℕ

abbrev pub same_lock : LockId → LockId → Bool
same_lock a b = a.dataset_id == b.dataset_id && nat_eq a.nanos b.nanos

pub data LockStatus : Type 0 where
  active released expired : LockStatus

-- `inMemoryLock`
pub record InMemoryLock : Type 0 where
  pub dataset_id : String
  pub agent_id : String
  pub device_id : String
  pub lock_id : LockId
  pub acquired_at : ℕ
  pub expires_at : ℕ
  pub status : LockStatus
