-- ===== src/Dataset/Recovery.antt =====
-- internal/dataset/recovery.go: the files that record how far a merge went. A time and a duration are
-- natural numbers of nanoseconds. What a call of the file system answers is an argument.
-- A name ends in `.recovery.json` exactly where it is that of one dataset id, so the directory is a
-- map from these ids; other files than these and the temporary ones are never looked at, and a
-- directory that does not exist is one without files. Ids are valid UTF-8 without a path separator.
pub mod Resumption
pub mod Stores
pub mod Stale
pub mod Losses
use sentrazero.Base.{
  ℕ, ◌-◌, String, Bool, true, false, not, Option, none, some, List, [], ◌∷◌, ltb, if◌then◌else◌,
}
use sentrazero.Base.Dict.{Dict, lookup, insert, delete}

pub record MergeRecoveryState : Type 0 where
  pub dataset_id : String
  pub output_path : String
  pub chunks_merged : List String
  pub chunks_pending : List String
  pub started_at : ℕ
  pub last_updated_at : ℕ
  pub checkpoint_ms : ℕ

-- What stands in a file: a state in JSON, a text that is none, or what cannot be read.
pub data StateFile : Type 0 where
  unreadable malformed : StateFile
  written : MergeRecoveryState → StateFile

-- `files` holds `<id>.recovery.json` and `temporaries` holds `<id>.recovery.json.tmp`.
pub record Directory : Type 0 where
  pub files : Dict StateFile
  pub temporaries : Dict StateFile

pub data Write : Type 0 where
  -- nothing was opened; the write broke off; all was written
  unopened cut complete : Write

pub data SaveError : Type 0 where
  no_directory not_marshalled not_written not_renamed : SaveError

-- What the four calls of `Save` answer.
pub record Answers : Type 0 where
  pub makes_directory : Bool
  pub marshals : Bool
  pub writes : Write
  pub renames : Bool

-- The rename replaces the file of the id by its temporary one.
unfoldable pub rename_temporary : String → StateFile → Directory → Directory
rename_temporary id file d = record {
  files = insert id file d.files;
  temporaries = delete id d.temporaries;
}

-- What is written to the temporary file of an id.
abbrev pub leave : String → StateFile → Directory → Directory
leave id file d = record d { temporaries = insert id file d.temporaries }

-- `os.WriteFile` and `os.Rename`.
unfoldable pub replace : Answers → MergeRecoveryState → Directory → Option SaveError × Directory
unfolding rename_temporary
replace a s d =
    let d' = leave s.dataset_id (written s) d in
    elim a.writes [
      | unopened ↦ (some not_written, d)
      | cut ↦ (some not_written, leave s.dataset_id malformed d)
      | complete ↦
          if a.renames
          then (none, rename_temporary s.dataset_id (written s) d')
          else (some not_renamed, d')
    ]

-- The error, the state as the caller has it afterwards, and the directory.
unfoldable pub save_state :
    Answers → ℕ → MergeRecoveryState → Directory → Option SaveError × MergeRecoveryState × Directory
unfolding replace
save_state a now s d =
    let stamped = record s { last_updated_at = now } in
    let (error, after) = replace a stamped d in
    if not a.makes_directory
    then (some no_directory, s, d)
    else if not a.marshals
    then (some not_marshalled, stamped, d)
    else (error, stamped, after)

pub data LoadError : Type 0 where
  not_read not_parsed : LoadError

pub data Loaded : Type 0 where
  no_state : Loaded
  load_error : LoadError → Loaded
  loaded : MergeRecoveryState → Loaded

unfoldable pub parse_state : Option StateFile → Loaded
parse_state none = no_state
parse_state (some unreadable) = load_error not_read
parse_state (some malformed) = load_error not_parsed
parse_state (some (written s)) = loaded s

unfoldable pub load_merge_recovery_state : String → Directory → Loaded
unfolding parse_state
load_merge_recovery_state id d = parse_state (lookup id d.files)

-- `removes` is what `os.Remove` answers where the file is there.
unfoldable pub clear_merge_recovery_state : Bool → String → Directory → Directory
clear_merge_recovery_state removes id d =
    if removes then record d { files = delete id d.files } else d

-- The ids of the directory's entries, in their order.
abbrev pub ids : Dict StateFile → List String
ids [] = []
ids ((id, file) ∷ entries) = id ∷ ids entries

abbrev pub is_pending : List String → Bool
is_pending [] = false
is_pending (id ∷ rest) = true

-- The loop of `FindIncompleteMerges`: a file that fails to load is passed over.
unfoldable pub incomplete_among : List String → Directory → List MergeRecoveryState
unfolding load_merge_recovery_state
incomplete_among [] d = []
incomplete_among (id ∷ rest) d =
    let others = incomplete_among rest d in
    elim (load_merge_recovery_state id d) [
      | no_state ↦ others
      | load_error e ↦ others
      | loaded s ↦ if is_pending s.chunks_pending then s ∷ others else others
    ]

-- `none` where the directory cannot be read.
unfoldable pub find_incomplete_merges : Bool → Directory → Option (List MergeRecoveryState)
unfolding incomplete_among
find_incomplete_merges reads d = if reads then some (incomplete_among (ids d.files) d) else none

-- `now.Sub(state.LastUpdatedAt) > maxAge`: a state of the future is not stale.
unfoldable pub is_stale_state : ℕ → ℕ → Loaded → Bool
is_stale_state now max_age no_state = false
is_stale_state now max_age (load_error e) = false
is_stale_state now max_age (loaded s) = ltb max_age (now - s.last_updated_at)

-- One round of `CleanupStaleRecoveryStates`. A removal that fails is logged.
unfoldable pub cleanup_entry : (String → Bool) → ℕ → ℕ → String → Directory → Directory
unfolding clear_merge_recovery_state is_stale_state load_merge_recovery_state
cleanup_entry removes now max_age id d =
    if is_stale_state now max_age (load_merge_recovery_state id d)
    then clear_merge_recovery_state (removes id) id d
    else d

unfoldable pub cleanup_entries : (String → Bool) → ℕ → ℕ → List String → Directory → Directory
unfolding cleanup_entry
cleanup_entries removes now max_age [] d = d
cleanup_entries removes now max_age (id ∷ rest) d =
    cleanup_entries removes now max_age rest (cleanup_entry removes now max_age id d)

-- With whether the directory could be read.
unfoldable pub cleanup_stale_recovery_states :
    Bool → (String → Bool) → ℕ → ℕ → Directory → Bool × Directory
unfolding cleanup_entries
cleanup_stale_recovery_states reads removes now max_age d =
    if reads then (true, cleanup_entries removes now max_age (ids d.files) d) else (false, d)
