-- ===== src/Dataset/Recovery/Stale.antt =====
-- What the cleanup of stale states leaves.
use sentrazero.Base.{
  ℕ, ◌≡◌, refl, String, Bool, true, false, none, List, [], ◌∷◌, arith, ◌==◌, eq_iff, ◌&&◌, has,
  if◌then◌else◌,
}
use sentrazero.Base.Dict.{Dict, lookup, lookup-delete}
use sentrazero.Dataset.Recovery.{
  StateFile, Directory, Loaded, no_state, ids, load_merge_recovery_state, parse_state,
  is_stale_state, clear_merge_recovery_state, cleanup_entry, cleanup_entries,
  cleanup_stale_recovery_states,
}

-- What a load answers after the cleanup has seen the id.
abbrev pub survivor : Bool → ℕ → ℕ → Loaded → Loaded
survivor removes now max_age x = if is_stale_state now max_age x && removes then no_state else x

load-cleanup_entry :
    (removes : String → Bool) (now max_age : ℕ) (id j : String) (d : Directory)
    → load_merge_recovery_state j (cleanup_entry removes now max_age id d) ≡ (
        if id == j
        then survivor (removes j) now max_age (load_merge_recovery_state j d)
        else load_merge_recovery_state j d)
unfolding cleanup_entry load_merge_recovery_state parse_state clear_merge_recovery_state
load-cleanup_entry removes now max_age id j d =
    ground (arith, eq_iff id j, lookup-delete id j d.files)

survivor_twice :
    (removes : Bool) (now max_age : ℕ) (x : Loaded)
    → survivor removes now max_age (survivor removes now max_age x) ≡ survivor removes now max_age x
unfolding is_stale_state
survivor_twice removes now max_age x = ground arith

load-cleanup_entries :
    (removes : String → Bool) (now max_age : ℕ) (names : List String) (j : String) (d : Directory)
    → load_merge_recovery_state j (cleanup_entries removes now max_age names d) ≡ (
        if has j names
        then survivor (removes j) now max_age (load_merge_recovery_state j d)
        else load_merge_recovery_state j d)
unfolding cleanup_entries has
load-cleanup_entries removes now max_age [] j d = refl
load-cleanup_entries removes now max_age (id ∷ rest) j d =
    let after = cleanup_entry removes now max_age id d in
    ground (
      arith,
      eq_iff id j,
      load-cleanup_entry removes now max_age id j d,
      load-cleanup_entries removes now max_age rest j after,
      survivor_twice (removes j) now max_age (load_merge_recovery_state j d),
    )

load_absent :
    (j : String) (files : Dict StateFile) → has j (ids files) ≡ false → lookup j files ≡ none
unfolding has lookup
load_absent j [] h = refl
load_absent j ((id, file) ∷ files) h = ground (arith, load_absent j files)

-- Where the directory can be read, a load of an id after the cleanup finds no state if the state was
-- older than the maximal age and its file can be removed. Any other load, of a younger state, of a
-- state from the future, of a file that cannot be read or does not parse, answers as before.
pub load-cleanup_stale :
    (removes : String → Bool) (now max_age : ℕ) (id : String) (d : Directory)
    → load_merge_recovery_state id (cleanup_stale_recovery_states true removes now max_age d).1 ≡ (
        if is_stale_state now max_age (load_merge_recovery_state id d) && removes id
        then no_state
        else load_merge_recovery_state id d)
unfolding cleanup_stale_recovery_states load_merge_recovery_state parse_state is_stale_state
load-cleanup_stale removes now max_age id d =
    ground
      (arith, load-cleanup_entries removes now max_age (ids d.files) id d, load_absent id d.files)
