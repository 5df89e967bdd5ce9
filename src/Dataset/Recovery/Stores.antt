-- ===== src/Dataset/Recovery/Stores.antt =====
-- What a load answers after a save.
use sentrazero.Base.{ℕ, ◌≡◌, String, none, some, arith, ◌==◌, if◌then◌else◌}
use sentrazero.Base.Dict.{lookup-insert}
use sentrazero.Dataset.Recovery.{
  MergeRecoveryState, Directory, Answers, save_state, replace, rename_temporary, loaded, written,
  load_merge_recovery_state, parse_state,
}

-- After a save that succeeds, a load of its id answers the state with the time of the save, and a
-- load of another id answers as before. After a save that fails, at whatever call, every load answers
-- as before.
pub load-save_state :
    (a : Answers) (now : ℕ) (s : MergeRecoveryState) (d : Directory) (id : String)
    → load_merge_recovery_state id (save_state a now s d).2 ≡ elim (save_state a now s d).0 [
      | none ↦
          if s.dataset_id == id
          then loaded (record s { last_updated_at = now })
          else load_merge_recovery_state id d
      | some e ↦ load_merge_recovery_state id d
    ]
unfolding save_state replace rename_temporary load_merge_recovery_state parse_state
load-save_state a now s d id =
    ground
      (arith, lookup-insert s.dataset_id id (written (record s { last_updated_at = now })) d.files)
