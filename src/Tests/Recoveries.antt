-- ===== src/Tests/Recoveries.antt =====
-- The recovery states of two datasets: a save, a cleanup and a resumption.
use sentrazero.Base.{
  ℕ, ◌+◌, ◌≡◌, refl, String, true, none, some, List, [], ◌∷◌, ◌<◌, length, has, count, arith,
}
use sentrazero.Base.Dict.{lookup, insert}
use sentrazero.Dataset.Merge.{ChunkInfo}
use sentrazero.Dataset.Merge.Plan.{by_index, place, calculate_required_space, total_size}
use sentrazero.Dataset.Merge.Loop.{fill, merge_chunks, finished}
use sentrazero.Dataset.Merge.Output.{all_bytes, bytes_in, CanMerge, IsReady}
use sentrazero.Dataset.Recovery.{
  MergeRecoveryState, Directory, Answers, complete, written, loaded, no_state, save_state, replace,
  load_merge_recovery_state, parse_state, rename_temporary, find_incomplete_merges,
  incomplete_among,
}
use sentrazero.Dataset.Recovery.Resumption.{
  Hashes, merged, chunks_to_merge, resume_merge_from_recovery,
}
use sentrazero.Dataset.Recovery.Stores.{load-save_state}
use sentrazero.Dataset.Recovery.Losses.{
  IsLeft, nothing, merged_before, skipped, still_left, resume_lem,
}
use sentrazero.Tests.Merges.{chunks, files, setting, interrupted}

-- Chunk `a` is merged, chunk `b` is not.
abbrev state : String → MergeRecoveryState
state id = record {
  dataset_id = id;
  output_path = "out.csv";
  chunks_merged = "a" ∷ [];
  chunks_pending = "b" ∷ [];
  started_at = 10;
  last_updated_at = 20;
  checkpoint_ms = 1;
}

abbrev directory : Directory
directory = record { files = ("dataset-1", written (state "dataset-1")) ∷ []; temporaries = [] }

abbrev answers : Answers
answers = record { makes_directory = true; marshals = true; writes = complete; renames = true }

found :
    find_incomplete_merges true (save_state answers 500 (state "dataset-2") directory).2
    ≡ some (state "dataset-1" ∷ (record (state "dataset-2") { last_updated_at = 500 } ∷ []))
unfolding find_incomplete_merges incomplete_among load_merge_recovery_state parse_state lookup
    save_state replace rename_temporary insert
found = refl

load-save_state_example :
    load_merge_recovery_state "dataset-2" (save_state answers 500 (state "dataset-2") directory).2
    ≡ loaded (record (state "dataset-2") { last_updated_at = 500 })
unfolding save_state replace
load-save_state_example = load-save_state answers 500 (state "dataset-2") directory "dataset-2"

abbrev hashes : Hashes
hashes = record { of_file = λ bytes. some "sum"; of_texts = λ texts. "sums" }

abbrev left : List ChunkInfo
left = chunks_to_merge ("a" ∷ []) chunks

stored : load_merge_recovery_state "dataset-1" directory ≡ loaded (state "dataset-1")
unfolding load_merge_recovery_state parse_state lookup
stored = refl

left-IsReady : IsReady setting (merge_chunks files left)
unfolding merge_chunks fill by_index place calculate_required_space total_size has
left-IsReady = record {
  dataset = refl;
  agent = refl;
  directory = refl;
  room = refl;
  checkpoint = refl;
  opens = refl;
  syncs = refl;
  renames = refl;
  clears = refl;
  lasts = omega arith;
}

left-CanMerge : CanMerge files 0 (merge_chunks files left)
unfolding merge_chunks fill by_index place has
left-CanMerge = (refl, refl, refl, tt)

some_left : 0 < length left
unfolding has
some_left = omega arith

left_over : IsLeft ("a" ∷ []) chunks left
unfolding count has
left_over = still_left refl refl (merged_before (omega arith) (skipped refl nothing))

-- The merge stopped after chunk `a`, as the state and the checkpoint say: chunk `b` is lost.
resume_lem_example :
    (n k : ℕ) × (removed : List String) × (n + k ≡ 1)
    × (load_merge_recovery_state "dataset-1"
          (resume_merge_from_recovery setting files hashes true chunks directory interrupted).1
        ≡ no_state)
    × ((resume_merge_from_recovery setting files hashes true chunks directory interrupted).0
        ≡ merged (finished n k))
    × ((resume_merge_from_recovery setting files hashes true chunks directory interrupted).2
        ≡ record {
          partial = none;
          checkpoint = none;
          output = some (1 ∷ (2 ∷ []));
          removed = removed;
        })
unfolding merge_chunks fill by_index place all_bytes bytes_in has
resume_lem_example =
    resume_lem setting files hashes chunks left (state "dataset-1") directory interrupted stored
      left_over some_left left-IsReady left-CanMerge
