-- ===== src/Dispatcher/Handlers/Compound/Finish.antt =====
-- What a compound job stores after its last step, and the whole job.
use sentrazero.Base.{
  ℕ, ◌-◌, String, false, not, Option, none, some, List, [], ◌∷◌, length, drop, ltb, if◌then◌else◌,
  ◌==◌,
}
use sentrazero.Base.Dict.{lookup, insert}
use sentrazero.Storage.Backends.{Objects, StorageBackend}
use sentrazero.Dispatcher.Handlers.Paths.{
  chunk_out_path, chunk_json_path, derive_mount_base_path, first_non_empty, join,
}
use sentrazero.Dispatcher.Handlers.Chunks.{
  Machine, Job, ProcessPayload, ChunkFailure, no_work_dir, not_created, not_copied, not_stored,
  file, folder, Tree, is_absent, result_key, upload_node,
}
use sentrazero.Dispatcher.Handlers.Compound.{
  Cache, Field, missing, ChainFields, get_compound_cache_dir, step_out_dir,
}
use sentrazero.Dispatcher.Handlers.Compound.Inputs.{unresolved, resolved, fetch_listed}
use sentrazero.Dispatcher.Handlers.Compound.Loop.{
  Report, LoopState, Place, remove_all, execute_steps,
}

-- The newest regular file among the names, from one found at a time on. The first one wins.
unfoldable pub newest_file : Cache → String → List String → String → ℕ → Tree → String
unfolding join
newest_file c dir [] found time t = found
newest_file c dir (name ∷ names) found time t =
    let path = join (dir ∷ (name ∷ [])) in
    let skip = newest_file c dir names found time t in
    elim (c.mod_time path t) [
      | none ↦ skip
      | some changed ↦
          let take_it = newest_file c dir names path changed t in
          elim (lookup path t) [
            | none ↦ skip
            | some (folder filled) ↦ skip
            | some (file bytes) ↦ if ltb time changed then take_it else skip
          ]
    ]

-- The file to upload, "" where there is none.
unfoldable pub upload_file_path : Cache → String → LoopState → String
unfolding newest_file
upload_file_path c dir st =
    if not (is_absent st.last_output_path st.local)
    then st.last_output_path
    else elim (c.read_dir dir st.local) [
      | none ↦ ""
      | some names ↦ newest_file c dir names "" 0 st.local
    ]

-- What the handler leaves: the failure, the local files, the reports and the objects.
pub record Ended : Type 0 where
  pub failed_with : Option ChunkFailure
  pub local : Tree
  pub reports : List Report
  pub objects : Objects

abbrev pub mount_chunks : Machine → String → ProcessPayload → String
mount_chunks m mode p =
    join
      (derive_mount_base_path m.mount_path mode ∷ ("datasets" ∷ (p.dataset_id ∷ ("chunks" ∷ []))))

-- The output file is copied to the chunk's result. What a failing copy leaves there is not modelled.
unfoldable pub store_file :
    Machine
    → StorageBackend
    → ProcessPayload
    → String
    → String
    → Tree
    → Objects
    → Option ChunkFailure × Tree × Objects
unfolding upload_node chunk_out_path derive_mount_base_path join
store_file m b p mode path t s =
    let out =
      chunk_out_path (derive_mount_base_path m.mount_path mode) p.dataset_id p.chunk_index in
    let (failure, after) = upload_node b (result_key p) (lookup path t) s in
    if not (mode == "shared_mount")
    then (failure, t, after)
    else if not (m.makes_directory (mount_chunks m mode p))
    then (some not_created, t, s)
    else elim (lookup path t) [
      | none ↦ (some not_copied, t, s)
      | some (folder filled) ↦ (some not_copied, t, s)
      | some (file bytes) ↦
          if m.copies out then (none, insert out (file bytes) t, s) else (some not_copied, t, s)
    ]

-- The list of files that the last chaining data name.
abbrev pub listed_files : Option ChainFields → Field
listed_files none = missing
listed_files (some fields) = fields.file_list

-- Without an output file, the metadata are the chunk's result.
unfoldable pub store_meta :
    Machine
    → Cache
    → StorageBackend
    → ProcessPayload
    → String
    → String
    → LoopState
    → Objects
    → Option ChunkFailure × Tree × Objects
unfolding chunk_json_path derive_mount_base_path join
store_meta m c b p mode dir st s =
    let meta = c.meta_json dir (listed_files st.previous_data) (length p.steps) in
    let out =
      chunk_json_path (derive_mount_base_path m.mount_path mode) p.dataset_id p.chunk_index in
    let (done, after) = b.write_object (result_key p) meta s in
    if not (mode == "shared_mount")
    then (if done then none else some not_stored, st.local, after)
    else if not (m.makes_directory (mount_chunks m mode p))
    then (some not_created, st.local, s)
    else if m.writes out
    then (none, insert out (file meta) st.local, s)
    else (some not_stored, st.local, s)

unfoldable pub store_last :
    Machine
    → Cache
    → StorageBackend
    → ProcessPayload
    → Place
    → LoopState
    → Objects
    → Option ChunkFailure × Tree × Objects
unfolding upload_file_path store_file store_meta join
store_last m c b p at st s =
    let dir = step_out_dir at.cache (length p.steps - 1) in
    let path = upload_file_path c dir st in
    if not (path == "")
    then store_file m b p at.mode path st.local s
    else store_meta m c b p at.mode dir st s

-- After the loop. The cache is kept where a step failed or the result is not stored; where it cannot be
-- removed, what of it is left is taken to be all.
unfoldable pub finish :
    Machine
    → Cache
    → StorageBackend
    → ProcessPayload
    → Place
    → Objects
    → Option ChunkFailure × LoopState
    → Ended
unfolding store_last remove_all
finish m c b p at s (some e, st) = record {
  failed_with = some e;
  local = st.local;
  reports = st.reports;
  objects = s;
}
finish m c b p at s (none, st) =
    let (failure, t, after) = store_last m c b p at st s in
    let swept = if c.removes_all at.cache then remove_all at.cache t else t in
    elim failure [
      | some e ↦ record { failed_with = some e; local = t; reports = st.reports; objects = after }
      | none ↦ record { failed_with = none; local = swept; reports = st.reports; objects = after }
    ]

-- From the directories on.
unfoldable pub run_compound :
    Machine → Cache → StorageBackend → Job → ProcessPayload → Place → Tree → Objects → Ended
unfolding fetch_listed execute_steps finish
run_compound m c b j p at t s = elim (fetch_listed m b p at.work_dir s t) [
  | unresolved e ↦ record { failed_with = some e; local = t; reports = []; objects = s }
  | resolved input files t' ↦ finish m c b p at s (
      execute_steps m c b j p at s p.current_step_index (drop p.current_step_index p.steps)
        (record {
          previous_data = none;
          files_dir = files;
          last_output_path = "";
          local = t';
          reports = [];
        }))
]

-- `t` is what stands in the cache from earlier tries of the chunk.
unfoldable pub execute_compound_process_chunk :
    Machine → Cache → StorageBackend → Job → ProcessPayload → String → Tree → Objects → Ended
unfolding run_compound get_compound_cache_dir first_non_empty
execute_compound_process_chunk m c b j p mode t s =
    let cache = get_compound_cache_dir c j.execution_id p.chunk_id in
    let stopped : ChunkFailure → Ended =
      λ e. record { failed_with = some e; local = t; reports = []; objects = s } in
    if not (m.makes_directory cache)
    then stopped not_created
    else elim (m.prepare_work_dir (first_non_empty (j.id ∷ (p.chunk_id ∷ [])))) [
      | none ↦ stopped no_work_dir
      | some work ↦
          run_compound m c b j p (record { mode = mode; cache = cache; work_dir = work })
            (insert cache (folder false) t) s
    ]
