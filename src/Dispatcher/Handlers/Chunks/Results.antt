-- ===== src/Dispatcher/Handlers/Chunks/Results.antt =====
-- Where the handlers of a byte range and of a list of files leave the plugin's output.
use sentrazero.Base.{
  ◌≡◌, ◌≢◌, ◌⊎◌, inl, inr, refl, String, Option, none, some, [], ◌∷◌, arith, ◌==◌, Bool-cases,
  Option-cases,
}
use sentrazero.Base.Dict.{lookup}
use sentrazero.Storage.Backends.{Bytes, Objects, StorageBackend, IsStore}
use sentrazero.Dispatcher.Handlers.Merging.Stored.{apart}
use sentrazero.Dispatcher.Handlers.Chunks.{
  Machine, Job, ProcessPayload, ChunkFailure, Node, file, folder, Tree, after_run, fill_output,
  ensure_output, upload_node, upload_output, store_output, result_key, plugin_of, chunk_file,
  context_of, run_and_store,
}
use sentrazero.Dispatcher.Handlers.Chunks.Ranges.{
  Input, no_input, input, range_input, execute_process_chunk_byte_range,
}

pub Input-cases :
    (x : Input)
    → ((e : ChunkFailure) × (x ≡ no_input e))
      ⊎ ((path : String) × (bytes : Bytes) × (x ≡ input path bytes))
Input-cases (no_input e) = inl (e, refl)
Input-cases (input path bytes) = inr (path, bytes, refl)

pub Sum-cases : {A B : Type 0} (x : A ⊎ B) → ((a : A) × (x ≡ inl a)) ⊎ ((b : B) × (x ≡ inr b))
Sum-cases (inl a) = inl (a, refl)
Sum-cases (inr b) = inr (b, refl)

-- Every object but the chunk's result stays as it was.
module _ (b : StorageBackend) (store : IsStore b) (k : String) where
  pub node-others :
      (key : String) (n : Option Node) (s : Objects)
      → key ≢ k
      → lookup k (upload_node b key n s).1 ≡ lookup k s
  unfolding upload_node
  node-others key none s h = refl
  node-others key (some (folder filled)) s h = refl
  node-others key (some (file content)) s h = store.write-others key k content s (apart key k h)

  pub upload-others :
      (m : Machine) (mode path key : String) (bytes : Bytes) (t : Tree) (s : Objects)
      → key ≢ k
      → lookup k (upload_output m b mode path key bytes t s).1 ≡ lookup k s
  unfolding upload_output
  upload-others m mode path key bytes t s h = elim (Bool-cases (mode == "shared_mount")) [
    | inl e ↦ rw e refl
    | inr e ↦ rw e (node-others key (lookup path (fill_output m path bytes t)) s h)
  ]

  store-others :
      (m : Machine) (p : ProcessPayload) (mode path : String) (x : Option Bytes × Tree)
      (s : Objects)
      → result_key p ≢ k
      → lookup k (store_output m b p mode path x s).1 ≡ lookup k s
  unfolding store_output
  store-others m p mode path (none, t) s h = refl
  store-others m p mode path (some bytes, t) s h =
      elim (Option-cases (ensure_output m path bytes t)) [
        | inl e ↦ rw (e, store_output) refl
        | inr (ready, e) ↦
            rw (e, store_output) (upload-others m mode path (result_key p) bytes ready s h)
      ]

  pub run-others :
      (m : Machine) (j : Job) (p : ProcessPayload) (mode work input : String) (t : Tree)
      (s : Objects)
      → result_key p ≢ k
      → lookup k (run_and_store m b j p mode work input t s).1 ≡ lookup k s
  unfolding run_and_store
  run-others m j p mode work path t s h =
      let out = chunk_file work p.chunk_index ".out" in
      let name = plugin_of m j p in
      ground (
        arith,
        store-others m p mode out
            (after_run m name out p j (m.execute name (context_of j p path out) t)) s h,
      )

  -- Whatever happens, a byte range job changes no object but the result of its own chunk.
  pub byte_range-others :
      (m : Machine) (j : Job) (p : ProcessPayload) (mode : String) (s : Objects)
      → result_key p ≢ k
      → lookup k (execute_process_chunk_byte_range m b j p mode s).1 ≡ lookup k s
  unfolding execute_process_chunk_byte_range
  byte_range-others m j p mode s h = elim (Option-cases (m.prepare_work_dir j.id)) [
    | inl e ↦ rw (e, execute_process_chunk_byte_range) refl
    | inr (work, e) ↦ elim (Input-cases (range_input m b p mode work s)) [
      | inl (why, i) ↦ rw (e, execute_process_chunk_byte_range, i) refl
      | inr (path, bytes, i) ↦
          rw (e, execute_process_chunk_byte_range, i)
            (run-others m j p mode work path ((path, file bytes) ∷ []) s h)
    ]
  ]
