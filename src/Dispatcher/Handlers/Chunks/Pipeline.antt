-- ===== src/Dispatcher/Handlers/Chunks/Pipeline.antt =====
-- From the byte ranges of a source to the merged object, over a backend that is no shared mount.
use sentrazero.Base.{
  ◌≡◌, inl, inr, refl, sym, ap, ◌∙◌, String, false, none, some, [], ◌∷◌, arith, ◌==◌, eq_refl,
  Bool-cases, Option-cases,
}
use sentrazero.Base.Dict.{lookup}
use sentrazero.Storage.Backends.{Bytes, Objects, StorageBackend, IsStore}
use sentrazero.Dispatcher.Handlers.Chunks.{
  Machine, Job, ProcessPayload, PluginContext, file, Tree, output, after_run, fill_output,
  ensure_output, upload_node, upload_output, store_output, result_key, plugin_of, chunk_file,
  context_of, run_and_store,
}
use sentrazero.Dispatcher.Handlers.Chunks.Ranges.{
  input, section, range_input, remote_range, execute_process_chunk_byte_range,
}
use sentrazero.Dispatcher.Handlers.Chunks.Results.{Input-cases}

-- A plugin that reads its input file and writes what `g` makes of it to the output file.
pub record Transforms (m : Machine) (name : String) (g : Bytes → Bytes) : Type 0 where
  pub runs :
      (ctx : PluginContext) (t : Tree) (bytes : Bytes)
      → lookup ctx.input_path t ≡ some (file bytes)
      → (o : Bytes) × (t' : Tree) × (m.execute name ctx t ≡ (output o, t'))
        × (lookup ctx.output_path t' ≡ some (file (g bytes)))

-- An object that the backend holds can be read.
pub record IsReadable (b : StorageBackend) : Type 0 where
  pub read :
      (k : String) (s : Objects) (bytes : Bytes)
      → lookup k s ≡ some bytes
      → b.read_object k s ≡ some bytes

pub node-stored :
    (b : StorageBackend) (key : String) (content : Bytes) (s t : Objects)
    → IsStore b
    → upload_node b key (some (file content)) s ≡ (none, t)
    → lookup key t ≡ some content
unfolding upload_node
node-stored b key content s t store h = elim (Bool-cases (b.write_object key content s).0) [
  | inl e ↦
      let same : (b.write_object key content s).1 ≡ t = ground (arith, e) in
      ap (lookup key) (sym same) ∙ store.write-held key content s e
  | inr e ↦ ground (arith, e)
]

pub fill-there :
    (m : Machine) (path : String) (bytes content : Bytes) (t : Tree)
    → lookup path t ≡ some (file content)
    → fill_output m path bytes t ≡ t
unfolding fill_output
fill-there m path bytes content t h = ground (arith, h)

ensure-there :
    (m : Machine) (path : String) (bytes content : Bytes) (t : Tree)
    → lookup path t ≡ some (file content)
    → ensure_output m path bytes t ≡ some t
unfolding ensure_output
ensure-there m path bytes content t h = ground (arith, h)

store-stored :
    (m : Machine) (b : StorageBackend) (p : ProcessPayload) (mode path : String)
    (bytes content : Bytes) (t : Tree) (s u : Objects)
    → IsStore b
    → (mode == "shared_mount") ≡ false
    → lookup path t ≡ some (file content)
    → store_output m b p mode path (some bytes, t) s ≡ (none, u)
    → lookup (result_key p) u ≡ some content
unfolding store_output upload_output
store-stored m b p mode path bytes content t s u store e there h =
    node-stored b (result_key p) content s u store (
      ground (
        arith,
        e,
        there,
        h,
        ensure-there m path bytes content t there,
        fill-there m path bytes content t there,
      ))

run-stored :
    (m : Machine) (b : StorageBackend) (j : Job) (p : ProcessPayload) (mode work path : String)
    (bytes : Bytes) (g : Bytes → Bytes) (s u : Objects)
    → IsStore b
    → Transforms m (plugin_of m j p) g
    → (mode == "shared_mount") ≡ false
    → run_and_store m b j p mode work path ((path, file bytes) ∷ []) s ≡ (none, u)
    → lookup (result_key p) u ≡ some (g bytes)
unfolding run_and_store after_run lookup
run-stored m b j p mode work path bytes g s u store plugin e h =
    let name = plugin_of m j p in
    let out = chunk_file work p.chunk_index ".out" in
    let (o, t, ran, there) =
      plugin.runs (context_of j p path out) ((path, file bytes) ∷ []) bytes
        (rw (eq_refl path) refl) in
    store-stored m b p mode out o (g bytes) t s u store e there (ground (arith, ran, h))

range-part :
    (m : Machine) (b : StorageBackend) (p : ProcessPayload) (mode work path : String)
    (bytes source : Bytes) (s : Objects)
    → IsReadable b
    → (mode == "shared_mount") ≡ false
    → lookup p.source_file_path s ≡ some source
    → range_input m b p mode work s ≡ input path bytes
    → bytes ≡ section source p.byte_range_start p.byte_range_end
unfolding range_input remote_range
range-part m b p mode work path bytes source s readable e held h =
    ground (arith, e, h, readable.read p.source_file_path s source held)

-- A byte range job that succeeds leaves what the plugin makes of its part of the source.
pub byte_range-stored :
    (m : Machine) (b : StorageBackend) (j : Job) (p : ProcessPayload) (mode : String)
    (g : Bytes → Bytes) (source : Bytes) (s u : Objects)
    → IsStore b
    → IsReadable b
    → Transforms m (plugin_of m j p) g
    → (mode == "shared_mount") ≡ false
    → lookup p.source_file_path s ≡ some source
    → execute_process_chunk_byte_range m b j p mode s ≡ (none, u)
    → lookup (result_key p) u ≡ some (g (section source p.byte_range_start p.byte_range_end))
unfolding execute_process_chunk_byte_range
byte_range-stored m b j p mode g source s u store readable plugin e held h =
    elim (Option-cases (m.prepare_work_dir j.id)) [
      | inl w ↦ ground (arith, w, h)
      | inr (work, w) ↦ elim (Input-cases (range_input m b p mode work s)) [
        | inl (why, i) ↦ ground (arith, w, i, h)
        | inr (path, bytes, i) ↦
            let part = range-part m b p mode work path bytes source s readable e held i in
            run-stored m b j p mode work path bytes g s u store plugin e (ground (arith, w, i, h))
            ∙ ap (λ x. some (g x)) part
      ]
    ]
