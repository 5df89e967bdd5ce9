-- ===== src/Dispatcher/Handlers/Chunks/Steps.antt =====
-- The steps of a chunk over a backend that is no shared mount, one job for each: each step takes the
-- result of the one before it from the backend and replaces it.
use sentrazero.Base.{
  ◌<◌, ◌≡◌, ◌⊎◌, inl, inr, refl, sym, ap, ◌∙◌, String, Bool, true, false, not, Option, none, some,
  List, [], ◌∷◌, ltb, arith, ◌==◌, eq_refl, Bool-cases, Option-cases, if◌then◌else◌,
}
use sentrazero.Base.Dict.{lookup}
use sentrazero.Storage.Backends.{Bytes, Objects, StorageBackend, IsStore}
use sentrazero.Dispatcher.Handlers.Chunks.{
  Machine, Job, ProcessPayload, ChunkFailure, file, Tree, after_run, upload_output, result_key,
  plugin_of, chunk_file, context_of,
}
use sentrazero.Dispatcher.Handlers.Chunks.Plain.{
  Prepared, prepared, unprepared, prepare, download, remote_input, ensure_plain, store_plain,
  run_plain, process_plain, source_file, work_dir_id,
}
use sentrazero.Dispatcher.Handlers.Paths.{ends_with_slash}
use sentrazero.Dispatcher.Handlers.Chunks.Pipeline.{Transforms, IsReadable, node-stored, fill-there}

plain-there :
    (m : Machine) (path : String) (bytes content : Bytes) (t : Tree)
    → lookup path t ≡ some (file content)
    → ensure_plain m path bytes t ≡ t
unfolding ensure_plain
plain-there m path bytes content t h = ground (arith, h)

plain-stored :
    (m : Machine) (b : StorageBackend) (p : ProcessPayload) (mode path : String)
    (bytes content : Bytes) (t t' : Tree) (s u : Objects)
    → IsStore b
    → (mode == "shared_mount") ≡ false
    → lookup path t ≡ some (file content)
    → store_plain m b p mode path (some bytes, t) s ≡ (none, t', u)
    → lookup (result_key p) u ≡ some content
unfolding store_plain upload_output
plain-stored m b p mode path bytes content t t' s u store e there h =
    node-stored b (result_key p) content s u store (
      ground (
        arith,
        e,
        there,
        h,
        plain-there m path bytes content t there,
        fill-there m path bytes content t there,
      ))

run_plain-stored :
    (m : Machine) (b : StorageBackend) (j : Job) (p : ProcessPayload) (mode path out : String)
    (bytes : Bytes) (g : Bytes → Bytes) (t' : Tree) (s u : Objects)
    → IsStore b
    → Transforms m (plugin_of m j p) g
    → (mode == "shared_mount") ≡ false
    → run_plain m b j p mode path out ((path, file bytes) ∷ []) s ≡ (none, t', u)
    → lookup (result_key p) u ≡ some (g bytes)
unfolding run_plain after_run lookup
run_plain-stored m b j p mode path out bytes g t' s u store plugin e h =
    let name = plugin_of m j p in
    let (o, t, ran, there) =
      plugin.runs (context_of j p path out) ((path, file bytes) ∷ []) bytes
        (rw (eq_refl path) refl) in
    plain-stored m b p mode out o (g bytes) t t' s u store e there (ground (arith, ran, h))

-- The object that a step takes its input from.
abbrev pub taken_from : Job → ProcessPayload → String
taken_from j p = if ltb 0 j.step_index then result_key p else p.source_path

-- The step takes one object: the result of the step before, or a source that is no directory.
abbrev pub takes_one : Job → ProcessPayload → Bool
takes_one j p = if ltb 0 j.step_index then true else not (ends_with_slash p.source_path)

download-input :
    (m : Machine) (b : StorageBackend) (key path out : String) (s : Objects) (x : Bytes)
    (input out' : String) (t : Tree)
    → b.read_object key s ≡ some x
    → prepare path out (download m b key path s) ≡ prepared input out' t
    → t ≡ (input, file x) ∷ []
unfolding download
download-input m b key path out s x input out' t r h = elim (Bool-cases (m.creates path)) [
  | inl e ↦ ground (arith, r, e, h)
  | inr e ↦ ground (arith, r, e, h)
]

remote-taken :
    (m : Machine) (b : StorageBackend) (j : Job) (p : ProcessPayload) (work : String) (s : Objects)
    (x : Bytes) (input out : String) (t : Tree)
    → b.read_object (taken_from j p) s ≡ some x
    → takes_one j p ≡ true
    → remote_input m b j p work s ≡ prepared input out t
    → t ≡ (input, file x) ∷ []
unfolding remote_input
remote-taken m b j p work s x input out t r one h = elim (Bool-cases (ltb 0 j.step_index)) [
  | inl e ↦
      download-input m b (result_key p) (chunk_file work p.chunk_index ".bin")
        (chunk_file work p.chunk_index ".out") s x input out t (ground (arith, e, r))
        (ground (arith, e, h))
  | inr e ↦ elim (Bool-cases (p.source_path == "")) [
    | inl q ↦ ground (arith, e, q, h)
    | inr q ↦
        download-input m b p.source_path (source_file work p.source_path)
          (chunk_file work p.chunk_index ".out") s x input out t (ground (arith, e, r))
          (ground (arith, e, q, one, h))
  ]
]

pub Prepared-cases :
    (x : Prepared)
    → ((e : ChunkFailure) × (x ≡ unprepared e))
      ⊎ ((input out : String) × (t : Tree) × (x ≡ prepared input out t))
Prepared-cases (unprepared e) = inl (e, refl)
Prepared-cases (prepared input out t) = inr (input, out, t, refl)

-- A plain job that succeeds over a store whose objects can be read and that is no shared mount, and
-- that takes the result of the step before or a source that is no directory: the result of the chunk
-- is what the plugin makes of it.
pub step_result :
    (m : Machine) (b : StorageBackend) (j : Job) (p : ProcessPayload) (mode : String)
    (g : Bytes → Bytes) (x : Bytes) (t : Tree) (s u : Objects)
    → IsStore b
    → IsReadable b
    → Transforms m (plugin_of m j p) g
    → (mode == "shared_mount") ≡ false
    → takes_one j p ≡ true
    → lookup (taken_from j p) s ≡ some x
    → process_plain m b j p mode s ≡ (none, t, u)
    → lookup (result_key p) u ≡ some (g x)
unfolding process_plain
step_result m b j p mode g x t s u store readable plugin e one held h =
    let r = readable.read (taken_from j p) s x held in
    elim (Option-cases (m.prepare_work_dir (work_dir_id j p))) [
      | inl w ↦ ground (arith, w, h)
      | inr (work, w) ↦ elim (Prepared-cases (remote_input m b j p work s)) [
        | inl (why, i) ↦ ground (arith, w, e, i, h)
        | inr (input, out, files, i) ↦
            let one_file = remote-taken m b j p work s x input out files r one i in
            let ran : run_plain m b j p mode input out files s ≡ (none, t, u) =
              ground (arith, w, e, i, h) in
            run_plain-stored m b j p mode input out x g t s u store plugin e (rw (sym one_file) ran)
      ]
    ]

-- One job after the other, up to the first failure.
unfoldable pub process_steps :
    Machine
    → StorageBackend
    → ProcessPayload
    → String
    → List Job
    → Objects
    → Option ChunkFailure × Objects
process_steps m b p mode [] s = (none, s)
process_steps m b p mode (j ∷ js) s = elim (process_plain m b j p mode s).0 [
  | some e ↦ (some e, (process_plain m b j p mode s).2)
  | none ↦ process_steps m b p mode js (process_plain m b j p mode s).2
]

-- Jobs of later steps, and what their plugins make of their input.
abbrev pub Transform : Machine → ProcessPayload → List Job → List (Bytes → Bytes) → Type 0
Transform m p [] [] = Unit {0}
Transform m p (j ∷ js) (g ∷ gs) =
    (0 < j.step_index) × Transforms m (plugin_of m j p) g × Transform m p js gs
Transform m p _ _ = ⊥

abbrev pub apply_all : List (Bytes → Bytes) → Bytes → Bytes
apply_all [] x = x
apply_all (g ∷ gs) x = apply_all gs (g x)

-- Plain jobs of later steps of one chunk that all succeed, one after the other, over a store whose
-- objects can be read and that is no shared mount: the result of the chunk is what their plugins make
-- of the result that was there, each of what the one before it made.
pub steps_chain :
    (m : Machine) (b : StorageBackend) (p : ProcessPayload) (mode : String) (js : List Job)
    (gs : List (Bytes → Bytes)) (x : Bytes) (s u : Objects)
    → IsStore b
    → IsReadable b
    → (mode == "shared_mount") ≡ false
    → Transform m p js gs
    → lookup (result_key p) s ≡ some x
    → process_steps m b p mode js s ≡ (none, u)
    → lookup (result_key p) u ≡ some (apply_all gs x)
unfolding process_steps
steps_chain m b p mode [] [] x s u store readable e c held h =
    ap (λ y. lookup (result_key p) y.1) (sym h) ∙ held
steps_chain m b p mode [] (g ∷ gs) x s u store readable e c held h = absurd c
steps_chain m b p mode (j ∷ js) [] x s u store readable e c held h = absurd c
steps_chain m b p mode (j ∷ js) (g ∷ gs) x s u store readable e (later, plugin, c) held h =
    let after = process_plain m b j p mode s in
    let past : ltb 0 j.step_index ≡ true = ground arith in
    elim (Option-cases after.0) [
      | inr (why, q) ↦ ground (arith, q, h)
      | inl q ↦
          let made =
            step_result m b j p mode g x after.1 s after.2 store readable plugin e (rw past refl)
              (rw past held) (ap (λ y. (y, after.1, after.2)) q) in
          steps_chain m b p mode js gs (g x) after.2 u store readable e c made
            (ground (arith, q, h))
    ]
