-- ===== src/Dispatcher/Handlers/Chunks/Others.antt =====
-- Which objects a job of one chunk changes, however it is processed.
use sentrazero.Base.{
  ◌≡◌, ◌≢◌, ◌⊎◌, subst, if◌then◌else◌, inl, inr, refl, String, Option, none, some, [], ◌∷◌, arith,
  ◌==◌, Bool-cases, Option-cases, ◌&&◌, not, true, false, sym, ◌∙◌,
}
use sentrazero.Base.Dict.{lookup}
use sentrazero.Storage.Backends.{
  Bytes, Objects, StorageBackend, StorageConfig, S3Credentials, IsStore, s3, mount, refused,
  new_backend,
}
use sentrazero.Storage.Mount.{shared_mount}
use sentrazero.Dispatcher.Handlers.Merging.{World}
use sentrazero.Dispatcher.Handlers.Paths.{join}
use sentrazero.Dispatcher.Handlers.Chunks.{
  Machine, Job, ProcessPayload, ChunkFailure, no_new_backend, Tree, folder, result_key, plugin_of,
  after_run, context_of, is_empty,
}
use sentrazero.Dispatcher.Handlers.Chunks.Lists.{copy_files, execute_process_chunk_file_list}
use sentrazero.Dispatcher.Handlers.Chunks.Plain.{
  mounted_input, remote_input, ensure_plain, store_plain, run_plain, process_plain, work_dir_id,
}
use sentrazero.Dispatcher.Handlers.Chunks.Process.{
  BackendChoice, available, unavailable, objects_after, override_process, process_backend,
  process_with, execute_process_chunk, fill_payload, is_remote_mode, process_mode, reconcile,
}
use sentrazero.Dispatcher.Handlers.Chunks.Steps.{Prepared-cases}
use sentrazero.Dispatcher.Handlers.Chunks.Results.{
  Sum-cases, upload-others, run-others, byte_range-others,
}
use sentrazero.Dispatcher.Handlers.Compound.{Cache}
use sentrazero.Dispatcher.Handlers.Compound.Results.{compound-others}

module _ (b : StorageBackend) (store : IsStore b) (k : String) where
  list-others :
      (m : Machine) (j : Job) (p : ProcessPayload) (mode : String) (s : Objects)
      → result_key p ≢ k
      → lookup k (execute_process_chunk_file_list m b j p mode s).1 ≡ lookup k s
  unfolding execute_process_chunk_file_list
  list-others m j p mode s h = elim (Option-cases (m.prepare_work_dir j.id)) [
    | inl e ↦ rw (e, execute_process_chunk_file_list) refl
    | inr (work, e) ↦
        let into = join (work ∷ ("files" ∷ [])) in
        let copied = copy_files m b mode s into p.file_list ((into, folder true) ∷ []) in
        elim (Sum-cases copied) [
          | inl (why, i) ↦ ground (arith, e, i)
          | inr (t, i) ↦ ground (arith, e, i, run-others b store k m j p mode work into t s h)
        ]
  ]

  store_plain-others :
      (m : Machine) (p : ProcessPayload) (mode path : String) (x : Option Bytes × Tree)
      (s : Objects)
      → result_key p ≢ k
      → lookup k (store_plain m b p mode path x s).2 ≡ lookup k s
  unfolding store_plain
  store_plain-others m p mode path (none, t) s h = refl
  store_plain-others m p mode path (some bytes, t) s h = ground (
    arith,
    upload-others b store k m mode path (result_key p) bytes (ensure_plain m path bytes t) s h,
  )

  run_plain-others :
      (m : Machine) (j : Job) (p : ProcessPayload) (mode input out : String) (t : Tree)
      (s : Objects)
      → result_key p ≢ k
      → lookup k (run_plain m b j p mode input out t s).2 ≡ lookup k s
  unfolding run_plain
  run_plain-others m j p mode path out t s h =
      let name = plugin_of m j p in
      ground (
        arith,
        store_plain-others m p mode out
            (after_run m name out (record p { input_path = path; output_path = out }) j
              (m.execute name (context_of j p path out) t))
            s h,
      )

  plain-others :
      (m : Machine) (j : Job) (p : ProcessPayload) (mode : String) (s : Objects)
      → result_key p ≢ k
      → lookup k (process_plain m b j p mode s).2 ≡ lookup k s
  unfolding process_plain
  plain-others m j p mode s h = elim (Option-cases (m.prepare_work_dir (work_dir_id j p))) [
    | inl e ↦ rw (e, process_plain) refl
    | inr (work, e) ↦
        elim (Prepared-cases (
          if mode == "shared_mount"
          then mounted_input m b j p mode work s
          else remote_input m b j p work s)) [
            | inl (why, i) ↦ rw (e, process_plain, i) refl
            | inr (path, out, t, i) ↦
                rw (e, process_plain, i) (run_plain-others m j p mode path out t s h)
          ]
  ]

  with-others :
      (m : Machine) (c : Cache) (j : Job) (p : ProcessPayload) (mode : String) (kept : Tree)
      (s : Objects)
      → result_key p ≢ k
      → lookup k (objects_after (process_with m c b j p mode kept s)) ≡ lookup k s
  unfolding process_with
  with-others m c j p mode kept s h = elim (Bool-cases (p.is_compound && not (is_empty p.steps))) [
    | inl q ↦ rw (q, process_with) (compound-others b store k m c j p mode kept s h)
    | inr q ↦ elim (Bool-cases (p.chunk_strategy == "byte_range")) [
      | inl r ↦ rw (q, process_with, r) (byte_range-others b store k m j p mode s h)
      | inr r ↦ elim (Bool-cases (p.chunk_strategy == "file_per_chunk")) [
        | inl f ↦ rw (q, process_with, r, f) (list-others m j p mode s h)
        | inr f ↦ rw (q, process_with, r, f) (plain-others m j p mode s h)
      ]
    ]
  ]

-- The backends that a job can get and that are no shared mount keep the laws.
pub record IsLawful (w : World) : Type 0 where
  pub s3_stores :
      (cfg : StorageConfig) (creds : S3Credentials) → IsStore (w.new_s3_backend cfg creds)
  pub pool_stores :
      (b : StorageBackend) → w.storage_backend ≡ some b → b.is_shared_mount ≡ false → IsStore b

abbrev Stores : BackendChoice → Type 0
Stores (unavailable e) = Unit {0}
Stores (available b) = b.is_shared_mount ≡ false → IsStore b

true-ne-false : true ≡ false → ⊥
true-ne-false h = ground (arith, h)

-- The job runs in no mode of a shared mount.
abbrev pub IsUnmounted : World → Job → String → Type 0
IsUnmounted w j mode =
    (b : StorageBackend)
    → process_backend w j mode ≡ available b
    → (reconcile b mode == "shared_mount") ≡ false

reconcile-unmounted :
    (b : StorageBackend) (mode : String)
    → (reconcile b mode == "shared_mount") ≡ false
    → b.is_shared_mount ≡ false
unfolding reconcile
reconcile-unmounted b mode h = elim (Bool-cases b.is_shared_mount) [
  | inr e ↦ e
  | inl e ↦
      let mounted : (reconcile b mode == "shared_mount") ≡ true =
        elim (Bool-cases (mode == "shared_mount")) [
          | inl m ↦ rw (reconcile, m) m
          | inr m ↦ rw (reconcile, m, e) refl
        ] in
      absurd (true-ne-false (sym mounted ∙ h))
]

override-Stores :
    (w : World) (cfg : StorageConfig) (mode : String)
    → IsLawful w
    → Stores (override_process w cfg mode)
unfolding override_process shared_mount
override-Stores w cfg mode lawful =
    elim (new_backend w.mount_path (record cfg { storage_mode = mode }))
      as (λ x. Stores (elim x [
        | s3 c creds ↦ available (w.new_s3_backend c creds)
        | mount base ↦ available (shared_mount base (w.mounts base))
        | refused e ↦ unavailable no_new_backend
      ])) [
        | s3 c creds ↦ λ h. lawful.s3_stores c creds
        | mount base ↦ λ h. absurd (true-ne-false h)
        | refused e ↦ tt
      ]

backend-Stores :
    (w : World) (j : Job) (mode : String) → IsLawful w → Stores (process_backend w j mode)
unfolding process_backend
backend-Stores w j mode lawful =
    elim (Bool-cases (not (j.storage_config_id == "") && is_remote_mode mode)) [
      | inl q ↦ elim (Option-cases (w.get_config_by_id j.storage_config_id)) [
        | inl r ↦ rw (q, process_backend, r) tt
        | inr (cfg, r) ↦ rw (q, process_backend, r) (override-Stores w cfg mode lawful)
      ]
      | inr q ↦ elim (Option-cases w.storage_backend) [
        | inl r ↦ rw (q, process_backend, r) tt
        | inr (b, r) ↦ rw (q, process_backend, r) (lawful.pool_stores b r)
      ]
    ]

Choice-cases :
    (x : BackendChoice)
    → ((e : ChunkFailure) × (x ≡ unavailable e)) ⊎ ((b : StorageBackend) × (x ≡ available b))
Choice-cases (unavailable e) = inl (e, refl)
Choice-cases (available b) = inr (b, refl)

-- Where the backends that a job can get keep the laws of a store unless they are a shared mount, a job
-- of one chunk that runs in another mode than that of a shared mount changes no object but the result
-- of this chunk: plain, of a byte range, of a list of files or compound, and whether it succeeds or
-- fails.
pub chunk-others :
    (w : World) (m : Machine) (c : Cache) (j : Job) (p nested : ProcessPayload) (kept : Tree)
    (k : String) (s : Objects)
    → IsLawful w
    → IsUnmounted w j (process_mode j (fill_payload p nested))
    → result_key (fill_payload p nested) ≢ k
    → lookup k (objects_after (execute_process_chunk w m c j p nested kept s)) ≡ lookup k s
unfolding execute_process_chunk
chunk-others w m c j p nested kept k s lawful unmounted h =
    let q = fill_payload p nested in
    let mode = process_mode j q in
    elim (Bool-cases (q.chunk_id == "" && q.dataset_id == "")) [
      | inl e ↦ rw (e, execute_process_chunk) refl
      | inr e ↦ elim (Choice-cases (process_backend w j mode)) [
        | inl (why, r) ↦ rw (e, execute_process_chunk, r) refl
        | inr (b, r) ↦
            let store : IsStore b =
              subst Stores r (backend-Stores w j mode lawful)
                (reconcile-unmounted b mode (unmounted b r)) in
            rw (e, execute_process_chunk, r)
              (with-others b store k m c j q (reconcile b mode) kept s h)
      ]
    ]
