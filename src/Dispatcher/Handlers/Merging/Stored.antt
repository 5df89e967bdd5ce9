-- ===== src/Dispatcher/Handlers/Merging/Stored.antt =====
-- What a merge in the backend leaves there.
use sentrazero.Base.{
  ℕ, ◌≡◌, ◌≢◌, ◌⊎◌, inl, inr, refl, sym, ap, ◌∙◌, String, true, false, Option, none, some, List, [],
  ◌∷◌, ◌++◌, arith, ◌==◌, eq_iff, Bool-cases, Option-cases,
}
use sentrazero.Base.Dict.{lookup}
use sentrazero.Storage.Keys.{PathType, merged-ne-result, merged-ne-chunk}
use sentrazero.Storage.Backends.{
  Bytes, Objects, StorageBackend, StorageConfig, IsStore, new_backend, refused, unknown_mode,
  normalize_storage_mode,
}
use sentrazero.Base.Letters.{to_lower}
use sentrazero.Dispatcher.Handlers.Paths.{first_non_empty}
use sentrazero.Dispatcher.Handlers.Merging.{
  World, MergePayload, MergeChunk, MergeFailure, Result, ok, err, stored, failed, refusal,
  backend_of, override_backend, override_mode, is_concat_merge, key_of, read_results, concat,
  merge_readers, delete_chunks, write_merged, execute_concat_merge, remote_merge, use_s3_merge,
  merge_with, execute_merge_dataset, no_new_backend, no_storage_config,
}

-- The results of the chunks, one after the other, where the backend holds all of them.
unfoldable pub results_in : MergePayload → List MergeChunk → Objects → Option Bytes
results_in p [] s = some []
results_in p (c ∷ cs) s = elim (lookup (key_of p c.chunk_index PathType.result) s) [
  | none ↦ none
  | some bytes ↦ elim (results_in p cs s) [ none ↦ none | some rest ↦ some (bytes ++ rest) ]
]

-- The path is none of the payload's objects.
abbrev pub Outside : MergePayload → String → Type 0
Outside p j = (i : ℕ) (kind : PathType) → key_of p i kind ≢ j

pub apart : (k j : String) → k ≢ j → (k == j) ≡ false
apart k j h = elim (Bool-cases (k == j)) [ inl e ↦ absurd (h ((eq_iff k j).0 e)) | inr e ↦ e ]

pub Result-cases {ℓ} :
    {A : Type ℓ} (x : Result A) → ((e : MergeFailure) × (x ≡ err e)) ⊎ ((a : A) × (x ≡ ok a))
Result-cases (err e) = inl (e, refl)
Result-cases (ok a) = inr (a, refl)

merge_readers-ok :
    (readers : List Bytes) (bytes : Bytes)
    → merge_readers readers ≡ ok bytes
    → concat readers ≡ bytes
unfolding merge_readers
merge_readers-ok [] bytes h = cc
merge_readers-ok (x ∷ readers) bytes h = cc

module _ (b : StorageBackend) (store : IsStore b) (p : MergePayload) where
  read_results-held :
      (cs : List MergeChunk) (s : Objects) (readers : List Bytes)
      → read_results b p cs s ≡ ok readers
      → results_in p cs s ≡ some (concat readers)
  unfolding read_results results_in concat
  read_results-held [] s readers h = ground arith
  read_results-held (c ∷ cs) s readers h =
      let k = key_of p c.chunk_index PathType.result in
      elim (Option-cases (b.read_object k s)) [
        | inl e ↦ ground (arith, e)
        | inr (bytes, e) ↦ elim (Result-cases (read_results b p cs s)) [
          | inl (why, r) ↦ ground (arith, e, r)
          | inr (rest, r) ↦
              ground (arith, e, r, store.read-held k s bytes e, read_results-held cs s rest r)
        ]
      ]

  delete_chunks-others :
      (cs : List MergeChunk) (s : Objects) (j : String)
      → ((i : ℕ) → key_of p i PathType.result ≢ j)
      → ((i : ℕ) → key_of p i PathType.chunk ≢ j)
      → lookup j (delete_chunks b p cs s) ≡ lookup j s
  unfolding delete_chunks
  delete_chunks-others [] s j h g = refl
  delete_chunks-others (c ∷ cs) s j h g =
      let k = key_of p c.chunk_index PathType.result in
      let l = key_of p c.chunk_index PathType.chunk in
      let after = (b.delete_object k s).1 in
      delete_chunks-others cs (b.delete_object l after).1 j h g
      ∙ store.delete-others l j after (apart l j (g c.chunk_index))
      ∙ store.delete-others k j s (apart k j (h c.chunk_index))

  -- After a merge that is stored, the merged object holds the results, and what is not the dataset's
  -- is as it was.
  abbrev Merged : Objects → Objects → Type 0
  Merged s t =
      (bytes : Bytes) × (results_in p p.chunks s ≡ some bytes)
      × (lookup (key_of p 0 PathType.merged) t ≡ some bytes)
      × ((j : String) → Outside p j → lookup j t ≡ lookup j s)

  write_merged-stored :
      (bytes : Bytes) (s t : Objects)
      → results_in p p.chunks s ≡ some bytes
      → write_merged b p bytes s ≡ (stored, t)
      → Merged s t
  unfolding write_merged
  write_merged-stored bytes s t r h =
      let k = key_of p 0 PathType.merged in
      let after = (b.write_object k bytes s).1 in
      elim (Bool-cases (b.write_object k bytes s).0) [
        | inr e ↦ ground (arith, e)
        | inl e ↦
            let same : delete_chunks b p p.chunks after ≡ t = ground (arith, e) in
            (
              bytes,
              r,
              ap (lookup k) (sym same)
                  ∙ delete_chunks-others p.chunks after k
                      (λ i q. merged-ne-result p.dataset_id p.dataset_slug 0 i (sym q))
                      (λ i q. merged-ne-chunk p.dataset_id p.dataset_slug 0 i (sym q))
                  ∙ store.write-held k bytes s e,
              λ j o.
                  ap (lookup j) (sym same)
                  ∙ delete_chunks-others p.chunks after j (λ i. o i PathType.result)
                      (λ i. o i PathType.chunk)
                  ∙ store.write-others k j bytes s (apart k j (o 0 PathType.merged)),
            )
      ]

  -- A merge that fails may have written the merged object, and nothing else.
  write_merged-failed :
      (bytes : Bytes) (s t : Objects) (e : MergeFailure) (j : String)
      → write_merged b p bytes s ≡ (failed e, t)
      → key_of p 0 PathType.merged ≢ j
      → lookup j t ≡ lookup j s
  unfolding write_merged
  write_merged-failed bytes s t e j h o =
      let k = key_of p 0 PathType.merged in
      ground (arith, store.write-others k j bytes s (apart k j o))

  concat-stored : (s t : Objects) → execute_concat_merge b p s ≡ (stored, t) → Merged s t
  unfolding execute_concat_merge
  concat-stored s t h = elim (Result-cases (read_results b p p.chunks s)) [
    | inl (why, r) ↦ ground (arith, r)
    | inr (readers, r) ↦
        write_merged-stored (concat readers) s t (read_results-held p.chunks s readers r)
          (ground (arith, r))
  ]

  concat-failed :
      (s t : Objects) (e : MergeFailure) (j : String)
      → execute_concat_merge b p s ≡ (failed e, t)
      → key_of p 0 PathType.merged ≢ j
      → lookup j t ≡ lookup j s
  unfolding execute_concat_merge
  concat-failed s t e j h o = elim (Result-cases (read_results b p p.chunks s)) [
    | inl (why, r) ↦ ground (arith, r)
    | inr (readers, r) ↦ write_merged-failed (concat readers) s t e j (ground (arith, r)) o
  ]

  remote-stored : (s t : Objects) → remote_merge b p s ≡ (stored, t) → Merged s t
  unfolding remote_merge
  remote-stored s t h = elim (Result-cases (read_results b p p.chunks s)) [
    | inl (why, r) ↦ ground (arith, r)
    | inr (readers, r) ↦ elim (Result-cases (merge_readers readers)) [
      | inl (why, m) ↦ ground (arith, r, m)
      | inr (bytes, m) ↦
          write_merged-stored bytes s t
            (read_results-held p.chunks s readers r ∙ ap some (merge_readers-ok readers bytes m))
            (ground (arith, r, m))
    ]
  ]

  remote-failed :
      (s t : Objects) (e : MergeFailure) (j : String)
      → remote_merge b p s ≡ (failed e, t)
      → key_of p 0 PathType.merged ≢ j
      → lookup j t ≡ lookup j s
  unfolding remote_merge
  remote-failed s t e j h o = elim (Result-cases (read_results b p p.chunks s)) [
    | inl (why, r) ↦ ground (arith, r)
    | inr (readers, r) ↦ elim (Result-cases (merge_readers readers)) [
      | inl (why, m) ↦ ground (arith, r, m)
      | inr (bytes, m) ↦ write_merged-failed bytes s t e j (ground (arith, r, m)) o
    ]
  ]

  merge_with-stored : (w : World) (s t : Objects) → merge_with w b p s ≡ (stored, t) → Merged s t
  unfolding merge_with
  merge_with-stored w s t h = elim (Bool-cases (is_concat_merge p)) [
    | inl c ↦ concat-stored s t (ground (arith, c))
    | inr c ↦ elim (Bool-cases (use_s3_merge b p)) [
      | inl u ↦ remote-stored s t (ground (arith, c, u))
      | inr u ↦ ground (arith, c, u)
    ]
  ]

  merge_with-failed :
      (w : World) (s t : Objects) (e : MergeFailure) (j : String)
      → merge_with w b p s ≡ (failed e, t)
      → key_of p 0 PathType.merged ≢ j
      → lookup j t ≡ lookup j s
  unfolding merge_with
  merge_with-failed w s t e j h o = elim (Bool-cases (is_concat_merge p)) [
    | inl c ↦ concat-failed s t e j (ground (arith, c)) o
    | inr c ↦ elim (Bool-cases (use_s3_merge b p)) [
      | inl u ↦ remote-failed s t e j (ground (arith, c, u)) o
      | inr u ↦ ground (arith, c, u)
    ]
  ]

-- Where the backend of the merge is a store and the handler says that the merge is stored, the merged
-- object holds the results of the chunks as the backend held them, one after the other in the order
-- of the payload, and an object that is neither the dataset's merged object nor one of its chunks or
-- results is as it was.
pub stored_merge_lem :
    (w : World) (p : MergePayload) (b : StorageBackend) (s t : Objects)
    → IsStore b
    → backend_of w p ≡ ok b
    → execute_merge_dataset w p s ≡ (stored, t)
    → (bytes : Bytes) × (results_in p p.chunks s ≡ some bytes)
      × (lookup (key_of p 0 PathType.merged) t ≡ some bytes)
      × ((j : String) → Outside p j → lookup j t ≡ lookup j s)
unfolding execute_merge_dataset
stored_merge_lem w p b s t store h g = elim (Option-cases (refusal p)) [
  | inl r ↦ merge_with-stored b store p w s t (ground (arith, r, h))
  | inr (e, r) ↦ ground (arith, r)
]

-- A failure before a merge of local files is called.
pub refused_merge_lem :
    (w : World) (p : MergePayload) (b : StorageBackend) (s t : Objects) (e : MergeFailure)
    (j : String)
    → IsStore b
    → backend_of w p ≡ ok b
    → execute_merge_dataset w p s ≡ (failed e, t)
    → key_of p 0 PathType.merged ≢ j
    → lookup j t ≡ lookup j s
unfolding execute_merge_dataset
refused_merge_lem w p b s t e j store h g o = elim (Option-cases (refusal p)) [
  | inl r ↦ merge_with-failed b store p w s t e j (ground (arith, r, h)) o
  | inr (x, r) ↦ ground (arith, r)
]

override-refused :
    (w : World) (p : MergePayload) (cfg : StorageConfig)
    → is_concat_merge p ≡ true
    → (new_backend w.mount_path (record cfg { storage_mode = override_mode p cfg }))
      ≡ refused unknown_mode
unfolding new_backend override_mode first_non_empty normalize_storage_mode to_lower
override-refused w p cfg h = elim (Bool-cases (p.strategy == "byte_range")) [
  | inl e ↦ rw ((eq_iff p.strategy "byte_range").0 e) refl
  | inr e ↦ rw ((eq_iff p.strategy "file_per_chunk").0 (ground (arith, e))) refl
]

-- A merge of byte ranges or of one file for each chunk that names a storage configuration fails,
-- whatever the configuration is, and leaves the objects as they were.
pub concat_config_refused :
    (w : World) (p : MergePayload) (s : Objects)
    → is_concat_merge p ≡ true
    → p.storage_config_id ≢ ""
    → (e : MergeFailure) × (execute_merge_dataset w p s ≡ (failed e, s))
unfolding execute_merge_dataset backend_of override_backend
concat_config_refused w p s h g = elim (Option-cases (refusal p)) [
  | inr (e, r) ↦ (e, rw (r, execute_merge_dataset) refl)
  | inl r ↦ elim (Option-cases (w.get_config_by_id p.storage_config_id)) [
    | inl c ↦ (no_storage_config, ground (arith, r, c, apart p.storage_config_id "" g))
    | inr (cfg, c) ↦ (
      no_new_backend,
      ground (arith, r, c, apart p.storage_config_id "" g, override-refused w p cfg h),
    )
  ]
]
