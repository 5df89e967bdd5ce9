-- ===== src/Dispatcher/Handlers/Datasets.antt =====
-- The byte range jobs of a dataset and the merge after them, over one backend that is no shared mount:
-- executeProcessChunkByteRange and executeMergeDataset, one after the other.
use sentrazero.Base.{
  ℕ, ◌+◌, ◌-◌, ◌≤◌, ◌≡◌, ◌≢◌, refl, sym, ap, ◌∙◌, String, false, Option, none, some, List, [], ◌∷◌,
  ◌++◌, map, length, take, drop, take-append-drop, drop-drop, take_all, arith, ◌==◌, Option-cases,
  inl, inr,
}
use sentrazero.Base.Dict.{lookup}
use sentrazero.Storage.Keys.{PathType, get_remote_path_with_slug, result_key_inj}
use sentrazero.Storage.Backends.{Bytes, Objects, StorageBackend, IsStore}
use sentrazero.Dispatcher.Handlers.Merging.{
  World, MergePayload, MergeChunk, ok, stored, backend_of, key_of, concat, execute_merge_dataset,
}
use sentrazero.Dispatcher.Handlers.Merging.Stored.{results_in, stored_merge_lem}
use sentrazero.Dispatcher.Handlers.Chunks.{Machine, Job, ProcessPayload, ChunkFailure, plugin_of}
use sentrazero.Dispatcher.Handlers.Chunks.Ranges.{section, execute_process_chunk_byte_range}
use sentrazero.Dispatcher.Handlers.Chunks.Results.{byte_range-others}
use sentrazero.Dispatcher.Handlers.Chunks.Pipeline.{Transforms, IsReadable, byte_range-stored}

-- The part of the source that a chunk is.
pub record ByteRange : Type 0 where
  pub index : ℕ
  pub from : ℕ
  pub upto : ℕ

abbrev pub payload_of : ProcessPayload → ByteRange → ProcessPayload
payload_of p r = record p {
  chunk_index = r.index;
  byte_range_start = r.from;
  byte_range_end = r.upto;
}

-- One job after the other, up to the first failure.
unfoldable pub process_ranges :
    Machine
    → StorageBackend
    → Job
    → ProcessPayload
    → String
    → List ByteRange
    → Objects
    → Option ChunkFailure × Objects
process_ranges m b j p mode [] s = (none, s)
process_ranges m b j p mode (r ∷ rs) s =
    elim (execute_process_chunk_byte_range m b j (payload_of p r) mode s).0 [
      | some e ↦ (some e, (execute_process_chunk_byte_range m b j (payload_of p r) mode s).1)
      | none ↦
          process_ranges m b j p mode rs
            (execute_process_chunk_byte_range m b j (payload_of p r) mode s).1
    ]

abbrev Unlisted : ℕ → List ByteRange → Type 0
Unlisted i [] = Unit {0}
Unlisted i (r ∷ rs) = (r.index ≢ i) × Unlisted i rs

-- No two ranges have one chunk index.
abbrev pub Distinct : List ByteRange → Type 0
Distinct [] = Unit {0}
Distinct (r ∷ rs) = Unlisted r.index rs × Distinct rs

-- The ranges follow each other, from one offset up to another.
abbrev pub Consecutive : ℕ → ℕ → List ByteRange → Type 0
Consecutive from upto [] = from ≡ upto
Consecutive from upto (r ∷ rs) = (r.from ≡ from) × (from ≤ r.upto) × Consecutive r.upto upto rs

module _ (m : Machine) (b : StorageBackend) (j : Job) (p : ProcessPayload) (mode : String) where
  abbrev key : ℕ → String
  key i = get_remote_path_with_slug p.dataset_id p.dataset_slug i PathType.result

  -- A path that is no result of the dataset keeps its object.
  process-outside :
      (rs : List ByteRange) (s : Objects) (k : String)
      → IsStore b
      → ((i : ℕ) → key i ≢ k)
      → lookup k (process_ranges m b j p mode rs s).1 ≡ lookup k s
  unfolding process_ranges
  process-outside [] s k store h = refl
  process-outside (r ∷ rs) s k store h =
      let after = execute_process_chunk_byte_range m b j (payload_of p r) mode s in
      let kept = byte_range-others b store k m j (payload_of p r) mode s (h r.index) in
      elim (Option-cases after.0) [
        | inl e ↦ rw (e, process_ranges) (process-outside rs after.1 k store h ∙ kept)
        | inr (x, e) ↦ rw (e, process_ranges) kept
      ]

  -- So does the result of a chunk that is not among the ranges.
  process-Unlisted :
      (rs : List ByteRange) (s : Objects) (i : ℕ)
      → IsStore b
      → Unlisted i rs
      → lookup (key i) (process_ranges m b j p mode rs s).1 ≡ lookup (key i) s
  unfolding process_ranges
  process-Unlisted [] s i store h = refl
  process-Unlisted (r ∷ rs) s i store (n, h) =
      let after = execute_process_chunk_byte_range m b j (payload_of p r) mode s in
      let kept =
        byte_range-others b store (key i) m j (payload_of p r) mode s
          (λ q. n (result_key_inj p.dataset_id p.dataset_slug r.index i q)) in
      elim (Option-cases after.0) [
        | inl e ↦ rw (e, process_ranges) (process-Unlisted rs after.1 i store h ∙ kept)
        | inr (x, e) ↦ rw (e, process_ranges) kept
      ]

  -- The results of the ranges are what the plugin made of their parts.
  abbrev AreMade : (Bytes → Bytes) → Bytes → List ByteRange → Objects → Type 0
  AreMade g source [] t = Unit {0}
  AreMade g source (r ∷ rs) t =
      (lookup (key r.index) t ≡ some (g (section source r.from r.upto))) × AreMade g source rs t

  process-AreMade :
      (g : Bytes → Bytes) (source : Bytes) (rs : List ByteRange) (s t : Objects)
      → IsStore b
      → IsReadable b
      → Transforms m (plugin_of m j p) g
      → (mode == "shared_mount") ≡ false
      → lookup p.source_file_path s ≡ some source
      → ((i : ℕ) → key i ≢ p.source_file_path)
      → Distinct rs
      → process_ranges m b j p mode rs s ≡ (none, t)
      → AreMade g source rs t
  unfolding process_ranges
  process-AreMade g source [] s t store readable plugin e held apart d h = tt
  process-AreMade g source (r ∷ rs) s t store readable plugin e held apart (fresh, d) h =
      let after = execute_process_chunk_byte_range m b j (payload_of p r) mode s in
      elim (Option-cases after.0) [
        | inr (x, q) ↦ absurd (ground (arith, q, h))
        | inl q ↦
            let rest : process_ranges m b j p mode rs after.1 ≡ (none, t) = ground (arith, q, h) in
            let made =
              byte_range-stored m b j (payload_of p r) mode g source s after.1 store readable plugin
                e held (ap (λ x. (x, after.1)) q) in
            let outside =
              byte_range-others b store p.source_file_path m j (payload_of p r) mode s
                (apart r.index) in
            (
              ap (λ x. lookup (key r.index) x.1) (sym rest)
                  ∙ process-Unlisted rs after.1 r.index store fresh
                  ∙ made,
              process-AreMade g source rs after.1 t store readable plugin e (outside ∙ held) apart d
                  rest,
            )
      ]

abbrev parts : (Bytes → Bytes) → Bytes → List ByteRange → List Bytes
parts g source [] = []
parts g source (r ∷ rs) = g (section source r.from r.upto) ∷ parts g source rs

AreMade-concat :
    (m : Machine) (b : StorageBackend) (j : Job) (p : ProcessPayload) (mode : String)
    (g : Bytes → Bytes) (source : Bytes) (q : MergePayload) (cs : List MergeChunk)
    (rs : List ByteRange) (t : Objects)
    → q.dataset_id ≡ p.dataset_id
    → q.dataset_slug ≡ p.dataset_slug
    → map (λ c. c.chunk_index) cs ≡ map (λ r. r.index) rs
    → AreMade m b j p mode g source rs t
    → results_in q cs t ≡ some (concat (parts g source rs))
unfolding results_in concat
AreMade-concat m b j p mode g source q [] [] t a c h k = refl
AreMade-concat m b j p mode g source q [] (r ∷ rs) t a c h k = cc
AreMade-concat m b j p mode g source q (x ∷ cs) [] t a c h k = cc
AreMade-concat m b j p mode g source q (x ∷ cs) (r ∷ rs) t a c h (made, k) =
    ground (arith, a, c, made, AreMade-concat m b j p mode g source q cs rs t a c (cc) k)

-- Byte range jobs of different chunks that all succeed over a store whose objects can be read and that
-- is no shared mount, and a merge of these chunks in the same order that is stored: the merged object
-- is what the plugin made of the parts of the source, one after the other.
pub ranges_then_merge :
    (m : Machine) (b : StorageBackend) (j : Job) (p : ProcessPayload) (mode : String)
    (g : Bytes → Bytes) (source : Bytes) (rs : List ByteRange) (w : World) (q : MergePayload)
    (s t u : Objects)
    → IsStore b
    → IsReadable b
    → Transforms m (plugin_of m j p) g
    → (mode == "shared_mount") ≡ false
    → lookup p.source_file_path s ≡ some source
    → ((i : ℕ)
        → get_remote_path_with_slug p.dataset_id p.dataset_slug i PathType.result
          ≢ p.source_file_path)
    → Distinct rs
    → process_ranges m b j p mode rs s ≡ (none, t)
    → q.dataset_id ≡ p.dataset_id
    → q.dataset_slug ≡ p.dataset_slug
    → map (λ c. c.chunk_index) q.chunks ≡ map (λ r. r.index) rs
    → backend_of w q ≡ ok b
    → execute_merge_dataset w q t ≡ (stored, u)
    → lookup (key_of q 0 PathType.merged) u ≡ some (concat (parts g source rs))
ranges_then_merge m b j p mode g source rs w q s t u store readable plugin e held apart d done a c
      indices chosen merged =
    let results =
      process-AreMade m b j p mode g source rs s t store readable plugin e held apart d done in
    let (bytes, found, held', _) = stored_merge_lem w q b t u store chosen merged in
    held' ∙ sym found ∙ AreMade-concat m b j p mode g source q q.chunks rs t a c indices results

Consecutive-le : (from upto : ℕ) (rs : List ByteRange) → Consecutive from upto rs → from ≤ upto
Consecutive-le from upto [] h = omega arith
Consecutive-le from upto (r ∷ rs) (a, b, h) = omega (arith, Consecutive-le r.upto upto rs h)

section-append :
    (source : Bytes) (from mid upto : ℕ)
    → from ≤ mid
    → mid ≤ upto
    → section source from mid ++ section source mid upto ≡ section source from upto
section-append source from mid upto h k =
    let there : from + (mid - from) ≡ mid = omega arith in
    let lengths : (mid - from) + (upto - mid) ≡ upto - from = omega arith in
    ap (λ xs. take (mid - from) (drop from source) ++ take (upto - mid) xs)
      (ap (λ i. drop i source) (sym there) ∙ sym (drop-drop (mid - from) from source))
    ∙ take-append-drop (mid - from) (upto - mid) (drop from source)
    ∙ ap (λ i. take i (drop from source)) lengths

-- The parts of consecutive ranges are, one after the other, the part from the first to the last.
parts-Consecutive :
    (source : Bytes) (from upto : ℕ) (rs : List ByteRange)
    → Consecutive from upto rs
    → concat (parts (λ x. x) source rs) ≡ section source from upto
unfolding concat
parts-Consecutive source from upto [] h = ap (λ i. take i (drop from source)) {x = 0} (omega arith)
parts-Consecutive source from upto (r ∷ rs) (a, b, h) = rw a (
    ap (λ xs. section source from r.upto ++ xs) (parts-Consecutive source r.upto upto rs h)
    ∙ section-append source from r.upto upto b (Consecutive-le r.upto upto rs h))

-- Where moreover the plugin copies its input and the ranges follow each other from the beginning to the
-- end of the source, the merged object is the source.
pub copied_source_merges :
    (m : Machine) (b : StorageBackend) (j : Job) (p : ProcessPayload) (mode : String)
    (source : Bytes) (rs : List ByteRange) (w : World) (q : MergePayload) (s t u : Objects)
    → IsStore b
    → IsReadable b
    → Transforms m (plugin_of m j p) (λ x. x)
    → (mode == "shared_mount") ≡ false
    → lookup p.source_file_path s ≡ some source
    → ((i : ℕ)
        → get_remote_path_with_slug p.dataset_id p.dataset_slug i PathType.result
          ≢ p.source_file_path)
    → Distinct rs
    → Consecutive 0 (length source) rs
    → process_ranges m b j p mode rs s ≡ (none, t)
    → q.dataset_id ≡ p.dataset_id
    → q.dataset_slug ≡ p.dataset_slug
    → map (λ c. c.chunk_index) q.chunks ≡ map (λ r. r.index) rs
    → backend_of w q ≡ ok b
    → execute_merge_dataset w q t ≡ (stored, u)
    → lookup (key_of q 0 PathType.merged) u ≡ some source
copied_source_merges m b j p mode source rs w q s t u store readable plugin e held apart d cover
      done a c indices chosen merged =
    ranges_then_merge m b j p mode (λ x. x) source rs w q s t u store readable plugin e held apart d
      done a c indices chosen merged
    ∙ ap some (parts-Consecutive source 0 (length source) rs cover)
    ∙ ap some (take_all (length source - 0) source (omega arith))
