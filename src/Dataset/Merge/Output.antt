-- ===== src/Dataset/Merge/Output.antt =====
-- What a merge that is not interrupted writes.
use mathlib.Core.List.{append-nil, append_assoc}
use sentrazero.Base.{
  ℕ, suc, ◌+◌, ◌≤◌, ◌<◌, ◌≡◌, refl, String, Bool, true, false, Option, none, some, List, [], ◌∷◌,
  ◌++◌, length, ltb, arith, length-append, ap, ◌∙◌, Bool-cases, inl, inr, ◌==◌,
}
use sentrazero.Dataset.Merge.{ChunkInfo}
use sentrazero.Dataset.Merge.Loop.{
  ChunkFile, missing, inaccessible, directory, unopenable, broken, content, Files, Progress, Next,
  go, stop, skip, record_chunk, copy_chunk, merge_chunk, merge_loop, Setting, lacks_space,
}

-- The bytes that a chunk has to contribute: none where its path is refused or nothing is there.
unfoldable pub bytes_in : Files → ChunkInfo → List ℕ
bytes_in e c = elim (e.resolve c) [
  | none ↦ []
  | some path ↦ elim (e.file path) [
    | content bytes ↦ bytes
    | missing ↦ []
    | inaccessible ↦ []
    | directory ↦ []
    | unopenable ↦ []
    | broken bytes ↦ []
  ]
]

unfoldable pub all_bytes : Files → List ChunkInfo → List ℕ
all_bytes e [] = []
all_bytes e (c ∷ cs) = bytes_in e c ++ all_bytes e cs

-- From `s` to `t` these bytes are appended and this many chunks are counted, merged or skipped.
abbrev pub Writes : List ℕ → ℕ → Progress → Progress → Type 0
Writes bytes n s t =
    (t.partial ≡ s.partial ++ bytes)
    × (t.bytes_written ≡ s.bytes_written + length bytes)
    × (t.merged_count + t.skipped_count ≡ s.merged_count + s.skipped_count + n)

-- One round that goes on: past the resumption point it appends the chunk's bytes.
round_lem :
    (e : Files) (resume_index i : ℕ) (c : ChunkInfo) (s t : Progress)
    → resume_index ≤ i
    → merge_chunk e resume_index i c s ≡ go t
    → Writes (bytes_in e c) 1 s t
unfolding merge_chunk copy_chunk record_chunk bytes_in
round_lem e resume_index i c s t h g = ground (arith, append-nil s.partial)

Writes-trans :
    (xs ys : List ℕ) (m n : ℕ) (s t u : Progress)
    → Writes xs m s t
    → Writes ys n t u
    → Writes (xs ++ ys) (m + n) s u
Writes-trans xs ys m n s t u (a, b, c) (a', b', c') = (
  a' ∙ ap (λ p. p ++ ys) a ∙ append_assoc s.partial xs ys,
  omega (arith, length-append xs ys),
  omega arith,
)

go_on :
    (n : Next) (later : Progress → Next) (t : Progress)
    → elim n [ go u ↦ later u | stop why u ↦ stop why u ] ≡ go t
    → (u : Progress) × (n ≡ go u) × (later u ≡ go t)
go_on (go u) later t g = (u, refl, g)
go_on (stop why u) later t g = cc

-- A loop that ends has made its first round and ends from there.
pub first_round :
    (e : Files) (resume_index i : ℕ) (c : ChunkInfo) (cs : List ChunkInfo) (s t : Progress)
    → merge_loop e resume_index i (c ∷ cs) s ≡ go t
    → (u : Progress) × (merge_chunk e resume_index i c s ≡ go u)
      × (merge_loop e resume_index (suc i) cs u ≡ go t)
unfolding merge_loop
first_round e r i c cs s t g = go_on (merge_chunk e r i c s) (λ u. merge_loop e r (suc i) cs u) t g

pub loop_lem :
    (e : Files) (resume_index i : ℕ) (cs : List ChunkInfo) (s t : Progress)
    → resume_index ≤ i
    → merge_loop e resume_index i cs s ≡ go t
    → Writes (all_bytes e cs) (length cs) s t
unfolding merge_loop all_bytes
loop_lem e r i [] s t h g = ground (arith, append-nil s.partial)
loop_lem e r i (c ∷ cs) s t h g =
    let (u, a, b) = first_round e r i c cs s t g in
    ground (
      arith,
      Writes-trans (bytes_in e c) (all_bytes e cs) 1 (length cs) s u t (round_lem e r i c s u h a)
          (loop_lem e r (suc i) cs u t (omega arith) b),
    )

abbrev pub copies : ChunkFile → Bool
copies (content bytes) = true
copies missing = true
copies inaccessible = false
copies directory = false
copies unopenable = false
copies (broken bytes) = false

-- The path is refused, nothing is there, or the whole file can be copied.
abbrev pub readable : Files → Option String → Bool
readable e none = true
readable e (some path) = copies (e.file path)

record-goes :
    (e : Files) (i : ℕ) (c : ChunkInfo) (bytes : List ℕ) (s : Progress)
    → e.syncs i ≡ true
    → (u : Progress) × (record_chunk e i c bytes s ≡ go u)
unfolding record_chunk
record-goes e i c bytes s b = rw b (_, refl)

copy-goes :
    (e : Files) (i : ℕ) (c : ChunkInfo) (x : ChunkFile) (s : Progress)
    → e.syncs i ≡ true
    → copies x ≡ true
    → (u : Progress) × (copy_chunk e i c x s ≡ go u)
unfolding copy_chunk
copy-goes e i c missing s b h = (skip s, refl)
copy-goes e i c (content []) s b h = (skip s, refl)
copy-goes e i c (content (x ∷ xs)) s b h = record-goes e i c (x ∷ xs) s b
copy-goes e i c _ s b h = cc

round_resumed :
    (e : Files) (r i : ℕ) (c : ChunkInfo) (s : Progress)
    → ltb i r ≡ true
    → merge_chunk e r i c s ≡ go (record s { merged_count = s.merged_count + 1 })
unfolding merge_chunk
round_resumed e r i c s l = rw l refl

abbrev copied : Files → ℕ → ChunkInfo → Option String → Progress → Next
copied e i c none s = go (skip s)
copied e i c (some path) s = copy_chunk e i c (e.file path) s

round_made :
    (e : Files) (r i : ℕ) (c : ChunkInfo) (s : Progress)
    → ltb i r ≡ false
    → e.alive i ≡ true
    → merge_chunk e r i c s ≡ copied e i c (e.resolve c) s
unfolding merge_chunk
round_made e r i c s l a = ground (arith)

resolved-goes :
    (e : Files) (i : ℕ) (c : ChunkInfo) (path : Option String) (s : Progress)
    → e.syncs i ≡ true
    → readable e path ≡ true
    → (u : Progress) × (copied e i c path s ≡ go u)
resolved-goes e i c none s b h = (skip s, refl)
resolved-goes e i c (some path) s b h = copy-goes e i c (e.file path) s b h

round-goes :
    (e : Files) (resume_index i : ℕ) (c : ChunkInfo) (s : Progress)
    → e.alive i ≡ true
    → e.syncs i ≡ true
    → readable e (e.resolve c) ≡ true
    → (u : Progress) × (merge_chunk e resume_index i c s ≡ go u)
round-goes e r i c s a b h = elim (Bool-cases (ltb i r)) [
  | inl l ↦ (record s { merged_count = s.merged_count + 1 }, round_resumed e r i c s l)
  | inr l ↦ rw (round_made e r i c s l a) (resolved-goes e i c (e.resolve c) s b h)
]

-- The rounds from `i` on meet no failure.
abbrev pub CanMerge : Files → ℕ → List ChunkInfo → Type 0
CanMerge e i [] = Unit {0}
CanMerge e i (c ∷ cs) =
    (e.alive i ≡ true)
    × (e.syncs i ≡ true)
    × (readable e (e.resolve c) ≡ true)
    × CanMerge e (suc i) cs

pub loop-goes :
    (e : Files) (resume_index i : ℕ) (cs : List ChunkInfo) (s : Progress)
    → CanMerge e i cs
    → (t : Progress) × (merge_loop e resume_index i cs s ≡ go t)
unfolding merge_loop
loop-goes e r i [] s h = (s, refl)
loop-goes e r i (c ∷ cs) s (a, b, d, h) =
    let (u, k) = round-goes e r i c s a b d in
    let (t, l) = loop-goes e r (suc i) cs u h in (t, rw (k, merge_loop) l)

-- What surrounds the loop answers well, and the disk has the room.
pub record IsReady (e : Setting) (cs : List ChunkInfo) : Type 0 where
  pub dataset : (e.dataset_id == "") ≡ false
  pub agent : (e.agent_id == "") ≡ false
  pub directory : e.makes_directory ≡ true
  pub room : lacks_space e cs ≡ false
  pub checkpoint : e.checkpoint_readable ≡ true
  pub opens : e.opens_partial ≡ true
  pub syncs : e.syncs_output ≡ true
  pub renames : e.renames ≡ true
  pub clears : e.clears_checkpoint ≡ true
  pub lasts : 0 < e.duration_ms
