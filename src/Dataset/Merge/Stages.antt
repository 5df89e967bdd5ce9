-- ===== src/Dataset/Merge/Stages.antt =====
-- The stages of a tree merge partition the active chunks in the order of their indices.
use mathlib.Core.List.{Perm, append-nil, append_assoc}
use mathlib.Core.List.Perm
use sentrazero.Base.{ℕ, ◌≤◌, ◌<◌, ◌≡◌, refl, List, [], ◌∷◌, ◌++◌, length, arith, length-append}
use sentrazero.Dataset.Merge.{ChunkInfo, max_chunks_per_pass}
use sentrazero.Dataset.Merge.Plan.{active, place, by_index, plan_stages, plan_tree_merge}

pub flatten : List (List ChunkInfo) → List ChunkInfo
flatten [] = []
flatten (s ∷ ss) = s ++ flatten ss

-- Stages of 1 to 64 chunks.
abbrev pub AreStages : List (List ChunkInfo) → Type 0
AreStages [] = Unit {0}
AreStages (s ∷ ss) = (0 < length s) × (length s ≤ max_chunks_per_pass) × AreStages ss

flatten-plan :
    (current : List ChunkInfo) (c : ChunkInfo) (cs : List ChunkInfo)
    → flatten (plan_stages current (c ∷ cs)) ≡ current ++ c ∷ cs
unfolding plan_stages flatten
flatten-plan current c [] = append-nil (current ++ c ∷ [])
flatten-plan current c (d ∷ cs) = ground (
  arith,
  flatten-plan [] d cs,
  flatten-plan (current ++ c ∷ []) d cs,
  append_assoc current (c ∷ []) (d ∷ cs),
)

plan-AreStages :
    (current : List ChunkInfo) (c : ChunkInfo) (cs : List ChunkInfo)
    → length current < max_chunks_per_pass
    → AreStages (plan_stages current (c ∷ cs))
unfolding plan_stages
plan-AreStages current c [] h = (
  omega (arith, length-append current (c ∷ [])),
  omega (arith, length-append current (c ∷ [])),
  tt,
)
plan-AreStages current c (d ∷ cs) h = ground (
  arith,
  length-append current (c ∷ []),
  plan-AreStages [] d cs,
  plan-AreStages (current ++ c ∷ []) d cs,
)

-- Every later index is at least `n`.
abbrev pub AtLeast : ℕ → List ChunkInfo → Type 0
AtLeast n [] = Unit {0}
AtLeast n (c ∷ cs) = (n ≤ c.index) × AtLeast n cs

abbrev pub IsSorted : List ChunkInfo → Type 0
IsSorted [] = Unit {0}
IsSorted (c ∷ cs) = AtLeast c.index cs × IsSorted cs

AtLeast-mono : {m n : ℕ} (cs : List ChunkInfo) → m ≤ n → AtLeast n cs → AtLeast m cs
AtLeast-mono [] h k = tt
AtLeast-mono (c ∷ cs) h k = (omega arith, AtLeast-mono cs h k.1)

place-AtLeast :
    (n : ℕ) (c : ChunkInfo) (cs : List ChunkInfo)
    → n ≤ c.index
    → AtLeast n cs
    → AtLeast n (place c cs)
unfolding place
place-AtLeast n c [] h k = (h, tt)
place-AtLeast n c (d ∷ cs) h k = ground (arith, place-AtLeast n c cs h k.1)

place-IsSorted : (c : ChunkInfo) (cs : List ChunkInfo) → IsSorted cs → IsSorted (place c cs)
unfolding place
place-IsSorted c [] h = (tt, tt)
place-IsSorted c (d ∷ cs) h = ground (
  arith,
  place-IsSorted c cs h.1,
  place-AtLeast d.index c cs,
  AtLeast-mono {m = c.index} {n = d.index} cs,
)

pub by_index-IsSorted : (cs : List ChunkInfo) → IsSorted (by_index cs)
unfolding by_index
by_index-IsSorted [] = tt
by_index-IsSorted (c ∷ cs) = place-IsSorted c (by_index cs) (by_index-IsSorted cs)

place-perm : (c : ChunkInfo) (cs : List ChunkInfo) → Perm (place c cs) (c ∷ cs)
unfolding place
place-perm c [] = Perm.refl (c ∷ [])
place-perm c (d ∷ cs) =
    let later = Perm.trans (Perm.cons d (place-perm c cs)) (Perm.swap c d cs) in
    let at_once = Perm.refl (c ∷ d ∷ cs) in ground (arith, later, at_once)

pub by_index-perm : (cs : List ChunkInfo) → Perm (by_index cs) cs
unfolding by_index
by_index-perm [] = Perm.refl []
by_index-perm (c ∷ cs) = Perm.trans (place-perm c (by_index cs)) (Perm.cons c (by_index-perm cs))

flatten-plan_all : (cs : List ChunkInfo) → flatten (plan_stages [] cs) ≡ cs
unfolding plan_stages flatten
flatten-plan_all [] = refl
flatten-plan_all (c ∷ cs) = flatten-plan [] c cs

plan-AreStages_all : (cs : List ChunkInfo) → AreStages (plan_stages [] cs)
unfolding plan_stages
plan-AreStages_all [] = tt
plan-AreStages_all (c ∷ cs) = plan-AreStages [] c cs (omega arith)

-- A plan's stages hold 1 to 64 chunks each; put together they are the active chunks, each once, in
-- the order of their indices.
pub plan_tree_merge_lem :
    (chunks : List ChunkInfo)
    → AreStages (plan_tree_merge chunks)
      × IsSorted (flatten (plan_tree_merge chunks))
      × Perm (flatten (plan_tree_merge chunks)) (active chunks)
unfolding plan_tree_merge
plan_tree_merge_lem chunks =
    let cs = by_index (active chunks) in
    (
      plan-AreStages_all cs,
      rw (flatten-plan_all cs) (by_index-IsSorted (active chunks)),
      rw (flatten-plan_all cs) (by_index-perm (active chunks)),
    )
