-- ===== src/Base/Dict.antt =====
-- Go maps with string keys, as association lists. The order of iteration is the list's.
use Prim.Native.Nat.{ℕ, ◌+◌, ◌≤◌}
use Prim.Native.String.{String}
use mathlib.Core.Path.{◌≡◌, refl}
use mathlib.Core.Logic.{◌⊎◌}
use mathlib.Core.List.{List, [], ◌∷◌}
use mathlib.Core.Bool.{Bool}
use mathlib.Core.Option.{Option, none, some}
use native.Mathlib.Omega.{arith}
use text.Mathlib.Text.{◌==◌}
use text.Mathlib.TextEquality.{eq_iff}
use sentrazero.Base.Tests.{ltb, if◌then◌else◌}
use sentrazero.Base.Lists.{length}

abbrev pub Dict {ℓ} : Type ℓ → Type ℓ
Dict V = List (String × V)

module _ {ℓ} {V : Type ℓ} where
  -- `v, ok := m[k]`
  unfoldable pub lookup : String → Dict V → Option V
  lookup key [] = none
  lookup key ((n, x) ∷ entries) = if n == key then some x else lookup key entries

  -- `m[k] = v`
  unfoldable pub insert : String → V → Dict V → Dict V
  insert k v [] = (k, v) ∷ []
  insert k v ((j, w) ∷ m) = let rest = insert k v m in if j == k then (k, v) ∷ m else (j, w) ∷ rest

  -- `delete(m, k)`
  unfoldable pub delete : String → Dict V → Dict V
  delete k [] = []
  delete k ((j, v) ∷ m) = let rest = delete k m in if j == k then rest else (j, v) ∷ rest

  -- What a loop over the map keeps.
  unfoldable pub retain : (V → Bool) → Dict V → Dict V
  retain p [] = []
  retain p ((j, v) ∷ m) = let rest = retain p m in if p v then (j, v) ∷ rest else rest

  -- How many entries have the key: at most one in a map.
  unfoldable pub occurs : String → Dict V → ℕ
  occurs k [] = 0
  occurs k ((j, v) ∷ m) = (if j == k then 1 else 0) + occurs k m

  pub lookup-delete :
      (k j : String) (m : Dict V) → lookup j (delete k m) ≡ (if k == j then none else lookup j m)
  unfolding lookup delete
  lookup-delete k j [] = ground arith
  lookup-delete k j ((i, w) ∷ m) =
      ground (arith, eq_iff k j, eq_iff i k, eq_iff i j, lookup-delete k j m)

  pub lookup-insert :
      (key other : String) (x : V) (entries : Dict V)
      → lookup other (insert key x entries)
        ≡ (if key == other then some x else lookup other entries)
  unfolding lookup insert
  lookup-insert key other x [] = refl
  lookup-insert key other x ((n, y) ∷ entries) =
      ground
        (arith, lookup-insert key other x entries, eq_iff n other, eq_iff key other, eq_iff n key)

  pub occurs-insert :
      (k j : String) (v : V) (m : Dict V)
      → occurs j m ≡ 0 ⊎ occurs j m ≡ 1
      → occurs k m ≡ 0 ⊎ occurs k m ≡ 1
      → occurs j (insert k v m) ≡ (if k == j then 1 else occurs j m)
  unfolding occurs insert
  occurs-insert k j v [] h h' = ground arith
  occurs-insert k j v ((i, w) ∷ m) h h' =
      ground (arith, eq_iff k j, eq_iff i k, eq_iff i j, occurs-insert k j v m)

  pub occurs-delete :
      (k j : String) (m : Dict V) → occurs j (delete k m) ≡ (if k == j then 0 else occurs j m)
  unfolding occurs delete
  occurs-delete k j [] = ground arith
  occurs-delete k j ((i, w) ∷ m) =
      ground (arith, eq_iff k j, eq_iff i k, eq_iff i j, occurs-delete k j m)

  pub occurs-retain-le :
      (p : V → Bool) (j : String) (m : Dict V) → occurs j (retain p m) ≤ occurs j m
  unfolding occurs retain
  occurs-retain-le p j [] = omega arith
  occurs-retain-le p j ((i, w) ∷ m) = ground (arith, occurs-retain-le p j m)

  pub length-delete : (k : String) (m : Dict V) → length (delete k m) + occurs k m ≡ length m
  unfolding delete occurs
  length-delete k [] = refl
  length-delete k ((j, w) ∷ m) = ground (arith, length-delete k m)

  -- A new key adds one entry, and a present one none.
  pub length-insert :
      (k : String) (v : V) (m : Dict V)
      → length (insert k v m) ≡ length m + (if ltb 0 (occurs k m) then 0 else 1)
  unfolding insert occurs
  length-insert k v [] = refl
  length-insert k v ((j, w) ∷ m) = ground (arith, length-insert k v m)

  pub length-retain-le : (p : V → Bool) (m : Dict V) → length (retain p m) ≤ length m
  unfolding retain
  length-retain-le p [] = omega arith
  length-retain-le p ((i, w) ∷ m) = ground (arith, length-retain-le p m)

  pub lookup_absent : (k : String) (m : Dict V) → occurs k m ≡ 0 → lookup k m ≡ none
  unfolding occurs lookup
  lookup_absent k [] h = refl
  lookup_absent k ((i, w) ∷ m) h = ground (arith, lookup_absent k m)

  -- A filter on the values is a filter on the answers, where keys do not repeat.
  pub lookup-retain :
      (p : V → Bool) (j : String) (m : Dict V)
      → occurs j m ≤ 1
      → lookup j (retain p m)
        ≡ elim (lookup j m) [ none ↦ none | some v ↦ if p v then some v else none ]
  unfolding occurs lookup retain
  lookup-retain p j [] h = refl
  lookup-retain p j ((i, w) ∷ m) h = ground (
    arith,
    lookup-retain p j m,
    lookup_absent j m,
    lookup_absent j (retain p m),
    occurs-retain-le p j m,
  )
