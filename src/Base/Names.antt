-- ===== src/Base/Names.antt =====
-- Sets of names, `map[string]struct{}`, as lists without repetition, and maps from names.
use Prim.Native.Nat.{ℕ, ◌+◌, ◌<◌}
use Prim.Native.String.{String}
use mathlib.Core.Path.{◌≡◌, refl}
use mathlib.Core.List.{List, [], ◌∷◌, ◌++◌}
use mathlib.Core.Bool.{Bool, true, false}
use native.Mathlib.Omega.{arith}
use text.Mathlib.Text.{◌==◌}
use text.Mathlib.TextEquality.{eq_iff}
use sentrazero.Base.Tests.{if◌then◌else◌}

-- How often a name stands in a list.
unfoldable pub count : String → List String → ℕ
count k [] = 0
count k (x ∷ xs) = (if x == k then 1 else 0) + count k xs

-- `_, ok := m[k]`
unfoldable pub has : String → List String → Bool
has k [] = false
has k (x ∷ xs) = if x == k then true else has k xs

-- `m[k] = struct{}{}`
unfoldable pub put : String → List String → List String
unfolding has
put k xs = if has k xs then xs else k ∷ xs

-- `delete(m, k)`
unfoldable pub remove : String → List String → List String
remove k [] = []
remove k (x ∷ xs) = let rest = remove k xs in if x == k then rest else x ∷ rest

-- `len(m)`
unfoldable pub size : List String → ℕ
size [] = 0
size (x ∷ xs) = 1 + size xs

pub has-eq-false : (k : String) (xs : List String) → has k xs ≡ false → count k xs ≡ 0
unfolding has count
has-eq-false k [] h = refl
has-eq-false k (x ∷ xs) h = ground (arith, has-eq-false k xs, eq_iff x k)

pub has-eq-true : (k : String) (xs : List String) → has k xs ≡ true → 0 < count k xs
unfolding has count
has-eq-true k [] h = cc
has-eq-true k (x ∷ xs) h = ground (arith, has-eq-true k xs, eq_iff x k)

pub has-of-count : (k : String) (xs : List String) → count k xs ≡ 0 → has k xs ≡ false
unfolding has count
has-of-count k [] h = refl
has-of-count k (x ∷ xs) h = ground (arith, has-of-count k xs, eq_iff x k)

pub count-put :
    (j k : String) (xs : List String)
    → count k (put j xs)
      ≡ (if has j xs then count k xs else if j == k then count k xs + 1 else count k xs)
unfolding put count
count-put j k xs = ground (arith, eq_iff j k)

pub count-remove :
    (j k : String) (xs : List String) → count k (remove j xs) ≡ (if j == k then 0 else count k xs)
unfolding remove count
count-remove j k [] = ground (arith, eq_iff j k)
count-remove j k (x ∷ xs) = ground (arith, count-remove j k xs, eq_iff x j, eq_iff x k, eq_iff j k)

pub has-remove :
    (j k : String) (xs : List String) → has k (remove j xs) ≡ (if j == k then false else has k xs)
unfolding remove has
has-remove j k [] = ground (arith, eq_iff j k)
has-remove j k (x ∷ xs) = ground (arith, has-remove j k xs, eq_iff x j, eq_iff x k, eq_iff j k)

pub count-append : (k : String) (xs ys : List String) → count k (xs ++ ys) ≡ count k xs + count k ys
unfolding count
count-append k [] ys = omega arith
count-append k (x ∷ xs) ys = omega (arith, count-append k xs ys)

pub has-put :
    (j k : String) (xs : List String) → has k (put j xs) ≡ (if j == k then true else has k xs)
unfolding put has
has-put j k xs = ground (arith, eq_iff j k)

-- A text is no two different texts.
pub ne_of_eq : (t a b : String) → (t == a) ≡ true → (a == b) ≡ false → (t == b) ≡ false
ne_of_eq t a b h k = ground (arith, eq_iff t a, eq_iff t b, eq_iff a b)
