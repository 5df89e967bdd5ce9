-- ===== src/HttpClient/Mask.antt =====
-- What a masked token shows.
use mathlib.Core.List.{append_assoc}
use sentrazero.Base.{
  ℕ, zero, suc, ◌-◌, ◌<◌, ◌≡◌, refl, List, [], ◌∷◌, ◌++◌, length, take, drop, arith, length-append,
  false, leb,
}
use sentrazero.HttpClient.{mask_token}

take-append : (n : ℕ) (xs ys : List ℕ) → n ≡ length xs → take n (xs ++ ys) ≡ xs
take-append n [] ys e = rw e refl
take-append zero (x ∷ xs) ys e = absurd (omega arith)
take-append (suc n) (x ∷ xs) ys e = cc (take-append n xs ys (omega arith))

drop-append : (n : ℕ) (xs ys : List ℕ) → n ≡ length xs → drop n (xs ++ ys) ≡ ys
drop-append n [] ys e = rw e refl
drop-append zero (x ∷ xs) ys e = absurd (omega arith)
drop-append (suc n) (x ∷ xs) ys e = drop-append n xs ys (omega arith)

-- A masked token is its first four bytes, three asterisks and its last four: what stands between
-- them, one byte at least, and how long it is do not show.
pub mask_token_lem :
    (first middle last : List ℕ)
    → length first ≡ 4
    → length last ≡ 4
    → 0 < length middle
    → mask_token (first ++ middle ++ last) ≡ first ++ (42 ∷ (42 ∷ (42 ∷ []))) ++ last
unfolding mask_token
mask_token_lem first middle last f l m =
    let long : leb (length (first ++ middle ++ last)) 8 ≡ false =
      ground (arith, length-append (first ++ middle) last, length-append first middle) in
    let start : take 4 (first ++ middle ++ last) ≡ first =
      rw (append_assoc first middle last) (take-append 4 first (middle ++ last) (omega arith)) in
    let end : drop (length (first ++ middle ++ last) - 4) (first ++ middle ++ last) ≡ last =
      drop-append _ (first ++ middle) last (omega (arith, length-append (first ++ middle) last)) in
    rw (long, start, end) refl
