-- ===== src/Base/Decimal.antt =====
-- The decimal text of a number that is not negative: the verb `%d` and `strconv.Itoa`.
use Prim.Native.Char.{Char, code}
use Prim.Native.String.{String, [], ◌∷◌, ◌++◌, char_at}
use Prim.Native.Nat.{ℕ, zero, suc, ◌+◌, ◌-◌, ◌*◌, ◌/◌, ◌%◌, ◌<◌}
use mathlib.Core.Path.{◌≡◌, refl, ap, sym, ◌∙◌}
use mathlib.Core.Logic.{inl, inr}
use native.Mathlib.Omega.{arith}
use text.Mathlib.TextLemmas.{nil-append, cons-append}
use sentrazero.Base.Tests.{ltb, nat_eq, if◌then◌else◌, Bool-cases}

unfoldable pub digit : ℕ → Char
digit d = char_at "0123456789" d

-- The digits of `n` stand before `rest`. The fuel is larger than `n`.
unfoldable pub decimal_before : ℕ → ℕ → String → String
unfolding digit
decimal_before zero n rest = rest
decimal_before (suc fuel) n rest =
    let longer = decimal_before fuel (n / 10) (digit (n % 10) ∷ rest) in
    if ltb n 10 then digit n ∷ rest else longer

unfoldable pub decimal : ℕ → String
unfolding decimal_before
decimal n = decimal_before (suc n) n []

-- The number that a text of digits stands for.
value : ℕ → String → ℕ
value n [] = n
value n (c ∷ text) = value (n * 10 + (code c - 48)) text

code-digit : (d : ℕ) → d < 10 → code (digit d) ≡ 48 + d
unfolding digit
code-digit zero h = refl
code-digit (suc zero) h = refl
code-digit (suc (suc zero)) h = refl
code-digit (suc (suc (suc zero))) h = refl
code-digit (suc (suc (suc (suc zero)))) h = refl
code-digit (suc (suc (suc (suc (suc zero))))) h = refl
code-digit (suc (suc (suc (suc (suc (suc zero)))))) h = refl
code-digit (suc (suc (suc (suc (suc (suc (suc zero))))))) h = refl
code-digit (suc (suc (suc (suc (suc (suc (suc (suc zero)))))))) h = refl
code-digit (suc (suc (suc (suc (suc (suc (suc (suc (suc zero))))))))) h = refl
code-digit (suc (suc (suc (suc (suc (suc (suc (suc (suc (suc d)))))))))) h = omega arith

value-decimal_before :
    (fuel n : ℕ) (rest : String) → n < fuel → value 0 (decimal_before fuel n rest) ≡ value n rest
unfolding decimal_before value
value-decimal_before zero n rest h = elim h [ ]
value-decimal_before (suc fuel) n rest h = elim (Bool-cases (ltb n 10)) [
  | inl short ↦ rw short (ap (λ k. value k rest) (omega (arith, code-digit n (ground arith))))
  | inr long ↦ rw long (
      value-decimal_before fuel (n / 10) (digit (n % 10) ∷ rest) (ground arith)
      ∙ ap (λ k. value k rest) (omega (arith, code-digit (n % 10) (omega arith))))
]

-- Different numbers have different texts.
pub decimal_inj : (m n : ℕ) → decimal m ≡ decimal n → m ≡ n
unfolding decimal value
decimal_inj m n h =
    sym (value-decimal_before (suc m) m [] (omega arith))
    ∙ ap (value 0) h
    ∙ value-decimal_before (suc n) n [] (omega arith)

-- The number of the digits before an underscore.
leading : ℕ → String → ℕ
leading n [] = n
leading n (c ∷ text) =
    let rest = leading (n * 10 + (code c - 48)) text in if nat_eq (code c) 95 then n else rest

leading-decimal_before :
    (fuel n : ℕ) (rest : String)
    → n < fuel
    → leading 0 (decimal_before fuel n rest) ≡ leading n rest
unfolding decimal_before leading
leading-decimal_before zero n rest h = elim h [ ]
leading-decimal_before (suc fuel) n rest h = elim (Bool-cases (ltb n 10)) [
  | inl short ↦ rw short (ground (arith, code-digit n (ground arith)))
  | inr long ↦ rw long (
      leading-decimal_before fuel (n / 10) (digit (n % 10) ∷ rest) (ground arith)
      ∙ ground (arith, code-digit (n % 10) (omega arith)))
]

decimal_before-append :
    (fuel n : ℕ) (rest tail : String)
    → decimal_before fuel n rest ++ tail ≡ decimal_before fuel n (rest ++ tail)
unfolding decimal_before
decimal_before-append zero n rest tail = refl
decimal_before-append (suc fuel) n rest tail = elim (Bool-cases (ltb n 10)) [
  | inl short ↦ rw short (cons-append (digit n) rest tail)
  | inr long ↦ rw long (
      decimal_before-append fuel (n / 10) (digit (n % 10) ∷ rest) tail
      ∙ ap (decimal_before fuel (n / 10)) (cons-append (digit (n % 10)) rest tail))
]

leading-decimal : (n : ℕ) (x : String) → leading 0 (decimal n ++ ("_" ++ x)) ≡ n
unfolding decimal leading
leading-decimal n x =
    ap (leading 0) (decimal_before-append (suc n) n [] ("_" ++ x))
    ∙ leading-decimal_before (suc n) n ([] ++ ("_" ++ x)) (omega arith)
    ∙ ap (leading n) (nil-append ("_" ++ x) ∙ cons-append (char_at "_" 0) [] x)

-- Texts that start with different numbers and an underscore differ.
pub decimal-prefix-inj :
    (m n : ℕ) (x y : String) → decimal m ++ ("_" ++ x) ≡ decimal n ++ ("_" ++ y) → m ≡ n
decimal-prefix-inj m n x y h = sym (leading-decimal m x) ∙ ap (leading 0) h ∙ leading-decimal n y
