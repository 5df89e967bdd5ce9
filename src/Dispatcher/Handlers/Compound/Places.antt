-- ===== src/Dispatcher/Handlers/Compound/Places.antt =====
-- The paths of the steps' outputs: the directory of a step does not hold the output of the one before.
use Prim.Native.String.{◌++◌, len, slice, char_at}
use text.Mathlib.TextEquality.{slice-prefix}
use text.Mathlib.TextLemmas.{
  append_assoc, append_cancel_left, append-eq-nil_iff, append-nil, cons≢nil, cons-append,
  nil-append,
}
use sentrazero.Base.{
  ℕ, ◌+◌, suc, ◌≡◌, ◌≢◌, sym, ap, ◌∙◌, String, true, false, arith, ◌==◌, eq_iff, if◌then◌else◌,
  Bool-cases, inl, inr, [], ◌∷◌,
}
use sentrazero.Base.Decimal.{decimal, decimal-prefix-inj}
use sentrazero.Dispatcher.Handlers.Merging.Stored.{apart}
use sentrazero.Dispatcher.Handlers.Paths.{is_below, join}
use sentrazero.Dispatcher.Handlers.Compound.{step_out_dir, step_out_path}

step_ne_empty : (x : String) → "step_" ++ x ≢ ""
step_ne_empty x h = cons≢nil (sym (cons-append (char_at "s" 0) "tep_" x) ∙ h)

parent : String → String
parent path = if path == "" then "" else path ++ "/"

join-two : (a x : String) → x ≢ "" → join (a ∷ (x ∷ [])) ≡ parent a ++ x
unfolding join parent
join-two a x h = elim (Bool-cases (a == "")) [
  | inl q ↦ rw (q, apart x "" h) (sym (nil-append x))
  | inr q ↦ ground (arith, q, apart x "" h, append_assoc a "/" x)
]

name_of : ℕ → String → String
name_of i x = "step_" ++ (decimal i ++ x)

dir_lem : (cache : String) (i : ℕ) → step_out_dir cache i ≡ parent cache ++ name_of i "_output"
unfolding name_of
dir_lem cache i = join-two cache (name_of i "_output") (step_ne_empty (decimal i ++ "_output"))

dir_ne_empty : (cache : String) (i : ℕ) → step_out_dir cache i ≢ ""
unfolding name_of
dir_ne_empty cache i h = step_ne_empty (decimal i ++ "_output") (
    ((append-eq-nil_iff {p = parent cache} {q = name_of i "_output"}).0
      (sym (dir_lem cache i) ∙ h)).1)

path_lem :
    (cache : String) (i : ℕ)
    → step_out_path cache i ≡ step_out_dir cache i ++ ("/" ++ name_of i "_output.json")
unfolding parent name_of
path_lem cache i =
    join-two (step_out_dir cache i) (name_of i "_output.json")
      (step_ne_empty (decimal i ++ "_output.json"))
    ∙ rw (apart (step_out_dir cache i) "" (dir_ne_empty cache i))
        (append_assoc (step_out_dir cache i) "/" (name_of i "_output.json"))

-- What follows a directory's number.
dir-append :
    (cache : String) (i : ℕ) (x : String)
    → step_out_dir cache i ++ x
      ≡ parent cache ++ ("step_" ++ (decimal i ++ ("_" ++ ("output" ++ x))))
unfolding name_of
dir-append cache i x =
    ap (λ y. y ++ x) (dir_lem cache i)
    ∙ append_assoc (parent cache) (name_of i "_output") x
    ∙ ap (λ y. parent cache ++ y)
        (append_assoc "step_" (decimal i ++ "_output") x
          ∙ ap (λ y. "step_" ++ y)
              (append_assoc (decimal i) "_output" x
                ∙ ap (λ y. decimal i ++ y) (append_assoc "_" "output" x)))

-- A directory of a step is a prefix of paths of that step only.
dir-inj :
    (cache : String) (i j : ℕ) (x y : String)
    → step_out_dir cache i ++ x ≡ step_out_dir cache j ++ y
    → i ≡ j
dir-inj cache i j x y h = decimal-prefix-inj i j ("output" ++ x) ("output" ++ y) (
    append_cancel_left "step_" _ _ (
      append_cancel_left (parent cache) _ _
        (sym (dir-append cache i x) ∙ h ∙ dir-append cache j y)))

below-prefix :
    (prefix path : String)
    → prefix ≢ ""
    → is_below prefix path ≡ true
    → (x : String) × (path ≡ prefix ++ x)
unfolding is_below
below-prefix prefix path h below = elim (Bool-cases (path == prefix)) [
  | inl q ↦ ("", (eq_iff path prefix).0 q ∙ sym (append-nil prefix))
  | inr q ↦
      let cut = slice path 0 (len prefix + 1) in
      let same : (cut == prefix ++ "/") ≡ true = ground (arith, below, q, apart prefix "" h) in
      let (x, e) = slice-prefix path (len prefix + 1) in
      (
        "/" ++ x,
        sym e ∙ ap (λ y. y ++ x) ((eq_iff cut (prefix ++ "/")).0 same) ∙ append_assoc prefix "/" x,
      )
]

-- The output file of a step is not below the directory of the next one.
pub earlier-not_below :
    (cache : String) (i : ℕ) → is_below (step_out_dir cache (suc i)) (step_out_path cache i) ≡ false
earlier-not_below cache i =
    let dir = step_out_dir cache (suc i) in
    elim (Bool-cases (is_below dir (step_out_path cache i))) [
      | inr q ↦ q
      | inl q ↦
          let (x, e) = below-prefix dir (step_out_path cache i) (dir_ne_empty cache (suc i)) q in
          let same = dir-inj cache i (suc i) _ x (sym (path_lem cache i) ∙ e) in
          absurd (omega (arith, same))
    ]

pub path_ne_empty : (cache : String) (i : ℕ) → step_out_path cache i ≢ ""
path_ne_empty cache i h =
    dir_ne_empty cache i
      (((append-eq-nil_iff {p = step_out_dir cache i}).0 (sym (path_lem cache i) ∙ h)).0)
