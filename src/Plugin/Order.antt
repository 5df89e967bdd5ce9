-- ===== src/Plugin/Order.antt =====
-- The order of versions, and the rollout of a plugin.
use sentrazero.Base.{
  ℕ, ◌≤◌, ◌<◌, ◌≡◌, ◌⊎◌, inl, inr, refl, sym, ◌∙◌, ◌==◌, String, true, false, none, some, arith,
  Option-cases, eq_iff,
}
use sentrazero.Base.Int.{ℤ, pos, negsuc}
use sentrazero.Plugin.Versions.{
  SemverParts, parse_semver, int_ltb, is_after, is_newer_version, should_run_plugin,
}

int_ltb_irrefl : (a : ℤ) → int_ltb a a ≡ false
int_ltb_irrefl (pos a) = ground arith
int_ltb_irrefl (negsuc a) = ground arith

int_ltb_asym : (a b : ℤ) → int_ltb a b ≡ true → int_ltb b a ≡ false
int_ltb_asym (pos a) (pos b) h = ground (arith, h)
int_ltb_asym (pos a) (negsuc b) h = ground (arith, h)
int_ltb_asym (negsuc a) (pos b) h = refl
int_ltb_asym (negsuc a) (negsuc b) h = ground (arith, h)

int_ltb_trans : (a b c : ℤ) → int_ltb a b ≡ true → int_ltb b c ≡ true → int_ltb a c ≡ true
int_ltb_trans (pos a) (pos b) (pos c) h k = ground (arith, h, k)
int_ltb_trans (pos a) (pos b) (negsuc c) h k = k
int_ltb_trans (pos a) (negsuc b) c h k = ground (arith, h)
int_ltb_trans (negsuc a) (pos b) (pos c) h k = refl
int_ltb_trans (negsuc a) (pos b) (negsuc c) h k = ground (arith, k)
int_ltb_trans (negsuc a) (negsuc b) (pos c) h k = refl
int_ltb_trans (negsuc a) (negsuc b) (negsuc c) h k = ground (arith, h, k)

int_ltb_equal : (a b : ℤ) → int_ltb a b ≡ false → int_ltb b a ≡ false → a ≡ b
int_ltb_equal (pos a) (pos b) h k = ground (arith, h, k)
int_ltb_equal (pos a) (negsuc b) h k = ground (arith, k)
int_ltb_equal (negsuc a) (pos b) h k = ground (arith, h)
int_ltb_equal (negsuc a) (negsuc b) h k = ground (arith, h, k)

-- The first part in which two versions differ decides.
abbrev IsBefore : SemverParts → SemverParts → Type 0
IsBefore l r =
    (int_ltb l.major r.major ≡ true)
    ⊎ ((l.major ≡ r.major) × (int_ltb l.minor r.minor ≡ true))
    ⊎ ((l.major ≡ r.major) × (l.minor ≡ r.minor) × (int_ltb l.patch r.patch ≡ true))

after-IsBefore : (r l : SemverParts) → is_after r l ≡ true → IsBefore l r
unfolding is_after
after-IsBefore r l h =
    ground (arith, h, int_ltb_equal l.major r.major, int_ltb_equal l.minor r.minor)

int_ltb_same : (a b : ℤ) → a ≡ b → (int_ltb a b ≡ false) × (int_ltb b a ≡ false)
int_ltb_same a b e = (rw e (int_ltb_irrefl b), rw e (int_ltb_irrefl b))

IsBefore-after : (r l : SemverParts) → IsBefore l r → is_after r l ≡ true
unfolding is_after
IsBefore-after r l (inl h) = ground (arith, h)
IsBefore-after r l (inr (inl (e, h))) = ground (arith, h, int_ltb_same l.major r.major e)
IsBefore-after r l (inr (inr (e, f, h))) =
    ground (arith, h, int_ltb_same l.major r.major e, int_ltb_same l.minor r.minor f)

before_lt : (a b c : ℤ) → int_ltb a b ≡ true → b ≡ c → int_ltb a c ≡ true
before_lt a b c h e = rw (sym e) h

lt_before : (a b c : ℤ) → a ≡ b → int_ltb b c ≡ true → int_ltb a c ≡ true
lt_before a b c e h = rw e h

trans-IsBefore : (a b c : SemverParts) → IsBefore a b → IsBefore b c → IsBefore a c
trans-IsBefore a b c (inl h) (inl k) = inl (int_ltb_trans a.major b.major c.major h k)
trans-IsBefore a b c (inl h) (inr (inl (e, k))) = inl (before_lt a.major b.major c.major h e)
trans-IsBefore a b c (inl h) (inr (inr (e, f, k))) = inl (before_lt a.major b.major c.major h e)
trans-IsBefore a b c (inr (inl (e, h))) (inl k) = inl (lt_before a.major b.major c.major e k)
trans-IsBefore a b c (inr (inl (e, h))) (inr (inl (f, k))) =
    inr (inl (e ∙ f, int_ltb_trans a.minor b.minor c.minor h k))
trans-IsBefore a b c (inr (inl (e, h))) (inr (inr (f, g, k))) =
    inr (inl (e ∙ f, before_lt a.minor b.minor c.minor h g))
trans-IsBefore a b c (inr (inr (e, f, h))) (inl k) = inl (lt_before a.major b.major c.major e k)
trans-IsBefore a b c (inr (inr (e, f, h))) (inr (inl (g, k))) =
    inr (inl (e ∙ g, lt_before a.minor b.minor c.minor f k))
trans-IsBefore a b c (inr (inr (e, f, h))) (inr (inr (g, i, k))) =
    inr (inr (e ∙ g, f ∙ i, int_ltb_trans a.patch b.patch c.patch h k))

is_after_irrefl : (a : SemverParts) → is_after a a ≡ false
unfolding is_after
is_after_irrefl a =
    ground (arith, int_ltb_irrefl a.major, int_ltb_irrefl a.minor, int_ltb_irrefl a.patch)

is_after_trans :
    (a b c : SemverParts) → is_after b a ≡ true → is_after c b ≡ true → is_after c a ≡ true
is_after_trans a b c h k =
    IsBefore-after c a (trans-IsBefore a b c (after-IsBefore b a h) (after-IsBefore c b k))

newer_parsed :
    (remote local : String) (r l : SemverParts)
    → (local == "") ≡ false
    → parse_semver remote ≡ some r
    → parse_semver local ≡ some l
    → is_newer_version remote local ≡ is_after r l
unfolding is_newer_version
newer_parsed remote local r l n e f = ground (arith, n, e, f)

-- Among versions that parse, to be newer is a strict order: no version is newer than itself, and what
-- is newer than a newer version is newer.
pub is_newer_version_order :
    (first second third : String) (a b c : SemverParts)
    → parse_semver first ≡ some a
    → parse_semver second ≡ some b
    → parse_semver third ≡ some c
    → (first == "") ≡ false
    → (second == "") ≡ false
    → is_newer_version second first ≡ true
    → is_newer_version third second ≡ true
    → (is_newer_version first first ≡ false) × (is_newer_version third first ≡ true)
is_newer_version_order first second third a b c e f g n m h k = (
  newer_parsed first first a a n e e ∙ is_after_irrefl a,
  newer_parsed third first c a n g e
      ∙ is_after_trans a b c (sym (newer_parsed second first b a n f e) ∙ h)
          (sym (newer_parsed third second c b m g f) ∙ k),
)

-- Two different versions that do not both parse are each newer than the other.
pub unparsed_both_newer :
    (first second : String)
    → (first == "") ≡ false
    → (second == "") ≡ false
    → (first == second) ≡ false
    → parse_semver first ≡ none
    → (is_newer_version first second ≡ true) × (is_newer_version second first ≡ true)
unfolding is_newer_version
unparsed_both_newer first second n m d e = ground (
  arith,
  n,
  m,
  d,
  e,
  Option-cases (parse_semver second),
  eq_iff first second,
  eq_iff second first,
)

-- A plugin that runs on a device at some percentage of its rollout runs there at every greater one, and
-- that percentage is not 0.
pub should_run_plugin_lem :
    (low high p q : ℕ)
    → p ≤ q
    → should_run_plugin low high (pos p) ≡ true
    → (should_run_plugin low high (pos q) ≡ true) × (0 < p)
unfolding should_run_plugin
should_run_plugin_lem low high p q le h = ground (arith, le, h)
