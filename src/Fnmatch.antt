-- ===== src/Fnmatch.antt =====
-- fnmatch of Python's standard library, on a POSIX system, and api.py: `is_test_file`.
pub mod Suffix
pub mod Patterns
use prunepytest.Prelude.{
  ℕ, zero, suc, ◌+◌, Bool, true, false, not, ◌||◌, ◌&&◌, Option, none, some, List, [], ◌∷◌, take,
  drop, leb, ◌==◌, is_empty, if◌then◌else◌, list_eq, nat_eq,
}
use prunepytest.Text.{Text, text, starts_with, ends_with}

-- A part of a pattern: `*`, `?`, a character, or a class, which may be negated, of ranges.
pub data Token : Type 0 where
  star any : Token
  char : ℕ → Token
  class : Bool → List (ℕ × ℕ) → Token

-- the number of characters before the first `]`
unfoldable pub index_of_close : Text → Option ℕ
index_of_close [] = none
index_of_close (x ∷ p) =
    let r = index_of_close p in
    if x == b']' then some 0 else elim r [ none ↦ none | some k ↦ some (suc k) ]

abbrev pub starts_at : ℕ → Text → ℕ
starts_at c [] = 0
starts_at c (x ∷ p) = if x == c then 1 else 0

-- the length of the class after a `[`: a `!` and then a `]` at its start belong to it
unfoldable pub class_length : Text → Option ℕ
unfolding index_of_close
class_length p =
    let k = starts_at b'!' p in
    let start = k + starts_at b']' (drop k p) in
    elim (index_of_close (drop start p)) [ none ↦ none | some j ↦ some (start + j) ]

unfoldable pub ranges : Text → List (ℕ × ℕ)
ranges [] = []
ranges (x ∷ []) = (x, x) ∷ []
ranges (x ∷ y ∷ []) = (x, x) ∷ (y, y) ∷ []
ranges (x ∷ y ∷ z ∷ p) =
    let one = ranges (y ∷ z ∷ p) in
    let three = ranges p in if y == b'-' then (x, z) ∷ three else (x, x) ∷ one

unfoldable pub class_of : Text → Token
unfolding ranges
class_of [] = class false []
class_of (x ∷ p) = if x == b'!' then class true (ranges p) else class false (ranges (x ∷ p))

-- The tokens of a pattern, after some characters that belong to a class.
unfoldable pub tokens : ℕ → Text → List Token
unfolding class_length class_of
tokens n [] = []
tokens (suc n) (x ∷ p) = tokens n p
tokens zero (x ∷ p) =
    let rest = tokens zero p in
    if x == b'*'
    then star ∷ rest
    else if x == b'?'
    then any ∷ rest
    else if x == b'['
    then elim (class_length p) [
      | none ↦ char x ∷ rest
      | some k ↦ class_of (take k p) ∷ tokens (suc k) p
    ]
    else char x ∷ rest

unfoldable pub in_ranges : ℕ → List (ℕ × ℕ) → Bool
in_ranges x [] = false
in_ranges x ((lo, hi) ∷ rs) = leb lo x && leb x hi || in_ranges x rs

abbrev pub in_class : Bool → List (ℕ × ℕ) → ℕ → Bool
in_class negated rs x = if negated then not (in_ranges x rs) else in_ranges x rs

-- some suffix has the property
unfoldable pub some_suffix : (Text → Bool) → Text → Bool
some_suffix f [] = f []
some_suffix f (x ∷ s) = f (x ∷ s) || some_suffix f s

abbrev pub first_and : (ℕ → Bool) → (Text → Bool) → Text → Bool
first_and f g [] = false
first_and f g (x ∷ s) = f x && g s

unfoldable pub matches : List Token → Text → Bool
unfolding some_suffix in_ranges
matches [] s = is_empty s
matches (star ∷ ts) s = some_suffix (matches ts) s
matches (any ∷ ts) s = first_and (λ x. true) (matches ts) s
matches (char c ∷ ts) s = first_and (λ x. c == x) (matches ts) s
matches (class negated rs ∷ ts) s = first_and (in_class negated rs) (matches ts) s

-- `fnmatch(name, pattern)`
unfoldable pub fnmatch : Text → Text → Bool
unfolding matches tokens
fnmatch name pattern = matches (tokens 0 pattern) name

-- `ValidatorMixin.is_test_file`
unfoldable pub mixin_is_test_file : Text → Bool
unfolding starts_with ends_with
mixin_is_test_file name =
    starts_with name (text "test_") && ends_with name (text ".py")
    || ends_with name (text "_test.py")

-- `DefaultHook.is_test_file`, for its `tst_file_pattern`
unfoldable pub is_test_file : Option Text → Text → Bool
is_test_file none name = mixin_is_test_file name
is_test_file (some pattern) name =
    if is_empty pattern then mixin_is_test_file name else fnmatch name pattern
