-- ===== src/Git/Words.antt =====
-- vcs/git.py: the methods of `str` on the output of git: `split`, `splitlines`, `strip`, `rstrip`.
use prunepytest.Prelude.{
  ℕ, ◌≡◌, refl, Bool, true, false, ◌&&◌, List, [], ◌∷◌, ◌++◌, ◌==◌, contains, reverse,
  if◌then◌else◌, nat_eq, arith, Every,
}
use prunepytest.Text.{Text, push}

-- `str.isspace` of a character
abbrev pub spaces : List ℕ
spaces =
    9 ∷ 10 ∷ 11 ∷ 12 ∷ 13 ∷ 28 ∷ 29 ∷ 30 ∷ 31 ∷ 32 ∷ 133 ∷ 160 ∷ 5760 ∷ 8192 ∷ 8193 ∷ 8194 ∷ 8195
    ∷ 8196 ∷ 8197 ∷ 8198 ∷ 8199 ∷ 8200 ∷ 8201 ∷ 8202 ∷ 8232 ∷ 8233 ∷ 8239 ∷ 8287 ∷ 12288 ∷ []

unfoldable pub is_space : ℕ → Bool
is_space c = contains spaces c

-- The line boundaries of `splitlines`
abbrev pub line_breaks : List ℕ
line_breaks = 10 ∷ 11 ∷ 12 ∷ 13 ∷ 28 ∷ 29 ∷ 30 ∷ 133 ∷ 8232 ∷ 8233 ∷ []

unfoldable pub is_break : ℕ → Bool
is_break c = contains line_breaks c

abbrev pub starts_blank : Text → Bool
starts_blank [] = true
starts_blank (c ∷ s) = is_space c

-- `s.split()`
unfoldable pub words : Text → List Text
unfolding push
words [] = []
words (c ∷ s) =
    let r = words s in if is_space c then r else if starts_blank s then (c ∷ []) ∷ r else push c r

abbrev pub starts_lf : Text → Bool
starts_lf [] = false
starts_lf (c ∷ s) = c == b'\n'

-- `s.splitlines()`: a carriage return before a line feed is one boundary with it.
unfoldable pub split_lines : Text → List Text
unfolding push
split_lines [] = []
split_lines (c ∷ s) =
    let r = split_lines s in
    if c == 13 && starts_lf s then r else if is_break c then [] ∷ r else push c r

-- `s.lstrip()`, `s.rstrip()` and `s.strip()`
unfoldable pub lstrip : Text → Text
lstrip [] = []
lstrip (c ∷ s) = let r = lstrip s in if is_space c then r else c ∷ s

unfoldable pub rstrip : Text → Text
unfolding lstrip
rstrip s = reverse (lstrip (reverse s))

unfoldable pub strip : Text → Text
unfolding lstrip rstrip
strip s = lstrip (rstrip s)

-- A text without blanks.
abbrev pub Unbroken : Text → Type 0
Unbroken w = Every (λ c. is_space c ≡ false) w

pub unbroken_line : (c : ℕ) → is_space c ≡ false → is_break c ≡ false
unfolding is_space is_break
unbroken_line c h = ground arith

no_return : (c : ℕ) → is_break c ≡ false → (c == 13) ≡ false
unfolding is_break
no_return c h = ground arith

line_feed : is_break b'\n' ≡ true
unfolding is_break nat_eq
line_feed = refl

pub words-append :
    (c : ℕ) (w s : Text)
    → is_space c ≡ false
    → Unbroken w
    → starts_blank s ≡ true
    → words (c ∷ (w ++ s)) ≡ (c ∷ w) ∷ words s
unfolding words
words-append c [] s h k b = ground arith
words-append c (d ∷ w) s h (p, k) b = ground (arith, words-append d w s p k b)

pub split_lines-append :
    (l s : Text)
    → Every (λ c. is_break c ≡ false) l
    → split_lines (l ++ b'\n' ∷ s) ≡ l ∷ split_lines s
unfolding split_lines
split_lines-append [] s h = ground (arith, line_feed)
split_lines-append (c ∷ l) s (p, h) = ground (arith, no_return c p, split_lines-append l s h)
