-- ===== src/Text.antt =====
-- The methods of `str` that the program calls, over lists of code points.
use Prim.Native.Char.{code}
use prunepytest.Prelude.{
  ℕ, String, Bool, true, false, ◌&&◌, ◌||◌, List, [], ◌∷◌, reverse, ◌==◌, ltb, is_empty,
  if◌then◌else◌, nat_eq,
}

abbrev pub Text : Type 0
Text = List ℕ

-- A literal.
abbrev pub text : String → Text
text String.[] = []
text (String.◌∷◌ c s) = code c ∷ text s

abbrev pub dot : ℕ
dot = b'.'

abbrev pub slash : ℕ
slash = b'/'

-- `s.partition(c)`: what stands before the first `c`, the separator, and the rest
unfoldable pub partition : ℕ → Text → Text × Text × Text
partition c [] = ([], [], [])
partition c (x ∷ s) =
    let p = partition c s in if x == c then ([], c ∷ [], s) else (x ∷ p.0, p.1, p.2)

-- `s.rpartition(c)`: the same at the last `c`; without one, all of `s` is the last part
unfoldable pub rpartition : ℕ → Text → Text × Text × Text
rpartition c [] = ([], [], [])
rpartition c (x ∷ s) =
    let p = rpartition c s in
    if is_empty p.1
    then if x == c then ([], c ∷ [], s) else ([], [], x ∷ s)
    else (x ∷ p.0, p.1, p.2)

-- `s.startswith(p)`
unfoldable pub starts_with : Text → Text → Bool
starts_with s [] = true
starts_with [] (y ∷ p) = false
starts_with (x ∷ s) (y ∷ p) = x == y && starts_with s p

-- `s.endswith(p)`
unfoldable pub ends_with : Text → Text → Bool
unfolding starts_with
ends_with s p = starts_with (reverse s) (reverse p)

-- `p in s`
unfoldable pub has_infix : Text → Text → Bool
unfolding starts_with
has_infix [] p = is_empty p
has_infix (x ∷ s) p = starts_with (x ∷ s) p || has_infix s p

-- `s.replace(c, d)` for single characters
unfoldable pub replace : ℕ → ℕ → Text → Text
replace c d [] = []
replace c d (x ∷ s) = (if x == c then d else x) ∷ replace c d s

-- a character in front of the first part
unfoldable pub push : ℕ → List Text → List Text
push y [] = (y ∷ []) ∷ []
push y (w ∷ ws) = (y ∷ w) ∷ ws

-- `s.split(c)` for a single character: one more part than there are separators
unfoldable pub split : ℕ → Text → List Text
unfolding push
split c [] = [] ∷ []
split c (x ∷ s) = let r = split c s in if x == c then [] ∷ r else push x r

-- `s < t`
unfoldable pub text_lt : Text → Text → Bool
text_lt s [] = false
text_lt [] (y ∷ t) = true
text_lt (x ∷ s) (y ∷ t) = ltb x y || (x == y && text_lt s t)
