-- ===== src/Git/Printed.antt =====
-- vcs/git.py: what `modified_files` reads from the output that git documents for `--name-status`: a
-- row for each change, with its status and its paths behind tabs.
use prunepytest.Prelude.{
  ℕ, ◌≡◌, refl, ap, ◌∙◌, true, false, ◌||◌, some, List, [], ◌∷◌, ◌++◌, ◌==◌, map, is_empty, nat_eq,
  list_eq, arith, Every, Every-append, Every-map,
}
use prunepytest.Text.{Text, text}
use prunepytest.Git.{Run, status_paths, show_names, range_of, modified_files}
use prunepytest.Git.Words.{
  words, split_lines, is_space, is_break, Unbroken, starts_blank, unbroken_line, words-append,
  split_lines-append,
}

-- A nonempty text, by its first character.
abbrev pub Word : Type 0
Word = ℕ × Text

abbrev pub text_of : Word → Text
text_of (c, w) = c ∷ w

pub record Row : Type 0 where
  pub status : Word
  pub paths : List Word

abbrev pub CleanWord : Word → Type 0
CleanWord (c, w) = (is_space c ≡ false) × Unbroken w

-- No blank in the status or in a path, and the status is not one that is passed over.
abbrev pub Clean : Row → Type 0
Clean r =
    CleanWord r.status
    × Every CleanWord r.paths
    × ((r.status.0 == b'?' || r.status.0 == b'!') ≡ false)

unfoldable pub print_paths : List Word → Text
print_paths [] = []
print_paths ((c, w) ∷ ps) = b'\t' ∷ (c ∷ (w ++ print_paths ps))

abbrev pub print_row : Row → Text
print_row r = r.status.0 ∷ (r.status.1 ++ print_paths r.paths)

unfoldable pub print_rows : List Row → Text
unfolding print_paths
print_rows [] = []
print_rows (r ∷ rs) = print_row r ++ b'\n' ∷ print_rows rs

unfoldable pub paths_of : List Row → List Text
paths_of [] = []
paths_of (r ∷ rs) = map text_of r.paths ++ paths_of rs

tab_space : is_space b'\t' ≡ true
unfolding is_space nat_eq
tab_space = refl

tab_break : is_break b'\t' ≡ false
unfolding is_break nat_eq
tab_break = refl

starts_blank-print_paths : (ps : List Word) → starts_blank (print_paths ps) ≡ true
unfolding print_paths
starts_blank-print_paths [] = refl
starts_blank-print_paths (p ∷ ps) = tab_space

words-print_paths : (ps : List Word) → Every CleanWord ps → words (print_paths ps) ≡ map text_of ps
unfolding print_paths words
words-print_paths [] h = refl
words-print_paths ((c, w) ∷ ps) ((a, b), h) = ground (
  arith,
  tab_space,
  words-append c w (print_paths ps) a b (starts_blank-print_paths ps),
  words-print_paths ps h,
)

words-print_row : (r : Row) → Clean r → words (print_row r) ≡ text_of r.status ∷ map text_of r.paths
words-print_row r ((a, b), h, k) =
    words-append r.status.0 r.status.1 (print_paths r.paths) a b (starts_blank-print_paths r.paths)
    ∙ ap (λ l. text_of r.status ∷ l) (words-print_paths r.paths h)

abbrev OneLine : Text → Type 0
OneLine l = Every (λ c. is_break c ≡ false) l

word_line : (w : Text) → Unbroken w → OneLine w
word_line w = Every-map (λ c. is_space c ≡ false) (λ c. is_break c ≡ false) unbroken_line w

paths_line : (ps : List Word) → Every CleanWord ps → OneLine (print_paths ps)
unfolding print_paths
paths_line [] h = tt
paths_line ((c, w) ∷ ps) ((a, b), h) = (
  tab_break,
  (
    unbroken_line c a,
    Every-append (λ c. is_break c ≡ false) w (print_paths ps) (word_line w b) (paths_line ps h),
  ),
)

one_row :
    (r : Row) (lines more : List Text)
    → Clean r
    → status_paths lines ≡ some more
    → status_paths (print_row r ∷ lines) ≡ some (map text_of r.paths ++ more)
unfolding status_paths
one_row r lines more k e = ground (arith, words-print_row r k, k.2)

status_paths-print_rows :
    (rs : List Row)
    → Every Clean rs
    → status_paths (split_lines (print_rows rs)) ≡ some (paths_of rs)
unfolding print_rows paths_of
status_paths-print_rows [] h = unfold status_paths in unfold split_lines in refl
status_paths-print_rows (r ∷ rs) (((a, b), p, q), h) =
    ap status_paths (
      split_lines-append (print_row r) (print_rows rs) (
        unbroken_line r.status.0 a,
        Every-append (λ c. is_break c ≡ false) r.status.1 (print_paths r.paths)
            (word_line r.status.1 b) (paths_line r.paths p),
      ))
    ∙ one_row r (split_lines (print_rows rs)) (paths_of rs) ((a, b), p, q)
        (status_paths-print_rows rs h)

-- For rows of the documented form whose paths have no blank in them, `modified_files` with a base
-- commit returns all paths of all rows in their order, both sides of a rename included.
pub modified_files-print_rows :
    (git : Run) (commit base : Text) (rs : List Row)
    → is_empty base ≡ false
    → git (text "show" ∷ text "--pretty=" ∷ text "--name-status" ∷ range_of base commit ∷ [])
      ≡ some (print_rows rs)
    → Every Clean rs
    → modified_files git commit base ≡ some (paths_of rs)
unfolding modified_files show_names
modified_files-print_rows git commit base rs b e h = ground (arith, status_paths-print_rows rs h)
