-- ===== src/FilePath.antt =====
-- os.path and pathlib, on the paths of a POSIX system.
use prunepytest.Prelude.{
  ◌+◌, List, reverse, not, Bool, true, ◌&&◌, ◌||◌, Option, none, some, [], ◌∷◌, ◌++◌, length, drop,
  ◌==◌, is_empty, if◌then◌else◌, list_eq, nat_eq,
}
use prunepytest.Text.{Text, slash, dot, starts_with, ends_with, rpartition, split}

-- `os.path.isabs(p)`
abbrev pub is_abs : Text → Bool
is_abs p = starts_with p (slash ∷ [])

-- `os.path.join(a, b)`
unfoldable pub join_paths : Text → Text → Text
unfolding ends_with
join_paths a b =
    if is_abs b
    then b
    else if is_empty a || ends_with a (slash ∷ [])
    then a ++ b
    else a ++ slash ∷ b

-- `str(a / b)` of a pathlib path `a`, where `"."` is the path without parts
unfoldable pub below : Text → Text → Text
unfolding join_paths
below a b = if a == dot ∷ [] then b else join_paths a b

abbrev pub all_slashes : Text → Bool
all_slashes [] = true
all_slashes (x ∷ p) = x == slash && all_slashes p

-- `p.rstrip("/")`
unfoldable pub strip_end : Text → Text
strip_end [] = []
strip_end (x ∷ p) = let r = strip_end p in if is_empty r && x == slash then [] else x ∷ r

-- `os.path.dirname(p)`
unfoldable pub dirname : Text → Text
unfolding rpartition strip_end
dirname p =
    let (before, separator, after) = rpartition slash p in
    let head = before ++ separator in if all_slashes head then head else strip_end head

-- `path.name`, of a path without a slash at its end
unfoldable pub base_name : Text → Text
unfolding rpartition
base_name p = (rpartition slash p).2

-- `str(p.relative_to(root))`; `none` is a ValueError.
unfoldable pub relative_to : Text → Text → Option Text
unfolding starts_with
relative_to p root =
    if p == root
    then some (dot ∷ [])
    else if root == dot ∷ []
    then if is_abs p then none else some p
    else if starts_with p (root ++ slash ∷ [])
    then some (drop (length root + 1) p)
    else none

abbrev pub join_parts : List Text → Text
join_parts [] = []
join_parts (x ∷ []) = x
join_parts (x ∷ y ∷ xs) = x ++ slash ∷ join_parts (y ∷ xs)

-- the slashes at the start: one, or exactly two
abbrev pub leading : Text → Text
leading p =
    if starts_with p (slash ∷ slash ∷ []) && not (starts_with p (slash ∷ slash ∷ slash ∷ []))
    then slash ∷ slash ∷ []
    else if is_abs p
    then slash ∷ []
    else []

abbrev pub or_dot : Text → Text
or_dot p = if is_empty p then dot ∷ [] else p

unfoldable pub plain_parts : List Text → List Text
plain_parts [] = []
plain_parts (x ∷ xs) =
    let rest = plain_parts xs in if is_empty x || x == dot ∷ [] then rest else x ∷ rest

-- `str(pathlib.Path(p))`
unfoldable pub pure : Text → Text
unfolding plain_parts split starts_with
pure p = or_dot (leading p ++ join_parts (plain_parts (split slash p)))

-- one part more, on the parts so far, the last one first
abbrev pub push_part : Bool → List Text → Text → List Text
push_part rooted [] x = if x == dot ∷ dot ∷ [] && rooted then [] else x ∷ []
push_part rooted (y ∷ ys) x =
    if not (x == dot ∷ dot ∷ []) || y == dot ∷ dot ∷ [] then x ∷ y ∷ ys else ys

unfoldable pub push_parts : Bool → List Text → List Text → List Text
push_parts rooted ys [] = ys
push_parts rooted ys (x ∷ xs) = push_parts rooted (push_part rooted ys x) xs

-- `os.path.normpath(p)`
unfoldable pub normpath : Text → Text
unfolding plain_parts push_parts split starts_with
normpath p =
    or_dot
      (leading p ++ join_parts (reverse (push_parts (is_abs p) [] (plain_parts (split slash p)))))
