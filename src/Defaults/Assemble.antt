-- ===== src/Defaults/Assemble.antt =====
-- defaults.py: `hook_default`, from the roots of packages to a `DefaultHook`.
pub mod Folders
pub mod Cover
use prunepytest.Prelude.{
  ℕ, Bool, true, false, not, ◌||◌, ◌&&◌, Option, none, some, List, [], ◌∷◌, ◌++◌, ◌==◌, is_empty,
  is_none, map, if◌then◌else◌, list_eq, nat_eq,
}
use prunepytest.Text.{Text, text, dot, slash, split, partition, starts_with}
use prunepytest.Sets.{Set, add}
use prunepytest.Dict.{Dict, insert, has, keys}
use prunepytest.FilePath.{below, relative_to, normpath}
use prunepytest.Loader.{World}
use prunepytest.Defaults.Pyproject.{
  Toml, table, array, string, scalar, Items, no_items, item, no_entries, Found, absent, found,
  type_error, toml_xtract, is_truthy, is_in,
}
use prunepytest.Defaults.Infer.{
  Dents, nothing, file, folder, find_package_roots, infer_py_pkg, infer_ns_pkg,
}
use prunepytest.Defaults.{is_tests, filter_packages}

-- A `DefaultHook`; its pattern is whatever value stands in the file.
pub record DefaultHook : Type 0 where
  pub global_ns : Set Text
  pub local_ns : Set Text
  pub src_roots : Dict Text Text
  pub tst_dirs : Dict Text Text
  pub tst_file_pattern : Option Toml

-- What a folder of the given name holds.
unfoldable pub find_dents : Text → Dents → Dents
find_dents n nothing = nothing
find_dents n (file m rest) = find_dents n rest
find_dents n (folder m d rest) = if n == m then d else find_dents n rest

unfoldable pub dents_at : List Text → Dents → Dents
unfolding find_dents
dents_at [] d = d
dents_at (n ∷ ns) d = dents_at ns (find_dents n d)

-- `py.partition(".")[0]`
abbrev pub top_of : Text → Text
top_of py = (partition dot py).0

-- `{r.relative_to(root) for r in roots}`; `none` is a ValueError.
abbrev pub relative_roots : Text → Set Text → Option (Set Text)
relative_roots root [] = some []
relative_roots root (r ∷ rs) = elim (relative_to r root) [
  | none ↦ none
  | some p ↦ elim (relative_roots root rs) [ none ↦ none | some ps ↦ some (add p ps) ]
]

-- The file tree below `root`, the current directory, and `file_looks_like_pkgutil_ns_init`.
pub record Scan : Type 0 where
  pub root : Text
  pub dents : Dents
  pub world : World
  pub is_ns : Text → Bool

-- `infer_ns_pkg(pkgroot, root)`: its paths are relative to the root.
unfoldable pub ns_pkg : Scan → Text → Text × Text
unfolding below split
ns_pkg scan pkgroot =
    infer_ns_pkg (λ p. scan.is_ns (below scan.root p)) pkgroot
      (dents_at (split slash pkgroot) scan.dents)

-- One round of the loop over the package roots.
unfoldable pub add_root : Scan → Text → DefaultHook → DefaultHook
unfolding add insert
add_root scan pkgroot h =
    let (fs, py) = ns_pkg scan pkgroot in
    if is_tests pkgroot
    then record h {
      local_ns = add (text "tests") h.local_ns;
      tst_dirs = insert pkgroot (text "tests") h.tst_dirs;
      src_roots = insert pkgroot (text "tests") h.src_roots;
    }
    else record h { global_ns = add (top_of py) h.global_ns; src_roots = insert fs py h.src_roots }

unfoldable pub add_roots : Scan → Set Text → DefaultHook → DefaultHook
add_roots scan [] h = h
add_roots scan (p ∷ ps) h = add_roots scan ps (add_root scan p h)

-- `any(fs.startswith(r + os.path.sep) for r in source_roots)`
unfoldable pub under_root : Text → Dict Text Text → Bool
unfolding starts_with
under_root fs [] = false
under_root fs ((r, py) ∷ roots) = starts_with fs (r ++ slash ∷ []) || under_root fs roots

-- One round of the loop over the folders of tests.
unfoldable pub include_folder : Text → Text → DefaultHook → DefaultHook
unfolding add insert has
include_folder fs py h =
    if not (has fs h.src_roots) && not (under_root fs h.src_roots)
    then record h { local_ns = add (top_of py) h.local_ns; src_roots = insert fs py h.src_roots }
    else h

unfoldable pub include_folders : Dict Text Text → DefaultHook → DefaultHook
include_folders [] h = h
include_folders ((fs, py) ∷ folders) h = include_folders folders (include_folder fs py h)

-- `tst_paths`, a list in any case, with normal paths; `none` is a TypeError.
unfoldable pub paths_in : Items → Option (List Text)
paths_in no_items = some []
paths_in (item (string s) rest) = elim (paths_in rest) [
  | none ↦ none
  | some ps ↦ some (normpath s ∷ ps)
]
paths_in (item (table t) rest) = none
paths_in (item (array a) rest) = none
paths_in (item (scalar b) rest) = none

abbrev pub test_paths : Toml → Option (List Text)
test_paths (array a) = paths_in a
test_paths (string s) = paths_in (item (string s) no_items)
test_paths (table t) = none
test_paths (scalar b) = none

-- `{p: infer_py_pkg(p) for p in tst_paths}`; `none` is a loop that does not end.
unfoldable pub folders_of : World → List Text → Dict Text Text → Option (Dict Text Text)
unfolding insert
folders_of w [] folders = some folders
folders_of w (p ∷ ps) folders = elim (infer_py_pkg w p) [
  | none ↦ none
  | some py ↦ folders_of w ps (insert p py folders)
]

abbrev pub with_folders : DefaultHook → Option (Dict Text Text) → Option DefaultHook
with_folders h none = none
with_folders h (some folders) = some (include_folders folders (record h { tst_dirs = folders }))

abbrev pub with_paths : World → DefaultHook → Option (List Text) → Option DefaultHook
with_paths w h none = none
with_paths w h (some paths) = with_folders h (folders_of w paths [])

abbrev pub add_testpaths : World → Found → DefaultHook → Option DefaultHook
add_testpaths w absent h = some h
add_testpaths w type_error h = none
add_testpaths w (found v) h = if is_truthy v then with_paths w h (test_paths v) else some h

-- `next(p for p in patterns if "*" in p)`; `none` is an exception.
unfoldable pub first_pattern : Items → Option Toml
first_pattern no_items = none
first_pattern (item v rest) =
    let r = first_pattern rest in
    elim (is_in (text "*") v) [ none ↦ none | some b ↦ if b then some v else r ]

abbrev pub pattern_in : Toml → Option Toml
pattern_in (array a) = first_pattern a
pattern_in (string s) = some (string s)
pattern_in (table t) = some (table t)
pattern_in (scalar b) = some (scalar b)

abbrev pub with_pattern : Option Toml → Option DefaultHook → Option DefaultHook
with_pattern p none = none
with_pattern none (some h) = none
with_pattern (some v) (some h) = some (record h { tst_file_pattern = some v })

abbrev pub add_pattern : Found → Option DefaultHook → Option DefaultHook
add_pattern absent r = r
add_pattern type_error r = none
add_pattern (found v) r = with_pattern (pattern_in v) r

abbrev pub no_hook : DefaultHook
no_hook = record {
  global_ns = [];
  local_ns = [];
  src_roots = [];
  tst_dirs = [];
  tst_file_pattern = none;
}

abbrev pub from_roots : Scan → Toml → Option (Set Text) → Option DefaultHook
from_roots scan pyproj none = none
from_roots scan pyproj (some roots) =
    add_pattern (toml_xtract pyproj (text "tool.pytest.ini_options.python_files")) (
      add_testpaths scan.world (toml_xtract pyproj (text "tool.pytest.ini_options.testpaths"))
        (add_roots scan roots no_hook))

abbrev pub filter_roots : Toml → Option (Set Text) → Option (Set Text)
filter_roots pyproj none = none
filter_roots pyproj (some roots) =
    if is_truthy pyproj then filter_packages roots pyproj else some roots

-- `hook_default`, for what `pyproject.toml` holds, an empty table without it; `none` is an exception.
unfoldable pub hook_default : Scan → Toml → Option DefaultHook
hook_default scan pyproj =
    from_roots scan pyproj
      (filter_roots pyproj (relative_roots scan.root (find_package_roots scan.root scan.dents)))
