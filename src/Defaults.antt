-- ===== src/Defaults.antt =====
-- defaults.py: the hook that is made from the contents of a folder.
pub mod Pyproject
pub mod Infer
pub mod Assemble
use prunepytest.Prelude.{
  ℕ, Bool, true, false, not, ◌||◌, ◌&&◌, Option, none, some, List, [], ◌∷◌, ◌++◌, ◌==◌, is_empty,
  is_none, map, if◌then◌else◌, list_eq, nat_eq,
}
use prunepytest.Text.{Text, text, dot, slash, split, partition, starts_with, has_infix}
use prunepytest.Sets.{Set, add}
use prunepytest.Dict.{Dict, insert, has, keys}
use prunepytest.FilePath.{below, relative_to, base_name, pure, normpath}
use prunepytest.Fnmatch.{fnmatch}
use prunepytest.Loader.{World}
use prunepytest.Defaults.Pyproject.{
  Toml, table, array, string, scalar, Items, no_items, item, Entries, no_entries, entry, Found,
  absent, found, type_error, toml_xtract, is_truthy, is_in,
}
use prunepytest.Defaults.Infer.{
  Dents, nothing, file, folder, find_package_roots, infer_py_pkg, infer_ns_pkg,
}

-- `a or b`, where the first may raise
abbrev pub or_else : Option Bool → Bool → Option Bool
or_else none b = none
or_else (some a) b = some (a || b)

-- `any(test(x) for x in items)` of the strings in an array; another item raises.
unfoldable pub any_item : (Text → Bool) → Items → Option Bool
any_item test no_items = some false
any_item test (item (string s) rest) = let r = any_item test rest in if test s then some true else r
any_item test (item (table t) rest) = none
any_item test (item (array a) rest) = none
any_item test (item (scalar b) rest) = none

unfoldable pub any_key : (Text → Bool) → Entries → Bool
any_key test no_entries = false
any_key test (entry k v rest) = test k || any_key test rest

unfoldable pub any_char : (Text → Bool) → Text → Bool
any_char test [] = false
any_char test (x ∷ s) = test (x ∷ []) || any_char test s

-- the same over whatever value it is
abbrev pub any_in : (Text → Bool) → Toml → Option Bool
any_in test (array a) = any_item test a
any_in test (table t) = some (any_key test t)
any_in test (string s) = some (any_char test s)
any_in test (scalar b) = none

abbrev pub is_tests : Text → Bool
is_tests p = base_name p == text "tests"

-- The conditions of the four filters, for a root `p` and the value `f`; `none` is an exception.
abbrev pub in_where : Toml → Text → Option Bool
in_where f p = any_in (λ s. not (is_none (relative_to p (pure s)))) f

abbrev pub in_include : Toml → Text → Option Bool
in_include f p = or_else (any_in (λ pat. fnmatch p pat) f) (is_tests p)

abbrev pub in_source : Toml → Text → Option Bool
in_source (string f) p = some (starts_with p f || is_tests p)
in_source (array a) p = none
in_source (table t) p = none
in_source (scalar b) p = none

abbrev pub in_packages : Toml → Text → Option Bool
in_packages f p = or_else (is_in (base_name p) f) (is_tests p)

abbrev pub cons_if : Text → Option Bool → Option (Set Text) → Option (Set Text)
cons_if p none r = none
cons_if p (some b) none = none
cons_if p (some b) (some s) = some (if b then p ∷ s else s)

-- `{p for p in roots if test(p)}`
unfoldable pub keep_if : (Text → Option Bool) → Set Text → Option (Set Text)
keep_if test [] = some []
keep_if test (p ∷ ps) = cons_if p (test p) (keep_if test ps)

abbrev pub filter_by : (Toml → Text → Option Bool) → Found → Set Text → Option (Set Text)
filter_by test absent roots = some roots
filter_by test type_error roots = none
filter_by test (found f) roots = if is_truthy f then keep_if (test f) roots else some roots

abbrev pub then_filter : (Toml → Text → Option Bool) → Found → Option (Set Text) → Option (Set Text)
then_filter test f none = none
then_filter test f (some roots) = filter_by test f roots

-- `filter_packages`; `none` is an exception.
unfoldable pub filter_packages : Set Text → Toml → Option (Set Text)
filter_packages pkg_roots pyproject =
    then_filter in_packages (toml_xtract pyproject (text "tool.maturin.python-packages")) (
      then_filter in_source (toml_xtract pyproject (text "tool.maturin.python-source")) (
        then_filter in_include
          (toml_xtract pyproject (text "tool.setuptools.packages.find.include"))
          (filter_by in_where (toml_xtract pyproject (text "tool.setuptools.packages.find.where"))
            pkg_roots)))
