-- ===== src/Tests/Scanning.antt =====
-- The default hook of a small file tree.
use prunepytest.Prelude.{
  Every, ℕ, ◌≡◌, ◌↔◌, ◌⊎◌, refl, true, false, some, List, [], ◌∷◌, contains, list_eq, nat_eq,
}
use prunepytest.Text.{Text, text, starts_with}
use prunepytest.FilePath.{dirname, base_name}
use prunepytest.Loader.{World, folder, regular}
use prunepytest.Defaults.Pyproject.{Toml, table, string, no_entries, entry}
use prunepytest.Defaults.Infer.{
  Dents, nothing, find_package_roots, dotted_below, infer_py_pkg, infer_ns_pkg,
}
use prunepytest.Defaults.Infer.{file as file_of, folder as folder_of}
use prunepytest.Defaults.Infer.Roots.{IsRoot, find_package_roots-IsRoot}
use prunepytest.Defaults.Infer.Packages.{is_package, above, passed, infer_py_pkg-above}
use prunepytest.Defaults.Infer.Namespaces.{path_below, import_below, infer_ns_pkg-path_below}

abbrev init : Dents → Dents
init d = file_of (text "__init__.py") d

-- A package `p` with a package `p/q`, and `tests`
abbrev tree : Dents
tree =
    folder_of (text "p") (init (folder_of (text "q") (init nothing) nothing))
      (folder_of (text "tests") (init nothing) nothing)

abbrev disk : World
disk = record {
  cwd = text "/r";
  entries =
      (text "/r", folder) ∷ (text "/r/p", folder) ∷ (text "/r/p/__init__.py", regular []) ∷ [];
}

abbrev config : Toml
config =
    table (entry (text "a") (table (entry (text "b") (string (text "c")) no_entries)) no_entries)

find_package_roots-IsRoot_example :
    (contains (find_package_roots (text ".") tree) (text "p") ≡ true)
    ↔ IsRoot (text ".") tree (text "p")
find_package_roots-IsRoot_example = find_package_roots-IsRoot (text ".") tree (text "p")

infer_py_pkg-above_example :
    (n : ℕ) × (infer_py_pkg disk (text "p/tests/a")
      ≡ some (dotted_below (text "p/tests/a") (above n (dirname (text "p/tests/a")))))
    × (is_package disk (above n (dirname (text "p/tests/a"))) ≡ false)
    × Every (λ q. is_package disk q ≡ true) (passed n (dirname (text "p/tests/a")))
unfolding nat_eq starts_with
infer_py_pkg-above_example = infer_py_pkg-above disk (text "p/tests/a") refl

infer_ns_pkg-path_below_example :
    (names : List Text) × ((infer_ns_pkg (λ p. false) (text "p") tree).0
      ≡ path_below (text "p") names)
    × ((infer_ns_pkg (λ p. false) (text "p") tree).1 ≡ import_below (base_name (text "p")) names)
    × ((names ≡ []) ⊎ (false ≡ false))
infer_ns_pkg-path_below_example = infer_ns_pkg-path_below (λ p. false) (text "p") tree
