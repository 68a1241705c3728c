-- ===== src/Defaults/Infer.antt =====
-- defaults.py: the roots of packages in a file tree, and the import path of a folder.
pub mod Roots
pub mod Packages
pub mod Namespaces
use prunepytest.Prelude.{
  ℕ, zero, suc, ◌+◌, Bool, true, false, not, ◌||◌, ◌&&◌, Option, none, some, List, [], ◌∷◌, ◌++◌,
  length, drop, ◌==◌, is_empty, if◌then◌else◌, list_eq, nat_eq,
}
use prunepytest.Text.{Text, text, dot, slash, replace, starts_with}
use prunepytest.Sets.{Set, add, union}
use prunepytest.FilePath.{below, join_paths, dirname, base_name}
use prunepytest.Loader.{World, exists}

-- What a folder holds, in the order of `os.scandir`: what counts as a file for `os.path.isfile`, and
-- folders that are no symbolic links.
pub data Dents : Type 0 where
  nothing : Dents
  file : Text → Dents → Dents
  folder : Text → Dents → Dents → Dents

-- `os.path.isfile(child / "__init__.py")`
unfoldable pub has_init : Dents → Bool
has_init nothing = false
has_init (file n rest) = n == text "__init__.py" || has_init rest
has_init (folder n d rest) = has_init rest

abbrev pub is_hidden : Text → Bool
is_hidden n = starts_with n (dot ∷ [])

-- `find_package_roots`, for a folder and what it holds
unfoldable pub find_package_roots : Text → Dents → Set Text
unfolding has_init starts_with below add union
find_package_roots root nothing = []
find_package_roots root (file n rest) = find_package_roots root rest
find_package_roots root (folder n d rest) =
    let pkgs = find_package_roots root rest in
    let child = below root n in
    let inner = find_package_roots child d in
    if is_hidden n then pkgs else if has_init d then add child pkgs else union pkgs inner

-- The loop of `infer_py_pkg`: up from `parent` to the first folder that is no package. On fuel: if
-- `/__init__.py` exists, then the loop does not end at `/`.
unfoldable pub find_parent : ℕ → World → Text → Option Text
unfolding dirname join_paths
find_parent zero w parent = none
find_parent (suc fuel) w parent =
    let rest = find_parent fuel w (dirname parent) in
    if not (is_empty parent) && exists w (join_paths parent (text "__init__.py"))
    then rest
    else some parent

-- `filepath[len(parent) + 1 if parent else 0 :].replace("/", ".")`
unfoldable pub dotted_below : Text → Text → Text
unfolding replace
dotted_below filepath parent =
    replace slash dot (drop (if is_empty parent then 0 else length parent + 1) filepath)

abbrev pub name_below : Text → Option Text → Option Text
name_below filepath none = none
name_below filepath (some parent) = some (dotted_below filepath parent)

unfoldable pub infer_py_pkg : World → Text → Option Text
infer_py_pkg w filepath =
    name_below filepath (find_parent (suc (length filepath)) w (dirname filepath))

-- A walk down from a folder, at its path and its import path; `none` is the bail-out.
abbrev pub Descent : Type 0
Descent = Text → Text → Option (Text × Text)

-- into the only folder below
abbrev pub go_down : List (Text × Descent) → Descent
go_down [] path ns = none
go_down ((n, into) ∷ []) path ns = into (below path n) (ns ++ dot ∷ n)
go_down (a ∷ b ∷ subs) path ns = none

abbrev pub or_itself : Text → Option (Text × Text) → Text × Text
or_itself pkgroot none = (pkgroot, base_name pkgroot)
or_itself pkgroot (some r) = r

module _ (is_ns : Text → Bool) where
  -- One round of the loop of `infer_ns_pkg`, with the walks into the folders below.
  unfoldable pub ns_step : List (Text × Descent) → Descent
  ns_step subs path ns =
      if is_ns (below path (text "__init__.py")) then go_down subs path ns else some (path, ns)

  unfoldable pub ns_subs : Dents → List (Text × Descent)
  ns_subs nothing = []
  ns_subs (file n rest) = ns_subs rest
  ns_subs (folder n d rest) =
      let others = ns_subs rest in
      let into = ns_step (ns_subs d) in
      if n == text "__pycache__" then others else (n, into) ∷ others

  -- `infer_ns_pkg` without a root, for a folder and what it holds
  unfoldable pub infer_ns_pkg : Text → Dents → Text × Text
  infer_ns_pkg pkgroot dents =
      or_itself pkgroot (ns_step (ns_subs dents) pkgroot (base_name pkgroot))
