-- ===== src/Defaults/Assemble/Cover.antt =====
-- defaults.py: the namespaces and the source roots of the default hook cover each other.
use prunepytest.Prelude.{
  ◌≡◌, subst, Option, none, some, List, [], ◌∷◌, Every, Every-map, arith, eq_refl, if-cases,
  list_eq, nat_eq,
}
use prunepytest.Text.{Text, text}
use prunepytest.Sets.{Set, add, contains-add}
use prunepytest.Dict.{Dict, insert}
use prunepytest.Defaults.Pyproject.{Toml, Found, absent, found, type_error, is_truthy, toml_xtract}
use prunepytest.Defaults.{is_tests}
use prunepytest.Defaults.Infer.{find_package_roots}
use prunepytest.Defaults.Assemble.{
  DefaultHook, Scan, top_of, ns_pkg, add_root, add_roots, folders_of, with_folders, with_paths,
  test_paths, add_testpaths, pattern_in, with_pattern, add_pattern, no_hook, from_roots,
  filter_roots, relative_roots, hook_default,
}
use prunepytest.Defaults.Assemble.Folders.{
  IsNamed, IsCovered, Every-insert, IsCovered-insert, IsCovered-insert_self, tests_named,
  include_folders-AllNamed, include_folders-IsCovered, include_folders-tst_dirs,
}

-- The two invariants of the hook in the making.
record IsSound (h : DefaultHook) : Type 0 where
  named : Every (IsNamed h.global_ns h.local_ns) h.src_roots
  covered : Every (IsCovered h.src_roots) h.tst_dirs

add_root-IsSound :
    (scan : Scan) (p : Text) (h : DefaultHook) → IsSound h → IsSound (add_root scan p h)
unfolding add_root
add_root-IsSound scan p h s =
    let (fs, py) = ns_pkg scan p in
    if-cases IsSound (is_tests p)
      (record h {
        local_ns = add (text "tests") h.local_ns;
        tst_dirs = insert p (text "tests") h.tst_dirs;
        src_roots = insert p (text "tests") h.src_roots;
      })
      (record h { global_ns = add (top_of py) h.global_ns; src_roots = insert fs py h.src_roots })
      (λ t. record {
        named =
            Every-insert (IsNamed h.global_ns (add (text "tests") h.local_ns)) p (text "tests")
              h.src_roots (ground (arith, tests_named h.local_ns))
              (Every-map (IsNamed h.global_ns h.local_ns)
                (IsNamed h.global_ns (add (text "tests") h.local_ns))
                (λ r q. ground (arith, q, contains-add (text "tests") (top_of r.1) h.local_ns))
                h.src_roots s.named);
        covered =
            Every-insert (IsCovered (insert p (text "tests") h.src_roots)) p (text "tests")
              h.tst_dirs (IsCovered-insert_self p (text "tests") (text "tests") h.src_roots)
              (Every-map (IsCovered h.src_roots) (IsCovered (insert p (text "tests") h.src_roots))
                (λ r q. IsCovered-insert r.0 r.1 p (text "tests") h.src_roots q) h.tst_dirs
                s.covered);
      })
      (λ t. record {
        named =
            Every-insert (IsNamed (add (top_of py) h.global_ns) h.local_ns) fs py h.src_roots
              (ground
                (arith, contains-add (top_of py) (top_of py) h.global_ns, eq_refl (top_of py)))
              (Every-map (IsNamed h.global_ns h.local_ns)
                (IsNamed (add (top_of py) h.global_ns) h.local_ns)
                (λ r q. ground (arith, q, contains-add (top_of py) (top_of r.1) h.global_ns))
                h.src_roots s.named);
        covered =
            Every-map (IsCovered h.src_roots) (IsCovered (insert fs py h.src_roots))
              (λ r q. IsCovered-insert r.0 r.1 fs py h.src_roots q) h.tst_dirs s.covered;
      })

add_roots-IsSound :
    (scan : Scan) (ps : Set Text) (h : DefaultHook) → IsSound h → IsSound (add_roots scan ps h)
unfolding add_roots
add_roots-IsSound scan [] h s = s
add_roots-IsSound scan (p ∷ ps) h s =
    add_roots-IsSound scan ps (add_root scan p h) (add_root-IsSound scan p h s)

-- If there is a hook, then it is sound.
abbrev IsSoundIf : Option DefaultHook → Type 0
IsSoundIf none = Unit
IsSoundIf (some h) = IsSound h

with_folders-IsSound :
    (h : DefaultHook) (o : Option (Dict Text Text)) → IsSound h → IsSoundIf (with_folders h o)
with_folders-IsSound h none s = tt
with_folders-IsSound h (some folders) s =
    let u : DefaultHook = record h { tst_dirs = folders } in
    record {
      named = include_folders-AllNamed folders u s.named;
      covered = rw (include_folders-tst_dirs folders u) (include_folders-IsCovered folders u);
    }

add_testpaths-IsSound :
    (scan : Scan) (f : Found) (h : DefaultHook)
    → IsSound h
    → IsSoundIf (add_testpaths scan.world f h)
add_testpaths-IsSound scan absent h s = s
add_testpaths-IsSound scan type_error h s = tt
add_testpaths-IsSound scan (found v) h s =
    if-cases IsSoundIf (is_truthy v) (with_paths scan.world h (test_paths v)) (some h)
      (λ e. paths (test_paths v)) (λ e. s)
  where
    paths : (o : Option (List Text)) → IsSoundIf (with_paths scan.world h o)
    paths none = tt
    paths (some ps) = with_folders-IsSound h (folders_of scan.world ps []) s

add_pattern-IsSound :
    (f : Found) (o : Option DefaultHook) → IsSoundIf o → IsSoundIf (add_pattern f o)
add_pattern-IsSound absent o s = s
add_pattern-IsSound type_error o s = tt
add_pattern-IsSound (found v) o s = with_v (pattern_in v) o s
  where
    with_v : (p : Option Toml) (o : Option DefaultHook) → IsSoundIf o → IsSoundIf (with_pattern p o)
    with_v p none s = tt
    with_v none (some h) s = tt
    with_v (some p) (some h) s = record { named = s.named; covered = s.covered }

from_roots-IsSound :
    (scan : Scan) (cfg : Toml) (o : Option (Set Text)) → IsSoundIf (from_roots scan cfg o)
from_roots-IsSound scan cfg none = tt
from_roots-IsSound scan cfg (some roots) =
    let h = add_roots scan roots no_hook in
    let f = toml_xtract cfg (text "tool.pytest.ini_options.testpaths") in
    add_pattern-IsSound (toml_xtract cfg (text "tool.pytest.ini_options.python_files"))
      (add_testpaths scan.world f h)
      (add_testpaths-IsSound scan f h
        (add_roots-IsSound scan roots no_hook (record { named = tt; covered = tt })))

-- If `hook_default` gives a hook, then the first name of the import path of each of its source roots
-- is in one of its namespaces, and each of its folders of tests is a source root or below one.
pub hook_default-IsCovered :
    (scan : Scan) (cfg : Toml) (h : DefaultHook)
    → hook_default scan cfg ≡ some h
    → Every (IsNamed h.global_ns h.local_ns) h.src_roots × Every (IsCovered h.src_roots) h.tst_dirs
unfolding hook_default
hook_default-IsCovered scan cfg h e =
    let s : IsSound h = subst IsSoundIf e (
      from_roots-IsSound scan cfg
        (filter_roots cfg (relative_roots scan.root (find_package_roots scan.root scan.dents)))) in
    (s.named, s.covered)
