-- ===== src/Session/HookFile/Roots.antt =====
-- util.py, defaults.py and _prunepytest.pyi: what the import graph is built from with the default hook,
-- and the folders of tests that are validated.
use prunepytest.Prelude.{
  ◌≡◌, refl, ◌∙◌, sym, ap, subst, true, false, Option, none, some, Every, is_empty, map,
  Option-cases, arith, inl, inr, list_eq, nat_eq,
}
use prunepytest.Text.{Text, text}
use prunepytest.Dict.{Dict, lookup}
use prunepytest.FilePath.{below}
use prunepytest.Loader.{World, graph_args}
use prunepytest.Loader.Hooks.{from_default}
use prunepytest.Loader.Hooks as Choice
use prunepytest.Defaults.Assemble.{DefaultHook, Scan, hook_default}
use prunepytest.Defaults.Assemble.Folders.{IsNamed, IsCovered}
use prunepytest.Defaults.Assemble.Cover.{hook_default-IsCovered}
use prunepytest.Hooks.{ValidatorHook, validator_hook, default_methods}
use prunepytest.Session.{Process, load_hook_or_default}
use prunepytest.Session.HookFile.{
  Member, Loaded, Python, pattern_of, make_default_hook, import_file, read_pyproject,
  hook_default_as, members_of, value_in, instantiate, load_hook, with_hooks,
}

-- The roots of the graph that is built have their packages in its prefixes, and the folders of tests
-- are in those roots.
pub record IsInGraph (hook : ValidatorHook) : Type 0 where
  pub named :
      Every
        (IsNamed
          (graph_args hook.base none).global_prefixes
          (graph_args hook.base none).local_prefixes)
        (graph_args hook.base none).source_roots
  pub covered : Every (IsCovered (graph_args hook.base none).source_roots) hook.test_folders

make_default_hook-IsInGraph :
    (h : DefaultHook) (hook : ValidatorHook)
    → Every (IsNamed h.global_ns h.local_ns) h.src_roots
    → Every (IsCovered h.src_roots) h.tst_dirs
    → make_default_hook h ≡ some hook
    → IsInGraph hook
unfolding make_default_hook validator_hook default_methods graph_args
make_default_hook-IsInGraph h hook named covered e =
    elim (Option-cases (pattern_of h.tst_file_pattern)) [
      | inl n ↦ absurd (ground (arith, n, e))
      | inr (pattern, n) ↦
          let same : validator_hook (default_methods h pattern) ≡ hook = ground (arith, n, e) in
          subst IsInGraph same (record { named = named; covered = covered })
    ]

hook_default_as-IsInGraph :
    (py : Python) (w : World) (hook : ValidatorHook)
    → hook_default_as py make_default_hook w ≡ some hook
    → IsInGraph hook
unfolding hook_default_as
hook_default_as-IsInGraph py w hook e = elim (Option-cases (read_pyproject py w)) [
  | inl n ↦ absurd (ground (arith, n, e))
  | inr (cfg, n) ↦
      let scan : Scan = record {
        root = w.cwd;
        dents = py.dents w;
        world = w;
        is_ns = py.is_ns w;
      } in
      elim (Option-cases (hook_default scan cfg)) [
        | inl m ↦ absurd (ground (arith, n, m, e))
        | inr (h, m) ↦
            let (named, covered) = hook_default-IsCovered scan cfg h m in
            make_default_hook-IsInGraph h hook named covered (ground (arith, n, m, e))
      ]
]

-- The names of the module that a hook's file is imported as
abbrev pub members : Python → Loaded → World → Text → Dict Text Member
members py s w path =
    members_of py (import_file py (text "prunepytest._hook") (below w.cwd path) w s)

-- No hook's file is given, or the first class in it that is a hook inherits from `DefaultHook` all
-- that makes an instance.
pub data UsesDefault (py : Python) (s : Loaded) (w : World) : Option Text → Type 0 where
  without_path : UsesDefault py s w none
  empty_path : {path : Text} → is_empty path ≡ true → UsesDefault py s w (some path)
  by_subclass :
      {path n : Text} {m : Member}
      → is_empty path ≡ false
      → Choice.load_hook (map (value_in py) (members py s w path)) ≡ from_default n
      → lookup n (members py s w path) ≡ some m
      → m.make_default ≡ make_default_hook
      → UsesDefault py s w (some path)

instantiate-from_default :
    (py : Python) (w : World) (ms : Dict Text Member) (n : Text) (m : Member)
    → lookup n ms ≡ some m
    → m.make_default ≡ make_default_hook
    → instantiate py w ms (from_default n) ≡ hook_default_as py make_default_hook w
unfolding instantiate
instantiate-from_default py w ms n m found same =
    ground (arith, found, ap (λ cls. hook_default_as py cls w) same)

UsesDefault-same :
    (py : Python) (s : Loaded) (w : World) (p : Process) (path : Option Text)
    → UsesDefault py s w path
    → load_hook_or_default (with_hooks py s p) path w ≡ hook_default_as py make_default_hook w
unfolding load_hook_or_default with_hooks load_hook instantiate
UsesDefault-same py s w p none without_path = refl
UsesDefault-same py s w p (some path) (empty_path e) = rw e refl
UsesDefault-same py s w p (some path) (by_subclass {n = n} {m = m} e first found same) =
    rw (e, first) (instantiate-from_default py w (members py s w path) n m found same)

-- If no hook's file is given, or the class in it inherits from `DefaultHook` how it is made, and a hook
-- is loaded, then the graph that is built for it has the top of each of its source roots among its
-- prefixes, and each of its folders of tests is one of the roots or below one.
pub load_hook_or_default-IsInGraph :
    (py : Python) (s : Loaded) (w : World) (p : Process) (path : Option Text) (hook : ValidatorHook)
    → UsesDefault py s w path
    → load_hook_or_default (with_hooks py s p) path w ≡ some hook
    → IsInGraph hook
load_hook_or_default-IsInGraph py s w p path hook uses e =
    hook_default_as-IsInGraph py w hook (sym (UsesDefault-same py s w p path uses) ∙ e)
