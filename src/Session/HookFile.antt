-- ===== src/Session/HookFile.antt =====
-- util.py: `import_file` and all of `load_hook`; defaults.py: `parse_toml` and the hook of the current
-- directory. They fill in the two ways to a hook of a `Process`.
pub mod Roots
use prunepytest.Prelude.{
  ℕ, suc, Bool, Option, none, some, List, [], map, if◌then◌else◌, list_eq, nat_eq,
}
use prunepytest.Text.{Text, text}
use prunepytest.Dict.{Dict, lookup, insert}
use prunepytest.FilePath.{below}
use prunepytest.Loader.{World, Entry, folder, regular, entry_at, exists}
use prunepytest.Loader.Hooks.{Value, Chosen, from_default, instance_of, value_error}
use prunepytest.Loader.Hooks as Choice
use prunepytest.Defaults.Pyproject.{Toml, table, array, string, scalar, no_entries, is_truthy}
use prunepytest.Defaults.Infer.{Dents}
use prunepytest.Defaults.Assemble.{DefaultHook, hook_default}
use prunepytest.Hooks.{ValidatorHook, validator_hook, default_methods}
use prunepytest.Session.{Process}

-- A name of a hook's file, with what the class that it stands for gives when it is called: without
-- arguments, or with those of `DefaultHook`.
pub record Member : Type 0 where
  pub value : Value
  pub make : Option ValidatorHook
  pub make_default : DefaultHook → Option ValidatorHook

-- `sys.modules`, and the names of the modules that were made for hooks, by number.
pub record Loaded : Type 0 where
  pub modules : Dict Text ℕ
  pub objects : Dict ℕ (Dict Text Member)
  pub next : ℕ

-- The interpreter: whether a path has a loader; the code of a file, which fills in a module and may
-- change the others, and whether it ends without an exception; the parser of tomllib or tomli, if it
-- is there; what is in the folders below the current directory; `file_looks_like_pkgutil_ns_init`.
pub record Python : Type 0 where
  pub has_loader : Text → Bool
  pub exec_module : World → Text → ℕ → Loaded → Bool × Loaded
  pub toml : Option (List ℕ → Option Toml)
  pub dents : World → Dents
  pub is_ns : World → Text → Bool

-- A module that is new in `sys.modules`
abbrev pub register : Text → Loaded → Loaded
register name s = record {
  modules = insert name s.next s.modules;
  objects = insert s.next [] s.objects;
  next = suc s.next;
}

abbrev pub if_executed : ℕ → Bool × Loaded → Option ℕ × Loaded
if_executed a (ok, s) = (if ok then some a else none, s)

-- What `load` reads from the file
abbrev pub load_entry : (List ℕ → Option Toml) → Option Entry → Option Toml
load_entry load none = none
load_entry load (some folder) = none
load_entry load (some (regular b)) = load b

-- The pattern of a `DefaultHook`. A value that is neither a string nor false makes `is_test_file`
-- raise a TypeError; that is taken as an exception here.
abbrev pub pattern_of : Option Toml → Option (Option Text)
pattern_of none = some none
pattern_of (some (string s)) = some (some s)
pattern_of (some (table t)) = if is_truthy (table t) then none else some none
pattern_of (some (array a)) = if is_truthy (array a) then none else some none
pattern_of (some (scalar b)) = if is_truthy (scalar b) then none else some none

-- `DefaultHook(…)`
unfoldable pub make_default_hook : DefaultHook → Option ValidatorHook
unfolding validator_hook default_methods
make_default_hook h = elim (pattern_of h.tst_file_pattern) [
  | none ↦ none
  | some pattern ↦ some (validator_hook (default_methods h pattern))
]

abbrev pub call_with :
    (DefaultHook → Option ValidatorHook) → Option DefaultHook → Option ValidatorHook
call_with cls none = none
call_with cls (some h) = cls h

module _ (py : Python) where
  -- `import_file`: the number of the module; `none` is an exception.
  unfoldable pub import_file : Text → Text → World → Loaded → Option ℕ × Loaded
  unfolding insert
  import_file name filepath w s =
      if py.has_loader filepath
      then if_executed s.next (py.exec_module w filepath s.next (register name s))
      else (none, s)

  -- `parse_toml`; `none` is an exception.
  unfoldable pub parse_toml : World → Text → Option Toml
  unfolding entry_at
  parse_toml w filepath = elim py.toml [
    | none ↦ some (table no_entries)
    | some load ↦ load_entry load (entry_at w filepath)
  ]

  -- `parse_toml(pyproj_path) if os.path.exists(pyproj_path) else {}`
  unfoldable pub read_pyproject : World → Option Toml
  unfolding parse_toml entry_at below
  read_pyproject w =
      let path = below w.cwd (text "pyproject.toml") in
      if exists w path then parse_toml w path else some (table no_entries)

  abbrev pub scan_with : World → Option Toml → Option DefaultHook
  scan_with w none = none
  scan_with w (some pyproj) =
      hook_default (record { root = w.cwd; dents = py.dents w; world = w; is_ns = py.is_ns w })
        pyproj

  -- `hook_default(pathlib.Path.cwd(), cls)`
  unfoldable pub hook_default_as :
      (DefaultHook → Option ValidatorHook) → World → Option ValidatorHook
  unfolding read_pyproject hook_default
  hook_default_as cls w = call_with cls (scan_with w (read_pyproject w))

  abbrev pub members_of : Option ℕ × Loaded → Dict Text Member
  members_of (none, s) = []
  members_of (some a, s) = elim (lookup a s.objects) [ none ↦ [] | some ms ↦ ms ]

  abbrev pub value_in : Text × Member → Text × Value
  value_in (n, m) = (n, m.value)

  -- `hook_default(root, val)` or `val()`, for the name of `val`
  unfoldable pub instantiate : World → Dict Text Member → Chosen → Option ValidatorHook
  unfolding lookup hook_default_as
  instantiate w ms (from_default n) = elim (lookup n ms) [
    | none ↦ none
    | some m ↦ hook_default_as m.make_default w
  ]
  instantiate w ms (instance_of n) = elim (lookup n ms) [ none ↦ none | some m ↦ m.make ]
  instantiate w ms value_error = none

  -- `load_hook(pathlib.Path.cwd(), hook, ValidatorHook)`; `none` is an exception.
  unfoldable pub load_hook : World → Text → Loaded → Option ValidatorHook × Loaded
  unfolding import_file lookup Choice.load_hook instantiate below
  load_hook w hook s =
      let imported = import_file (text "prunepytest._hook") (below w.cwd hook) w s in
      let ms = members_of imported in
      (instantiate w ms (Choice.load_hook (map value_in ms)), imported.1)

  -- A process whose hooks are loaded this way, from the modules `s` that it starts with.
  unfoldable pub with_hooks : Loaded → Process → Process
  unfolding load_hook hook_default_as make_default_hook
  with_hooks s p = record p {
    load_hook = λ w path. (load_hook w path s).0;
    hook_default = hook_default_as make_default_hook;
  }
