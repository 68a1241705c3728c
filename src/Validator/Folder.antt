-- ===== src/Validator/Folder.antt =====
-- validator.py: `validate_folder`, the loop of `validate`, and the exit status of `main`. The hooks
-- are taken not to raise.
pub mod Cleanup
pub mod Local
use prunepytest.Prelude.{
  ℕ, ◌+◌, Bool, true, false, not, ◌||◌, ◌&&◌, Option, none, some, List, [], ◌∷◌, ◌++◌, ◌==◌,
  contains, length, get_elem?, drop, leb, eqb, if◌then◌else◌, list_eq, nat_eq,
}
use prunepytest.Text.{Text, text, starts_with, dot}
use prunepytest.Sets.{Set, diff, discard}
use prunepytest.Dict.{Dict, erase, has}
use prunepytest.Graph.{ModuleGraph}
use prunepytest.Tracker.Deps.{Name, at}
use prunepytest.Tracker.State.{Tracker, base_ns, last_part}
use prunepytest.Tracker.Contexts.{with_dynamic}
use prunepytest.Validator.Walk.{Entries, Loader, Walk, recursive_import_tests}
use prunepytest.Validator.Subset.{validate_subset}

-- The tracker, the names in `sys.modules`, and `sys.path`.
pub record Interp : Type 0 where
  pub tracker : Tracker
  pub modules : Set Name
  pub path : List Text

-- What the validator takes from the hook and from the file system; `package_dir` is
-- `os.path.abspath(os.path.dirname(fs))`.
pub record Env : Type 0 where
  pub loader : Loader Interp
  pub before_folder : Text → Text → Interp → Interp
  pub after_folder : Text → Text → Interp → Interp
  pub package_dir : Text → Text
  pub local_namespaces : Set Name
  pub global_namespaces : Set Name

-- `m.startswith(py) and (len(m) <= len(py) or m[len(py)] == ".")`
unfoldable pub under_package : Name → Name → Bool
unfolding starts_with
under_package py m =
    starts_with m py
    && (leb (length m) (length py)
        || elim (get_elem? m (length py)) [ none ↦ false | some c ↦ c == dot ])

-- The three `del`; `none` is a KeyError.
unfoldable pub delete_module : Name → Interp → Option Interp
unfolding has erase discard
delete_module m i =
    if has m i.tracker.deps.tracked
    then some (record i {
      tracker = record i.tracker {
        deps = record i.tracker.deps { tracked = erase m i.tracker.deps.tracked };
        dynamic_users = erase m i.tracker.dynamic_users;
      };
      modules = discard m i.modules;
    })
    else none

-- The cleanup of `validate_folder`
unfoldable pub cleanup : Name → List Name → Interp → Option Interp
unfolding under_package delete_module
cleanup py [] i = some i
cleanup py (m ∷ ms) i =
    if under_package py m
    then elim (delete_module m i) [ none ↦ none | some j ↦ cleanup py ms j ]
    else cleanup py ms i

-- `with_dynamic` of each imported module; `none` is a KeyError.
unfoldable pub all_with_dynamic : List Name → Tracker → Option (Dict Name (Set Name))
unfolding with_dynamic
all_with_dynamic [] t = some []
all_with_dynamic (m ∷ ms) t = elim (with_dynamic m t) [
  | none ↦ none
  | some deps ↦ elim (all_with_dynamic ms t) [ none ↦ none | some d ↦ some ((m, deps) ∷ d) ]
]

-- `t.tracked`, with the contents of the sets
unfoldable pub tracked_sets : Tracker → Dict Name ℕ → Dict Name (Set Name)
tracked_sets t [] = []
tracked_sets t ((m, a) ∷ d) = (m, at a t.deps) ∷ tracked_sets t d

module _ (env : Env) (g : ModuleGraph) where
  -- `is_local_test_module`
  unfoldable pub is_local_test_module : Name → Name → Bool
  unfolding starts_with
  is_local_test_module py m =
      starts_with m py && env.loader.is_test_file (last_part m ++ text ".py")

  -- The end of `validate_folder`
  unfoldable pub leave_folder : Text → Name → ℕ × ℕ → Interp → Option ((ℕ × ℕ) × Interp)
  leave_folder fs py counts i =
      some (counts, env.after_folder fs py (record i { path = drop 1 i.path }))

  -- What `validate_folder` does after the imports; `old_k` are the modules from before.
  unfoldable pub compare_folder : Text → Name → Set Name → Walk Interp → Option ((ℕ × ℕ) × Interp)
  unfolding all_with_dynamic is_local_test_module validate_subset cleanup diff leave_folder
  compare_folder fs py old_k r =
      let errors = length r.errors in
      if contains env.local_namespaces (base_ns py)
      then elim (all_with_dynamic r.imported r.world.tracker) [
        | none ↦ none
        | some tracked ↦
            let n = validate_subset g (is_local_test_module py) (some fs) tracked in
            elim (cleanup py (diff r.world.modules old_k) r.world) [
              | none ↦ none
              | some j ↦ leave_folder fs py (errors, n) j
            ]
      ]
      else leave_folder fs py (errors, 0) r.world

  unfoldable pub validate_folder : Text → Name → Entries → Interp → Option ((ℕ × ℕ) × Interp)
  unfolding compare_folder recursive_import_tests
  validate_folder fs py es i = compare_folder fs py i.modules (
      recursive_import_tests env.loader fs py es (record {
        world = env.before_folder fs py (record i { path = env.package_dir fs ∷ i.path });
        imported = [];
        errors = [];
      }))

  -- The loop of `validate` over the test folders, which are sorted: the counts, and the
  -- interpreter.
  unfoldable pub validate_folders :
      List (Text × Name × Entries) → ℕ × ℕ → Interp → Option ((ℕ × ℕ) × Interp)
  unfolding validate_folder
  validate_folders [] counts i = some (counts, i)
  validate_folders ((fs, py, es) ∷ folders) (errors, missing) i =
      elim (validate_folder fs py es i) [
        | none ↦ none
        | some ((n, m), j) ↦ validate_folders folders (errors + n, missing + m) j
      ]

  abbrev pub is_global : Name → Bool
  is_global m = contains env.global_namespaces (base_ns m)

  -- `validate`, from the start of that loop
  unfoldable pub validate : List (Text × Name × Entries) → Interp → Option ((ℕ × ℕ) × Interp)
  unfolding validate_folders validate_subset tracked_sets
  validate folders i = elim (validate_folders folders (0, 0) i) [
    | none ↦ none
    | some ((errors, missing), j) ↦
        let t = j.tracker in
        some
          ((errors, missing + validate_subset g is_global none (tracked_sets t t.deps.tracked)), j)
  ]

-- The argument of `sys.exit` in `main`
unfoldable pub exit_status : ℕ → ℕ → ℕ
exit_status n_err m_missing = if eqb (n_err + m_missing) 0 then 0 else 1
