-- ===== src/Validator/Main.antt =====
-- validator.py: `validate` as a whole, and `main`.
pub mod Trust
pub mod Stacks
use prunepytest.Prelude.{
  ℕ, ◌+◌, Bool, true, false, not, ◌&&◌, ◌||◌, Option, none, some, List, [], ◌∷◌, ◌++◌, ◌==◌,
  contains, map, is_empty, eqb, sorted, if◌then◌else◌, list_eq, nat_eq, pair_eq,
}
use prunepytest.Text.{Text, text_lt}
use prunepytest.Sets.{Set}
use prunepytest.Dict.{Dict}
use prunepytest.Graph.{ModuleGraph}
use prunepytest.Tracker.Deps.{Name}
use prunepytest.Tracker.State.{Frame, Module, new_tracker}
use prunepytest.Tracker.Contexts.{start_tracking}
use prunepytest.Args.{hook_path, graph_path, ArgValues, parse_args}
use prunepytest.Loader.{World}
use prunepytest.Hooks.{ValidatorHook, settings_of}
use prunepytest.Session.{
  Line, stack, trusted, missing_imports, make_explicit, errors_prevented, fix_them, exits, failed,
  Outcome, ends, Process, load_hook_or_default, with_values,
}
use prunepytest.Validator.Walk.{Import, Entries}
use prunepytest.Validator.Folder.{Interp, Env}
use prunepytest.Validator.Folder as Folder
use prunepytest.Validator.Prepare.{prepare_graph}

-- The interpreter: the rounds of `sys.modules` that the tracker finds when it starts, what is loaded
-- then, `setup` and the callbacks of a hook, the import of a module, the entries of a folder, and whether a log can be opened. What
-- these do to files is not modelled.
pub record Runtime : Type 0 where
  pub rounds : List (Dict Name Module)
  pub modules : Set Name
  pub path : List Text
  pub setup : ValidatorHook → Interp → Interp
  pub import_with_capture : Text → Interp → Import × Interp
  pub before_file : Text → Text → Interp → Interp
  pub after_file : Text → Text → Interp → Interp
  pub before_folder : Text → Text → Interp → Interp
  pub after_folder : Text → Text → Interp → Interp
  pub package_dir : Text → Text
  pub entries : Text → Entries
  pub opens_log : Text → Bool

unfoldable pub env_of : Runtime → ValidatorHook → Env
env_of rt hook = record {
  loader = record {
    import_with_capture = rt.import_with_capture;
    is_test_file = hook.is_test_file;
    before_file = rt.before_file;
    after_file = rt.after_file;
  };
  before_folder = rt.before_folder;
  after_folder = rt.after_folder;
  package_dir = rt.package_dir;
  local_namespaces = hook.local_namespaces;
  global_namespaces = hook.global_namespaces;
}

-- `if log_file:` and `open(log_file, "a")` in `start_tracking`: the log that is opened, if any
abbrev pub log_path : Option Text → Option Text
log_path none = none
log_path (some p) = if is_empty p then none else some p

abbrev pub can_log : Runtime → Option Text → Bool
can_log rt none = true
can_log rt (some p) = rt.opens_log p

abbrev pub logs_at : Runtime → Option Text → List Text
logs_at rt none = []
logs_at rt (some p) = if rt.opens_log p then p ∷ [] else []

-- The logs that `validate` opens, for the hook that was loaded.
unfoldable pub logs_of : Runtime → Option ValidatorHook → List Text
logs_of rt none = []
logs_of rt (some hook) = logs_at rt (log_path hook.tracking.tracker_log)

abbrev pub with_logs : List Text → Outcome → Outcome
with_logs logs o = record o { logs = logs }

-- The tracker is started, then the hook is set up.
unfoldable pub start_validation : Runtime → ValidatorHook → Interp
unfolding settings_of start_tracking
start_validation rt hook = rt.setup hook (record {
  tracker = start_tracking (settings_of hook) rt.rounds new_tracker;
  modules = rt.modules;
  path = rt.path;
})

-- `sorted(hook.test_folders().items())`, with the entries of each folder
abbrev pub folder_lt : Text × Text → Text × Text → Bool
folder_lt (fs, py) (fs', py') = text_lt fs fs' || (fs == fs' && text_lt py py')

abbrev pub scan_entries : Runtime → Text × Text → Text × Name × Entries
scan_entries rt (fs, py) = (fs, py, rt.entries fs)

unfoldable pub sorted_folders : Runtime → ValidatorHook → List (Text × Name × Entries)
unfolding sorted text_lt
sorted_folders rt hook = map (scan_entries rt) (sorted folder_lt hook.test_folders)

-- The stacks of dynamic imports, one for each list of locations; `seen` is `dedup_stack`.
abbrev pub location : Frame → Text × ℕ
location f = (f.filename, f.lineno)

unfoldable pub dedup : List (List Frame) → Set (List (Text × ℕ)) → List (List Frame)
dedup [] seen = []
dedup (tb ∷ stacks) seen =
    let as_tuple = map location tb in
    let skipped = dedup stacks seen in
    let printed = tb ∷ dedup stacks (as_tuple ∷ seen) in
    if contains seen as_tuple then skipped else printed

unfoldable pub dynamic_stacks : ValidatorHook → Interp → List (List Frame)
unfolding dedup
dynamic_stacks hook i = if hook.tracking.record_dynamic then dedup i.tracker.dynamic [] else []

-- The counts, the stacks that are printed, and what is left.
pub record Validated : Type 0 where
  pub n_err : ℕ
  pub m_missing : ℕ
  pub stacks : List (List Frame)
  pub interp : Interp

abbrev pub counted : ValidatorHook → Option ((ℕ × ℕ) × Interp) → Option Validated
counted hook none = none
counted hook (some ((n, m), i)) =
    some (record { n_err = n; m_missing = m; stacks = dynamic_stacks hook i; interp = i })

-- What `main` says of the counts.
unfoldable pub verdict : ℕ → ℕ → List Line
verdict n_err m_missing =
    if eqb (n_err + m_missing) 0
    then trusted ∷ []
    else (if eqb m_missing 0 then [] else missing_imports ∷ make_explicit ∷ [])
      ++ (if eqb n_err 0 then [] else errors_prevented ∷ fix_them ∷ [])

abbrev pub conclude : Option Validated × World → Outcome
conclude (none, w) = ends failed [] w
conclude (some v, w) =
    ends (exits (Folder.exit_status v.n_err v.m_missing))
      (map stack v.stacks ++ verdict v.n_err v.m_missing) w

module _ (p : Process) (rt : Runtime) where
  -- From the loop over the folders.
  unfoldable pub validate_graph : ValidatorHook → ModuleGraph → Option Validated
  unfolding start_validation sorted_folders dynamic_stacks env_of
  validate_graph hook g =
      counted hook
        (Folder.validate (env_of rt hook) g (sorted_folders rt hook) (start_validation rt hook))

  abbrev pub validate_prepared :
      ValidatorHook → World → Option (ModuleGraph × World) → Option Validated × World
  validate_prepared hook w none = (none, w)
  validate_prepared hook w (some (g, w')) = (validate_graph hook g, w')

  abbrev pub validate_hook : Option Text → World → Option ValidatorHook → Option Validated × World
  validate_hook path w none = (none, w)
  validate_hook path w (some hook) =
      if can_log rt (log_path hook.tracking.tracker_log)
      then validate_prepared hook w (prepare_graph p.graphs hook.base path w)
      else (none, w)

  -- `validate`: the result, where `none` is an exception, and the files that it leaves.
  unfoldable pub validate : Option Text → Option Text → World → Option Validated × World
  unfolding load_hook_or_default prepare_graph validate_graph
  validate hook_file graph_file w = validate_hook graph_file w (load_hook_or_default p hook_file w)

  abbrev pub run_validate : World → ArgValues → Outcome
  run_validate w v =
      with_logs (logs_of rt (load_hook_or_default p v.hook_path w))
        (conclude (validate v.hook_path v.graph_path w))

  -- `main`
  unfoldable pub main : List Text → World → Outcome
  unfolding parse_args validate verdict Folder.exit_status logs_of load_hook_or_default
  main args w =
      with_values w (run_validate w)
        (parse_args p.argparse args (hook_path ∷ graph_path ∷ []) false)
