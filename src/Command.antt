-- ===== src/Command.antt =====
-- __main__.py: the commands.
pub mod Files
pub mod Answer
use prunepytest.Prelude.{
  ℕ, Bool, true, false, ◌&&◌, ◌||◌, Option, none, some, List, [], ◌∷◌, ◌++◌, ◌==◌, contains,
  is_empty, if◌then◌else◌, list_eq, nat_eq,
}
use prunepytest.Text.{Text, text, slash}
use prunepytest.Sets.{Set, union}
use prunepytest.Graph.{ModuleGraph}
use prunepytest.Args.{hook_path, graph_path, modified, base_commit, Arg, ArgValues, parse_args}
use prunepytest.Loader.{World, load_import_graph, to_file}
use prunepytest.Tracker.State.{last_part}
use prunepytest.Plugin.{Vcs, detect_vcs}
use prunepytest.Hooks.{ValidatorHook}
use prunepytest.Session.{
  Line, usage, unknown_command, no_vcs, shown, dynamic, files, depends, exits, failed, Outcome,
  ends, Process, load_hook_or_default, with_values,
}
use prunepytest.Validator.Main as Validator
use prunepytest.Validator.Main.{Runtime}

-- `_modified`: the names, an exit with a message, or an exception.
pub data Modified : Type 0 where
  found : Set Text → Modified
  no_vcs_exit : Modified
  raised : Modified

-- `base_commit`; git takes none and an empty one alike.
abbrev pub or_empty : Option Text → Text
or_empty none = []
or_empty (some c) = c

abbrev pub both : Option (List Text) → Option (List Text) → Modified
both none ys = raised
both (some xs) none = raised
both (some xs) (some ys) = found (union xs ys)

abbrev pub modified_of : Option Text → Option Vcs → Modified
modified_of base none = no_vcs_exit
modified_of base (some v) = both (v.modified_files (or_empty base)) v.dirty_files

unfoldable pub vcs_modified : Process → ArgValues → Modified
unfolding detect_vcs union
vcs_modified p v = modified_of v.base_commit (detect_vcs p.git)

-- What follows `_modified`.
abbrev pub with_modified : World → (Set Text → Outcome) → Modified → Outcome
with_modified w k (found ms) = k ms
with_modified w k no_vcs_exit = ends (exits 1) (no_vcs ∷ []) w
with_modified w k raised = ends failed [] w

-- The comprehension over the modules that import dynamically.
unfoldable pub dynamic_tests : (Text → Bool) → List Text → Set Text
dynamic_tests is_test_file [] = []
dynamic_tests is_test_file (f ∷ fs) =
    let rest = dynamic_tests is_test_file fs in
    if is_test_file (last_part f ++ text ".py") then f ∷ rest else rest

abbrev pub dynamic_names : Set Text
dynamic_names = text "importlib" ∷ text "__import__" ∷ []

abbrev pub dynamic_lines : Set Text → List Line
dynamic_lines dyn = if is_empty dyn then [] else dynamic dyn ∷ []

-- The answer for one of the names of `depends`.
abbrev pub answer : ModuleGraph → Text → Option (Set Text)
answer g m = if contains m slash then g.file_depends_on m else g.module_depends_on m none

unfoldable pub answers : ModuleGraph → List Text → List Line
answers g [] = []
answers g (m ∷ ms) = depends m (answer g m) ∷ answers g ms

module _ (p : Process) where
  -- The hook and the graph of a command.
  abbrev pub with_graph : World → (ModuleGraph → Outcome) → Option ModuleGraph → Outcome
  with_graph w k none = ends failed [] w
  with_graph w k (some g) = k g

  abbrev pub with_hook :
      ArgValues → World → (ValidatorHook → ModuleGraph → Outcome) → Option ValidatorHook → Outcome
  with_hook v w k none = ends failed [] w
  with_hook v w k (some hook) =
      with_graph w (k hook) (load_import_graph p.graphs hook.base v.graph_path none w)

  abbrev pub load_both : ArgValues → World → (ValidatorHook → ModuleGraph → Outcome) → Outcome
  load_both v w k = with_hook v w k (load_hook_or_default p v.hook_path w)

  -- `hook`
  abbrev pub show_hook : World → Option ValidatorHook → Outcome
  show_hook w none = ends failed [] w
  show_hook w (some hook) = ends (exits 0) (shown hook ∷ []) w

  abbrev pub first_arg : List Text → Option Text
  first_arg [] = none
  first_arg (a ∷ args) = some a

  unfoldable pub hook_command : List Text → World → Outcome
  unfolding load_hook_or_default
  hook_command args w = show_hook w (load_hook_or_default p (first_arg args) w)

  -- `graph`
  abbrev pub saved_to : List Line → World → Option World → Outcome
  saved_to lines w none = ends failed lines w
  saved_to lines w (some w') = ends (exits 0) lines w'

  abbrev pub save_graph : Option Text → World → ModuleGraph → List Line → Outcome
  save_graph none w g lines = ends (exits 0) lines w
  save_graph (some path) w g lines =
      if is_empty path then ends (exits 0) lines w else saved_to lines w (to_file p.graphs g path w)

  abbrev pub report_graph : ArgValues → World → ValidatorHook → ModuleGraph → Outcome
  report_graph v w hook g =
      save_graph v.graph_path w g
        (dynamic_lines (dynamic_tests hook.is_test_file (g.affected_by_modules dynamic_names)))

  unfoldable pub graph_command : List Text → World → Outcome
  unfolding parse_args load_hook_or_default load_import_graph dynamic_tests to_file
  graph_command args w =
      with_values w (λ v. load_both v w (report_graph v w))
        (parse_args p.argparse args (hook_path ∷ graph_path ∷ []) false)

  -- `modified`
  abbrev pub show_files : World → Set Text → Outcome
  show_files w s = ends (exits 0) (files s ∷ []) w

  unfoldable pub modified_command : List Text → World → Outcome
  unfolding parse_args vcs_modified
  modified_command args w =
      with_values w (λ v. with_modified w (show_files w) (vcs_modified p v))
        (parse_args p.argparse args (base_commit ∷ []) false)

  -- `depends`
  unfoldable pub depends_command : List Text → World → Outcome
  unfolding parse_args load_hook_or_default load_import_graph answers
  depends_command args w =
      with_values w (λ v. load_both v w (λ hook g. ends (exits 0) (answers g v.rest) w))
        (parse_args p.argparse args (hook_path ∷ graph_path ∷ []) true)

  -- `affected`
  abbrev pub given_modified : ArgValues → Option (List Text) → Modified
  given_modified v none = vcs_modified p v
  given_modified v (some ms) = if is_empty ms then vcs_modified p v else found ms

  abbrev pub show_affected : World → ModuleGraph → Set Text → Outcome
  show_affected w g ms = show_files w (union (g.affected_by_files ms) ms)

  unfoldable pub affected_command : List Text → World → Outcome
  unfolding parse_args load_hook_or_default load_import_graph vcs_modified union
  affected_command args w =
      with_values w
        (λ v.
          load_both v w
            (λ hook g. with_modified w (show_affected w g) (given_modified v v.modified)))
        (parse_args p.argparse args (hook_path ∷ graph_path ∷ modified ∷ base_commit ∷ []) false)

  abbrev pub help_names : List Text
  help_names = text "help" ∷ text "-help" ∷ text "-h" ∷ text "--help" ∷ []

  module _ (rt : Runtime) where
    unfoldable pub dispatch : Text → List Text → World → Outcome
    unfolding hook_command graph_command modified_command depends_command affected_command
        Validator.main
    dispatch cmd args w =
        if cmd == text "hook"
        then hook_command args w
        else if cmd == text "graph"
        then graph_command args w
        else if cmd == text "modified"
        then modified_command args w
        else if cmd == text "depends"
        then depends_command args w
        else if cmd == text "affected"
        then affected_command args w
        else if cmd == text "validate"
        then Validator.main p rt args w
        else if contains help_names cmd
        then ends (exits 0) (usage ∷ []) w
        else ends (exits 1) (unknown_command cmd ∷ usage ∷ []) w

    -- `main`, for `sys.argv`
    unfoldable pub main : List Text → World → Outcome
    unfolding dispatch
    main [] w = ends (exits 0) (usage ∷ []) w
    main (program ∷ []) w = ends (exits 0) (usage ∷ []) w
    main (program ∷ cmd ∷ args) w = dispatch cmd args w
