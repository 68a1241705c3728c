-- ===== src/Session.antt =====
-- util.py: `load_hook_or_default`, and the way in which a command ends.
pub mod HookFile
use prunepytest.Prelude.{
  ℕ, Option, none, some, List, [], ◌∷◌, is_empty, if◌then◌else◌, list_eq, nat_eq,
}
use prunepytest.Text.{Text}
use prunepytest.Sets.{Set}
use prunepytest.Args.{Argparse, ArgValues, Args, values, unknown, stopped, raises}
use prunepytest.Git.{Run}
use prunepytest.Loader.{World, GraphClass}
use prunepytest.Tracker.State.{Frame}
use prunepytest.Hooks.{ValidatorHook}

-- What a command prints, without its notes on progress.
pub data Line : Type 0 where
  usage : Line
  unknown_command : Text → Line
  unknown_arguments : List Text → Line
  no_vcs : Line
  shown : ValidatorHook → Line
  dynamic : Set Text → Line
  files : Set Text → Line
  depends : Text → Option (Set Text) → Line
  stack : List Frame → Line
  trusted missing_imports make_explicit errors_prevented fix_them : Line

-- A return from `main` ends the process with 0; `failed` is an exception.
pub data Exit : Type 0 where
  exits : ℕ → Exit
  failed : Exit

-- What a command leaves: `world` are the files, and `logs` the paths of the logs that were opened to be
-- appended to. A log is taken to be no other file that the program reads or saves.
pub record Outcome : Type 0 where
  pub exit : Exit
  pub lines : List Line
  pub world : World
  pub logs : List Text

abbrev pub ends : Exit → List Line → World → Outcome
ends e lines w = record { exit = e; lines = lines; world = w; logs = [] }

-- The code around a command: argparse, the import graph, git, and the loading of a hook from a file
-- or by default, from the current directory.
pub record Process : Type 0 where
  pub argparse : Argparse
  pub graphs : GraphClass
  pub git : Run
  pub load_hook : World → Text → Option ValidatorHook
  pub hook_default : World → Option ValidatorHook

-- `load_hook_or_default`; `none` is an exception.
unfoldable pub load_hook_or_default : Process → Option Text → World → Option ValidatorHook
load_hook_or_default p none w = p.hook_default w
load_hook_or_default p (some path) w =
    if is_empty path then p.hook_default w else p.load_hook w path

-- What follows `parse_args`.
abbrev pub with_values : World → (ArgValues → Outcome) → Args → Outcome
with_values w k (values v) = k v
with_values w k (unknown rest) = ends (exits 2) (unknown_arguments rest ∷ []) w
with_values w k (stopped n) = ends (exits n) [] w
with_values w k raises = ends failed [] w
