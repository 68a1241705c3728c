-- ===== src/Plugin.antt =====
-- pytest/plugin.py and vcs/detect.py: what the plugin registers with pytest, for given options.
pub mod Spec
pub mod Names
pub mod Made
use prunepytest.Prelude.{
  ℕ, Bool, true, false, not, ◌&&◌, ◌||◌, Option, none, some, List, [], ◌∷◌, ◌++◌, is_empty, is_none,
  if◌then◌else◌, list_eq, nat_eq,
}
use prunepytest.Text.{Text, text, split}
use prunepytest.Sets.{Set, diff}
use prunepytest.FilePath.{below, relative_to}
use prunepytest.Git.Words.{split_lines}
use prunepytest.Git.{Run, repo_root, recent_commits, modified_files, dirty_files}
use prunepytest.Loader.{World, Hook, is_file}
use prunepytest.Loader.Shared.{Loader}

-- The options of `pytest_addoption` and of pytest that decide; the depth is in decimal digits.
pub record Options : Type 0 where
  pub prune : Bool
  pub prune_impact : Bool
  pub collectonly : Bool
  pub prune_graph_root : Text
  pub prune_graph : Option Text
  pub prune_hook : Text
  pub prune_impact_list : Text
  pub prune_impact_depth : Text
  pub prune_novalidate : Bool
  pub prune_noselect : Bool
  pub prune_modified : Option Text
  pub prune_base_commit : Text

-- A version control system; `none` is an exception.
pub record Vcs : Type 0 where
  pub repo_root : Option Text
  pub recent_commits : Text → Option (List Text)
  pub modified_files : Text → Option (List Text)
  pub dirty_files : Option (List Text)

-- `detect_vcs`
unfoldable pub detect_vcs : Run → Option Vcs
detect_vcs git = elim (repo_root git) [
  | none ↦ none
  | some root ↦ some (record {
    repo_root = repo_root git;
    recent_commits = recent_commits git;
    modified_files = modified_files git (text "HEAD");
    dirty_files = dirty_files git;
  })
]

-- What the process gives: its files, pytest's root path and temporary folder, whether
-- pytest-xdist is there and active, the loading of a hook and the text of a file.
pub record Process : Type 0 where
  pub world : World
  pub rootpath : Text
  pub basetemp : Text
  pub has_xdist : Bool
  pub has_plugin_xdist : Bool
  pub load_hook : Text → Option Hook
  pub hook_default : Option Hook
  pub read : Text → Option Text

-- A plugin, with the values that it is made from.
pub data Plugin : Type 0 where
  impact : Loader → Text → List Text → Plugin
  validator : Loader → Text → Plugin
  selector : Loader → Set Text → Text → Plugin
  xdist_config : Text → Plugin

-- The calls of the plugin manager.
pub data Call : Type 0 where
  set_blocked : Text → Call
  register : Plugin → Text → Call

-- The calls that were made, and whether an exception ended the function.
pub data Configured : Type 0 where
  configured : List Call → Configured
  raised : List Call → Configured

abbrev pub calls_of : Configured → List Call
calls_of (configured cs) = cs
calls_of (raised cs) = cs

-- The calls before, in front.
abbrev pub after : List Call → Configured → Configured
after cs (configured more) = configured (cs ++ more)
after cs (raised more) = raised (cs ++ more)

-- `graph_path`, without one that is no file
unfoldable pub known_graph : World → Option Text → Option Text
known_graph w none = none
known_graph w (some p) = if not (is_empty p) && not (is_file w p) then none else some p

-- `add_xdist_hook`: the path, and the call
unfoldable pub shared_path : Text → Option Text → Text
unfolding below
shared_path basetemp none = below basetemp (text "prune-graph.bin")
shared_path basetemp (some p) = if is_empty p then below basetemp (text "prune-graph.bin") else p

abbrev pub add_xdist_hook : Text → List Call
add_xdist_hook p = register (xdist_config p) (text "PruneXdistConfig") ∷ []

module _ (o : Options) (vcs : Option Vcs) (process : Process) where
  -- `modified`; `none` is an exception.
  abbrev pub both : Option (List Text) → Option (List Text) → Option (Set Text)
  both none ys = none
  both (some xs) none = none
  both (some xs) (some ys) = some (xs ++ ys)

  abbrev pub vcs_modified : Option Vcs → Option (Set Text)
  vcs_modified none = none
  vcs_modified (some v) = both (v.modified_files o.prune_base_commit) v.dirty_files

  unfoldable pub modified_set : Option (Set Text)
  modified_set = elim o.prune_modified [
    | some files ↦ some (split b',' files)
    | none ↦ vcs_modified vcs
  ]

  abbrev pub register_selector : Loader → Text → Option (Set Text) → Configured
  register_selector l rel_root none = raised []
  register_selector l rel_root (some modified) =
      configured
        (register (selector l (diff modified ([] ∷ [])) rel_root) (text "PruneSelector") ∷ [])

  unfoldable pub configure_selector : Loader → Text → Configured
  configure_selector l rel_root =
      if o.prune_noselect then configured [] else register_selector l rel_root modified_set

  unfoldable pub configure_tests : Loader → Text → Configured
  configure_tests l rel_root =
      after
        (if o.prune_novalidate
          then []
          else register (validator l rel_root) (text "PruneValidator") ∷ [])
        (configure_selector l rel_root)

  -- `commits`; `none` is an exception.
  abbrev pub vcs_commits : Option Vcs → Option (List Text)
  vcs_commits none = none
  vcs_commits (some v) =
      if is_empty o.prune_impact_list
      then v.recent_commits o.prune_impact_depth
      else elim (process.read o.prune_impact_list) [ none ↦ none | some s ↦ some (split_lines s) ]

  abbrev pub register_impact : Loader → Text → Option (List Text) → Configured
  register_impact l rel_root none = raised []
  register_impact l rel_root (some commits) =
      configured (register (impact l rel_root commits) (text "PruneValidator") ∷ [])

  -- `GraphLoader(config, hook, graph_path, graph_root)`
  abbrev pub loader_of : Text → Hook → Option Text → Loader
  loader_of graph_root hook graph_path = record {
    rootpath = process.rootpath;
    hook = hook;
    graph_path = graph_path;
    graph_root = graph_root;
    graph = none;
  }

  -- What follows the loading of the hook.
  unfoldable pub configure_plugins : Text → Text → Option Text → Hook → Configured
  configure_plugins graph_root rel_root graph_path hook =
      let loader = loader_of graph_root hook in
      let shared = shared_path process.basetemp graph_path in
      if o.prune_impact
      then after (set_blocked (text "dsession") ∷ [])
          (register_impact (loader graph_path) rel_root (vcs_commits vcs))
      else if process.has_xdist && process.has_plugin_xdist
      then after (add_xdist_hook shared) (configure_tests (loader (some shared)) rel_root)
      else configure_tests (loader graph_path) rel_root

  abbrev pub configure_hook : Text → Text → Option Hook → Configured
  configure_hook graph_root rel_root none = raised []
  configure_hook graph_root rel_root (some hook) =
      configure_plugins graph_root rel_root (known_graph process.world o.prune_graph) hook

  -- The root of the graph; `none` is an exception.
  abbrev pub vcs_root : Option Vcs → Option Text
  vcs_root none = some process.rootpath
  vcs_root (some v) = v.repo_root

  unfoldable pub find_graph_root : Option Text
  find_graph_root = if is_empty o.prune_graph_root then vcs_root vcs else some o.prune_graph_root

  unfoldable pub find_hook : Option Hook
  find_hook = if is_empty o.prune_hook then process.hook_default else process.load_hook o.prune_hook

  abbrev pub configure_below : Text → Option Text → Configured
  configure_below graph_root none = raised []
  configure_below graph_root (some rel_root) = configure_hook graph_root rel_root find_hook

  abbrev pub configure_from : Option Text → Configured
  configure_from none = raised []
  configure_from (some graph_root) =
      configure_below graph_root (relative_to process.rootpath graph_root)

  -- `pytest_configure`
  unfoldable pub pytest_configure : Configured
  pytest_configure =
      if not o.prune || (not o.prune_impact && o.collectonly)
      then configured []
      else configure_from find_graph_root
