-- ===== src/Tests/Loading.antt =====
-- The loading of the graph by a controller and by a worker, and the plugin's configuration.
use prunepytest.Prelude.{◌≡◌, refl, true, false, ◌&&◌, none, some, [], ◌∷◌, Every, list_eq, nat_eq}
use prunepytest.Text.{starts_with, text}
use prunepytest.Dict.{lookup}
use prunepytest.Graph.{ModuleGraph}
use prunepytest.FilePath.{relative_to, join_paths, dirname}
use prunepytest.Loader.{
  World, folder, regular, Hook, GraphClass, in_dir, entry_at, load_import_graph, to_file,
  build_graph,
}
use prunepytest.Loader.Shared.{
  safe_is_xdist_controller, Session, Loader, load, get, session_start, load_own, existing_path,
  saved, safe_is_xdist_controller,
}
use prunepytest.Loader.Replay.{get_all, get_all-constant}
use prunepytest.Loader.Handoff.{get-session_start}
use prunepytest.Plugin.{
  Options, Process, calls_of, pytest_configure, find_graph_root, find_hook, configure_plugins,
  configure_tests, configure_selector, modified_set,
}
use prunepytest.Plugin.Made.{IsOn, IsAsked, pytest_configure-IsAsked}
use prunepytest.Plugin.Names.{names, names_for, names-pytest_configure}

abbrev empty_graph : ModuleGraph
empty_graph = record {
  file_depends_on = λ f. none;
  module_depends_on = λ m p. none;
  affected_by_files = λ fs. fs;
  affected_by_modules = λ ms. [];
}

abbrev graphs : GraphClass
graphs = record {
  build = λ w a. empty_graph;
  add_dynamic_dependencies_at_leaves = λ d g. g;
  dump = λ g. 7 ∷ [];
  parse = λ b. some empty_graph;
}

abbrev hook : Hook
hook = record {
  global_namespaces = text "p" ∷ [];
  local_namespaces = text "tests" ∷ [];
  external_imports = [];
  source_roots = (text "p", text "p") ∷ [];
  dynamic_dependencies = [];
  include_typechecking = false;
  dynamic_dependencies_at_leaves = [];
}

abbrev disk : World
disk = record {
  cwd = text "/r";
  entries = (text "/", folder) ∷ (text "/r", folder) ∷ (text "/t", folder) ∷ [];
}

abbrev loader : Loader
loader = record {
  rootpath = text "/r";
  hook = hook;
  graph_path = some (text "/t/g");
  graph_root = text "/r";
  graph = none;
}

abbrev controller : Session
controller = record {
  workerinput = none;
  has_dsession = some true;
  is_xdist_controller = some true;
}

abbrev worker : Session
worker = record {
  workerinput = some ((text "graph_path", text "/t/g") ∷ []);
  has_dsession = some false;
  is_xdist_controller = none;
}

-- The files after the controller's start.
abbrev saved_disk : World
saved_disk = record disk {
  entries =
      (text "/", folder)
      ∷ (text "/r", folder)
      ∷ (text "/t", folder)
      ∷ (text "/t/g", regular (7 ∷ []))
      ∷ [];
}

get-session_start_example :
    get graphs worker loader (record saved_disk { cwd = text "/" })
    ≡ some (
      empty_graph,
      record loader { graph = some empty_graph },
      record saved_disk { cwd = text "/" },
    )
unfolding session_start safe_is_xdist_controller starts_with nat_eq get load load_own relative_to
    list_eq in_dir entry_at join_paths load_import_graph existing_path saved to_file dirname
    build_graph lookup
get-session_start_example =
    get-session_start graphs controller worker (record { is_controller = false; loader = loader })
      (record { is_controller = true; loader = record loader { graph = some empty_graph } }) loader
      disk saved_disk (record saved_disk { cwd = text "/" }) (text "/t/g")
      ((text "graph_path", text "/t/g") ∷ []) empty_graph refl refl refl refl refl refl refl refl
      refl refl refl refl

get_all-constant_example :
    get_all graphs ((controller, disk) ∷ (worker, disk) ∷ []) loader
    ≡ some (empty_graph ∷ empty_graph ∷ [])
unfolding load load_own relative_to list_eq nat_eq in_dir entry_at join_paths load_import_graph
    existing_path saved safe_is_xdist_controller to_file dirname build_graph
get_all-constant_example =
    get_all-constant graphs controller disk saved_disk ((worker, disk) ∷ []) loader empty_graph refl
      refl

abbrev options : Options
options = record {
  prune = true;
  prune_impact = false;
  collectonly = false;
  prune_graph_root = [];
  prune_graph = none;
  prune_hook = [];
  prune_impact_list = [];
  prune_impact_depth = text "20";
  prune_novalidate = false;
  prune_noselect = false;
  prune_modified = some (text "a.py,,b.py");
  prune_base_commit = [];
}

abbrev process : Process
process = record {
  world = disk;
  rootpath = text "/r";
  basetemp = text "/t";
  has_xdist = true;
  has_plugin_xdist = true;
  load_hook = λ f. none;
  hook_default = some hook;
  read = λ f. none;
}

pytest_configure-IsAsked_example :
    Every
      (λ x. IsOn options none process × IsAsked options none process x)
      (calls_of (pytest_configure options none process))
pytest_configure-IsAsked_example = pytest_configure-IsAsked options none process

names-pytest_configure_example :
    names (calls_of (pytest_configure options none process))
    ≡ names_for options (process.has_xdist && process.has_plugin_xdist)
unfolding pytest_configure find_graph_root relative_to list_eq nat_eq find_hook configure_plugins
    configure_tests configure_selector modified_set
names-pytest_configure_example =
    names-pytest_configure options none process (calls_of (pytest_configure options none process))
      refl
