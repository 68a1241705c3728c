-- ===== src/Tests/SmallProject.antt =====
-- A small project with its graph, its hook and its tests.
use prunepytest.Prelude.{
  ap, subst, ℕ, true, false, Option, none, some, List, [], ◌∷◌, ◌==◌, arith, contains, eq_refl,
  Every, Every-map, if◌then◌else◌, list_eq, nat_eq,
}
use prunepytest.Text.{Text, text, starts_with}
use prunepytest.Sets.{Set}
use prunepytest.Dict.{Dict, has, lookup}
use prunepytest.Graph.{ModuleGraph}
use prunepytest.Args.{
  Arg, hook_path, graph_path, ArgValues, Declared, Parsed, parsed, Argparse, arg_eq,
}
use prunepytest.Args.Typed.{IsDocumented, HasDest, dest}
use prunepytest.Loader.{World, folder, GraphClass}
use prunepytest.Hooks.{Methods, ValidatorHook, validator_hook}
use prunepytest.Items.{Item, key_eq}
use prunepytest.Selector.{Config, Caches, no_caches}
use prunepytest.Selector.Collection.{Selection, modify_items}
use prunepytest.Session.{Process}
use prunepytest.Validator.Walk.{imported_, file, no_more}
use prunepytest.Validator.Folder.{Interp}
use prunepytest.Validator.Main.{Runtime}

-- Each option with the value behind the first of its names, and the other arguments.
abbrev value_behind : List Text → List Text → Option Text
value_behind names [] = none
value_behind names (a ∷ []) = none
value_behind names (a ∷ b ∷ rest) =
    if contains names a then some b else value_behind names (b ∷ rest)

abbrev others : List Declared → List Text → List Text
others ds [] = []
others ds (a ∷ []) = a ∷ []
others ds (a ∷ b ∷ rest) =
    if starts_with a (text "--") then others ds rest else a ∷ others ds (b ∷ rest)

abbrev attributes : List Declared → List Text → Dict Text (Option Text)
attributes [] args = []
attributes (d ∷ ds) args = (dest d, value_behind d.names args) ∷ attributes ds args

unfoldable pub small_argparse : Argparse
unfolding starts_with
small_argparse ds args = parsed (attributes ds args) (others ds args)

HasDest-cons :
    (k : Text) (v : Option Text) (ns : Dict Text (Option Text)) (d : Declared)
    → HasDest ns d
    → HasDest ((k, v) ∷ ns) d
unfolding has lookup
HasDest-cons k v ns d h = ground (arith, h)

attributes-HasDest :
    (ds : List Declared) (args : List Text) → Every (HasDest (attributes ds args)) ds
unfolding has lookup
attributes-HasDest [] args = tt
attributes-HasDest (d ∷ ds) args = (
  ground (arith, eq_refl (dest d)),
  Every-map (HasDest (attributes ds args)) (HasDest (attributes (d ∷ ds) args))
      (HasDest-cons (dest d) (value_behind d.names args) (attributes ds args)) ds
      (attributes-HasDest ds args),
)

abbrev namespace_of : Parsed → Dict Text (Option Text)
namespace_of (parsed ns rest) = ns
namespace_of (Parsed.stops n) = []

pub small_argparse-IsDocumented : IsDocumented small_argparse
unfolding small_argparse
small_argparse-IsDocumented ds args ns rest e =
    subst (λ m. Every (HasDest m) ds) (ap namespace_of e) (attributes-HasDest ds args)

abbrev pub saved_args : List Text
saved_args = text "--prune-graph" ∷ text "g" ∷ []

abbrev pub graph_options : List Arg
graph_options = hook_path ∷ graph_path ∷ []

-- The import of `t.test_a` loads `p`, which imports `p.a`.
abbrev pub small_graph : ModuleGraph
small_graph = record {
  file_depends_on = λ f. some [];
  module_depends_on = λ m pkg.
      if m == text "p"
      then some (text "p.a" ∷ [])
      else if m == text "t.test_a"
      then some (text "p" ∷ text "p.a" ∷ [])
      else none;
  affected_by_files = λ fs.
      if contains fs (text "p/a.py")
      then text "t/test_a.py" ∷ text "p/__init__.py" ∷ []
      else if contains fs (text "p/__init__.py")
      then text "t/test_a.py" ∷ []
      else [];
  affected_by_modules = λ ms. [];
}

abbrev pub graphs : GraphClass
graphs = record {
  build = λ w a. small_graph;
  add_dynamic_dependencies_at_leaves = λ d g. g;
  dump = λ g. 7 ∷ [];
  parse = λ b. some small_graph;
}

abbrev methods : Methods
methods = record {
  global_namespaces = text "p" ∷ [];
  local_namespaces = text "t" ∷ [];
  source_roots = (text "p", text "p") ∷ [];
  test_folders = (text "t", text "t") ∷ [];
  include_typechecking = none;
  external_imports = none;
  dynamic_dependencies = none;
  dynamic_dependencies_at_leaves = none;
  import_patches = none;
  record_dynamic = some true;
  implicit_anchor_aggregation = none;
  dynamic_anchors = none;
  dynamic_ignores = none;
  tracker_log = some (some (text "log"));
  is_test_file = none;
  always_run = none;
  filter_irrelevant_files = none;
}

unfoldable pub hook : ValidatorHook
unfolding validator_hook
hook = validator_hook methods

-- git is not there.
abbrev pub process : Process
process = record {
  argparse = small_argparse;
  graphs = graphs;
  git = λ args. none;
  load_hook = λ w p. none;
  hook_default = λ w. some hook;
}

abbrev load_p : Interp → Interp
load_p i = record i {
  tracker = record i.tracker {
    deps = record i.tracker.deps {
      heap = [] ∷ (text "p.a" ∷ []) ∷ (text "p" ∷ text "p.a" ∷ []) ∷ [];
      tracked = ([], 0) ∷ (text "p", 1) ∷ (text "t.test_a", 2) ∷ [];
    };
  };
}

abbrev pub runtime : Runtime
runtime = record {
  rounds = [];
  modules = [];
  path = [];
  setup = λ h i. i;
  import_with_capture =
      λ fq i. if fq == text "t.test_a" then (imported_, load_p i) else (imported_, i);
  before_file = λ fs py i. i;
  after_file = λ fs py i. i;
  before_folder = λ fs py i. i;
  after_folder = λ fs py i. i;
  package_dir = λ fs. fs;
  entries = λ fs. file (text "__init__.py") (file (text "test_a.py") no_more);
  opens_log = λ p. true;
}

abbrev pub disk : World
disk = record { cwd = text "/r"; entries = (text "/", folder) ∷ (text "/r", folder) ∷ [] }

abbrev pub graph_values : ArgValues
graph_values = record {
  rest = [];
  hook_path = none;
  graph_path = some (text "g");
  modified = none;
  base_commit = none;
}

abbrev pub changed_args : List Text
changed_args = text "--modified" ∷ text "p/a.py" ∷ []

abbrev pub changed_values : ArgValues
changed_values = record {
  rest = [];
  hook_path = none;
  graph_path = none;
  modified = some (text "p/a.py" ∷ []);
  base_commit = none;
}

abbrev pub config : Config
config = record {
  rootpath = text "/r";
  under_rel_root = λ p. p;
  always_run = [];
  has_dynamic_hooks = true;
  filter_irrelevant_files = λ fs. fs;
  exists = λ f. true;
}

abbrev pub test_in : ℕ → Text → Item
test_in n path = record {
  id = n;
  name = text "test_it";
  is_function = true;
  location = path;
  parents = record { id = n; is_file = true; path = path } ∷ [];
}

abbrev pub two_tests : List Item
two_tests = test_in 1 (text "t/test_a.py") ∷ test_in 2 (text "t/test_b.py") ∷ []

abbrev pub changed : Set Text
changed = text "p/a.py" ∷ []

abbrev pub shown : Set Text
shown = text "p/a.py" ∷ text "t/test_a.py" ∷ text "p/__init__.py" ∷ []

unfoldable pub selected : Selection × Caches
unfolding modify_items list_eq nat_eq key_eq
selected = elim (modify_items config small_graph changed two_tests no_caches) [
  | none ↦ (record { items = []; deselected = [] }, no_caches)
  | some r ↦ r
]

abbrev pub unknowing : Config
unknowing = record config { has_dynamic_hooks = false }

-- `t.test_a` imports dynamically.
abbrev pub dynamic_graph : ModuleGraph
dynamic_graph = record small_graph { affected_by_modules = λ ms. text "t.test_a" ∷ [] }
