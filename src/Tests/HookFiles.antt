-- ===== src/Tests/HookFiles.antt =====
-- A hook's file with a subclass of `DefaultHook`, in a small file tree.
use prunepytest.Prelude.{◌≡◌, refl, true, false, none, some, [], ◌∷◌, list_eq, nat_eq}
use prunepytest.Text.{text, starts_with, ends_with, partition, split, rpartition}
use prunepytest.Sets.{add}
use prunepytest.Dict.{lookup, insert}
use prunepytest.FilePath.{join_paths, below, base_name, relative_to}
use prunepytest.Loader.{World, folder, regular, entry_at}
use prunepytest.Loader.Hooks as Choice
use prunepytest.Defaults.Pyproject.{toml_xtract, extract_for, get_entry}
use prunepytest.Defaults.Infer.{
  Dents, nothing, find_package_roots, infer_ns_pkg, has_init, ns_step, ns_subs,
}
use prunepytest.Defaults.Infer.{file as file_of, folder as folder_of}
use prunepytest.Defaults.{filter_packages}
use prunepytest.Defaults.Assemble.{DefaultHook, hook_default, add_roots, add_root, ns_pkg, dents_at}
use prunepytest.Hooks.{ValidatorHook, validator_hook, default_methods}
use prunepytest.Args.{stops}
use prunepytest.Graph.{ModuleGraph}
use prunepytest.Session.{Process, load_hook_or_default}
use prunepytest.Session.HookFile.{
  Member, Loaded, Python, make_default_hook, import_file, parse_toml, read_pyproject,
  hook_default_as, instantiate, load_hook, with_hooks,
}
use prunepytest.Session.HookFile.Roots.{
  IsInGraph, UsesDefault, by_subclass, load_hook_or_default-IsInGraph,
}

abbrev tree : Dents
tree =
    folder_of (text "p") (file_of (text "__init__.py") nothing)
      (folder_of (text "tests") (file_of (text "__init__.py") nothing) nothing)

abbrev disk : World
disk = record {
  cwd = text "/r";
  entries = (text "/r", folder) ∷ (text "/r/hook.py", regular []) ∷ [];
}

-- A function of the file, then a class.
abbrev helper : Member
helper = record {
  value = record {
    module_of = some (text "prunepytest._hook");
    is_type = false;
    is_base = false;
    is_default = false;
  };
  make = none;
  make_default = λ h. none;
}

abbrev subclass : Member
subclass = record {
  value = record {
    module_of = some (text "prunepytest._hook");
    is_type = true;
    is_base = true;
    is_default = true;
  };
  make = none;
  make_default = make_default_hook;
}

abbrev python : Python
python = record {
  has_loader = λ p. ends_with p (text ".py");
  exec_module = λ w p a s. (
    true,
    record s { objects = insert a ((text "f", helper) ∷ (text "H", subclass) ∷ []) s.objects },
  );
  toml = none;
  dents = λ w. tree;
  is_ns = λ w p. false;
}

abbrev started : Loaded
started = record { modules = []; objects = []; next = 0 }

abbrev made : DefaultHook
made = record {
  global_ns = text "p" ∷ [];
  local_ns = text "tests" ∷ [];
  src_roots = (text "p", text "p") ∷ (text "tests", text "tests") ∷ [];
  tst_dirs = (text "tests", text "tests") ∷ [];
  tst_file_pattern = none;
}

made_hook : ValidatorHook
unfolding validator_hook default_methods
made_hook = validator_hook (default_methods made none)

uses_subclass : UsesDefault python started disk (some (text "hook.py"))
unfolding import_file insert lookup list_eq nat_eq Choice.load_hook below join_paths starts_with
    ends_with
uses_subclass =
    by_subclass {path = text "hook.py"} {n = text "H"} {m = subclass} refl refl refl refl

abbrev no_graph : ModuleGraph
no_graph = record {
  file_depends_on = λ f. none;
  module_depends_on = λ m pkg. none;
  affected_by_files = λ fs. [];
  affected_by_modules = λ ms. [];
}

abbrev process : Process
process = record {
  argparse = λ ds args. stops 0;
  graphs = record {
    build = λ w a. no_graph;
    add_dynamic_dependencies_at_leaves = λ d g. g;
    dump = λ g. [];
    parse = λ b. none;
  };
  git = λ args. none;
  load_hook = λ w p. none;
  hook_default = λ w. none;
}

loads_made :
    load_hook_or_default (with_hooks python started process) (some (text "hook.py")) disk
    ≡ some made_hook
unfolding load_hook_or_default with_hooks load_hook import_file insert lookup list_eq nat_eq
    Choice.load_hook instantiate hook_default_as read_pyproject parse_toml make_default_hook
    made_hook hook_default toml_xtract find_package_roots relative_to filter_packages extract_for
    get_entry partition below join_paths ends_with starts_with has_init add add_roots add_root
    ns_pkg infer_ns_pkg ns_step ns_subs dents_at split base_name rpartition entry_at
loads_made = refl

load_hook_or_default-IsInGraph_example : IsInGraph made_hook
load_hook_or_default-IsInGraph_example =
    load_hook_or_default-IsInGraph python started disk process (some (text "hook.py")) made_hook
      uses_subclass loads_made
