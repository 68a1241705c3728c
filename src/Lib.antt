-- ===== src/Lib.antt =====
-- prunepytest selects the tests that a change affects. An import graph, computed by static analysis
-- in Rust, tells which files depend on which; a pytest plugin deselects the tests that no modified
-- file affects; a validator runs the imports of all tests under a tracker and checks that the graph
-- has every dependency that was seen. Paths below are relative to pyext/python/src/prunepytest/.
--
-- Tracker (tracker.py). Deps has the contexts of `Tracker`: `stack` (its top first here), `cxt` and
-- `tracked`, whose sets are addresses in a heap, because the modules of an import cycle share one
-- set object. `begin`, `join`, `leave`, `untrack` and `forget` are the parts of
-- `_find_and_load_helper`; Load composes them as that method does, with the calls into the import
-- machinery: `new_find_and_load` and `new_handle_fromlist` are the two hooks. Load/Machinery has
-- the machinery as a parameter: it answers an import with a body, a tree of further imports, uses
-- of functions and a result, so that any module code is covered, one that catches exceptions too.
-- State has the other fields, Frames and Dynamic have `record_dynamic_imports` over a list of stack
-- frames, Contexts has `start_tracking`, `enter_context`, `exit_context` and `with_dynamic`,
-- Install the functions of importlib and builtins that are replaced and put back, Patches
-- `apply_patches` over the attributes of numbered objects, Warnings `warning_skip_level`.
-- `hooks` takes the depth to which imports may nest; beyond it an import raises RecursionError, as
-- in Python, so that no result is missing at any depth. The rounds of `_init_loaded_modules` are a
-- list, the contents of `sys.modules` at the start of each.
--
-- Selector (pytest/selector.py, pytest/util.py). Items has the items of pytest and
-- `actual_test_file`; Selector has the caches of `_BaseSelector`, `should_keep` and `remaining`;
-- Selector/Collection has the loop of `PruneSelector.pytest_collection_modifyitems`, which deletes
-- by index; Selector/Impact has the counts of `PruneImpact` over a range of commits. Graph is the
-- interface of the import graph (_prunepytest.pyi), a parameter. An assertion that fails is `none`.
--
-- Validator (validator.py). Walk has `recursive_import_tests` over a tree of folders, with the
-- import of a module as a parameter; Subset has `validate_subset`; Prepare has the graph of
-- `validate`; Folder has `validate_folder` with its cleanup, the loop of `validate` and the exit
-- status of `main`; Validator/Main has `validate` and `main` as a whole, with the interpreter and
-- the file system as a parameter, and the stacks that are printed. Folder/Local has what is
-- compared in the folders of a local namespace; Soundness joins the validator and the selector. The
-- hooks are taken not to raise. A KeyError is `none`. A log of the tracker is listed where it is
-- opened, apart from the files; it is taken to be no other file that the program reads or saves.
--
-- Git (vcs/git.py). The methods of `Git` over a parameter that runs git: it gives what is printed,
-- or nothing where the command fails. Git/Words has `split`, `splitlines` and `strip` with Python's
-- blanks and line boundaries.
--
-- Test-time validator (pytest/validator.py). RunTest has `pytest_runtest_protocol` of
-- `PruneValidator`: `start_test` up to the yield, the test as any body of code under the hooks, and
-- `finish_test` after it. Warnings and failures of `_report_unexpected` are a list of reports; the
-- names that the import callback has warned about are read from the calls of the callback that the
-- tracker notes. RunTest/Traceback has `pytest_runtest_makereport`.
--
-- Loader and Plugin (util.py, pytest/util.py, pytest/plugin.py, vcs/detect.py). Loader has
-- `load_import_graph` over a world of folders and files, with the class ModuleGraph, its
-- constructor and its serialization as a parameter; Loader/Hooks has the choice of `load_hook`;
-- Loader/Shared has `GraphLoader` and the session start of `_XdistHelper`. Plugin has
-- `pytest_configure` as the list of calls of the plugin manager, whether or not an exception ends
-- it.
--
-- Command line (args.py, __main__.py, util.py). Args has `parse_args`, with `parse_known_args` of
-- argparse as a parameter and the values untyped until `ArgValues` is made; Session has how a
-- command ends, what it prints, and `load_hook_or_default`; Session/HookFile has `import_file` and
-- `load_hook` over `sys.modules`, with the code of a hook's file, the parser of TOML and the
-- folders as parameters; Command has the commands of `main`, each from the arguments and the files
-- to an exit status, what is printed, and the files.
--
-- Default hook (defaults.py, api.py). Hooks has the classes of api.py, as the methods that a
-- subclass defines and those that it inherits, and the arguments that both validators pass to the
-- tracker. Defaults/Infer has `find_package_roots` over a tree of folders, `infer_py_pkg` and
-- `infer_ns_pkg`; Defaults/Pyproject has `toml_xtract` over parsed values; Defaults has
-- `filter_packages`, Defaults/Assemble has `hook_default`. Fnmatch has the standard library's
-- fnmatch and `is_test_file`. FilePath has what is used of os.path and pathlib.
--
-- All recursions are structural: on lists, on the tree of folders, on the tree of a body or on the
-- depth; `find_dynamic` has the number of frames as fuel, and each of its rounds passes at least
-- one frame. `find_parent` has the length of the path as fuel, and `extract_for` the length of the
-- path of keys: each round shortens it, for a relative path in the first case. Sets and dicts are
-- lists (Sets, Dict), read by membership and lookup alone. Text is a list of code points. Prelude
-- has the names that all modules share.
--
-- Not modelled: the Rust crates, what is written to the log of the tracker, the effects of a patch
-- besides the attribute that it sets, the statistics and notes on progress that are printed, the
-- capture of output.
pub mod Prelude
pub mod Text
pub mod Sets
pub mod Dict
pub mod Tracker
pub mod Args
pub mod Graph
pub mod Command
pub mod Soundness
pub mod Session
pub mod Hooks
pub mod Items
pub mod Selector
pub mod Validator
pub mod Git
pub mod RunTest
mod Tests
pub mod FilePath
pub mod Loader
pub mod Plugin
pub mod Defaults
pub mod Fnmatch
