-- ===== src/Tests/Commands.antt =====
-- The commands, on a small project whose graph is saved and read back.
use prunepytest.Tests.SmallProject.{
  small_argparse, small_argparse-IsDocumented, saved_args, graph_options, small_graph, graphs, hook,
  process, runtime, disk, graph_values, changed_args, changed_values, config, test_in, two_tests,
  changed, shown, selected, unknowing, dynamic_graph,
}
use prunepytest.Tracker.Contexts.{imports_of}
use prunepytest.Fnmatch.{mixin_is_test_file}
use prunepytest.Validator.Prepare.{save_new}
use prunepytest.Prelude.{◌≡◌, refl, false, none, some, [], ◌∷◌, map, Every, sorted, list_eq, nat_eq}
use prunepytest.Text.{text, split}
use prunepytest.Sets.{union}
use prunepytest.Graph.{ModuleGraph}
use prunepytest.FilePath.{join_paths, dirname}
use prunepytest.Args.{parse_args, arg_lt, arg_eq}
use prunepytest.Args.Typed.{declared, outcome, parse_args-outcome}
use prunepytest.Loader.{Hook, load_import_graph, build_graph, to_file, entry_at}
use prunepytest.Items.{key_eq}
use prunepytest.Selector.{no_caches, should_keep, locate}
use prunepytest.Selector.Laws.{no_caches-IsValid}
use prunepytest.Selector.Dynamic.{with_dynamic_hooks, should_keep-with_dynamic_hooks}
use prunepytest.Session.{load_hook_or_default}
use prunepytest.Validator.Folder as Folder
use prunepytest.Validator.Folder.{Interp}
use prunepytest.Validator.Main.{Runtime, Validated, validate}
use prunepytest.Validator.Main as Validator
use prunepytest.Validator.Main.Trust.{IsTrusted, main-IsTrusted}
use prunepytest.Command.{main}
use prunepytest.Command.Files.{IsLeft, main-IsLeft}
use prunepytest.Command.Answer.{main-load_import_graph, main-modify_items, IsOutside}

parse_args-outcome_example :
    parse_args small_argparse saved_args graph_options false
    ≡ outcome graph_options false
        (small_argparse (map declared (sorted arg_lt graph_options)) saved_args)
parse_args-outcome_example =
    parse_args-outcome small_argparse saved_args graph_options false small_argparse-IsDocumented

main-IsTrusted_example :
    (g : ModuleGraph) × (x : Validated) × ((other : Hook)
      → load_import_graph graphs other
          (some (text "g"))
          none
          (Validator.main process runtime saved_args disk).world
        ≡ some g)
    × ((validate process runtime none (some (text "g")) disk).0 ≡ some x)
    × IsTrusted runtime hook g x.interp
unfolding hook parse_args nat_eq list_eq arg_eq small_argparse load_hook_or_default build_graph main
    load_import_graph entry_at join_paths save_new to_file dirname validate Folder.validate
    mixin_is_test_file imports_of
main-IsTrusted_example =
    main-IsTrusted process runtime hook saved_args graph_values (text "g") disk refl refl refl refl
      refl refl

main-IsLeft_example :
    IsLeft process runtime
      (text "validate")
      saved_args
      disk
      (main process runtime (text "m" ∷ text "validate" ∷ saved_args) disk)
main-IsLeft_example = main-IsLeft process runtime (text "m") (text "validate") saved_args disk

main-load_import_graph_example :
    load_import_graph graphs hook.base
      (some (text "g"))
      none
      (main process runtime (text "m" ∷ text "graph" ∷ saved_args) disk).world
    ≡ some small_graph
unfolding parse_args nat_eq list_eq arg_eq small_argparse load_hook_or_default load_import_graph
    entry_at join_paths build_graph hook main dirname
main-load_import_graph_example =
    main-load_import_graph process runtime (text "m") saved_args graph_values hook disk small_graph
      (text "g") refl refl refl refl refl refl refl hook.base

main-modify_items_example : Every (IsOutside config shown) selected.0.deselected
unfolding selected parse_args arg_eq small_argparse split load_hook_or_default load_import_graph
    build_graph hook main
main-modify_items_example =
    main-modify_items process runtime (text "m") changed_args changed_values hook disk small_graph
      changed refl refl refl refl shown refl config two_tests no_caches selected.1 selected.0
      (no_caches-IsValid config small_graph) refl

one_deselected : selected.0.deselected ≡ test_in 2 (text "t/test_b.py") ∷ []
unfolding selected union
one_deselected = refl

should_keep-with_dynamic_hooks_example :
    (should_keep unknowing dynamic_graph [] (test_in 1 (text "t/test_a.py")) no_caches).0
    ≡ (should_keep
        (with_dynamic_hooks unknowing)
        dynamic_graph
        []
        (test_in 1 (text "t/test_a.py"))
        no_caches).0
unfolding nat_eq locate
should_keep-with_dynamic_hooks_example =
    should_keep-with_dynamic_hooks unknowing dynamic_graph [] (test_in 1 (text "t/test_a.py"))
      no_caches no_caches (text "t/test_a.py") none (no_caches-IsValid unknowing dynamic_graph)
      (no_caches-IsValid (with_dynamic_hooks unknowing) dynamic_graph) (refl, tt) refl refl tt

-- The hook does not know of the dynamic import, and the test is deselected.
dynamic_deselected :
    (should_keep unknowing dynamic_graph [] (test_in 1 (text "t/test_a.py")) no_caches).0
    ≡ some false
unfolding should_keep nat_eq list_eq
dynamic_deselected = refl
