-- ===== src/Tests/Validation.antt =====
-- The validator on a package with two test files, one of which does not load.
use prunepytest.Prelude.{
  ◌≡◌, refl, not, ◌&&◌, none, some, [], ◌∷◌, ◌==◌, contains, Every, if◌then◌else◌, list_eq, nat_eq,
}
use prunepytest.Text.{text, starts_with}
use prunepytest.Dict.{lookup}
use prunepytest.Graph.{ModuleGraph}
use prunepytest.Tracker.Deps.{module_error}
use prunepytest.Tracker.State.{new_tracker}
use prunepytest.Validator.Walk.{
  Entries, no_more, folder, file, imported_, broken, Loader, Walk, recursive_import_tests, has_init,
}
use prunepytest.Validator.Walk.Laws.{Accounted, tests_of, recursive_import_tests-Accounted}
use prunepytest.Validator.Folder.{Interp, cleanup}
use prunepytest.Validator.Folder.Cleanup.{cleanup_lem, removes}

abbrev empty_graph : ModuleGraph
empty_graph = record {
  file_depends_on = λ f. none;
  module_depends_on = λ m p. if m == text "t.a" then some (text "m" ∷ []) else none;
  affected_by_files = λ fs. [];
  affected_by_modules = λ ms. [];
}

abbrev load_all : Loader Interp
load_all = record {
  import_with_capture =
      λ fq i. if fq == text "t.test_bad" then (broken (module_error 0), i) else (imported_, i);
  is_test_file = λ n. starts_with n (text "test_");
  before_file = λ p q i. i;
  after_file = λ p q i. i;
}

abbrev package_tests : Entries
package_tests = file (text "__init__.py") (
    file (text "test_a.py")
      (file (text "test_bad.py") (folder (text "data") (file (text "test_x.py") no_more) no_more)))

abbrev started : Interp
started = record { tracker = new_tracker; modules = []; path = [] }

abbrev start : Walk Interp
start = record { world = started; imported = []; errors = [] }

recursive_import_tests-Accounted_example :
    Every
      (Accounted load_all
        (recursive_import_tests load_all (text "/t") (text "t") package_tests start))
      (if has_init package_tests
        then tests_of load_all (text "/t") (text "t") package_tests
        else [])
recursive_import_tests-Accounted_example =
    recursive_import_tests-Accounted load_all (text "/t") (text "t") package_tests start

-- `t.a` is tracked and new; `tx` is new, but of another package.
abbrev two_modules : Interp
two_modules = record {
  tracker = record new_tracker {
    deps = record new_tracker.deps { tracked = (text "t.a", 0) ∷ (text "tx", 0) ∷ [] };
  };
  modules = text "t.a" ∷ text "tx" ∷ [];
  path = [];
}

cleaned : Interp
unfolding cleanup list_eq nat_eq
cleaned = elim (cleanup (text "t") (text "t.a" ∷ text "tx" ∷ []) two_modules) [
  | none ↦ two_modules
  | some j ↦ j
]

cleanup_lem_example :
    (lookup (text "tx") cleaned.tracker.deps.tracked ≡ (
      if removes (text "t") (text "t.a" ∷ text "tx" ∷ []) (text "tx")
      then none
      else lookup (text "tx") two_modules.tracker.deps.tracked))
    × (lookup (text "tx") cleaned.tracker.dynamic_users ≡ (
        if removes (text "t") (text "t.a" ∷ text "tx" ∷ []) (text "tx")
        then none
        else lookup (text "tx") two_modules.tracker.dynamic_users))
    × (contains cleaned.modules (text "tx") ≡ (
        contains two_modules.modules (text "tx")
        && not (removes (text "t") (text "t.a" ∷ text "tx" ∷ []) (text "tx"))))
unfolding cleaned
cleanup_lem_example =
    cleanup_lem (text "t") (text "t.a" ∷ text "tx" ∷ []) two_modules cleaned refl (text "tx")
