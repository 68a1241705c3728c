-- ===== src/Tests/Protocol.antt =====
-- The validation of a test that imports one expected module, under the import machinery of
-- `Tests/Imports`.
use prunepytest.Selector.{relative_file}
use prunepytest.Prelude.{
  ◌≡◌, refl, true, false, not, ◌&&◌, none, some, List, [], ◌∷◌, contains, length, drop, list_eq,
  nat_eq,
}
use prunepytest.Text.{text, replace, ends_with, partition}
use prunepytest.Sets.{Set, Subset, add}
use prunepytest.Graph.{ModuleGraph}
use prunepytest.Items.{Item, actual_test_file}
use prunepytest.Tracker.Deps.{Name, Step, state_of, begin, leave, untrack}
use prunepytest.Tracker.Deps.Invariant.{initial-IsValid}
use prunepytest.Tracker.State.{Outcome, loaded, Tracker}
use prunepytest.Tracker.Contexts.{with_dynamic, enter_context, exit_context, imports_of}
use prunepytest.Tracker.Load.Machinery.{Body, done, import_}
use prunepytest.Tracker.Load.Parts.{notify, settle_loaded, settle_raised}
use prunepytest.Tracker.Load.{hooks, run, new_find_and_load}
use prunepytest.Tests.Imports.{module_of, machinery, cyclic, started, execute}
use prunepytest.RunTest.{
  RunConfig, Validator, Report, Start, refused, unvalidated, validated, Ran, crashed, ran,
  enter_test, finish_test, run_from, start_test, start_in, is_unhandled, find_expected, run_test,
  expected_of, warned, import_path, entered, left, report_unexpected,
}
use prunepytest.RunTest.Order.{RanOk, run_test-RanOk}
use prunepytest.RunTest.Cover.{reported, finish_test-reported, run_test-clean}
use prunepytest.RunTest.Refuse.{find-expected}

abbrev strict : RunConfig
strict = record { rootpath = text "/r"; under_rel_root = λ p. p; always_run = []; nofail = false }

abbrev graph : ModuleGraph
graph = record {
  file_depends_on = λ f. some (text "p.d" ∷ []);
  module_depends_on = λ m p. none;
  affected_by_files = λ fs. [];
  affected_by_modules = λ ms. [];
}

abbrev item : Item
item = record {
  id = 1;
  name = text "test_it";
  is_function = true;
  location = text "t/a.py";
  parents = record { id = 2; is_file = true; path = text "/r/t/a.py" } ∷ [];
}

abbrev fresh : Validator
fresh = record {
  is_controller = false;
  current_file = none;
  expected_imports = none;
  tracker = started;
}

abbrev import_d : Body (Set Name)
import_d = import_ (text "p.d") [] (λ o w. done o w)

run_test-RanOk_example : RanOk started.deps (
    run_test strict
      (machinery cyclic)
      (hooks (machinery cyclic) false 9)
      graph
      item
      import_d
      []
      fresh)
unfolding list_eq actual_test_file relative_file nat_eq import_path replace
run_test-RanOk_example =
    run_test-RanOk strict (machinery cyclic) false 9 graph item import_d [] fresh (text "t/a.py")
      initial-IsValid refl refl

abbrev expected : Set Name
expected = text "t.a" ∷ text "p.d" ∷ []

start : Start
unfolding enter_test
start = enter_test strict (text "t.a") expected true fresh

-- The validator and the set of a validated start.
validator_of : Start → Validator
validator_of (refused e v) = v
validator_of (unvalidated v) = v
validator_of (validated p before rs v) = v

before_of : Start → Set Name
before_of (refused e v) = []
before_of (unvalidated v) = []
before_of (validated p before rs v) = before

result : Ran (Set Name)
unfolding run_from hooks execute run new_find_and_load list_eq nat_eq begin leave untrack notify
    settle_loaded settle_raised start
result = run_from strict (machinery cyclic) (hooks (machinery cyclic) false 9) import_d [] start

end_of : Ran (Set Name) → Validator × Outcome × Set Name
end_of (crashed e v w) = (v, loaded (module_of []), w)
end_of (ran rs o v w) = (v, o, w)

imports_after : Set Name
unfolding result end_of
imports_after = elim (with_dynamic (text "t.a") (end_of result).0.tracker) [
  | none ↦ []
  | some s ↦ s
]

-- The whole protocol around the test
whole : Ran (Set Name)
unfolding run_test start_test start_in is_unhandled find_expected enter_test run_from hooks execute
    run new_find_and_load list_eq nat_eq begin leave untrack notify settle_loaded settle_raised
    actual_test_file relative_file import_path replace add ends_with partition
whole =
    run_test strict (machinery cyclic) (hooks (machinery cyclic) false 9) graph item import_d []
      fresh

imports_of_whole : Set Name
unfolding whole end_of
imports_of_whole = elim (with_dynamic (text "t.a") (end_of whole).0.tracker) [
  | none ↦ []
  | some s ↦ s
]

run_test-clean_example : Subset imports_of_whole expected
unfolding imports_of_whole whole end_of entered enter_context with_dynamic finish_test left
    exit_context report_unexpected imports_of
run_test-clean_example =
    run_test-clean strict (machinery cyclic) (hooks (machinery cyclic) false 9) refl graph item
      import_d [] fresh
      (record fresh {
        current_file = some (text "t/a.py");
        expected_imports = some (text "p.d" ∷ []);
      })
      (text "t/a.py") (text "p.d" ∷ []) (end_of whole).1 (end_of whole).0 (end_of whole).2
      imports_of_whole refl refl refl refl refl refl refl

-- the tracker that the test has left
left_tracker : Tracker
unfolding result start validator_of
left_tracker =
    (run (machinery cyclic) (hooks (machinery cyclic) false 9) import_d
      (validator_of start).tracker).1

ended : Step (Validator × List Report)
unfolding finish_test left_tracker start validator_of before_of
ended = finish_test strict (text "t.a") (before_of start) (validator_of start) left_tracker

finish_test-reported_example : contains (reported (state_of ended).1) (text "p.d") ≡ (
    contains imports_after (text "p.d")
    && not (contains (before_of start) (text "p.d"))
    && not (contains (expected_of (validator_of start)) (text "p.d"))
    && not (
        contains
          (warned false
            (expected_of (validator_of start))
            (drop (length (validator_of start).tracker.notified) left_tracker.notified))
          (text "p.d")))
unfolding ended imports_after result end_of start left_tracker validator_of before_of left
    exit_context entered enter_context with_dynamic
finish_test-reported_example =
    finish_test-reported strict (text "t.a") (before_of start) (validator_of start) left_tracker
      (state_of ended).0 (state_of ended).1 imports_after (text "p.d") refl refl

find-expected_example : contains expected (text "p.d") ≡ true
unfolding start validator_of before_of result entered enter_context with_dynamic report_unexpected
    imports_of
find-expected_example =
    find-expected strict (machinery cyclic) false 9 (text "t.a") expected true fresh (text "t.a")
      (before_of start) [] (validator_of start) (done (loaded (module_of [])) []) (text "p.d")
      (module_of (text "p.d")) refl refl refl refl
