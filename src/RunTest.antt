-- ===== src/RunTest.antt =====
-- pytest/validator.py: the imports of each test, checked against the graph while the test runs.
pub mod Order
pub mod Cover
pub mod Refuse
pub mod Traceback
use prunepytest.Prelude.{
  ℕ, ◌-◌, Bool, true, false, not, ◌||◌, ◌&&◌, Option, none, some, List, [], ◌∷◌, ◌++◌, ◌==◌,
  contains, length, take, drop, is_none, is_empty, if◌then◌else◌, list_eq, nat_eq,
}
use prunepytest.Text.{Text, text, ends_with, partition, replace, dot, slash}
use prunepytest.Sets.{Set, add, diff}
use prunepytest.Graph.{ModuleGraph}
use prunepytest.Items.{Item, actual_test_file}
use prunepytest.Selector.{relative_file}
use prunepytest.Tracker.Deps.{Name, Exn, Step, fine, fault, key_error, assertion_error}
use prunepytest.Tracker.State.{Outcome, Tracker}
use prunepytest.Tracker.Contexts.{enter_context, exit_context, with_dynamic}
use prunepytest.Tracker.Load.Machinery.{Body, System}
use prunepytest.Tracker.Load.{Hooks, run}

-- `self.rel_root / f`, `self.always_run`, the root path and `prune_nofail` of pytest's configuration.
pub record RunConfig : Type 0 where
  pub rootpath : Text
  pub under_rel_root : Text → Text
  pub always_run : Set Text
  pub nofail : Bool

-- The fields of a `PruneValidator` that change.
pub record Validator : Type 0 where
  pub is_controller : Bool
  pub current_file : Option Text
  pub expected_imports : Option (Set Name)
  pub tracker : Tracker

-- What `_report_unexpected` hands to pytest: a warning, or a failed test.
pub data Report : Type 0 where
  warning failure : Set Name → Report

-- The protocol up to the `yield`: an exception, no validation, or the import path, the imports
-- before the test, and the reports so far.
pub data Start : Type 0 where
  refused : Exn → Validator → Start
  unvalidated : Validator → Start
  validated : Name → Set Name → List Report → Validator → Start

-- All of the protocol.
pub data Ran (W : Type 0) : Type 0 where
  crashed : Exn → Validator → W → Ran W
  ran : List Report → Outcome → Validator → W → Ran W

-- `f[:-3].replace("/", ".")`
unfoldable pub import_path : Text → Name
import_path f = replace slash dot (take (length f - 3) f)

-- `new_file`, and the two fields that follow the file of the test
unfoldable pub find_expected : ModuleGraph → Text → Validator → Bool × Validator
find_expected g path v =
    let found = record v { current_file = some path; expected_imports = g.file_depends_on path } in
    elim v.current_file [
      | none ↦ (true, found)
      | some file ↦ if path == file then (false, v) else (true, found)
    ]

-- `import_callback` raises.
abbrev pub refuses : Bool → Set Name → Name → Bool
refuses nofail expected name = not (contains expected name) && not nofail

-- The names that the callback has warned about, of those that it was called on; a warning is taken
-- not to be turned into an exception.
unfoldable pub warned : Bool → Set Name → List Name → Set Name
warned nofail expected [] = []
warned nofail expected (n ∷ ns) =
    let r = warned nofail expected ns in if not (contains expected n) && nofail then n ∷ r else r

abbrev pub expected_of : Validator → Set Name
expected_of v = elim v.expected_imports [ none ↦ [] | some expected ↦ expected ]

module _ (c : RunConfig) where
  -- `if unexpected: _report_unexpected(item, unexpected)`
  unfoldable pub report_unexpected : Set Name → List Report
  report_unexpected unexpected =
      if is_empty unexpected
      then []
      else (if c.nofail then warning unexpected else failure unexpected) ∷ []

  -- The cases in which validation is skipped.
  unfoldable pub is_unhandled : Text → Item → Validator → Bool
  unfolding ends_with partition
  is_unhandled f item v =
      not (ends_with f (text ".py"))
      || is_none v.expected_imports
      || contains c.always_run f
      || contains c.always_run (f ++ text ":" ++ (partition b'[' item.name).0)

  -- What follows `enter_context`: the imports before the test, with a report at the start of a file
  abbrev pub compare_before : Name → Set Name → Bool → Validator → Option (Set Name) → Start
  compare_before path expected new_file v none = refused key_error v
  compare_before path expected new_file v (some before) =
      validated path before (if new_file then report_unexpected (diff before expected) else []) v

  unfoldable pub entered : Name → Set Name → Bool → Validator → Step Tracker → Start
  entered path expected new_file v (fault e t) = refused e (record v { tracker = t })
  entered path expected new_file v (fine t) =
      compare_before path expected new_file (record v { tracker = t }) (with_dynamic path t)

  unfoldable pub enter_test : Name → Set Name → Bool → Validator → Start
  enter_test path expected new_file v =
      entered path expected new_file (record v { expected_imports = some expected })
        (enter_context path (some (refuses c.nofail expected)) v.tracker)

  unfoldable pub start_in : Text → Item → Bool × Validator → Start
  start_in f item (new_file, v) =
      if is_unhandled f item v then unvalidated v else elim v.expected_imports [
        | none ↦ unvalidated v
        | some expected ↦ enter_test (import_path f) (add (import_path f) expected) new_file v
      ]

  -- The test's file, relative to the root path; `none` is an AssertionError.
  abbrev pub file_of : Item → Option Text
  file_of item = relative_file c.rootpath (actual_test_file item).0

  unfoldable pub start_test : ModuleGraph → Item → Validator → Start
  start_test g item v = if v.is_controller then unvalidated v else elim (file_of item) [
    | none ↦ refused assertion_error v
    | some f ↦ start_in f item (find_expected g (c.under_rel_root f) v)
  ]

  -- What follows `exit_context`; `notified` are the names that the callback was called on in the test.
  abbrev pub compare_after :
      Set Name → List Name → Validator → Option (Set Name) → Step (Validator × List Report)
  compare_after before notified v none = fault key_error (v, [])
  compare_after before notified v (some after) =
      let expected = expected_of v in
      fine (
        v,
        report_unexpected
            (diff (diff (diff after before) expected) (warned c.nofail expected notified)),
      )

  unfoldable pub left :
      Name → Set Name → List Name → Validator → Step Tracker → Step (Validator × List Report)
  left path before notified v (fault e t) = fault e (record v { tracker = t }, [])
  left path before notified v (fine t) =
      compare_after before notified (record v { tracker = t }) (with_dynamic path t)

  -- The protocol after the `yield`, at the tracker `t` that the test has left.
  unfoldable pub finish_test :
      Name → Set Name → Validator → Tracker → Step (Validator × List Report)
  finish_test path before v t =
      left path before (drop (length v.tracker.notified) t.notified) v (exit_context path t)

  abbrev pub conclude_test :
      {W : Type 0} → List Report → Outcome → W → Step (Validator × List Report) → Ran W
  conclude_test reports o w (fault e (v, more)) = crashed e v w
  conclude_test reports o w (fine (v, more)) = ran (reports ++ more) o v w

module _ (c : RunConfig) (sys : System) (h : Hooks sys) where
  open sys use {World}

  -- The test itself, at the `yield`.
  unfoldable pub run_from : Body World → World → Start → Ran World
  run_from b w (refused e v) = crashed e v w
  run_from b w (unvalidated v) =
      let (o, t, w') = run sys h b v.tracker in ran [] o (record v { tracker = t }) w'
  run_from b w (validated path before reports v) =
      let (o, t, w') = run sys h b v.tracker in
      conclude_test c reports o w' (finish_test c path before v t)

  -- `pytest_runtest_protocol`
  unfoldable pub run_test : ModuleGraph → Item → Body World → World → Validator → Ran World
  run_test g item b w v = run_from b w (start_test c g item v)
