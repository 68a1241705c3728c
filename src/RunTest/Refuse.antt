-- ===== src/RunTest/Refuse.antt =====
-- pytest/validator.py: while a test runs, the import callback of its context refuses every module
-- that is not expected.
use prunepytest.Prelude.{
  ℕ, ◌≡◌, ◌∙◌, sym, ap, Bool, true, false, Option, none, some, List, contains, arith, list_eq,
  nat_eq,
}
use prunepytest.Sets.{Set}
use prunepytest.Tracker.Deps.{Name, Step, fine, fault}
use prunepytest.Tracker.State.{Module, loaded, Tracker}
use prunepytest.Tracker.Contexts.{enter, enter_context, set_callback, with_deps, with_dynamic}
use prunepytest.Tracker.Load.Machinery.{Body, System}
use prunepytest.Tracker.Load.Parts.{is_relevant}
use prunepytest.Tracker.Load.{hooks, run}
use prunepytest.Tracker.Load.Callback.Refused.{code-callback, find-passed}
use prunepytest.RunTest.{
  RunConfig, Validator, Report, validated, refuses, compare_before, entered, enter_test,
}

set_callback-callback :
    (cb : Option (Name → Bool)) (s : Tracker) (r : Step Tracker)
    → set_callback cb r ≡ fine s
    → s.import_callback ≡ cb
unfolding set_callback
set_callback-callback cb s (fine t) h =
    let q : record t { import_callback = cb } ≡ s = cc in ap (λ z. z.import_callback) (sym q)
set_callback-callback cb s (fault e t) h = absurd (cc)

module _ (c : RunConfig) (path : Name) (expected : Set Name) (new_file : Bool) where
  compare_before-tracker :
      (v : Validator) (a : Option (Set Name)) (p : Name) (before : Set Name) (rs : List Report)
      (u : Validator)
      → compare_before c path expected new_file v a ≡ validated p before rs u
      → u.tracker ≡ v.tracker
  compare_before-tracker v none p before rs u h = absurd (cc)
  compare_before-tracker v (some a) p before rs u h =
      let q : v ≡ u = cc in ap (λ z. z.tracker) (sym q)

  entered-fine :
      (v : Validator) (r : Step Tracker) (p : Name) (before : Set Name) (rs : List Report)
      (u : Validator)
      → entered c path expected new_file v r ≡ validated p before rs u
      → r ≡ fine u.tracker
  unfolding entered
  entered-fine v (fault e t) p before rs u h = absurd (cc)
  entered-fine v (fine t) p before rs u h =
      ap (λ z. fine z)
        (sym
          (compare_before-tracker (record v { tracker = t }) (with_dynamic path t) p before rs u h))

  enter_test-callback :
      (v : Validator) (p : Name) (before : Set Name) (rs : List Report) (u : Validator)
      → enter_test c path expected new_file v ≡ validated p before rs u
      → u.tracker.import_callback ≡ some (refuses c.nofail expected)
  unfolding enter_test enter_context
  enter_test-callback v p before rs u h =
      let cb = some (refuses c.nofail expected) in
      set_callback-callback cb u.tracker (with_deps v.tracker (enter path v.tracker.deps)) (
        entered-fine (record v { expected_imports = some expected })
          (set_callback cb (with_deps v.tracker (enter path v.tracker.deps))) p before rs u h)

-- Without `--prune-no-fail`, once a test is validated: after any code of the test, the import of a
-- module in a tracked namespace succeeds only if the module is expected.
pub find-expected :
    (c : RunConfig) (sys : System) (record_dynamic : Bool) (depth : ℕ) (path : Name)
    (expected : Set Name) (new_file : Bool) (v : Validator) (p : Name) (before : Set Name)
    (rs : List Report) (u : Validator) (b : Body sys.World) (n : Name) (m : Module)
    → c.nofail ≡ false
    → enter_test c path expected new_file v ≡ validated p before rs u
    → let (o, s, w) = run sys (hooks sys record_dynamic depth) b u.tracker in
      is_relevant n s ≡ true
      → ((hooks sys record_dynamic depth).find n s w).0 ≡ loaded m
      → contains expected n ≡ true
find-expected c sys record_dynamic depth path expected new_file v p before rs u b n m strict h k e =
    let (o, s, w) = run sys (hooks sys record_dynamic depth) b u.tracker in
    let installed =
      code-callback sys record_dynamic depth b u.tracker
      ∙ enter_test-callback c path expected new_file v p before rs u h in
    let passed =
      find-passed sys record_dynamic depth n s w m (refuses c.nofail expected) k installed e in
    ground (arith, passed, strict)
