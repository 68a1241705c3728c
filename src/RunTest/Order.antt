-- ===== src/RunTest/Order.antt =====
-- pytest/validator.py: the protocol around a test does not raise, and keeps the import contexts in
-- order.
use prunepytest.Prelude.{
  ℕ, ◌≡◌, refl, sym, subst, Bool, true, false, none, some, List, contains, arith, inl, inr,
  Option-cases, Bool-cases, eq_refl, list_eq, nat_eq,
}
use prunepytest.Text.{Text}
use prunepytest.Sets.{Set, add}
use prunepytest.Dict.{has}
use prunepytest.Graph.{ModuleGraph}
use prunepytest.Items.{Item}
use prunepytest.Tracker.Deps.{Name, Deps, fine}
use prunepytest.Tracker.Deps.Invariant.{IsValid, Kept}
use prunepytest.Tracker.State.{Outcome, Tracker}
use prunepytest.Tracker.Contexts.{enter_context, exit_context, set_callback, with_deps}
use prunepytest.Tracker.Contexts.Balance.{Entered, enter_lem, exit_lem, with_dynamic_lem}
use prunepytest.Tracker.Load.Machinery.{Body, System}
use prunepytest.Tracker.Load.{Hooks, run, hooks}
use prunepytest.Tracker.Load.Imports.{code-Kept}
use prunepytest.RunTest.{
  RunConfig, Validator, Report, Start, refused, unvalidated, validated, Ran, crashed, ran,
  import_path, find_expected, refuses, is_unhandled, conclude_test, entered, enter_test, start_in,
  file_of, start_test, left, finish_test, run_from, run_test,
}

-- How a test may start from the contexts `d`: without validation, or in its own context.
abbrev pub StartOk : Deps → Start → Type 0
StartOk d (refused e v) = ⊥
StartOk d (unvalidated v) = v.tracker.deps ≡ d
StartOk d (validated path before reports v) = Entered path d v.tracker.deps

-- How a test may end: without an exception.
abbrev pub RanOk : {W : Type 0} → Deps → Ran W → Type 0
RanOk d (crashed e v w) = ⊥
RanOk d (ran reports o v w) = Kept d v.tracker.deps

Entered-has : (c : Name) (d d' : Deps) → Entered c d d' → has c d'.tracked ≡ true
Entered-has c d d' n = n.valid.stacked c (rw n.stack (ground (arith, eq_refl c)))

module _ (c : RunConfig) where
  entered-StartOk :
      (path : Name) (expected : Set Name) (new_file : Bool) (d : Deps) (u : Validator) (t : Tracker)
      → Entered path d t.deps
      → StartOk d (entered c path expected new_file u (fine t))
  unfolding entered
  entered-StartOk path expected new_file d u t n =
      let (r, e, rest) = with_dynamic_lem path t (Entered-has path d t.deps n) in rw e n

  enter_test-StartOk :
      (path : Name) (expected : Set Name) (new_file : Bool) (v : Validator)
      → IsValid v.tracker.deps
      → contains v.tracker.deps.stack path ≡ false
      → StartOk v.tracker.deps (enter_test c path expected new_file v)
  unfolding enter_test enter_context set_callback
  enter_test-StartOk path expected new_file v ok out =
      let (d, e, n) = enter_lem path v.tracker.deps ok out in
      let cb = some (refuses c.nofail expected) in
      let u : Validator = record v { expected_imports = some expected } in
      subst
        (λ r.
          StartOk v.tracker.deps
            (entered c path expected new_file u (set_callback cb (with_deps v.tracker r))))
        (sym e)
        (entered-StartOk path expected new_file v.tracker.deps u
          (record v.tracker { deps = d; import_callback = cb }) n)

  start_in-StartOk :
      (f : Text) (item : Item) (new_file : Bool) (v : Validator)
      → IsValid v.tracker.deps
      → contains v.tracker.deps.stack (import_path f) ≡ false
      → StartOk v.tracker.deps (start_in c f item (new_file, v))
  unfolding start_in
  start_in-StartOk f item new_file v ok out = elim (Bool-cases (is_unhandled c f item v)) [
    | inl u ↦ rw u refl
    | inr u ↦ elim (Option-cases v.expected_imports) [
      | inl e ↦ rw (u, e) refl
      | inr (x, e) ↦
          rw (u, e) (enter_test-StartOk (import_path f) (add (import_path f) x) new_file v ok out)
    ]
  ]

  find_expected-tracker :
      (g : ModuleGraph) (path : Text) (v : Validator)
      → (find_expected g path v).1.tracker ≡ v.tracker
  unfolding find_expected
  find_expected-tracker g path v = elim (Option-cases v.current_file) [
    | inl e ↦ rw e refl
    | inr (file, e) ↦ ground arith
  ]

  start_test-StartOk :
      (g : ModuleGraph) (item : Item) (v : Validator) (f : Text)
      → IsValid v.tracker.deps
      → file_of c item ≡ some f
      → contains v.tracker.deps.stack (import_path f) ≡ false
      → StartOk v.tracker.deps (start_test c g item v)
  unfolding start_test
  start_test-StartOk g item v f ok e out = elim (Bool-cases v.is_controller) [
    | inl b ↦ rw b refl
    | inr b ↦
        let r = find_expected g (c.under_rel_root f) v in
        let q : r.1.tracker ≡ v.tracker = find_expected-tracker g (c.under_rel_root f) v in
        rw (b, e)
          (subst (λ t. StartOk t.deps (start_in c f item r)) q
            (start_in-StartOk f item r.0 r.1 (rw q ok) (rw q out)))
  ]

  -- The end of the protocol, at the tracker `t` that the test has left.
  finish_test-RanOk :
      {W : Type 0} (path : Name) (before : Set Name) (reports : List Report) (o : Outcome) (w : W)
      (d : Deps) (v : Validator) (t : Tracker)
      → IsValid d
      → Entered path d v.tracker.deps
      → Kept v.tracker.deps t.deps
      → RanOk d (conclude_test c reports o w (finish_test c path before v t))
  unfolding finish_test left exit_context
  finish_test-RanOk path before reports o w d v t ok n k =
      let (d', e, x) = exit_lem path d v.tracker.deps t.deps ok n k in
      let t' : Tracker = record t { deps = d'; import_callback = none } in
      let known = x.tracked path (k.tracked path (Entered-has path d v.tracker.deps n)) in
      let (r, e', rest) = with_dynamic_lem path t' known in rw (e, e') x.kept

module _ (c : RunConfig) (sys : System) (record_dynamic : Bool) (depth : ℕ) where
  open sys use {World}

  abbrev pub tracked_hooks : Hooks sys
  tracked_hooks = hooks sys record_dynamic depth

  run_from-RanOk :
      (b : Body World) (w : World) (d : Deps) (s : Start)
      → IsValid d
      → StartOk d s
      → RanOk d (run_from c sys tracked_hooks b w s)
  unfolding run_from
  run_from-RanOk b w d (refused e v) ok h = h
  run_from-RanOk b w d (unvalidated v) ok h =
      subst (λ k. Kept k (run sys tracked_hooks b v.tracker).1.deps) h
        (code-Kept sys record_dynamic depth b v.tracker (rw h ok))
  run_from-RanOk b w d (validated path before reports v) ok n =
      let (o, t, w') = run sys tracked_hooks b v.tracker in
      finish_test-RanOk c path before reports o w' d v t ok n
        (code-Kept sys record_dynamic depth b v.tracker n.valid)

  -- If the contexts are valid, the file of the test is known relative to the root path and its
  -- import path is no context that is open, then the protocol around the test does not raise,
  -- whatever the test imports, and leaves valid contexts with the stack that was there before it.
  pub run_test-RanOk :
      (g : ModuleGraph) (item : Item) (b : Body World) (w : World) (v : Validator) (f : Text)
      → IsValid v.tracker.deps
      → file_of c item ≡ some f
      → contains v.tracker.deps.stack (import_path f) ≡ false
      → RanOk v.tracker.deps (run_test c sys tracked_hooks g item b w v)
  unfolding run_test
  run_test-RanOk g item b w v f ok e out =
      run_from-RanOk b w v.tracker.deps (start_test c g item v) ok
        (start_test-StartOk c g item v f ok e out)
