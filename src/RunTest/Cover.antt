-- ===== src/RunTest/Cover.antt =====
-- pytest/validator.py: what the reports of a test say of the modules that it imported.
use prunepytest.Prelude.{
  ◌≡◌, refl, ◌∙◌, sym, subst, ap, Bool, ◌++◌, append-eq-nil, true, false, not, ◌&&◌, Option, none,
  some, List, [], ◌∷◌, contains, length, drop, arith, inl, inr, Bool-cases, list_eq, nat_eq,
}
use prunepytest.Graph.{ModuleGraph}
use prunepytest.Items.{Item}
use prunepytest.Text.{Text}
use prunepytest.Sets.{Set, add, Subset, union, diff, diff-eq-nil, contains-union, contains-diff}
use prunepytest.Tracker.Deps.{Name, Step, fine, fault}
use prunepytest.Tracker.State.{Outcome, Tracker}
use prunepytest.Tracker.Load.Machinery.{Body, System}
use prunepytest.Tracker.Load.{Hooks, run}
use prunepytest.Tracker.Contexts.{enter_context, exit_context, with_dynamic}
use prunepytest.RunTest.{
  RunConfig, Validator, Report, warning, failure, Start, refused, unvalidated, validated, ran,
  conclude_test, run_test, start_test, start_in, is_unhandled, find_expected, file_of, import_path,
  run_from, refuses, warned, compare_before, compare_after, report_unexpected, entered, enter_test,
  left, finish_test, expected_of,
}

-- The names of all the reports.
unfoldable pub reported : List Report → Set Name
unfolding union
reported [] = []
reported (warning s ∷ rs) = union s (reported rs)
reported (failure s ∷ rs) = union s (reported rs)

-- No callback warns when it raises.
warned-strict : (expected : Set Name) (ns : List Name) → warned false expected ns ≡ []
unfolding warned
warned-strict expected [] = refl
warned-strict expected (n ∷ ns) = ground (arith, warned-strict expected ns)

module _ (c : RunConfig) where
  reported-report_unexpected :
      (s : Set Name) (x : Name) → contains (reported (report_unexpected c s)) x ≡ contains s x
  unfolding reported report_unexpected
  reported-report_unexpected [] x = refl
  reported-report_unexpected (n ∷ s) x = elim (Bool-cases c.nofail) [
    | inl e ↦ rw e (contains-union (n ∷ s) [] x ∙ ground arith)
    | inr e ↦ rw e (contains-union (n ∷ s) [] x ∙ ground arith)
  ]

  -- The names that are reported at the end of a test.
  abbrev pub unexpected_of : Set Name → List Name → Validator → Set Name → Set Name
  unexpected_of before notified v after =
      let expected = expected_of v in
      diff (diff (diff after before) expected) (warned c.nofail expected notified)

  compare_after-fine :
      (before : Set Name) (ns : List Name) (v : Validator) (a : Option (Set Name)) (v' : Validator)
      (rs : List Report)
      → compare_after c before ns v a ≡ fine (v', rs)
      → (b : Set Name) × (a ≡ some b)
        × (v' ≡ v)
        × (rs ≡ report_unexpected c (unexpected_of before ns v b))
  compare_after-fine before ns v none v' rs e = absurd (cc)
  compare_after-fine before ns v (some a) v' rs e = (a, refl, cc, cc)

  finish_test-fine :
      (path : Name) (before : Set Name) (v : Validator) (t : Tracker) (v' : Validator)
      (rs : List Report)
      → finish_test c path before v t ≡ fine (v', rs)
      → (b : Set Name) × (with_dynamic path v'.tracker ≡ some b)
        × (v'.expected_imports ≡ v.expected_imports)
        × (rs
            ≡ report_unexpected c
                (unexpected_of before (drop (length v.tracker.notified) t.notified) v b))
  unfolding finish_test left
  finish_test-fine path before v t v' rs e = go (exit_context path t) e
    where
      ns : List Name
      ns = drop (length v.tracker.notified) t.notified

      go :
          (r : Step Tracker)
          → left c path before ns v r ≡ fine (v', rs)
          → (b : Set Name) × (with_dynamic path v'.tracker ≡ some b)
            × (v'.expected_imports ≡ v.expected_imports)
            × (rs ≡ report_unexpected c (unexpected_of before ns v b))
      go (fault y u) h = absurd (cc)
      go (fine u) h =
          let (b, k, q, l) =
            compare_after-fine before ns (record v { tracker = u }) (with_dynamic path u) v' rs h in
          (b, ap (λ z. with_dynamic path z.tracker) q ∙ k, ap (λ z. z.expected_imports) q, l)

  -- The reports at the end of a test are exactly the modules that `with_dynamic` has then, less those
  -- that it had before the test, those that are expected and those that the callback warned about.
  pub finish_test-reported :
      (path : Name) (before : Set Name) (v : Validator) (t : Tracker) (v' : Validator)
      (rs : List Report) (after : Set Name) (x : Name)
      → finish_test c path before v t ≡ fine (v', rs)
      → with_dynamic path v'.tracker ≡ some after
      → contains (reported rs) x ≡ (
          contains after x
          && not (contains before x)
          && not (contains (expected_of v) x)
          && not (
              contains
                (warned c.nofail (expected_of v) (drop (length v.tracker.notified) t.notified))
                x))
  finish_test-reported path before v t v' rs after x e k =
      let ns = drop (length v.tracker.notified) t.notified in
      let (b, k', q, l) = finish_test-fine path before v t v' rs e in
      let same : b ≡ after = cc (k, k') in
      ap (λ r. contains (reported r) x) l
      ∙ reported-report_unexpected (unexpected_of before ns v b) x
      ∙ ap (λ z. contains (unexpected_of before ns v z) x) same
      ∙ ground (
        arith,
        contains-diff (diff (diff after before) (expected_of v))
            (warned c.nofail (expected_of v) ns) x,
        contains-diff (diff after before) (expected_of v) x,
        contains-diff after before x,
      )

  report_unexpected-nil : (s : Set Name) → report_unexpected c s ≡ [] → s ≡ []
  unfolding report_unexpected
  report_unexpected-nil s e = ground arith

  started-clean :
      (path : Name) (expected : Set Name) (v : Validator) (path' : Name) (before : Set Name)
      (rs : List Report) (v' : Validator)
      → enter_test c path expected true v ≡ validated path' before rs v'
      → rs ≡ []
      → (path' ≡ path) × (v'.expected_imports ≡ some expected) × Subset before expected
  unfolding enter_test entered
  started-clean path expected v path' before rs v' e k =
      go (enter_context path (some (refuses c.nofail expected)) v.tracker) e
    where
      u : Validator
      u = record v { expected_imports = some expected }

      compared :
          (t : Tracker) (a : Option (Set Name))
          → compare_before c path expected true (record u { tracker = t }) a
            ≡ validated path' before rs v'
          → (path' ≡ path) × (v'.expected_imports ≡ some expected) × Subset before expected
      compared t none h = absurd (cc)
      compared t (some a) h =
          let same : a ≡ before = cc in
          let nil : report_unexpected c (diff a expected) ≡ [] = cc in
          let at_v : record u { tracker = t } ≡ v' = cc in
          (
            cc,
            ap (λ z. z.expected_imports) (sym at_v),
            subst (λ z. Subset z expected) same
                (diff-eq-nil a expected (report_unexpected-nil (diff a expected) nil)),
          )

      go :
          (r : Step Tracker)
          → entered c path expected true u r ≡ validated path' before rs v'
          → (path' ≡ path) × (v'.expected_imports ≡ some expected) × Subset before expected
      go (fault y t) h = absurd (cc)
      go (fine t) h = compared t (with_dynamic path t) h

  entered-validated :
      (path : Name) (expected : Set Name) (nf : Bool) (v u : Validator) (r : Step Tracker)
      → ¬ (entered c path expected nf v r ≡ unvalidated u)
  unfolding entered
  entered-validated path expected nf v u (fault y t) h = cc
  entered-validated path expected nf v u (fine t) h =
      compared (record v { tracker = t }) (with_dynamic path t) h
    where
      compared :
          (z : Validator) (a : Option (Set Name))
          → ¬ (compare_before c path expected nf z a ≡ unvalidated u)
      compared z none h = cc
      compared z (some a) h = cc

module _ (c : RunConfig) (sys : System) (h : Hooks sys) (strict : c.nofail ≡ false) where
  open sys use {World}

  concluded-clean :
      (path : Name) (expected before : Set Name) (reports : List Report) (o o' : Outcome)
      (w w' : World) (v v' : Validator) (t : Tracker) (after : Set Name)
      → Subset before expected
      → v.expected_imports ≡ some expected
      → (r : Step (Validator × List Report)) → finish_test c path before v t ≡ r
      → conclude_test c reports o w r ≡ ran [] o' v' w'
      → with_dynamic path v'.tracker ≡ some after
      → Subset after expected
  unfolding reported
  concluded-clean path expected before reports o o' w w' v v' t after b q (fault y s) e e' k x m =
      absurd (cc)
  concluded-clean path expected before reports o o' w w' v v' t after b q (fine (u, more)) e e' k x
        m =
      let ns = drop (length v.tracker.notified) t.notified in
      let none_ : reports ++ more ≡ [] = cc in
      let none_more : more ≡ [] = (append-eq-nil reports more none_).1 in
      let same : u ≡ v' = cc in
      let r =
        finish_test-reported c path before v t u more after x e
          (ap (λ z. with_dynamic path z.tracker) same ∙ k) in
      let silent : contains (reported more) x ≡ false =
        ap (λ z. contains (reported z) x) none_more in
      let quiet : contains (warned c.nofail (expected_of v) ns) x ≡ false =
        rw strict (ap (λ z. contains z x) (warned-strict (expected_of v) ns)) in
      let names : expected_of v ≡ expected = rw q refl in
      ground (arith, r, silent, quiet, b x, ap (λ z. contains z x) names)

  -- Without `--prune-no-fail`, from the start of the context on: if the first test of a file is validated against the
  -- expected imports and the protocol ends without a report, then all that `with_dynamic` has for the
  -- file afterwards is expected.
  run_from-clean :
      (path : Name) (expected : Set Name) (v : Validator) (b : Body World) (w : World) (o : Outcome)
      (v' : Validator) (w' : World) (after : Set Name)
      → run_from c sys h b w (enter_test c path expected true v) ≡ ran [] o v' w'
      → with_dynamic path v'.tracker ≡ some after
      → Subset after expected
  unfolding run_from
  run_from-clean path expected v b w o v' w' after e k =
      go (enter_test c path expected true v) refl e
    where
      ended :
          (r : Step (Validator × List Report)) (p : Name) (before : Set Name) (rs : List Report)
          (u : Validator) (o2 : Outcome) (w2 : World)
          → (rs ≡ [] → (p ≡ path) × (u.expected_imports ≡ some expected) × Subset before expected)
          → (t : Tracker) → finish_test c p before u t ≡ r
          → conclude_test c rs o2 w2 r ≡ ran [] o v' w'
          → Subset after expected
      ended (fault y s) p before rs u o2 w2 clean t f e = absurd (cc)
      ended (fine (z, more)) p before rs u o2 w2 clean t f e =
          let none_ : rs ++ more ≡ [] = cc in
          let (same, q, within) = clean (append-eq-nil rs more none_).0 in
          concluded-clean path expected before rs o2 o w2 w' u v' t after within q (fine (z, more))
            (subst (λ n. finish_test c n before u t ≡ fine (z, more)) same f) e k

      go :
          (s : Start)
          → enter_test c path expected true v ≡ s
          → run_from c sys h b w s ≡ ran [] o v' w'
          → Subset after expected
      go (refused y u) q e = absurd (cc)
      go (unvalidated u) q e = absurd (
          entered-validated c path expected true (record v { expected_imports = some expected }) u
            (enter_context path (some (refuses c.nofail expected)) v.tracker)
            (unfold enter_test in q))
      go (validated p before rs u) q e =
          let (o', t, w2) = run sys h b u.tracker in
          let clean = λ (nil : rs ≡ []). started-clean c path expected v p before rs u q nil in
          ended (finish_test c p before u t) p before rs u o' w2 clean t refl e

  first_start :
      (g : ModuleGraph) (item : Item) (v u : Validator) (f : Text)
      → v.is_controller ≡ false
      → file_of c item ≡ some f
      → find_expected g (c.under_rel_root f) v ≡ (true, u)
      → start_test c g item v ≡ start_in c f item (true, u)
  unfolding start_test
  first_start g item v u f alone file found = rw (alone, file) (ap (start_in c f item) found)

  validated_start :
      (item : Item) (u : Validator) (f : Text) (expected : Set Name)
      → is_unhandled c f item u ≡ false
      → u.expected_imports ≡ some expected
      → start_in c f item (true, u)
        ≡ enter_test c (import_path f) (add (import_path f) expected) true u
  unfolding start_in enter_test
  validated_start item u f expected handled has_expected = rw (handled, has_expected) refl

  -- Without `--prune-no-fail`: if a test is the first of its file and is validated, for the expected
  -- imports that were found for the file, and the protocol ends without a report, then all that
  -- `with_dynamic` has for the file afterwards is expected.
  pub run_test-clean :
      (g : ModuleGraph) (item : Item) (b : Body World) (w : World) (v u : Validator) (f : Text)
      (expected : Set Name) (o : Outcome) (v' : Validator) (w' : World) (after : Set Name)
      → v.is_controller ≡ false
      → file_of c item ≡ some f
      → find_expected g (c.under_rel_root f) v ≡ (true, u)
      → is_unhandled c f item u ≡ false
      → u.expected_imports ≡ some expected
      → run_test c sys h g item b w v ≡ ran [] o v' w'
      → with_dynamic (import_path f) v'.tracker ≡ some after
      → Subset after (add (import_path f) expected)
  unfolding run_test
  run_test-clean g item b w v u f expected o v' w' after alone file found handled has_expected e k =
      let start =
        first_start g item v u f alone file found
        ∙ validated_start item u f expected handled has_expected in
      run_from-clean (import_path f) (add (import_path f) expected) u b w o v' w' after
        (ap (run_from c sys h b w) (sym start) ∙ e) k
