-- ===== src/Tracker/Install.antt =====
-- tracker.py: the functions of the import machinery that `start_tracking` replaces and
-- `stop_tracking` puts back, and `_builtins_import_no_cache`.
use prunepytest.Prelude.{
  ℕ, ◌≡◌, refl, ◌∙◌, sym, subst, Bool, true, false, ◌||◌, Option, none, some, List, [], ◌∷◌, ◌++◌,
  ◌==◌, contains, arith, inl, inr, Option-cases, Bool-cases, ◌⊎◌, ◌≢◌, if◌then◌else◌, list_eq,
  nat_eq, eq_refl,
}
use prunepytest.Text.{dot, rpartition}
use prunepytest.Dict.{Dict, lookup, insert, lookup-insert}
use prunepytest.Tracker.Deps.{Name}

-- The functions that stand in the import machinery: those of Python, or those of a tracker.
pub data Fn : Type 0 where
  find_and_load handle_fromlist builtins_import : Fn
  new_find_and_load new_handle_fromlist : ℕ → Fn
  builtins_import_no_cache : Fn

-- `importlib._bootstrap` and `builtins`
pub record Machinery : Type 0 where
  pub find_and_load_fn : Fn
  pub handle_fromlist_fn : Fn
  pub import_fn : Fn

-- The machinery, and what each tracker has kept of it in its `old_` fields.
pub record Hooked : Type 0 where
  pub machinery : Machinery
  pub old : Dict ℕ Machinery

-- The replacement in `start_tracking`, for the tracker `t`
unfoldable pub install : ℕ → Hooked → Hooked
unfolding insert
install t s = record {
  machinery = record {
    find_and_load_fn = new_find_and_load t;
    handle_fromlist_fn = new_handle_fromlist t;
    import_fn = builtins_import_no_cache;
  };
  old = insert t s.machinery s.old;
}

-- `stop_tracking`; `none` is an AttributeError.
unfoldable pub stop_tracking : ℕ → Hooked → Option Hooked
unfolding lookup
stop_tracking t s = elim (lookup t s.old) [
  | none ↦ none
  | some m ↦ some (record s { machinery = m })
]

pub data Call : Type 0 where
  start stop : ℕ → Call

-- A sequence of such calls.
unfoldable pub run_calls : List Call → Hooked → Option Hooked
unfolding install stop_tracking
run_calls [] s = some s
run_calls (start t ∷ cs) s = run_calls cs (install t s)
run_calls (stop t ∷ cs) s = elim (stop_tracking t s) [ none ↦ none | some s' ↦ run_calls cs s' ]

-- Trackers that are stopped in the reverse order, each of them started once at a time: those in
-- `running` may not be started.
pub data IsNested : List ℕ → List Call → Type 0 where
  nothing : {running : List ℕ} → IsNested running []
  around :
      {running : List ℕ} {t : ℕ} {inside rest cs : List Call}
      → contains running t ≡ false
      → IsNested (t ∷ running) inside
      → IsNested running rest
      → cs ≡ start t ∷ inside ++ stop t ∷ rest
      → IsNested running cs

-- What a sequence leaves: the machinery is as before, and so is what the running trackers have kept.
record IsRestored (running : List ℕ) (s s' : Hooked) : Type 0 where
  same : s'.machinery ≡ s.machinery
  kept : (t : ℕ) → contains running t ≡ true → lookup t s'.old ≡ lookup t s.old

abbrev Restores : List ℕ → List Call → Hooked → Type 0
Restores running cs s = (s' : Hooked) × (run_calls cs s ≡ some s') × IsRestored running s s'

run_calls-append :
    (xs ys : List Call) (s u : Hooked)
    → run_calls xs s ≡ some u
    → run_calls (xs ++ ys) s ≡ run_calls ys u
unfolding run_calls
run_calls-append [] ys s u e = ground (arith, e)
run_calls-append (start t ∷ xs) ys s u e = run_calls-append xs ys (install t s) u e
run_calls-append (stop t ∷ xs) ys s u e = elim (Option-cases (stop_tracking t s)) [
  | inl n ↦ absurd (ground (arith, n, e))
  | inr (v, n) ↦ ground (arith, n, run_calls-append xs ys v u (ground (arith, n, e)))
]

install-old :
    (t k : ℕ) (s : Hooked)
    → lookup k (install t s).old ≡ (if k == t then some s.machinery else lookup k s.old)
unfolding install
install-old t k s = lookup-insert k t s.machinery s.old

-- After what runs inside, the stop of a tracker puts back what its start has kept.
stop-Restores :
    (running : List ℕ) (t : ℕ) (inside rest : List Call) (s u w : Hooked)
    → contains running t ≡ false
    → run_calls inside (install t s) ≡ some u
    → IsRestored (t ∷ running) (install t s) u
    → run_calls rest (record u { machinery = s.machinery }) ≡ some w
    → IsRestored running (record u { machinery = s.machinery }) w
    → Restores running (start t ∷ inside ++ stop t ∷ rest) s
unfolding run_calls stop_tracking
stop-Restores running t inside rest s u w fresh run_in r run_rest q =
    let found : lookup t u.old ≡ some s.machinery =
      ground (arith, r.kept t, install-old t t s, eq_refl t) in
    (
      w,
      run_calls-append inside (stop t ∷ rest) (install t s) u run_in
          ∙ ground (arith, found, run_rest),
      record {
        same = q.same;
        kept = λ k h. ground (arith, q.kept k, r.kept k, install-old t k s, h, fresh, eq_refl t);
      },
    )

nested-Restores :
    (running : List ℕ) (cs : List Call) → IsNested running cs → (s : Hooked) → Restores running cs s
unfolding run_calls
nested-Restores running cs nothing s = (s, refl, record { same = refl; kept = λ t h. refl })
nested-Restores running cs (around {t} {inside} {rest} fresh a b e) s =
    let (u, run_in, r) = nested-Restores (t ∷ running) inside a (install t s) in
    let (w, run_rest, q) = nested-Restores running rest b (record u { machinery = s.machinery }) in
    subst (λ c. Restores running c s) (sym e)
      (stop-Restores running t inside rest s u w fresh run_in r run_rest q)

pub nested-machinery :
    (cs : List Call)
    → IsNested [] cs
    → (s : Hooked) → (s' : Hooked) × (run_calls cs s ≡ some s') × (s'.machinery ≡ s.machinery)
nested-machinery cs n s = let (s', run, r) = nested-Restores [] cs n s in (s', run, r.same)

-- How `importlib.__import__` ends: with a module; with a ModuleNotFoundError for a name, which has
-- its traceback or not; or with another exception.
pub data Import : Type 0 where
  imported : Name → Import
  not_found : Name → Bool → Import
  raised : Import

abbrev pub clears : Name → Name → Bool
clears name e_name = e_name == name || e_name == (rpartition dot name).1

-- `_builtins_import_no_cache`, for the end of the call that it passes on
unfoldable pub import_no_cache : Name → Import → Import
unfolding rpartition
import_no_cache name (imported m) = imported m
import_no_cache name (not_found e_name tb) =
    not_found e_name (if clears name e_name then false else tb)
import_no_cache name raised = raised

separator_cases : (s : Name) → ((rpartition dot s).1 ≡ []) ⊎ ((rpartition dot s).1 ≡ dot ∷ [])
unfolding rpartition
separator_cases [] = inl refl
separator_cases (x ∷ s) = elim (separator_cases s) [
  | inl e ↦ elim (Bool-cases (x == dot)) [
    | inl d ↦ inr (ground (arith, e, d))
    | inr d ↦ inl (ground (arith, e, d))
  ]
  | inr e ↦ inr (ground (arith, e))
]

-- The traceback is dropped only for the very name that is imported: the second comparison is with a
-- separator, which is no name of a module.
pub import_no_cache-not_found :
    (name e_name : Name) (tb : Bool)
    → e_name ≢ []
    → e_name ≢ dot ∷ []
    → import_no_cache name (not_found e_name tb)
      ≡ not_found e_name (if e_name == name then false else tb)
unfolding import_no_cache
import_no_cache-not_found name e_name tb n d = elim (separator_cases name) [
  | inl e ↦ ground (arith, e, n)
  | inr e ↦ ground (arith, e, d)
]
