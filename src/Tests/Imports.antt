-- ===== src/Tests/Imports.antt =====
-- The tracker under a small import machinery: modules are scripts of imports, `sys.modules` is a
-- list.
use prunepytest.Prelude.{
  ◌&&◌, ◌↔◌, ◌⊎◌, ◌≡◌, refl, true, false, none, some, List, [], ◌∷◌, contains, if◌then◌else◌,
  list_eq, nat_eq, pair_eq,
}
use prunepytest.Text.{text}
use prunepytest.Sets.{Set, Subset}
use prunepytest.Dict.{Dict, lookup, lookup_or, has}
use prunepytest.Tracker.Deps.{Name, module_error, deps_of, leave, untrack, begin, fine, at}
use prunepytest.Tracker.Deps.Invariant.{Kept, initial-IsValid}
use prunepytest.Tracker.State.{Anchor, Module, loaded, raised, Tracker, new_tracker}
use prunepytest.Tracker.Load.Machinery.{Body, done, import_, System}
use prunepytest.Tracker.Load.{hooks, run, new_find_and_load, Result, find_and_load_helper}
use prunepytest.Tracker.Load.Parts.{notify, settle_loaded, settle_raised}
use prunepytest.Tracker.Load.Imports.{
  find-Kept, loaded_covers, failed_forgotten, context_round_trip, real_import,
}
use prunepytest.Tracker.Contexts.{enter_context, exit_context, with_dynamic}
use prunepytest.Tracker.Contexts.Balance.{Exited, with_dynamic_lem}

abbrev pub module_of : Name → Module
module_of n = record { name = n; file = none; has_path = false; attrs = [] }

-- The imports of a module, in order; a module that is not listed cannot be loaded.
abbrev pub Scripts : Type 0
Scripts = Dict Name (List Name)

unfoldable pub imports : Name → List Name → Set Name → Body (Set Name)
imports n [] w = done (loaded (module_of n)) w
imports n (i ∷ is) w =
    import_ i w (λ o w'. elim o [ loaded m ↦ imports n is w' | raised e ↦ done (raised e) w' ])

unfoldable pub execute : Scripts → Set Name → Name → Body (Set Name)
unfolding imports lookup
execute scripts w n =
    if contains w n then done (loaded (module_of n)) w else elim (lookup n scripts) [
      | none ↦ done (raised (module_error 0)) w
      | some is ↦ imports n is (n ∷ w)
    ]

abbrev pub machinery : Scripts → System
machinery scripts = record {
  World = Set Name;
  find_and_load = execute scripts;
  handle_fromlist = λ w m xs. done (loaded m) w;
  extract_stack = λ w. [];
  patch = λ w n. (false, w);
  paths = record { file = text "tracker.py"; importlib_file = text "importlib.py" };
}

-- `p.a` imports `p.b`, which imports `p.c`, which imports `p.b` again; then `p.b` imports `p.a`,
-- and last `p.d`.
abbrev pub cyclic : Scripts
cyclic =
    (text "p.a", text "p.b" ∷ [])
    ∷ (text "p.b", text "p.c" ∷ text "p.a" ∷ text "p.d" ∷ [])
    ∷ (text "p.c", text "p.b" ∷ [])
    ∷ (text "p.d", [])
    ∷ []

abbrev pub started : Tracker
started = record new_tracker { prefixes = text "p" ∷ [] }

find_cyclic : Result (machinery cyclic)
unfolding hooks execute run new_find_and_load list_eq nat_eq begin leave untrack notify
    settle_loaded settle_raised
find_cyclic = (hooks (machinery cyclic) false 9).find (text "p.a") started []

-- `p.b` and `p.c` import each other, and yet the last import of `p.b` is missing from `p.c`.
cyclic_deps :
    (contains (deps_of (text "p.b") find_cyclic.1.deps) (text "p.d") ≡ true)
    × (contains (deps_of (text "p.c") find_cyclic.1.deps) (text "p.b") ≡ true)
    × (contains (deps_of (text "p.c") find_cyclic.1.deps) (text "p.d") ≡ false)
unfolding find_cyclic deps_of
cyclic_deps = (refl, refl, refl)

find-Kept_example :
    Kept started.deps ((hooks (machinery cyclic) false 9).find (text "p.a") started []).1.deps
find-Kept_example = find-Kept (machinery cyclic) false 9 (text "p.a") started [] initial-IsValid

abbrev import_a : Body (Set Name)
import_a = import_ (text "p.a") [] (λ o w. done o w)

import_of : Name → Result (machinery cyclic)
unfolding hooks execute run new_find_and_load list_eq nat_eq begin leave untrack notify
    settle_loaded settle_raised find_and_load_helper
import_of n =
    find_and_load_helper (machinery cyclic) (real_import (machinery cyclic) false 9) n false started
      []

loaded_covers_example :
    (has (text "p.d") (import_of (text "p.d")).1.deps.tracked ≡ true)
    × Subset
        (deps_of (text "p.d") (import_of (text "p.d")).1.deps)
        (at (import_of (text "p.d")).1.deps.cxt (import_of (text "p.d")).1.deps)
unfolding import_of
loaded_covers_example =
    loaded_covers (machinery cyclic) false 9 (text "p.d") false started [] (module_of (text "p.d"))
      initial-IsValid refl refl

failed_forgotten_example :
    (has (text "p.x") (import_of (text "p.x")).1.deps.tracked ≡ false)
    × ((contains
            (at (import_of (text "p.x")).1.deps.cxt (import_of (text "p.x")).1.deps)
            (text "p.x")
          && true)
        ≡ false)
unfolding import_of
failed_forgotten_example =
    failed_forgotten (machinery cyclic) false 9 (text "p.x") false started [] (module_error 0)
      initial-IsValid refl refl

context_round_trip_example :
    (s1 s2 : Tracker) × (enter_context (text "c") none started ≡ fine s1)
    × (exit_context
          (text "c")
          (run (machinery cyclic) (hooks (machinery cyclic) false 9) import_a s1).1
        ≡ fine s2)
    × Exited
        (text "c")
        started.deps
        (run (machinery cyclic) (hooks (machinery cyclic) false 9) import_a s1).1.deps
        s2.deps
unfolding list_eq
context_round_trip_example =
    context_round_trip (machinery cyclic) false 9 (text "c") none import_a started initial-IsValid
      refl

-- `p.d` uses a function to which a dynamic import is attributed.
abbrev dynamic_user : Tracker
dynamic_user = record started {
  deps = record started.deps { tracked = (text "p.d", 0) ∷ [] };
  dynamic_users = (text "p.d", (text "p.l", text "load") ∷ []) ∷ [];
  dynamic_imports = ((text "p.l", text "load"), text "p.c" ∷ []) ∷ [];
}

with_dynamic_lem_example :
    (r : Set Name) × (with_dynamic (text "p.d") dynamic_user ≡ some r)
    × ((x : Name)
        → (contains r x ≡ true) ↔ (
            (contains (deps_of (text "p.d") dynamic_user.deps) x ≡ true)
            ⊎ ((u : Anchor) × (contains (lookup_or (text "p.d") [] dynamic_user.dynamic_users) u
                  ≡ true)
                × (contains (lookup_or u [] dynamic_user.dynamic_imports) x ≡ true))))
unfolding has list_eq nat_eq
with_dynamic_lem_example = with_dynamic_lem (text "p.d") dynamic_user refl
