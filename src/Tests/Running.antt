-- ===== src/Tests/Running.antt =====
-- Trackers that are started and stopped, and the frame that a warning shows.
use prunepytest.Prelude.{ℕ, ◌≡◌, refl, List, some, [], ◌∷◌, list_eq, nat_eq}
use prunepytest.Text.{Text, text}
use prunepytest.Tracker.Install.{
  Call, start, stop, IsNested, nothing, around, Hooked, find_and_load, handle_fromlist,
  builtins_import, run_calls, nested-machinery,
}
use prunepytest.Tracker.Warnings.{
  warning_skip_level, shown_from, outer, warning_skip_level-outer, starts_with_any,
  is_internal_frame,
}

abbrev plain : Hooked
plain = record {
  machinery = record {
    find_and_load_fn = find_and_load;
    handle_fromlist_fn = handle_fromlist;
    import_fn = builtins_import;
  };
  old = [];
}

-- A tracker within another, and a third one after both.
abbrev calls : List Call
calls = start 1 ∷ start 2 ∷ stop 2 ∷ stop 1 ∷ start 3 ∷ stop 3 ∷ []

calls-IsNested : IsNested [] calls
unfolding nat_eq
calls-IsNested =
    around {t = 1} {inside = start 2 ∷ stop 2 ∷ []} {rest = start 3 ∷ stop 3 ∷ []} refl
      (around {t = 2} {inside = []} {rest = []} refl nothing nothing refl)
      (around {t = 3} {inside = []} {rest = []} refl nothing nothing refl) refl

nested-machinery_example :
    (s' : Hooked) × (run_calls calls plain ≡ some s') × (s'.machinery ≡ plain.machinery)
nested-machinery_example = nested-machinery calls calls-IsNested plain

abbrev pkg_path : List Text
pkg_path = text "/p/prunepytest" ∷ []

-- The callback is called by the tracker, and that by the import library.
abbrev frames : List Text
frames =
    text "/p/prunepytest/tracker.py"
    ∷ text "<frozen importlib._bootstrap>"
    ∷ text "/r/test_a.py"
    ∷ []

abbrev callback : Text
callback = text "/p/prunepytest/pytest/validator.py"

warning_skip_level-outer_example :
    (level : ℕ) × (warning_skip_level pkg_path (callback ∷ frames) ≡ some level)
    × (shown_from level (callback ∷ frames) ≡ text "/r/test_a.py" ∷ [])
unfolding starts_with_any nat_eq is_internal_frame outer
warning_skip_level-outer_example =
    warning_skip_level-outer pkg_path callback frames (text "/r/test_a.py") [] refl
      ((λ h. refl), ((λ h. refl), ((λ h. cc), ((λ h. refl), tt)))) refl
