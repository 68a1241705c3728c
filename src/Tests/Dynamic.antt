-- ===== src/Tests/Dynamic.antt =====
-- A function of a tracked module that calls `importlib.import_module`.
use prunepytest.Prelude.{
  ◌≡◌, ◌≤◌, ◌<◌, refl, true, false, List, [], ◌∷◌, length, list_eq, nat_eq, arith,
}
use prunepytest.Text.{text, partition}
use prunepytest.Tracker.State.{Frame, Tracker, new_tracker}
use prunepytest.Tracker.Frames.{Paths, find_dynamic}
use prunepytest.Tracker.Dynamic.{record_dynamic_imports}
use prunepytest.Tracker.Dynamic.Bounds.{find_dynamic-bounds, Ends, find_dynamic_lem}
use prunepytest.Tracker.Dynamic.Laws.{may_anchor, record_dynamic_imports-may_anchor}

abbrev paths : Paths
paths = record { file = text "tracker.py"; importlib_file = text "importlib.py" }

abbrev calls : List Frame
calls =
    record { filename = text "m.py"; name = text "load"; line = []; lineno = 1 }
    ∷ record { filename = text "importlib.py"; name = text "import_module"; line = []; lineno = 1 }
    ∷ record {
      filename = text "tracker.py";
      name = text "_new_find_and_load";
      line = [];
      lineno = 1;
    }
    ∷ []

abbrev tracking : Tracker
tracking = record new_tracker {
  prefixes = text "p" ∷ [];
  file_to_module = (text "m.py", text "p.m") ∷ [];
}

find_dynamic-bounds_example : (1 ≤ 1) × (1 < length calls)
unfolding find_dynamic list_eq nat_eq
find_dynamic-bounds_example = find_dynamic-bounds paths calls 0 3 2 1 (omega arith) refl

record_dynamic_imports-may_anchor_example :
    may_anchor tracking (text "p.m", text "load") false ≡ true
unfolding record_dynamic_imports list_eq nat_eq partition
record_dynamic_imports-may_anchor_example =
    record_dynamic_imports-may_anchor tracking paths calls 0 (text "p.m", text "load") false refl

find_dynamic_lem_example : Ends paths calls 0 2 (find_dynamic paths calls 0 (length calls) 2)
find_dynamic_lem_example = find_dynamic_lem paths calls 0
