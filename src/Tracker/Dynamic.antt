-- ===== src/Tracker/Dynamic.antt =====
-- tracker.py: `record_dynamic_imports`, which tells from the call stack whether an import is
-- dynamic, and to which function it is attributed.
pub mod Bounds
pub mod Laws
use prunepytest.Prelude.{
  ℕ, ◌+◌, ◌-◌, Bool, false, not, ◌&&◌, Option, none, some, List, [], ◌∷◌, ◌++◌, ltb, length,
  get_elem?, take, drop, is_none, if◌then◌else◌, list_eq, nat_eq,
}
use prunepytest.Tracker.Deps.{Exn, assertion_error}
use prunepytest.Tracker.State.{Anchor, Frame, Tracker}
use prunepytest.Tracker.Frames.{
  Paths, is_validator_frame, after_last, Scan, next, stop, fails, omit_tracker_frames, find_dynamic,
  scan_frames,
}

-- `(-1, None, False)`; the three results for a dynamic import; or an exception.
pub data Recorded : Type 0 where
  not_dynamic : Recorded
  import_at : ℕ → Option Anchor → Bool → Recorded
  failed : Exn → Recorded

-- The end of the method: the anchor is chosen, and an import without one is kept for the report.
unfoldable pub conclude : ℕ → ℕ → List Frame → Scan → Tracker → Tracker × Recorded
conclude prev_stack height dyn_stack sc s =
    let anchor =
      if is_none sc.anchor && s.implicit_anchor_aggregation then sc.last_candidate else sc.anchor in
    (
      record s {
        file_to_module = sc.files;
        dynamic_stack = height;
        dynamic = if is_none anchor then s.dynamic ++ dyn_stack ∷ [] else s.dynamic;
      },
      import_at prev_stack anchor sc.is_ignored,
    )

abbrev pub start_scan : Tracker → Scan
start_scan s = record {
  entered = 0;
  marked = 0;
  fresh_import = false;
  files = s.file_to_module;
  anchor = none;
  last_candidate = none;
  is_ignored = false;
}

-- `start`: the frame after the last one of the validator, from the previous dynamic import on
unfoldable pub scan_start : ℕ → ℕ → List Frame → ℕ
unfolding after_last is_validator_frame
scan_start prev_stack found tb =
    prev_stack + after_last is_validator_frame (take (found - prev_stack) (drop prev_stack tb))

-- Whether the frame before index `found` is the validator's.
unfoldable pub from_validator : List Frame → ℕ → Bool
unfolding is_validator_frame
from_validator tb found = elim (get_elem? tb (found - 1)) [
  | none ↦ false
  | some f ↦ is_validator_frame f
]

module _ (p : Paths) where
  -- What follows once a dynamic import is found.
  unfoldable pub attribute : List Frame → ℕ → Tracker → Tracker × Recorded
  unfolding scan_start omit_tracker_frames scan_frames conclude
  attribute tb found s =
      let prev_stack = s.dynamic_stack in
      let start = scan_start prev_stack found tb in
      let dyn_stack = omit_tracker_frames p (take (found - start) (drop start tb)) in
      elim (scan_frames p s start 0 (take found tb) (start_scan s)) [
        | next sc ↦ conclude prev_stack (length tb) dyn_stack sc s
        | stop sc ↦ conclude prev_stack (length tb) dyn_stack sc s
        | fails e sc ↦ (record s { file_to_module = sc.files }, failed e)
      ]

  unfoldable pub record_dynamic_imports : List Frame → Tracker → Tracker × Recorded
  unfolding find_dynamic from_validator attribute
  record_dynamic_imports tb s =
      if not (ltb s.dynamic_stack (length tb))
      then (s, failed assertion_error)
      else elim (find_dynamic p tb s.dynamic_stack (length tb) 2) [
        | none ↦ (s, not_dynamic)
        | some found ↦ if from_validator tb found then (s, not_dynamic) else attribute tb found s
      ]
