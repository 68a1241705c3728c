-- ===== src/Tracker/Frames.antt =====
-- tracker.py: the functions on stack frames. A traceback has the newest frame last.
use prunepytest.Prelude.{
  ℕ, zero, suc, ◌+◌, ◌-◌, Bool, true, false, not, ◌||◌, ◌&&◌, Option, none, some, List, [], ◌∷◌,
  reverse, ◌==◌, contains, eqb, ltb, leb, length, get_elem?, is_none, if◌then◌else◌, list_eq,
  nat_eq,
}
use prunepytest.Text.{Text, text, ends_with, has_infix}
use prunepytest.Sets.{Set}
use prunepytest.Dict.{Dict, insert, lookup_or}
use prunepytest.Tracker.Deps.{Name, Exn, index_error}
use prunepytest.Tracker.State.{Anchor, Frame, Tracker, base_ns, last_part}

-- `is_validator_frame`
unfoldable pub is_validator_frame : Frame → Bool
unfolding ends_with
is_validator_frame f =
    f.name == text "import_with_capture" && ends_with f.filename (text "validator.py")

-- 1 + the index of the last frame that fits, or 0: `1 + max(…, default=-1)`
unfoldable pub after_last : (Frame → Bool) → List Frame → ℕ
after_last p [] = 0
after_last p (f ∷ tb) = let r = after_last p tb in if ltb 0 r then suc r else if p f then 1 else 0

-- The mutable locals of the scan of the stack. `stack_off` is `entered - marked`.
pub record Scan : Type 0 where
  pub entered : ℕ
  pub marked : ℕ
  pub fresh_import : Bool
  pub files : Dict Text Name
  pub anchor : Option Anchor
  pub last_candidate : Option Anchor
  pub is_ignored : Bool

-- What the body of the loop does: go on, `break`, or raise.
pub data Round : Type 0 where
  next stop : Scan → Round
  fails : Exn → Scan → Round

-- `stack[entered - marked]`; a negative index counts from the top of the stack.
unfoldable pub stack_entry : List Name → ℕ → ℕ → Option Name
stack_entry stack entered marked =
    if leb marked entered
    then get_elem? (reverse stack) (entered - marked)
    else get_elem? stack (marked - entered - 1)

-- `any(a.rpartition(".")[2] == name for a in anchors)`
unfoldable pub any_last_part : Text → Set Text → Bool
any_last_part name [] = false
any_last_part name (a ∷ anchors) = last_part a == name || any_last_part name anchors

-- Whether a function of a module is an ignore point, or an aggregation point.
unfoldable pub ignores : Tracker → Anchor → Bool
unfolding lookup_or
ignores s (m, fn) = contains (lookup_or m [] s.dynamic_ignores) fn

unfoldable pub aggregates : Tracker → Anchor → Bool
unfolding lookup_or any_last_part
aggregates s (m, fn) =
    let anchors = lookup_or m [] s.dynamic_anchors in
    contains anchors fn || any_last_part fn anchors

-- The end of the loop's body, for a frame of the module `m` in the relevant part of the stack.
unfoldable pub consider : Tracker → Anchor → Scan → Round
unfolding ignores aggregates
consider s (m, fn) sc =
    if ignores s (m, fn)
    then stop (record sc { anchor = some (m, fn); is_ignored = true })
    else if not (is_none sc.anchor)
    then next sc
    else if aggregates s (m, fn)
    then next (record sc { anchor = some (m, fn) })
    else if contains s.prefixes (base_ns m)
    then next (record sc { last_candidate = some (m, fn) })
    else next sc

-- The module of a frame is known: it is considered if it is a name and the frame is relevant.
unfoldable pub consider_from : Tracker → Bool → Name → Text → Scan → Round
unfolding consider
consider_from s is_relevant m fn sc =
    if not is_relevant || m == [] then next sc else consider s (m, fn) sc

-- The paths of tracker.py itself and of the import library.
pub record Paths : Type 0 where
  pub file : Text
  pub importlib_file : Text

module _ (p : Paths) where
  open p use {file, importlib_file}

  abbrev pub ignored_frames : Set Text
  ignored_frames =
      file
      ∷ importlib_file
      ∷ text "<frozen importlib._bootstrap>"
      ∷ text "<frozen importlib._bootstrap_external>"
      ∷ []

  -- `omit_tracker_frames`
  unfoldable pub omit_tracker_frames : List Frame → List Frame
  omit_tracker_frames [] = []
  omit_tracker_frames (f ∷ tb) =
      let r = omit_tracker_frames tb in if contains ignored_frames f.filename then r else f ∷ r

  -- What `print_clean_traceback` prints; `none` is an IndexError.
  abbrev pub last_frame : List Frame → Option Frame
  last_frame [] = none
  last_frame (f ∷ []) = some f
  last_frame (f ∷ g ∷ tb) = last_frame (g ∷ tb)

  unfoldable pub clean_traceback : List Frame → Option (List Frame)
  unfolding omit_tracker_frames
  clean_traceback tb = elim (last_frame tb) [
    | none ↦ none
    | some f ↦ some (if f.filename == file then tb else omit_tracker_frames tb)
  ]

  -- `relevant_frame_index`, over the file names of the frames from the outermost one
  unfoldable pub relevant_frame_index : List Text → ℕ
  relevant_frame_index [] = 0
  relevant_frame_index (f ∷ []) = 0
  relevant_frame_index (f ∷ g ∷ tb) =
      let r = relevant_frame_index (g ∷ tb) in if contains ignored_frames g then 0 else suc r

  -- The walk from the newest frame, `i` frames from the end, to a dynamic import; `none` is -1.
  unfoldable pub find_dynamic : List Frame → ℕ → ℕ → ℕ → Option ℕ
  unfolding has_infix
  find_dynamic tb prev_stack zero i = none
  find_dynamic tb prev_stack (suc fuel) i =
      let n = length tb in
      let one_more = find_dynamic tb prev_stack fuel (i + 1) in
      let two_more = find_dynamic tb prev_stack fuel (i + 2) in
      let hooked : Bool = elim (get_elem? tb (n - i - 1)) [
        | none ↦ false
        | some f ↦ ltb 0 (n - i - 1) && f.filename == file
      ] in
      let at_frame = λ (f : Frame).
        if contains (text "import_module" ∷ text "load_module" ∷ []) f.name
        then some (n - i)
        else if f.name == text "__import__"
        then (if hooked then two_more else some (n - i))
        else if has_infix f.line (text "__import__(")
        then some (n - i + 1)
        else one_more in
      if leb n i || eqb prev_stack (n - i)
      then none
      else elim (get_elem? tb (n - i)) [ none ↦ none | some f ↦ at_frame f ]

  -- The body of the loop over `enumerate(tb[:found])`.
  unfoldable pub scan_frame : Tracker → Bool → Frame → Scan → Round
  unfolding stack_entry consider_from insert lookup_or
  scan_frame s is_relevant f sc =
      if f.filename == file
      then if f.name == text "_find_and_load_helper"
        then next (record sc { entered = suc sc.entered; fresh_import = true })
        else if f.name == text "_cycle_marker"
        then next (record sc { marked = suc sc.marked })
        else next sc
      else if sc.fresh_import && not (f.name == text "<module>")
      then next sc
      else let m = lookup_or f.filename [] sc.files in
        if m == [] && sc.fresh_import
        then elim (stack_entry s.stack sc.entered sc.marked) [
          | none ↦ fails index_error sc
          | some n ↦
              consider_from s is_relevant n f.name
                (record sc { files = insert f.filename n sc.files; fresh_import = false })
        ]
        else consider_from s is_relevant m f.name (record sc { fresh_import = false })

  unfoldable pub scan_frames : Tracker → ℕ → ℕ → List Frame → Scan → Round
  unfolding scan_frame
  scan_frames s start i [] sc = stop sc
  scan_frames s start i (f ∷ tb) sc = elim (scan_frame s (leb start i) f sc) [
    | next sc' ↦ scan_frames s start (suc i) tb sc'
    | stop sc' ↦ stop sc'
    | fails e sc' ↦ fails e sc'
  ]
