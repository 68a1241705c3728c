-- ===== src/RunTest/Traceback.antt =====
-- pytest/validator.py: `pytest_runtest_makereport`, the traceback of a failed test.
use prunepytest.Prelude.{
  suc, ◌+◌, ◌<◌, ◌≡◌, refl, Bool, Option, none, some, List, [], ◌∷◌, arith, Bool-cases, inl, inr,
  contains, length, ltb, take, if◌then◌else◌, list_eq, nat_eq,
}
use prunepytest.Text.{Text}
use prunepytest.Tracker.Frames.{Paths, ignored_frames, relevant_frame_index}

-- `call.excinfo`: whether it is an `UnexpectedImportException`, and the files of the frames of its
-- traceback, from the outermost one.
pub record ExcInfo : Type 0 where
  pub is_unexpected_import : Bool
  pub traceback : List Text

module _ (p : Paths) where
  -- The traceback of the report; `none` is an IndexError at `tb[0]`.
  unfoldable pub shrink : List Text → Option (List Text)
  unfolding relevant_frame_index
  shrink [] = none
  shrink (f ∷ tb) =
      let i = relevant_frame_index p (f ∷ tb) in
      some (if ltb i (length (f ∷ tb)) then take (i + 1) (f ∷ tb) else f ∷ tb)

  abbrev pub with_traceback : ExcInfo → Option (List Text) → Option (Option ExcInfo)
  with_traceback e none = none
  with_traceback e (some tb) = some (some (record e { traceback = tb }))

  -- What the report is made from; `none` is an exception.
  unfoldable pub make_report : Option ExcInfo → Option (Option ExcInfo)
  unfolding shrink
  make_report none = some none
  make_report (some e) =
      if e.is_unexpected_import then with_traceback e (shrink e.traceback) else some (some e)

  -- The frames before the first one of the tracker or of the import library.
  pub outside : List Text → List Text
  outside [] = []
  outside (f ∷ tb) = let rest = outside tb in if contains (ignored_frames p) f then [] else f ∷ rest

  cut_at :
      (f : Text) (tb : List Text)
      → take (suc (relevant_frame_index p (f ∷ tb))) (f ∷ tb) ≡ f ∷ outside tb
  unfolding relevant_frame_index outside
  cut_at f [] = refl
  cut_at f (g ∷ tb) = elim (Bool-cases (contains (ignored_frames p) g)) [
    | inl e ↦ ground (arith, e)
    | inr e ↦ ground (arith, e, cut_at g tb)
  ]

  relevant_lt : (f : Text) (tb : List Text) → relevant_frame_index p (f ∷ tb) < length (f ∷ tb)
  unfolding relevant_frame_index
  relevant_lt f [] = omega arith
  relevant_lt f (g ∷ tb) = elim (Bool-cases (contains (ignored_frames p) g)) [
    | inl e ↦ ground (arith, e)
    | inr e ↦ ground (arith, e, relevant_lt g tb)
  ]

  -- The traceback of an unexpected import is cut to its first frame and those that follow it up to
  -- the tracker or the import library; every other report keeps its traceback.
  pub make_report-outside :
      (e : ExcInfo) (f : Text) (tb : List Text)
      → e.traceback ≡ f ∷ tb
      → make_report (some e)
        ≡ some (
            some
              (record e { traceback = if e.is_unexpected_import then f ∷ outside tb else f ∷ tb }))
  unfolding make_report shrink
  make_report-outside e f tb h = elim (Bool-cases e.is_unexpected_import) [
    | inl u ↦ ground (arith, u, h, cut_at f tb, relevant_lt f tb)
    | inr u ↦ ground (arith, u, h)
  ]
