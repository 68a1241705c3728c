-- ===== src/Tracker/Dynamic/Laws.antt =====
-- tracker.py: what `record_dynamic_imports` attributes a dynamic import to.
use prunepytest.Prelude.{
  ℕ, suc, ◌≡◌, refl, ◌∙◌, sym, ap, subst, Bool, true, false, not, ◌||◌, ◌&&◌, Option, none, some,
  List, [], ◌∷◌, ◌==◌, contains, ltb, leb, length, take, is_none, if◌then◌else◌, list_eq, nat_eq,
  arith,
}
use mathlib.Core.Option.{some-injective}
use prunepytest.Text.{Text, text}
use prunepytest.Dict.{insert, lookup_or}
use prunepytest.Tracker.Deps.{Name, index_error, assertion_error}
use prunepytest.Tracker.State.{Anchor, Frame, Tracker, base_ns}
use prunepytest.Tracker.Frames.{
  Paths, Scan, Round, next, stop, fails, ignores, aggregates, consider, consider_from, find_dynamic,
  scan_frame, scan_frames, stack_entry,
}
use prunepytest.Tracker.Dynamic.{
  Recorded, not_dynamic, import_at, failed, conclude, start_scan, from_validator, attribute,
  record_dynamic_imports, scan_start,
}

module _ (s : Tracker) where
  record Sound (sc : Scan) : Type 0 where
    ignored : (a : Anchor) → sc.anchor ≡ some a → sc.is_ignored ≡ true → ignores s a ≡ true
    aggregated : (a : Anchor) → sc.anchor ≡ some a → sc.is_ignored ≡ false → aggregates s a ≡ true
    candidate : (a : Anchor) → sc.last_candidate ≡ some a → contains s.prefixes (base_ns a.0) ≡ true
    anchored : sc.is_ignored ≡ true → is_none sc.anchor ≡ false

  SoundRound : Round → Type 0
  SoundRound (next sc) = Sound sc × (sc.is_ignored ≡ false)
  SoundRound (stop sc) = Sound sc
  SoundRound (fails e sc) = Unit

  SoundRound-if :
      (b : Bool) (x y : Round)
      → (b ≡ true → SoundRound x)
      → (b ≡ false → SoundRound y)
      → SoundRound (if b then x else y)
  SoundRound-if true x y f g = f refl
  SoundRound-if false x y f g = g refl

  consider-Sound :
      (a : Anchor) (sc : Scan) → Sound sc → sc.is_ignored ≡ false → SoundRound (consider s a sc)
  unfolding consider SoundRound
  consider-Sound (m, fn) sc v f =
      SoundRound-if (ignores s (m, fn)) _ _
        (λ e. record {
          ignored = λ a h k. subst (λ x. ignores s x ≡ true) (some-injective (m, fn) a h) e;
          aggregated = λ a h k. absurd (ground arith);
          candidate = v.candidate;
          anchored = λ h. refl;
        })
        (λ e.
          SoundRound-if (not (is_none sc.anchor)) _ _ (λ h. (v, f))
            (λ h.
              SoundRound-if (aggregates s (m, fn)) _ _
                (λ k. (
                  record {
                    ignored = λ a h' k'. absurd (ground arith);
                    aggregated = λ a h' k'.
                        subst (λ x. aggregates s x ≡ true) (some-injective (m, fn) a h') k;
                    candidate = v.candidate;
                    anchored = λ h'. refl;
                  },
                  f,
                ))
                (λ k.
                  SoundRound-if (contains s.prefixes (base_ns m)) _ _
                    (λ c. (
                      record {
                        ignored = v.ignored;
                        aggregated = v.aggregated;
                        candidate = λ a h'.
                            subst (λ (x : Anchor). contains s.prefixes (base_ns x.0) ≡ true)
                              (some-injective (m, fn) a h') c;
                        anchored = v.anchored;
                      },
                      f,
                    ))
                    (λ c. (v, f)))))

  consider_from-Sound :
      (r : Bool) (m : Name) (fn : Text) (sc : Scan)
      → Sound sc
      → sc.is_ignored ≡ false
      → SoundRound (consider_from s r m fn sc)
  unfolding consider_from SoundRound
  consider_from-Sound r m fn sc v f =
      SoundRound-if (not r || m == []) _ _ (λ h. (v, f)) (λ h. consider-Sound (m, fn) sc v f)

  -- A change of what else the scan has keeps it sound.
  Sound-along :
      (sc t : Scan)
      → sc.anchor ≡ t.anchor
      → sc.last_candidate ≡ t.last_candidate
      → sc.is_ignored ≡ t.is_ignored
      → Sound sc
      → Sound t
  Sound-along sc t a l i v = record {
    ignored = λ x h k. v.ignored x (a ∙ h) (i ∙ k);
    aggregated = λ x h k. v.aggregated x (a ∙ h) (i ∙ k);
    candidate = λ x h. v.candidate x (l ∙ h);
    anchored = λ h. ap is_none (sym a) ∙ v.anchored (i ∙ h);
  }

  module _ (p : Paths) where
    resolved-Sound :
        (r : Bool) (f : Frame) (sc : Scan) (o : Option Name)
        → Sound sc
        → sc.is_ignored ≡ false
        → SoundRound (elim o [
          | none ↦ fails index_error sc
          | some n ↦
              consider_from s r n f.name
                (record sc { files = insert f.filename n sc.files; fresh_import = false })
        ])
    unfolding SoundRound
    resolved-Sound r f sc none v h = tt
    resolved-Sound r f sc (some n) v h =
        consider_from-Sound r n f.name
          (record sc { files = insert f.filename n sc.files; fresh_import = false })
          (Sound-along sc _ refl refl refl v) h

    scan_frame-Sound :
        (r : Bool) (f : Frame) (sc : Scan)
        → Sound sc
        → sc.is_ignored ≡ false
        → SoundRound (scan_frame p s r f sc)
    unfolding scan_frame SoundRound
    scan_frame-Sound r f sc v h =
        SoundRound-if (f.filename == p.file) _ _
          (λ e.
            SoundRound-if (f.name == text "_find_and_load_helper") _ _
              (λ k. (Sound-along sc _ refl refl refl v, h))
              (λ k.
                SoundRound-if (f.name == text "_cycle_marker") _ _
                  (λ k'. (Sound-along sc _ refl refl refl v, h)) (λ k'. (v, h))))
          (λ e.
            SoundRound-if (sc.fresh_import && not (f.name == text "<module>")) _ _ (λ k. (v, h))
              (λ k.
                SoundRound-if (lookup_or f.filename [] sc.files == [] && sc.fresh_import) _ _
                  (λ k'. resolved-Sound r f sc (stack_entry s.stack sc.entered sc.marked) v h)
                  (λ k'.
                    consider_from-Sound r (lookup_or f.filename [] sc.files) f.name
                      (record sc { fresh_import = false }) (Sound-along sc _ refl refl refl v) h)))

  -- What the whole scan leaves.
  SoundEnd : Round → Type 0
  SoundEnd (next sc) = Sound sc
  SoundEnd (stop sc) = Sound sc
  SoundEnd (fails e sc) = Unit

  module _ (p : Paths) where
    scan_on :
        (r : Round) (start i : ℕ) (tb : List Frame)
        → ((sc : Scan)
            → Sound sc
            → sc.is_ignored ≡ false
            → SoundEnd (scan_frames p s start (suc i) tb sc))
        → SoundRound r
        → SoundEnd (elim r [
          | next sc ↦ scan_frames p s start (suc i) tb sc
          | stop sc ↦ stop sc
          | fails e sc ↦ fails e sc
        ])
    unfolding SoundRound SoundEnd
    scan_on (next sc) start i tb ih (v, f) = ih sc v f
    scan_on (stop sc) start i tb ih v = v
    scan_on (fails e sc) start i tb ih v = tt

    scan_frames-Sound :
        (start i : ℕ) (tb : List Frame) (sc : Scan)
        → Sound sc
        → sc.is_ignored ≡ false
        → SoundEnd (scan_frames p s start i tb sc)
    unfolding scan_frames SoundEnd
    scan_frames-Sound start i [] sc v f = v
    scan_frames-Sound start i (f ∷ tb) sc v h =
        scan_on (scan_frame p s (leb start i) f sc) start i tb (scan_frames-Sound start (suc i) tb)
          (scan_frame-Sound p (leb start i) f sc v h)

  start-Sound : Sound (start_scan s)
  start-Sound = record {
    ignored = λ a h k. absurd (ground arith);
    aggregated = λ a h k. absurd (ground arith);
    candidate = λ a h. absurd (ground arith);
    anchored = λ h. absurd (ground arith);
  }

  -- Whether a function may have a dynamic import attributed to it.
  unfoldable pub may_anchor : Anchor → Bool → Bool
  may_anchor a is_ignored =
      if is_ignored
      then ignores s a
      else aggregates s a || (s.implicit_anchor_aggregation && contains s.prefixes (base_ns a.0))

  Justified : Recorded → Type 0
  Justified not_dynamic = Unit
  Justified (import_at prev none i) = Unit
  Justified (import_at prev (some a) i) = may_anchor a i ≡ true
  Justified (failed e) = Unit

  Justified-of :
      (prev : ℕ) (o : Option Anchor) (i : Bool)
      → ((a : Anchor) → o ≡ some a → may_anchor a i ≡ true)
      → Justified (import_at prev o i)
  unfolding Justified
  Justified-of prev none i h = tt
  Justified-of prev (some a) i h = h a refl

  conclude-Justified :
      (prev height : ℕ) (dyn : List Frame) (sc : Scan)
      → Sound sc
      → Justified (conclude prev height dyn sc s).1
  unfolding conclude may_anchor
  conclude-Justified prev height dyn sc v =
      Justified-of prev _ sc.is_ignored
        (λ a h. ground (arith, v.ignored a, v.aggregated a, v.candidate a, v.anchored))

  ended :
      (prev height : ℕ) (dyn : List Frame) (r : Round)
      → SoundEnd r
      → Justified
          (elim r as (λ r. Tracker × Recorded) [
            | next sc ↦ conclude prev height dyn sc s
            | stop sc ↦ conclude prev height dyn sc s
            | fails e sc ↦ (record s { file_to_module = sc.files }, failed e)
          ]).1
  unfolding SoundEnd Justified
  ended prev height dyn (next sc) v = conclude-Justified prev height dyn sc v
  ended prev height dyn (stop sc) v = conclude-Justified prev height dyn sc v
  ended prev height dyn (fails e sc) v = tt

  module _ (p : Paths) where
    attribute-Justified : (tb : List Frame) (found : ℕ) → Justified (attribute p tb found s).1
    unfolding attribute
    attribute-Justified tb found = ended s.dynamic_stack (length tb) _ _ (
        scan_frames-Sound p (scan_start s.dynamic_stack found tb) 0 (take found tb) (start_scan s)
          start-Sound refl)

    if_attributed :
        (b : Bool) (x y : Tracker × Recorded)
        → Justified x.1
        → Justified y.1
        → Justified (if b then x else y).1
    if_attributed true x y g h = g
    if_attributed false x y g h = h

    found_Justified :
        (tb : List Frame) (o : Option ℕ)
        → Justified
            (elim o as (λ o. Tracker × Recorded) [
              | none ↦ (s, not_dynamic)
              | some found ↦
                  if from_validator tb found then (s, not_dynamic) else attribute p tb found s
            ]).1
    unfolding Justified
    found_Justified tb none = tt
    found_Justified tb (some found) =
        if_attributed (from_validator tb found) (s, not_dynamic) (attribute p tb found s) tt
          (attribute-Justified tb found)

    record_Justified : (tb : List Frame) → Justified (record_dynamic_imports p tb s).1
    unfolding record_dynamic_imports Justified
    record_Justified tb =
        if_attributed (not (ltb s.dynamic_stack (length tb))) (s, failed assertion_error) _ tt
          (found_Justified tb (find_dynamic p tb s.dynamic_stack (length tb) 2))

    -- Where `record_dynamic_imports` attributes a dynamic import to a function, then, if it says
    -- that the import is ignored, the function is an ignore point; else it is an aggregation point,
    -- or aggregation is implicit and the module of the function is in a tracked namespace.
    pub record_dynamic_imports-may_anchor :
        (tb : List Frame) (prev : ℕ) (a : Anchor) (is_ignored : Bool)
        → (record_dynamic_imports p tb s).1 ≡ import_at prev (some a) is_ignored
        → may_anchor a is_ignored ≡ true
    unfolding Justified
    record_dynamic_imports-may_anchor tb prev a is_ignored h =
        subst Justified h (record_Justified tb)
