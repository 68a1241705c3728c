-- ===== src/Tracker/Warnings.antt =====
-- tracker.py: `warning_skip_level`, and the frame that `warnings.warn` shows at a stack level.
use prunepytest.Prelude.{
  ℕ, zero, suc, ◌+◌, ◌-◌, ◌≡◌, ◌∙◌, ap, Bool, true, false, not, ◌&&◌, ◌||◌, Option, none, some,
  List, [], ◌∷◌, arith, Bool-cases, inl, inr, Every, if◌then◌else◌, list_eq, nat_eq,
}
use prunepytest.Text.{Text, text, starts_with, has_infix}

-- `s.startswith(prefixes)`
unfoldable pub starts_with_any : List Text → Text → Bool
unfolding starts_with
starts_with_any [] s = false
starts_with_any (p ∷ ps) s = starts_with s p || starts_with_any ps s

-- `warnings._is_internal_frame`, for the file of the frame
unfoldable pub is_internal_frame : Text → Bool
unfolding has_infix
is_internal_frame f = has_infix f (text "importlib") && has_infix f (text "_bootstrap")

-- `_next_external_frame`, from the frames that are left
unfoldable pub next_external : List Text → List Text
next_external [] = []
next_external (f ∷ fs) = let rest = next_external fs in if is_internal_frame f then rest else f ∷ fs

abbrev rest_of : List Text → List Text
rest_of [] = []
rest_of (f ∷ fs) = fs

-- `n` steps of it.
unfoldable pub externals : ℕ → List Text → List Text
unfolding next_external
externals zero fs = fs
externals (suc n) fs = externals n (next_external (rest_of fs))

-- The frames from the one that `warn` shows at a level, for a caller that is not internal.
unfoldable pub shown_from : ℕ → List Text → List Text
unfolding externals
shown_from level fs = externals (level - 1) fs

module _ (pkg_path : List Text) where
  abbrev pub is_own : Text → Bool
  is_own f = starts_with_any pkg_path f

  -- The loop of `warning_skip_level` over the files of the frames, from the caller outwards; `none`
  -- is the ValueError at the end of the stack.
  unfoldable pub skip_from : ℕ → List Text → Option ℕ
  unfolding starts_with_any is_internal_frame
  skip_from skip [] = none
  skip_from skip (f ∷ fs) =
      let own = skip_from (skip + 1) fs in
      let internal = skip_from skip fs in
      if is_own f then own else if not (is_internal_frame f) then some skip else internal

  unfoldable pub warning_skip_level : List Text → Option ℕ
  unfolding skip_from
  warning_skip_level fs = skip_from 1 fs

  -- The first frame that is neither the package's own nor internal, with those behind it.
  unfoldable pub outer : List Text → List Text
  outer [] = []
  outer (f ∷ fs) = let rest = outer fs in if is_own f || is_internal_frame f then rest else f ∷ fs

  -- No frame of the package counts as internal.
  abbrev pub IsPlain : Text → Type 0
  IsPlain f = is_own f ≡ true → is_internal_frame f ≡ false

  -- From the frames behind one, in `n` steps, after `skip` grew by `n`.
  skip_from-outer :
      (fs : List Text) (skip level : ℕ)
      → Every IsPlain fs
      → skip_from skip fs ≡ some level
      → (n : ℕ) × (level ≡ skip + n) × ((f : Text) → externals (suc n) (f ∷ fs) ≡ outer fs)
  unfolding skip_from externals next_external outer
  skip_from-outer [] skip level h e = absurd (cc)
  skip_from-outer (f ∷ fs) skip level (p, h) e = elim (Bool-cases (is_own f)) [
    | inl o ↦
        let (n, q, r) = skip_from-outer fs (skip + 1) level h (ground (arith, o, e)) in
        let i = p o in (suc n, omega (arith, q), λ g. ground (arith, o, i, r f))
    | inr o ↦ elim (Bool-cases (is_internal_frame f)) [
      | inl i ↦
          let (n, q, r) = skip_from-outer fs skip level h (ground (arith, o, i, e)) in
          (n, q, λ g. ground (arith, o, i, r g))
      | inr i ↦ (0, ground (arith, o, i, e), λ g. ground (arith, o, i))
    ]
  ]

  skip_from-found :
      (fs : List Text) (skip : ℕ) (f : Text) (rest : List Text)
      → outer fs ≡ f ∷ rest
      → (level : ℕ) × (skip_from skip fs ≡ some level)
  unfolding skip_from outer
  skip_from-found [] skip f rest e = absurd (cc)
  skip_from-found (g ∷ fs) skip f rest e = elim (Bool-cases (is_own g)) [
    | inl o ↦
        let (level, q) = skip_from-found fs (skip + 1) f rest (ground (arith, o, e)) in
        (level, ground (arith, o, q))
    | inr o ↦ elim (Bool-cases (is_internal_frame g)) [
      | inl i ↦
          let (level, q) = skip_from-found fs skip f rest (ground (arith, o, i, e)) in
          (level, ground (arith, o, i, q))
      | inr i ↦ (skip, ground (arith, o, i))
    ]
  ]

  -- If some frame of the stack is neither of the package, which calls, nor internal, then
  -- warning_skip_level gives a level, and `warn` shows the first such frame at it.
  pub warning_skip_level-outer :
      (caller : Text) (fs : List Text) (f : Text) (rest : List Text)
      → is_own caller ≡ true
      → Every IsPlain (caller ∷ fs)
      → outer (caller ∷ fs) ≡ f ∷ rest
      → (level : ℕ) × (warning_skip_level (caller ∷ fs) ≡ some level)
        × (shown_from level (caller ∷ fs) ≡ f ∷ rest)
  unfolding warning_skip_level skip_from shown_from outer
  warning_skip_level-outer caller fs f rest o (p, h) e =
      let behind : outer fs ≡ f ∷ rest = ground (arith, o, e) in
      let (level, found) = skip_from-found fs 2 f rest behind in
      let (n, q, r) = skip_from-outer fs 2 level h found in
      let steps : level - 1 ≡ suc n = omega (arith, q) in
      (
        level,
        ground (arith, o, found),
        ap (λ k. externals k (caller ∷ fs)) steps ∙ r caller ∙ behind,
      )
