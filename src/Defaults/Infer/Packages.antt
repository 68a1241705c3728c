-- ===== src/Defaults/Infer/Packages.antt =====
-- defaults.py: the loop of `infer_py_pkg` ends for a relative path.
use prunepytest.Prelude.{
  ◌⊎◌, Bool, ℕ, zero, suc, ◌≡◌, ◌≤◌, ◌<◌, refl, ap, true, false, not, ◌&&◌, some, List, Every, [],
  ◌∷◌, ◌++◌, length, length-append, is_empty, arith, inl, inr, Bool-cases, ◌==◌, eq_refl, list_eq,
  nat_eq,
}
use prunepytest.Text.{Text, text, slash, starts_with, rpartition}
use prunepytest.FilePath.{is_abs, all_slashes, strip_end, dirname, join_paths}
use prunepytest.Loader.{World, exists}
use prunepytest.Defaults.Infer.{find_parent, dotted_below, name_below, infer_py_pkg}

rpartition-cases :
    (c : ℕ) (s : Text)
    → (rpartition c s ≡ ([], [], s))
      ⊎ ((b a : Text) × (rpartition c s ≡ (b, c ∷ [], a)) × (s ≡ b ++ c ∷ a))
unfolding rpartition
rpartition-cases c [] = inl refl
rpartition-cases c (x ∷ s) = elim (rpartition-cases c s) [
  | inl e ↦ elim (Bool-cases (x == c)) [
    | inl h ↦ inr ([], s, ground arith, ground arith)
    | inr h ↦ inl (ground arith)
  ]
  | inr (b, a, e, q) ↦ inr (x ∷ b, a, ground arith, ap (λ t. x ∷ t) q)
]

length-strip_end : (s : Text) → length (strip_end s) ≤ length s
unfolding strip_end
length-strip_end [] = omega arith
length-strip_end (x ∷ s) = ground (arith, length-strip_end s)

length-strip_end-slash : (b : Text) → length (strip_end (b ++ slash ∷ [])) ≤ length b
unfolding strip_end
length-strip_end-slash [] = ground (arith, eq_refl slash)
length-strip_end-slash (x ∷ b) = ground (arith, length-strip_end-slash b)

is_abs-strip_end : (s : Text) → is_abs (strip_end s) ≡ true → is_abs s ≡ true
unfolding strip_end starts_with
is_abs-strip_end [] h = h
is_abs-strip_end (x ∷ s) h = ground arith

is_abs-append : (b a : Text) → is_abs (b ++ slash ∷ []) ≡ true → is_abs (b ++ slash ∷ a) ≡ true
unfolding starts_with
is_abs-append [] a h = h
is_abs-append (x ∷ b) a h = h

all_slashes-is_abs :
    (b : Text) → all_slashes (b ++ slash ∷ []) ≡ true → is_abs (b ++ slash ∷ []) ≡ true
unfolding starts_with
all_slashes-is_abs [] h = h
all_slashes-is_abs (x ∷ b) h = ground arith

nonempty : (p : Text) → is_empty p ≡ false → 0 < length p
nonempty [] h = absurd (cc)
nonempty (x ∷ p) h = omega arith

shorter : (b a p : Text) → p ≡ b ++ slash ∷ a → length (strip_end (b ++ slash ∷ [])) < length p
shorter b a p q =
    omega (arith, length-strip_end-slash b, length-append b (slash ∷ a), ap (λ t. length t) q)

-- The folder of a relative path is relative, and shorter.
pub dirname_lem :
    (p : Text)
    → is_abs p ≡ false
    → (is_abs (dirname p) ≡ false)
      × (length (dirname p) ≤ length p)
      × (is_empty p ≡ false → length (dirname p) < length p)
unfolding dirname
dirname_lem p h = elim (rpartition-cases slash p) [
  | inl e ↦ rw e (unfold starts_with in refl, omega arith, λ f. nonempty p f)
  | inr (b, a, e, q) ↦
      let out : all_slashes (b ++ slash ∷ []) ≡ false =
        ground (arith, all_slashes-is_abs b, is_abs-append b a, ap (λ t. is_abs t) q) in
      rw (e, out)
        (
          ground
              (arith, is_abs-strip_end (b ++ slash ∷ []), is_abs-append b a, ap (λ t. is_abs t) q),
          omega (arith, shorter b a p q),
          λ f. omega (arith, shorter b a p q),
        )
]

-- A folder with a name that is a package; an empty path is the current folder.
abbrev pub is_package : World → Text → Bool
is_package w p = not (is_empty p) && exists w (join_paths p (text "__init__.py"))

-- The folder `n` levels up, and the `n` folders below that
unfoldable pub above : ℕ → Text → Text
unfolding dirname
above zero p = p
above (suc n) p = above n (dirname p)

unfoldable pub passed : ℕ → Text → List Text
unfolding dirname
passed zero p = []
passed (suc n) p = p ∷ passed n (dirname p)

find_parent-above :
    (fuel : ℕ) (w : World) (p : Text)
    → is_abs p ≡ false
    → length p < fuel
    → (n : ℕ) × (find_parent fuel w p ≡ some (above n p))
      × (is_package w (above n p) ≡ false)
      × Every (λ q. is_package w q ≡ true) (passed n p)
unfolding find_parent above passed
find_parent-above zero w p h l = absurd (omega arith)
find_parent-above (suc fuel) w p h l = elim (Bool-cases (is_package w p)) [
  | inl b ↦
      let (rel, le, lt) = dirname_lem p h in
      let (n, e, top, all) =
        find_parent-above fuel w (dirname p) rel (omega (arith, lt (ground arith), l)) in
      (suc n, rw b e, top, (b, all))
  | inr b ↦ (0, rw b refl, b, tt)
]

pub infer_py_pkg-above :
    (w : World) (filepath : Text)
    → is_abs filepath ≡ false
    → (n : ℕ) × (infer_py_pkg w filepath
        ≡ some (dotted_below filepath (above n (dirname filepath))))
      × (is_package w (above n (dirname filepath)) ≡ false)
      × Every (λ q. is_package w q ≡ true) (passed n (dirname filepath))
unfolding infer_py_pkg
infer_py_pkg-above w filepath h =
    let (rel, le, lt) = dirname_lem filepath h in
    let (n, e, top, all) =
      find_parent-above (suc (length filepath)) w (dirname filepath) rel (omega (arith, le)) in
    (n, ap (name_below filepath) e, top, all)
