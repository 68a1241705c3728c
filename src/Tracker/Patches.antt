-- ===== src/Tracker/Patches.antt =====
-- tracker.py: `apply_patches`. An object is a number; `Attributes` holds what `getattr` gives.
use prunepytest.Prelude.{
  ℕ, ◌≡◌, false, Option, none, some, List, [], ◌∷◌, ◌==◌, arith, inl, inr, Option-cases, list_eq,
  nat_eq, pair_eq, eq_refl,
}
use prunepytest.Text.{Text, split, dot}
use prunepytest.Dict.{Dict, lookup, insert, lookup-insert}
use prunepytest.Tracker.Deps.{Name}

abbrev pub Attributes : Type 0
Attributes = Dict (ℕ × Text) ℕ

-- A patch is called with the old value, or None; `none` is an exception. It changes no attribute by
-- itself.
abbrev pub Patch : Type 0
Patch = Option ℕ → Option ℕ

abbrev pub store : ℕ → Text → Attributes → Option ℕ → Option Attributes
store o n attrs none = none
store o n attrs (some v) = some (insert (o, n) v attrs)

-- `_apply_patch`, for the parts of the attribute's name
unfoldable pub patch_at : ℕ → List Text → Patch → Attributes → Option Attributes
unfolding lookup insert
patch_at o [] f attrs = none
patch_at o (n ∷ []) f attrs = store o n attrs (f (lookup (o, n) attrs))
patch_at o (n ∷ m ∷ parts) f attrs = elim (lookup (o, n) attrs) [
  | none ↦ none
  | some o' ↦ patch_at o' (m ∷ parts) f attrs
]

unfoldable pub apply_patch : ℕ → Text → Patch → Attributes → Option Attributes
unfolding split patch_at
apply_patch o attr_name f attrs = patch_at o (split dot attr_name) f attrs

unfoldable pub apply_all : ℕ → Dict Text Patch → Attributes → Option Attributes
unfolding apply_patch
apply_all o [] attrs = some attrs
apply_all o ((n, f) ∷ patches) attrs = elim (apply_patch o n f attrs) [
  | none ↦ none
  | some attrs' ↦ apply_all o patches attrs'
]

abbrev pub apply_to : Option ℕ → Option (Dict Text Patch) → Attributes → Option Attributes
apply_to none ps attrs = none
apply_to (some m) none attrs = none
apply_to (some m) (some ps) attrs = apply_all m ps attrs

-- `apply_patches`, over `sys.modules`; `none` is an exception.
unfoldable pub apply_patches :
    Dict Name ℕ → Name → Dict Name (Dict Text Patch) → Attributes → Option Attributes
unfolding lookup apply_all
apply_patches modules name patches attrs =
    apply_to (lookup name modules) (lookup name patches) attrs

-- The object whose attribute a chain of names ends in, and the last of the names.
pub data IsOwner (attrs : Attributes) : ℕ → List Text → ℕ → Text → Type 0 where
  own : {o : ℕ} {n : Text} → IsOwner attrs o (n ∷ []) o n
  through :
      {o o' x : ℕ} {n m k : Text} {parts : List Text}
      → lookup (o, n) attrs ≡ some o'
      → IsOwner attrs o' (m ∷ parts) x k
      → IsOwner attrs o (n ∷ m ∷ parts) x k

-- A patch that raises no exception sets one attribute, of the object that the chain leads to, to what
-- the patch makes of its old value; no other attribute of any object changes.
pub patch_at-IsOwner :
    (o : ℕ) (parts : List Text) (f : Patch) (attrs attrs' : Attributes)
    → patch_at o parts f attrs ≡ some attrs'
    → (x : ℕ) × (k : Text) × IsOwner attrs o parts x k
      × (lookup (x, k) attrs' ≡ f (lookup (x, k) attrs))
      × ((y : ℕ) (j : Text)
          → ◌==◌ {A = ℕ × Text} (y, j) (x, k) ≡ false
          → lookup (y, j) attrs' ≡ lookup (y, j) attrs)
unfolding patch_at
patch_at-IsOwner o [] f attrs attrs' e = absurd (cc)
patch_at-IsOwner o (n ∷ []) f attrs attrs' e = elim (Option-cases (f (lookup (o, n) attrs))) [
  | inl z ↦ absurd (ground (arith, z, e))
  | inr (v, z) ↦ (
    o,
    n,
    own,
    ground (arith, z, e, lookup-insert (o, n) (o, n) v attrs, eq_refl {A = ℕ × Text} (o, n)),
    λ y j h. ground (arith, z, e, lookup-insert (y, j) (o, n) v attrs, h),
  )
]
patch_at-IsOwner o (n ∷ m ∷ parts) f attrs attrs' e = elim (Option-cases (lookup (o, n) attrs)) [
  | inl z ↦ absurd (ground (arith, z, e))
  | inr (o', z) ↦
      let (x, k, i, a, b) = patch_at-IsOwner o' (m ∷ parts) f attrs attrs' (ground (arith, z, e)) in
      (x, k, through z i, a, b)
]
