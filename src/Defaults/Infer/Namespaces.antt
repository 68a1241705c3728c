-- ===== src/Defaults/Infer/Namespaces.antt =====
-- defaults.py: the folder and the import path that `infer_ns_pkg` finds belong together.
use prunepytest.Prelude.{
  ◌≡◌, refl, Bool, false, ◌⊎◌, inl, inr, Option, none, some, List, [], ◌∷◌, ◌++◌, Every, if-cases,
  ◌==◌, list_eq, nat_eq,
}
use prunepytest.Text.{Text, text, dot}
use prunepytest.FilePath.{below, base_name}
use prunepytest.Defaults.Infer.{
  Dents, nothing, file, folder, Descent, go_down, or_itself, ns_step, ns_subs, infer_ns_pkg,
}

-- The folder at the end of some names, and their import path.
unfoldable pub path_below : Text → List Text → Text
path_below path [] = path
path_below path (n ∷ names) = path_below (below path n) names

unfoldable pub import_below : Text → List Text → Text
import_below ns [] = ns
import_below ns (n ∷ names) = import_below (ns ++ dot ∷ n) names

module _ (is_ns : Text → Bool) where
  -- What a walk may give.
  abbrev Descends : Text → Text → Option (Text × Text) → Type 0
  Descends path ns none = Unit
  Descends path ns (some (fs, py)) =
      (names : List Text) × (fs ≡ path_below path names)
      × (py ≡ import_below ns names)
      × (is_ns (below fs (text "__init__.py")) ≡ false)

  abbrev Walks : Text × Descent → Type 0
  Walks (n, into) = (path ns : Text) → Descends path ns (into path ns)

  into-Descends :
      (path ns n : Text) (r : Option (Text × Text))
      → Descends (below path n) (ns ++ dot ∷ n) r
      → Descends path ns r
  unfolding path_below import_below
  into-Descends path ns n none h = tt
  into-Descends path ns n (some r) (names, p, q, z) = (n ∷ names, p, q, z)

  go_down-Descends :
      (subs : List (Text × Descent))
      → Every Walks subs
      → (path ns : Text) → Descends path ns (go_down subs path ns)
  go_down-Descends [] h path ns = tt
  go_down-Descends ((n, into) ∷ []) (h, rest) path ns =
      into-Descends path ns n (into (below path n) (ns ++ dot ∷ n))
        (h (below path n) (ns ++ dot ∷ n))
  go_down-Descends (a ∷ b ∷ subs) h path ns = tt

  ns_step-Descends :
      (subs : List (Text × Descent))
      → Every Walks subs
      → (path ns : Text) → Descends path ns (ns_step is_ns subs path ns)
  unfolding ns_step path_below import_below
  ns_step-Descends subs h path ns =
      if-cases (Descends path ns) (is_ns (below path (text "__init__.py"))) (go_down subs path ns)
        (some (path, ns)) (λ e. go_down-Descends subs h path ns) (λ e. ([], refl, refl, e))

  ns_subs-Walks : (ds : Dents) → Every Walks (ns_subs is_ns ds)
  unfolding ns_subs
  ns_subs-Walks nothing = tt
  ns_subs-Walks (file n rest) = ns_subs-Walks rest
  ns_subs-Walks (folder n d rest) =
      let others = ns_subs-Walks rest in
      let into = ns_step-Descends (ns_subs is_ns d) (ns_subs-Walks d) in
      if-cases (Every Walks) (n == text "__pycache__") (ns_subs is_ns rest)
        ((n, ns_step is_ns (ns_subs is_ns d)) ∷ ns_subs is_ns rest) (λ e. others)
        (λ e. (into, others))

  -- The folder that `infer_ns_pkg` gives is reached from the package by some names, and the import
  -- path is the name of the package with those names behind it; where there are such names, the
  -- folder's `__init__.py` is no namespace stanza.
  pub infer_ns_pkg-path_below :
      (pkgroot : Text) (ds : Dents)
      → let (fs, py) = infer_ns_pkg is_ns pkgroot ds in
        (names : List Text) × (fs ≡ path_below pkgroot names)
        × (py ≡ import_below (base_name pkgroot) names)
        × ((names ≡ []) ⊎ (is_ns (below fs (text "__init__.py")) ≡ false))
  unfolding infer_ns_pkg
  infer_ns_pkg-path_below pkgroot ds =
      ended (ns_step is_ns (ns_subs is_ns ds) pkgroot (base_name pkgroot))
        (ns_step-Descends (ns_subs is_ns ds) (ns_subs-Walks ds) pkgroot (base_name pkgroot))
    where
      ended :
          (r : Option (Text × Text))
          → Descends pkgroot (base_name pkgroot) r
          → let (fs, py) = or_itself pkgroot r in
            (names : List Text) × (fs ≡ path_below pkgroot names)
            × (py ≡ import_below (base_name pkgroot) names)
            × ((names ≡ []) ⊎ (is_ns (below fs (text "__init__.py")) ≡ false))
      ended none h = ([], unfold path_below in refl, unfold import_below in refl, inl refl)
      ended (some r) (names, p, q, z) = (names, p, q, inr z)
