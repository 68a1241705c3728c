-- ===== src/Defaults/Infer/Roots.antt =====
-- defaults.py: which folders `find_package_roots` finds.
use prunepytest.Prelude.{
  ◌≡◌, ◌↔◌, true, false, contains, arith, inl, inr, Bool-cases, eq_refl, subst, list_eq, nat_eq,
}
use prunepytest.Text.{Text}
use prunepytest.Sets.{contains-add, contains-union}
use prunepytest.FilePath.{below}
use prunepytest.Defaults.Infer.{
  Dents, nothing, file, folder, has_init, is_hidden, find_package_roots,
}

-- The outermost packages below a folder: a folder with an `__init__.py`, that is reached through
-- folders without one, none of them hidden.
pub data IsRoot : Text → Dents → Text → Type 0 where
  beside_file : {r p n : Text} {rest : Dents} → IsRoot r rest p → IsRoot r (file n rest) p
  beside : {r p n : Text} {d rest : Dents} → IsRoot r rest p → IsRoot r (folder n d rest) p
  here :
      {r n : Text} {d rest : Dents}
      → is_hidden n ≡ false
      → has_init d ≡ true
      → IsRoot r (folder n d rest) (below r n)
  inside :
      {r p n : Text} {d rest : Dents}
      → is_hidden n ≡ false
      → has_init d ≡ false
      → IsRoot (below r n) d p
      → IsRoot r (folder n d rest) p

contains-of :
    (r : Text) (ds : Dents) (p : Text) → IsRoot r ds p → contains (find_package_roots r ds) p ≡ true
unfolding find_package_roots
contains-of r nothing p h = elim h [ ]
contains-of r (file n rest) p (beside_file h) = contains-of r rest p h
contains-of r (folder n d rest) p (beside h) = ground (
  arith,
  contains-of r rest p h,
  contains-add (below r n) p (find_package_roots r rest),
  contains-union (find_package_roots r rest) (find_package_roots (below r n) d) p,
)
contains-of r (folder n d rest) p (here v i) = ground (
  arith,
  v,
  i,
  contains-add (below r n) (below r n) (find_package_roots r rest),
  eq_refl (below r n),
)
contains-of r (folder n d rest) p (inside v i h) = ground (
  arith,
  v,
  i,
  contains-of (below r n) d p h,
  contains-union (find_package_roots r rest) (find_package_roots (below r n) d) p,
)

IsRoot-of :
    (r : Text) (ds : Dents) (p : Text) → contains (find_package_roots r ds) p ≡ true → IsRoot r ds p
unfolding find_package_roots
IsRoot-of r nothing p h = absurd (cc)
IsRoot-of r (file n rest) p h = beside_file (IsRoot-of r rest p h)
IsRoot-of r (folder n d rest) p h =
    let pkgs = find_package_roots r rest in
    let inner = find_package_roots (below r n) d in
    elim (Bool-cases (contains pkgs p)) [
      | inl b ↦ beside (IsRoot-of r rest p b)
      | inr b ↦ elim (Bool-cases (has_init d)) [
        | inl i ↦
            let (v, q) : (is_hidden n ≡ false) × (below r n ≡ p) =
              ground (arith, h, b, i, contains-add (below r n) p pkgs) in
            subst (IsRoot r (folder n d rest)) q (here v i)
        | inr i ↦
            let (v, q) : (is_hidden n ≡ false) × (contains inner p ≡ true) =
              ground (arith, h, b, i, contains-union pkgs inner p) in
            inside v i (IsRoot-of (below r n) d p q)
      ]
    ]

-- `find_package_roots` finds the outermost packages: exactly the folders with an `__init__.py` that
-- are reached through folders without one, none of them hidden.
pub find_package_roots-IsRoot :
    (root : Text) (ds : Dents) (p : Text)
    → (contains (find_package_roots root ds) p ≡ true) ↔ IsRoot root ds p
find_package_roots-IsRoot root ds p = (IsRoot-of root ds p, contains-of root ds p)
