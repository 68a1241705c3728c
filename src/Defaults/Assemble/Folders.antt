-- ===== src/Defaults/Assemble/Folders.antt =====
-- defaults.py: the folders of tests are included in the source roots, and their namespaces too.
use prunepytest.Prelude.{
  ◌≡◌, refl, ◌∙◌, ap, true, not, ◌&&◌, ◌||◌, [], ◌∷◌, ◌++◌, Every, Every-map, contains, arith, inl,
  inr, Bool-cases, ◌==◌, eq_refl, if-cases, list_eq, nat_eq,
}
use prunepytest.Text.{Text, text, slash, starts_with, partition}
use prunepytest.Sets.{Set, add, contains-add}
use prunepytest.Dict.{Dict, insert, has, lookup-insert}
use prunepytest.Defaults.Assemble.{DefaultHook, top_of, under_root, include_folder, include_folders}

pub Every-insert :
    (P : Text × Text → Type 0) (k v : Text) (d : Dict Text Text)
    → P (k, v)
    → Every P d
    → Every P (insert k v d)
unfolding insert
Every-insert P k v [] p h = (p, tt)
Every-insert P k v ((j, w) ∷ d) p (q, h) =
    if-cases (Every P) (k == j) ((k, v) ∷ d) ((j, w) ∷ insert k v d) (λ e. (p, h))
      (λ e. (q, Every-insert P k v d p h))

-- The top of an import path is in one of the sets.
abbrev pub IsNamed : Set Text → Set Text → Text × Text → Type 0
IsNamed global_ns local_ns (fs, py) =
    contains global_ns (top_of py) || contains local_ns (top_of py) ≡ true

-- A folder is a source root or below one.
abbrev pub IsCovered : Dict Text Text → Text × Text → Type 0
IsCovered roots (fs, py) = has fs roots || under_root fs roots ≡ true

under_root-insert :
    (fs k v : Text) (d : Dict Text Text)
    → under_root fs (insert k v d) ≡ (under_root fs d || starts_with fs (k ++ slash ∷ []))
unfolding under_root insert
under_root-insert fs k v [] = ground arith
under_root-insert fs k v ((j, w) ∷ d) = elim (Bool-cases (k == j)) [
  | inl e ↦
      let same : k ≡ j = ground arith in
      ground (arith, e, ap (λ z. starts_with fs (z ++ slash ∷ [])) same)
  | inr e ↦ ground (arith, e, under_root-insert fs k v d)
]

pub IsCovered-insert :
    (fs py k v : Text) (d : Dict Text Text)
    → IsCovered d (fs, py)
    → IsCovered (insert k v d) (fs, py)
unfolding has
IsCovered-insert fs py k v d h =
    ground (arith, h, under_root-insert fs k v d, lookup-insert fs k v d)

pub IsCovered-insert_self :
    (fs py v : Text) (d : Dict Text Text) → IsCovered (insert fs v d) (fs, py)
unfolding has
IsCovered-insert_self fs py v d = ground (arith, lookup-insert fs fs v d, eq_refl fs)

top_of_tests : top_of (text "tests") ≡ text "tests"
unfolding partition nat_eq
top_of_tests = refl

pub tests_named :
    (names : Set Text) → contains (add (text "tests") names) (top_of (text "tests")) ≡ true
tests_named names =
    ap (λ z. contains (add (text "tests") names) z) top_of_tests
    ∙ contains-add (text "tests") (text "tests") names
    ∙ ap (λ b. b || contains names (text "tests")) (eq_refl (text "tests"))

-- The source roots are named, before and after a folder of tests is included.
abbrev AllNamed : DefaultHook → Type 0
AllNamed h = Every (IsNamed h.global_ns h.local_ns) h.src_roots

include_folder-AllNamed :
    (fs py : Text) (h : DefaultHook) → AllNamed h → AllNamed (include_folder fs py h)
unfolding include_folder
include_folder-AllNamed fs py h s =
    if-cases AllNamed (not (has fs h.src_roots) && not (under_root fs h.src_roots))
      (record h { local_ns = add (top_of py) h.local_ns; src_roots = insert fs py h.src_roots }) h
      (λ e.
        Every-insert (IsNamed h.global_ns (add (top_of py) h.local_ns)) fs py h.src_roots
          (ground (arith, contains-add (top_of py) (top_of py) h.local_ns, eq_refl (top_of py)))
          (Every-map (IsNamed h.global_ns h.local_ns)
            (IsNamed h.global_ns (add (top_of py) h.local_ns))
            (λ r q. ground (arith, q, contains-add (top_of py) (top_of r.1) h.local_ns)) h.src_roots
            s))
      (λ e. s)

include_folder-IsCovered :
    (fs py : Text) (h : DefaultHook) → IsCovered (include_folder fs py h).src_roots (fs, py)
unfolding include_folder
include_folder-IsCovered fs py h =
    if-cases (λ u. IsCovered u.src_roots (fs, py))
      (not (has fs h.src_roots) && not (under_root fs h.src_roots))
      (record h { local_ns = add (top_of py) h.local_ns; src_roots = insert fs py h.src_roots }) h
      (λ e. IsCovered-insert_self fs py py h.src_roots) (λ e. ground (arith, e))

include_folder-keeps :
    (fs py : Text) (h : DefaultHook) (r : Text × Text)
    → IsCovered h.src_roots r
    → IsCovered (include_folder fs py h).src_roots r
unfolding include_folder
include_folder-keeps fs py h (k, v) q =
    if-cases (λ u. IsCovered u.src_roots (k, v))
      (not (has fs h.src_roots) && not (under_root fs h.src_roots))
      (record h { local_ns = add (top_of py) h.local_ns; src_roots = insert fs py h.src_roots }) h
      (λ e. IsCovered-insert k v fs py h.src_roots q) (λ e. q)

include_folders-keeps :
    (folders : Dict Text Text) (h : DefaultHook) (r : Text × Text)
    → IsCovered h.src_roots r
    → IsCovered (include_folders folders h).src_roots r
unfolding include_folders
include_folders-keeps [] h r q = q
include_folders-keeps ((fs, py) ∷ folders) h r q =
    include_folders-keeps folders (include_folder fs py h) r (include_folder-keeps fs py h r q)

pub include_folders-AllNamed :
    (folders : Dict Text Text) (h : DefaultHook) → AllNamed h → AllNamed (include_folders folders h)
unfolding include_folders
include_folders-AllNamed [] h s = s
include_folders-AllNamed ((fs, py) ∷ folders) h s =
    include_folders-AllNamed folders (include_folder fs py h) (include_folder-AllNamed fs py h s)

pub include_folders-IsCovered :
    (folders : Dict Text Text) (h : DefaultHook)
    → Every (IsCovered (include_folders folders h).src_roots) folders
unfolding include_folders
include_folders-IsCovered [] h = tt
include_folders-IsCovered ((fs, py) ∷ folders) h = (
  include_folders-keeps folders (include_folder fs py h) (fs, py)
      (include_folder-IsCovered fs py h),
  include_folders-IsCovered folders (include_folder fs py h),
)

include_folder-tst_dirs :
    (fs py : Text) (h : DefaultHook) → (include_folder fs py h).tst_dirs ≡ h.tst_dirs
unfolding include_folder
include_folder-tst_dirs fs py h = ground arith

pub include_folders-tst_dirs :
    (folders : Dict Text Text) (h : DefaultHook) → (include_folders folders h).tst_dirs ≡ h.tst_dirs
unfolding include_folders
include_folders-tst_dirs [] h = refl
include_folders-tst_dirs ((fs, py) ∷ folders) h =
    include_folders-tst_dirs folders (include_folder fs py h) ∙ include_folder-tst_dirs fs py h
