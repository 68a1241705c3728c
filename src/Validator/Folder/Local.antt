-- ===== src/Validator/Folder/Local.antt =====
-- validator.py: the comparisons of `validate_folder`, which are made for the local namespaces.
use prunepytest.Prelude.{
  ℕ, ◌+◌, ◌≡◌, subst, Option, none, some, List, [], ◌∷◌, ◌++◌, contains, arith, inl, inr,
  Bool-cases, Option-cases, Every, Every-append, if◌then◌else◌, list_eq, nat_eq,
}
use prunepytest.Text.{Text}
use prunepytest.Sets.{Set, diff}
use prunepytest.Dict.{Dict}
use prunepytest.Graph.{ModuleGraph}
use prunepytest.Tracker.Deps.{Name}
use prunepytest.Tracker.State.{base_ns}
use prunepytest.Validator.Walk.{Entries, Walk, recursive_import_tests}
use prunepytest.Validator.Subset.{Covered, validate_subset, validate_subset-zero}
use prunepytest.Validator.Folder.{
  Interp, Env, all_with_dynamic, cleanup, is_local_test_module, leave_folder, compare_folder,
  validate_folder, validate_folders, validate, exit_status,
}

-- A folder, its package, and what was tracked of the modules in it.
abbrev pub Comparison : Type 0
Comparison = Text × Name × Dict Name (Set Name)

module _ (env : Env) (g : ModuleGraph) where
  abbrev pub IsCompared : Comparison → Type 0
  IsCompared (fs, py, tracked) = Every (Covered g (is_local_test_module env g py) (some fs)) tracked

  abbrev of_tracked : Text → Name → Option (Dict Name (Set Name)) → List Comparison
  of_tracked fs py none = []
  of_tracked fs py (some tracked) = (fs, py, tracked) ∷ []

  -- What `validate_folder` compares after the imports.
  unfoldable pub comparison : Text → Name → Walk Interp → List Comparison
  comparison fs py r =
      if contains env.local_namespaces (base_ns py)
      then of_tracked fs py (all_with_dynamic r.imported r.world.tracker)
      else []

  -- What follows the folder for which `validate_folder` was called.
  abbrev imports_of : Text → Name → Entries → Interp → Walk Interp
  imports_of fs py es i = recursive_import_tests env.loader fs py es (record {
    world = env.before_folder fs py (record i { path = env.package_dir fs ∷ i.path });
    imported = [];
    errors = [];
  })

  unfoldable pub comparisons : List (Text × Name × Entries) → Interp → List Comparison
  comparisons [] i = []
  comparisons ((fs, py, es) ∷ folders) i = elim (validate_folder env g fs py es i) [
    | none ↦ []
    | some (counts, j) ↦ comparison fs py (imports_of fs py es i) ++ comparisons folders j
  ]

  comparison-IsCompared :
      (fs : Text) (py : Name) (old_k : Set Name) (r : Walk Interp) (n : ℕ) (j : Interp)
      → compare_folder env g fs py old_k r ≡ some ((n, 0), j)
      → Every IsCompared (comparison fs py r)
  unfolding compare_folder comparison leave_folder
  comparison-IsCompared fs py old_k r n j e =
      elim (Bool-cases (contains env.local_namespaces (base_ns py))) [
        | inr b ↦ rw b tt
        | inl b ↦ elim (Option-cases (all_with_dynamic r.imported r.world.tracker)) [
          | inl q ↦ rw (b, q) tt
          | inr (tracked, q) ↦
              let covered : validate_subset g (is_local_test_module env g py) (some fs) tracked
                  ≡ 0 =
                elim (Option-cases (cleanup py (diff r.world.modules old_k) r.world)) [
                  | inl c ↦ absurd (ground (arith, b, q, c, e))
                  | inr (k, c) ↦ ground (arith, b, q, c, e)
                ] in
              rw (b, q)
                (
                  (validate_subset-zero g (is_local_test_module env g py) (some fs) tracked).0
                      covered,
                  tt,
                )
        ]
      ]

  validate_folder-IsCompared :
      (fs : Text) (py : Name) (es : Entries) (i : Interp) (n : ℕ) (j : Interp)
      → validate_folder env g fs py es i ≡ some ((n, 0), j)
      → Every IsCompared (comparison fs py (imports_of fs py es i))
  unfolding validate_folder
  validate_folder-IsCompared fs py es i n j e =
      comparison-IsCompared fs py i.modules (imports_of fs py es i) n j e

  validate_folders-IsCompared :
      (folders : List (Text × Name × Entries)) (errors missing : ℕ) (i : Interp) (n m : ℕ)
      (j : Interp)
      → validate_folders env g folders (errors, missing) i ≡ some ((n, m), j)
      → m ≡ 0
      → (missing ≡ 0) × Every IsCompared (comparisons folders i)
  unfolding validate_folders comparisons
  validate_folders-IsCompared [] errors missing i n m j e z = (ground (arith, e, z), tt)
  validate_folders-IsCompared ((fs, py, es) ∷ folders) errors missing i n m j e z =
      elim (Option-cases (validate_folder env g fs py es i)) [
        | inl q ↦ absurd (ground (arith, q, e))
        | inr (((a, b), k), q) ↦
            let (none_missing, rest) =
              validate_folders-IsCompared folders (errors + a) (missing + b) k n m j
                (ground (arith, q, e)) z in
            let nothing : b ≡ 0 = omega (arith, none_missing) in
            let here : Every IsCompared (comparison fs py (imports_of fs py es i)) =
              validate_folder-IsCompared fs py es i a k
                (subst (λ c. validate_folder env g fs py es i ≡ some ((a, c), k)) nothing q) in
            (
              omega (arith, none_missing),
              rw (q, comparisons)
                  (Every-append IsCompared (comparison fs py (imports_of fs py es i))
                    (comparisons folders k) here rest),
            )
      ]

  -- If `validate` returns and `main` exits with 0, then in each folder of a local namespace the graph
  -- covers the tracked dependencies of every test module.
  pub exit_status-IsCompared :
      (folders : List (Text × Name × Entries)) (i : Interp) (errors missing : ℕ) (j : Interp)
      → validate env g folders i ≡ some ((errors, missing), j)
      → exit_status errors missing ≡ 0
      → Every IsCompared (comparisons folders i)
  unfolding validate exit_status
  exit_status-IsCompared folders i errors missing j e z =
      elim (Option-cases (validate_folders env g folders (0, 0) i)) [
        | inl q ↦ absurd (ground (arith, q, e))
        | inr (((n, m), k), q) ↦
            let nothing : m ≡ 0 = ground (arith, q, e, z) in
            (validate_folders-IsCompared folders 0 0 i n m k q nothing).1
      ]
