-- ===== src/Validator/Folder/Cleanup.antt =====
-- validator.py: what `validate_folder` removes, and what an exit status of 0 tells.
use prunepytest.Prelude.{
  ℕ, ◌≡◌, subst, Bool, not, ◌&&◌, none, some, List, [], ◌∷◌, ◌==◌, contains, if◌then◌else◌, list_eq,
  nat_eq, arith, Bool-cases, Option-cases, inl, inr, Every,
}
use prunepytest.Text.{Text}
use prunepytest.Sets.{contains-discard}
use prunepytest.Dict.{has, lookup, lookup-erase}
use prunepytest.Graph.{ModuleGraph}
use prunepytest.Tracker.Deps.{Name}
use prunepytest.Validator.Walk.{Entries}
use prunepytest.Validator.Subset.{validate_subset, validate_subset-zero, Covered}
use prunepytest.Validator.Folder.{
  Interp, Env, under_package, delete_module, cleanup, tracked_sets, validate, validate_folders,
  is_global, exit_status,
}

-- Whether the cleanup removes a module.
abbrev pub removes : Name → List Name → Name → Bool
removes py ms x = contains ms x && under_package py x

delete_module_lem :
    (m : Name) (i k : Interp)
    → delete_module m i ≡ some k
    → (x : Name)
    → (lookup x k.tracker.deps.tracked ≡ (if x == m then none else lookup x i.tracker.deps.tracked))
      × (lookup x k.tracker.dynamic_users
          ≡ (if x == m then none else lookup x i.tracker.dynamic_users))
      × (contains k.modules x ≡ (contains i.modules x && not (x == m)))
unfolding delete_module
delete_module_lem m i k h x =
    let t = lookup-erase x m i.tracker.deps.tracked in
    let u = lookup-erase x m i.tracker.dynamic_users in
    let d = contains-discard m x i.modules in
    elim (Bool-cases (has m i.tracker.deps.tracked)) [
      | inl e ↦ (ground (arith, t), ground (arith, u), ground (arith, d))
      | inr e ↦ absurd (ground arith)
    ]

pub cleanup_lem :
    (py : Name) (ms : List Name) (i j : Interp)
    → cleanup py ms i ≡ some j
    → (x : Name)
    → (lookup x j.tracker.deps.tracked
        ≡ (if removes py ms x then none else lookup x i.tracker.deps.tracked))
      × (lookup x j.tracker.dynamic_users
          ≡ (if removes py ms x then none else lookup x i.tracker.dynamic_users))
      × (contains j.modules x ≡ (contains i.modules x && not (removes py ms x)))
unfolding cleanup
cleanup_lem py [] i j h x = (ground arith, ground arith, ground arith)
cleanup_lem py (m ∷ ms) i j h x = elim (Bool-cases (under_package py m)) [
  | inl u ↦ elim (Option-cases (delete_module m i)) [
    | inl e ↦ absurd (ground arith)
    | inr (k, e) ↦
        let (t, v, d) = delete_module_lem m i k e x in
        let (t', v', d') = cleanup_lem py ms k j (ground arith) x in
        (ground arith, ground arith, ground arith)
  ]
  | inr u ↦
      let (t, v, d) = cleanup_lem py ms i j (ground arith) x in
      (ground arith, ground arith, ground arith)
]

-- If `validate` returns and `main` exits with 0, there was no error, and the graph covers the
-- tracked dependencies of every module of the global namespaces.
pub exit_status-validate :
    (env : Env) (g : ModuleGraph) (folders : List (Text × Name × Entries)) (i : Interp)
    (errors missing : ℕ) (j : Interp)
    → validate env g folders i ≡ some ((errors, missing), j)
    → exit_status errors missing ≡ 0
    → (errors ≡ 0)
      × Every (Covered g (is_global env g) none) (tracked_sets j.tracker j.tracker.deps.tracked)
unfolding validate exit_status
exit_status-validate env g folders i errors missing j h z =
    elim (Option-cases (validate_folders env g folders (0, 0) i)) [
      | inl e ↦ absurd (ground arith)
      | inr (((n, m), k), e) ↦
          let c : validate_subset g (is_global env g) none
                (tracked_sets k.tracker k.tracker.deps.tracked)
              ≡ 0 =
            ground arith in
          let q : k ≡ j = ground arith in
          (
            ground arith,
            subst
                (λ (x : Interp).
                  Every (Covered g (is_global env g) none)
                    (tracked_sets x.tracker x.tracker.deps.tracked))
                q
                ((validate_subset-zero g (is_global env g) none
                    (tracked_sets k.tracker k.tracker.deps.tracked)).0
                  c),
          )
    ]
