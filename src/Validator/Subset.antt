-- ===== src/Validator/Subset.antt =====
-- validator.py: `validate_subset`.
use prunepytest.Prelude.{
  ℕ, suc, ◌≡◌, refl, ◌↔◌, Bool, true, Option, none, some, [], ◌∷◌, is_empty, if◌then◌else◌, list_eq,
  nat_eq, arith, Every, Bool-cases, List-cases, inl, inr,
}
use prunepytest.Text.{Text}
use prunepytest.Sets.{Set, diff, Subset, diff-eq-nil, Subset-diff-eq-nil}
use prunepytest.Dict.{Dict}
use prunepytest.Graph.{ModuleGraph}

module _ (g : ModuleGraph) (filter_fn : Text → Bool) (package_root : Option Text) where
  -- `rust_graph.module_depends_on(module, package) or frozenset()`
  unfoldable pub rdeps : Text → Set Text
  rdeps m = elim (g.module_depends_on m package_root) [ none ↦ [] | some r ↦ r ]

  -- `validate_subset`: the number of modules some of whose tracked dependencies the graph misses
  unfoldable pub validate_subset : Dict Text (Set Text) → ℕ
  unfolding diff rdeps
  validate_subset [] = 0
  validate_subset ((m, pydeps) ∷ rest) =
      let n = validate_subset rest in
      if filter_fn m then if is_empty (diff pydeps (rdeps m)) then n else suc n else n

  -- The graph covers what was tracked of a module, if the module is to be compared.
  abbrev pub Covered : Text × Set Text → Type 0
  Covered (m, pydeps) = filter_fn m ≡ true → Subset pydeps (rdeps m)

  -- `validate_subset` counts no mismatch if and only if, for each tracked module that passes the
  -- filter, the graph has all dependencies that were tracked.
  pub validate_subset-zero :
      (tracked : Dict Text (Set Text)) → (validate_subset tracked ≡ 0) ↔ Every Covered tracked
  unfolding validate_subset
  validate_subset-zero [] = (λ h. tt, λ h. refl)
  validate_subset-zero ((m, pydeps) ∷ rest) =
      let ih = validate_subset-zero rest in
      let (to, from) = ih in
      elim (Bool-cases (filter_fn m)) [
        | inr f ↦ (
          λ h. (λ t. absurd (ground arith), to (ground arith)),
          λ (a, b). let q = from b in ground arith,
        )
        | inl f ↦ elim (List-cases (diff pydeps (rdeps m))) [
          | inl e ↦ (
            λ h. (λ t. diff-eq-nil pydeps (rdeps m) e, to (ground arith)),
            λ (a, b). let q = from b in ground arith,
          )
          | inr (x, xs, e) ↦ (
            λ h. absurd (ground arith),
            λ (a, b). let q = Subset-diff-eq-nil pydeps (rdeps m) (a f) in absurd (ground arith),
          )
        ]
      ]
