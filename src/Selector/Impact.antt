-- ===== src/Selector/Impact.antt =====
-- pytest/selector.py: the counts of `PruneImpact.pytest_collection_modifyitems`. The printed
-- percentages are left out.
pub mod Totals
use prunepytest.Prelude.{
  ℕ, suc, ◌≤◌, ◌<◌, ◌++◌, not, ◌||◌, true, false, Every, Every-append, length-append, subst, sym,
  ◌+◌, ◌≡◌, refl, Bool, Option, none, some, List, [], ◌∷◌, length, is_empty, eqb, if◌then◌else◌,
  arith, Option-cases, Bool-cases, inl, inr, list_eq, nat_eq,
}
use prunepytest.Text.{Text}
use prunepytest.Sets.{Set}
use prunepytest.Graph.{ModuleGraph}
use prunepytest.Items.{Item}
use prunepytest.Selector.{Config, Caches, should_keep, remaining}
use prunepytest.Selector.Collection.{affected_files, Selection}

-- The counters of commits, and `relgain` as the numbers of pruned tests.
pub record Counts : Type 0 where
  pub unsafe : ℕ
  pub skipped : ℕ
  pub nogain : ℕ
  pub partial : ℕ
  pub gains : List ℕ

abbrev pub no_counts : Counts
no_counts = record { unsafe = 0; skipped = 0; nogain = 0; partial = 0; gains = [] }

-- `statistics.quantiles`, if the library has it: whether it returns for so many gains. Before Python
-- 3.13 it raises on a single one.
abbrev pub Quantiles : Type 0
Quantiles = Option (ℕ → Bool)

abbrev pub prints_deciles : Quantiles → ℕ → Bool
prints_deciles none n = true
prints_deciles (some returns) n = returns n

module _ (c : Config) (g : ModuleGraph) where
  -- The loop over the items: `kept` and `pruned`; `none` is an exception.
  unfoldable pub tally : Set Text → List Item → ℕ × ℕ → Caches → Option ((ℕ × ℕ) × Caches)
  unfolding should_keep
  tally relevant [] counts s = some (counts, s)
  tally relevant (i ∷ is) (kept, pruned) s =
      let (r, t) = should_keep c g relevant i s in
      elim r [
        | none ↦ none
        | some b ↦ elim b [
          | true ↦ tally relevant is (suc kept, pruned) t
          | false ↦ tally relevant is (kept, suc pruned) t
        ]
      ]

  -- What one commit adds to the counters.
  unfoldable pub count_commit : Set Text → ℕ × ℕ → Counts → Counts
  count_commit unknown (kept, pruned) k =
      if not (is_empty unknown)
      then record k { unsafe = suc k.unsafe }
      else if eqb kept 0
      then record k { skipped = suc k.skipped }
      else if eqb pruned 0
      then record k { nogain = suc k.nogain }
      else record k { partial = suc k.partial; gains = k.gains ++ pruned ∷ [] }

  -- The loop over the commits, each given by its modified files.
  unfoldable pub analyze : List (Set Text) → List Item → Counts → Caches → Option (Counts × Caches)
  unfolding tally count_commit remaining
  analyze [] items k s = some (k, s)
  analyze (modified ∷ commits) items k s =
      let relevant = c.filter_irrelevant_files (affected_files g modified) in
      elim (tally relevant items (0, 0) s) [
        | none ↦ none
        | some (counts, t) ↦
            analyze commits items (count_commit (remaining c g modified t) counts k) t
      ]

  -- All of `PruneImpact.pytest_collection_modifyitems`: every test is deselected. `none` is an
  -- exception, a division by no commits, a mean of no gains or deciles that raise too.
  unfoldable pub impact :
      Quantiles → List (Set Text) → List Item → Caches → Option (Counts × Selection)
  unfolding analyze
  impact quantiles commits items s = elim (analyze commits items no_counts s) [
    | none ↦ none
    | some (k, t) ↦
        if is_empty commits || is_empty k.gains || not (prints_deciles quantiles (length k.gains))
        then none
        else some (k, record { items = []; deselected = items })
  ]
