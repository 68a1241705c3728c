-- ===== src/Selector/Impact/Totals.antt =====
-- pytest/selector.py: the counts of `PruneImpact` add up.
use prunepytest.Prelude.{
  ℕ, suc, ◌≤◌, ◌<◌, not, true, false, Every, Every-append, length-append, subst, ◌+◌, ◌≡◌, refl,
  Bool, some, List, [], ◌∷◌, length, is_empty, eqb, if◌then◌else◌, arith, Option-cases, inl, inr,
  list_eq, nat_eq,
}
use prunepytest.Text.{Text}
use prunepytest.Sets.{Set}
use prunepytest.Graph.{ModuleGraph}
use prunepytest.Items.{Item}
use prunepytest.Selector.{Config, Caches, should_keep, remaining}
use prunepytest.Selector.Collection.{affected_files, Selection}
use prunepytest.Selector.Impact.{Quantiles, Counts, no_counts, tally, count_commit, analyze, impact}

abbrev total : Counts → ℕ
total k = k.unsafe + k.skipped + k.nogain + k.partial

module _ (c : Config) (g : ModuleGraph) where
  tally-total :
      (relevant : Set Text) (items : List Item) (kept pruned : ℕ) (s : Caches) (a b : ℕ)
      (t : Caches)
      → tally c g relevant items (kept, pruned) s ≡ some ((a, b), t)
      → a + b ≡ kept + pruned + length items
  unfolding tally
  tally-total relevant [] kept pruned s a b t h = ground arith
  tally-total relevant (i ∷ is) kept pruned s a b t h =
      elim (Option-cases (should_keep c g relevant i s).0) [
        | inl e ↦ absurd (ground arith)
        | inr (true, e) ↦
            let q =
              tally-total relevant is (suc kept) pruned (should_keep c g relevant i s).1 a b t
                (ground arith) in
            omega (arith, q)
        | inr (false, e) ↦
            let q =
              tally-total relevant is kept (suc pruned) (should_keep c g relevant i s).1 a b t
                (ground arith) in
            omega (arith, q)
      ]

  -- A number of pruned tests that is a gain, though not of all tests.
  abbrev pub IsGain : List Item → ℕ → Type 0
  IsGain items x = (1 ≤ x) × (x < length items)

  record Counted (items : List Item) (n : ℕ) (k : Counts) : Type 0 where
    all : total k ≡ n
    each : length k.gains ≡ k.partial
    proper : Every (IsGain items) k.gains

  Counted-if :
      {items : List Item} {n : ℕ} (b : Bool) (x y : Counts)
      → (b ≡ true → Counted items n x)
      → (b ≡ false → Counted items n y)
      → Counted items n (if b then x else y)
  Counted-if true x y f g = f refl
  Counted-if false x y f g = g refl

  count_commit-Counted :
      (items : List Item) (n : ℕ) (u : Set Text) (a b : ℕ) (k : Counts)
      → a + b ≡ length items
      → Counted items n k
      → Counted items (suc n) (count_commit c g u (a, b) k)
  unfolding count_commit
  count_commit-Counted items n u a b k h v =
      Counted-if (not (is_empty u)) _ _
        (λ e. record { all = omega (arith, v.all); each = v.each; proper = v.proper })
        (λ e.
          Counted-if (eqb a 0) _ _
            (λ e1. record { all = omega (arith, v.all); each = v.each; proper = v.proper })
            (λ e1.
              Counted-if (eqb b 0) _ _
                (λ e2. record { all = omega (arith, v.all); each = v.each; proper = v.proper })
                (λ e2. record {
                  all = omega (arith, v.all);
                  each = ground (arith, v.each, length-append k.gains (b ∷ []));
                  proper =
                      Every-append (IsGain items) k.gains (b ∷ []) v.proper
                        ((ground arith, ground arith), tt);
                })))

  analyze-Counted :
      (commits : List (Set Text)) (items : List Item) (n : ℕ) (k : Counts) (s : Caches)
      (k' : Counts) (t : Caches)
      → Counted items n k
      → analyze c g commits items k s ≡ some (k', t)
      → Counted items (n + length commits) k'
  unfolding analyze
  analyze-Counted [] items n k s k' t v h =
      let p : k ≡ k' = ground arith in
      let q : n ≡ n + 0 = omega arith in
      subst (λ m. Counted items m k') q (subst (Counted items n) p v)
  analyze-Counted (modified ∷ commits) items n k s k' t v h =
      let relevant = c.filter_irrelevant_files (affected_files g modified) in
      elim (Option-cases (tally c g relevant items (0, 0) s)) [
        | inl e ↦ absurd (ground arith)
        | inr (((a, b), u), e) ↦
            let w =
              count_commit-Counted items n (remaining c g modified u) a b k
                (ground (arith, tally-total relevant items 0 0 s a b u e)) v in
            let q : suc n + length commits ≡ n + length (modified ∷ commits) = omega arith in
            subst (λ m. Counted items m k') q
              (analyze-Counted commits items (suc n)
                (count_commit c g (remaining c g modified u) (a, b) k) u k' t w (ground arith))
      ]

  -- Where `PruneImpact.pytest_collection_modifyitems` returns, each commit is counted in exactly
  -- one of the four kinds, there is one gain for each commit that benefits, and each gain is at
  -- least one test and not all tests.
  pub impact-total :
      (quantiles : Quantiles) (commits : List (Set Text)) (items : List Item) (s : Caches)
      (k : Counts) (r : Selection)
      → impact c g quantiles commits items s ≡ some (k, r)
      → (k.unsafe + k.skipped + k.nogain + k.partial ≡ length commits)
        × (length k.gains ≡ k.partial)
        × Every (IsGain items) k.gains
  unfolding impact
  impact-total quantiles commits items s k r h =
      elim (Option-cases (analyze c g commits items no_counts s)) [
        | inl e ↦ absurd (ground arith)
        | inr ((k', t), e) ↦
            let v =
              analyze-Counted commits items 0 no_counts s k' t
                (record { all = refl; each = refl; proper = tt }) e in
            let q : k' ≡ k = ground arith in
            let w = subst (Counted items (0 + length commits)) q v in
            (omega (arith, w.all), w.each, w.proper)
      ]
