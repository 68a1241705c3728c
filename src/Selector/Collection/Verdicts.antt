-- ===== src/Selector/Collection/Verdicts.antt =====
-- pytest/selector.py: the tests that are deselected, and those that are kept, by a verdict without
-- caches.
use prunepytest.Prelude.{
  ◌≡◌, ◌∙◌, sym, subst, Bool, true, false, Option, some, List, [], ◌∷◌, ◌++◌, reverse, length,
  arith, Every, Every-append, ◌⊎◌, Option-cases, inl, inr, is_empty, Bool-cases,
}
use prunepytest.Text.{Text}
use prunepytest.Sets.{Set}
use prunepytest.Graph.{ModuleGraph}
use prunepytest.Items.{Item}
use prunepytest.Selector.{Config, Caches, should_keep, remaining}
use prunepytest.Selector.Laws.{IsValid, verdict, should_keep-verdict}
use prunepytest.Selector.Collection.{visit_all, Selection, affected_files, modify_items}
use prunepytest.Selector.Collection.Loop.{split_by, parts}
use prunepytest.Selector.Collection.Laws.{visit_all-split_by}

module _ {ℓ κ μ} {A : Type ℓ} {S : Type κ} (keep : A → S → Option Bool × S) (rule : A → Option Bool)
    (P : S → Type μ)
    (agree : (a : A) (s : S) → P s → ((keep a s).0 ≡ rule a) × P (keep a s).1) where
  abbrev Kept : A → Type 0
  Kept a = rule a ≡ some true

  abbrev Dropped : A → Type 0
  Dropped a = rule a ≡ some false

  split_by-Every :
      (ys rest skipped : List A) (s : S)
      → P s
      → (kept deselected : List A) (t : S) → Every Kept rest
      → Every Dropped skipped
      → split_by keep ys rest skipped s ≡ some (kept, deselected, t)
      → Every Kept kept × Every Dropped deselected × P t
  unfolding split_by
  split_by-Every [] rest skipped s v kept deselected t a b h =
      let (p, q, r) = parts keep h in
      (subst (Every Kept) p a, subst (Every Dropped) q b, subst P r v)
  split_by-Every (y ∷ ys) rest skipped s v kept deselected t a b h =
      let (e, w) = agree y s v in
      elim (Option-cases (keep y s).0) [
        | inl n ↦ absurd (ground arith)
        | inr (true, n) ↦
            split_by-Every ys (y ∷ rest) skipped (keep y s).1 w kept deselected t (sym e ∙ n, a) b
              (ground arith)
        | inr (false, n) ↦
            split_by-Every ys rest (skipped ++ y ∷ []) (keep y s).1 w kept deselected t a
              (Every-append Dropped skipped (y ∷ []) b (sym e ∙ n, tt)) (ground arith)
      ]

  pub visit_all-Every :
      (items : List A) (s : S)
      → P s
      → (kept deselected : List A) (t : S)
      → visit_all keep (length items) (items, [], s) ≡ some (kept, deselected, t)
      → Every Kept kept × Every Dropped deselected × P t
  visit_all-Every items s v kept deselected t h =
      split_by-Every (reverse items) [] [] s v kept deselected t tt tt
        (sym (visit_all-split_by keep items s) ∙ h)

module _ (c : Config) (g : ModuleGraph) (modified : Set Text) where
  -- From valid caches, every test that `pytest_collection_modifyitems` deselects is one that the
  -- verdict without caches does not keep, and where it deselects one, it keeps no test but those
  -- the verdict keeps.
  pub modify_items-verdict :
      (items : List Item) (s : Caches)
      → IsValid c g s
      → (r : Selection) (t : Caches) → modify_items c g modified items s ≡ some (r, t)
      → Every (λ i. verdict c g (affected_files g modified) i ≡ some false) r.deselected
        × (Every (λ i. verdict c g (affected_files g modified) i ≡ some true) r.items
            ⊎ (r.deselected ≡ []))
  unfolding modify_items
  modify_items-verdict items s v r t h =
      elim (Option-cases
        (visit_all (should_keep c g (affected_files g modified)) (length items) (items, [], s))) [
          | inl e ↦ absurd (ground arith)
          | inr ((kept, skipped, u), e) ↦
              let (a, b, w) =
                visit_all-Every (should_keep c g (affected_files g modified))
                  (verdict c g (affected_files g modified)) (IsValid c g)
                  (should_keep-verdict c g (affected_files g modified)) items s v kept skipped u
                  e in
              elim (Bool-cases (is_empty (remaining c g modified u))) [
                | inl n ↦
                    let p : r.items ≡ kept = ground arith in
                    let q : r.deselected ≡ skipped = ground arith in
                    (
                      subst (Every (λ i. verdict c g (affected_files g modified) i ≡ some false))
                          (sym q) b,
                      inl (
                          subst (Every (λ i. verdict c g (affected_files g modified) i ≡ some true))
                            (sym p) a),
                    )
                | inr n ↦
                    let q : r.deselected ≡ [] = ground arith in
                    (
                      subst (Every (λ i. verdict c g (affected_files g modified) i ≡ some false))
                          (sym q) tt,
                      inr q,
                    )
              ]
        ]
