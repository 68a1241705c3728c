-- ===== src/Selector/Collection.antt =====
-- pytest/selector.py: `PruneSelector.pytest_collection_modifyitems`.
pub mod Laws
pub mod Verdicts
pub mod Loop
use prunepytest.Prelude.{
  ℕ, zero, suc, Bool, Option, none, some, List, [], ◌∷◌, ◌++◌, length, get_elem?, is_empty,
  if◌then◌else◌, list_eq, nat_eq,
}
use prunepytest.Text.{Text}
use prunepytest.Sets.{Set, union}
use prunepytest.Graph.{ModuleGraph}
use prunepytest.Items.{Item}
use prunepytest.Selector.{Config, Caches, should_keep, remaining}

-- `del items[i]`
unfoldable pub remove_at {ℓ} : {A : Type ℓ} → ℕ → List A → List A
remove_at i [] = []
remove_at zero (x ∷ xs) = xs
remove_at (suc i) (x ∷ xs) = x ∷ remove_at i xs

-- One round of the loop of `pytest_collection_modifyitems`, at an index `i`.
unfoldable pub visit {ℓ κ} :
    {A : Type ℓ} {S : Type κ}
    → (A → S → Option Bool × S)
    → ℕ
    → List A × List A × S
    → Option (List A × List A × S)
unfolding remove_at
visit keep i (items, skipped, s) = elim (get_elem? items i) [
  | none ↦ none
  | some item ↦
      let (r, t) = keep item s in
      elim r [
        | none ↦ none
        | some b ↦
            if b
            then some (items, skipped, t)
            else some (remove_at i items, skipped ++ item ∷ [], t)
      ]
]

-- The loop from the end, with `i` items left to visit; `none` is an exception.
unfoldable pub visit_all {ℓ κ} :
    {A : Type ℓ} {S : Type κ}
    → (A → S → Option Bool × S)
    → ℕ
    → List A × List A × S
    → Option (List A × List A × S)
unfolding visit
visit_all keep zero t = some t
visit_all keep (suc i) t = elim (visit keep i t) [ none ↦ none | some u ↦ visit_all keep i u ]

-- What `pytest_collection_modifyitems` leaves: the items to run, and those reported as deselected.
pub record Selection : Type 0 where
  pub items : List Item
  pub deselected : List Item

abbrev pub affected_files : ModuleGraph → Set Text → Set Text
affected_files g modified = union (g.affected_by_files modified) modified

module _ (c : Config) where
  -- `PruneSelector.pytest_collection_modifyitems`
  unfoldable pub modify_items :
      ModuleGraph → Set Text → List Item → Caches → Option (Selection × Caches)
  unfolding should_keep visit_all remaining
  modify_items g modified items s =
      elim (visit_all (should_keep c g (affected_files g modified)) (length items) (items, [], s)) [
        | none ↦ none
        | some (kept, skipped, t) ↦ some (
          if is_empty (remaining c g modified t)
              then record { items = kept; deselected = skipped }
              else record { items = kept ++ skipped; deselected = [] },
          t,
        )
      ]
