-- ===== src/Selector/Collection/Laws.antt =====
-- pytest/selector.py: what `PruneSelector.pytest_collection_modifyitems` leaves of a list of items.
use mathlib.Core.List.{Perm, append-nil, reverse_perm}
use mathlib.Core.List.Perm
use mathlib.Core.Path.{ap₂}
use prunepytest.Prelude.{
  ◌≡◌, ◌∙◌, sym, subst, ap, Bool, true, false, contains, ◌==◌, eq_same, is_none, list_eq, nat_eq,
  Option, some, List, [], ◌∷◌, ◌++◌, reverse, length, arith, Option-cases, inl, inr, is_empty,
  Bool-cases, List-cases,
}
use prunepytest.Text.{Text}
use prunepytest.Sets.{Set, diff}
use prunepytest.Graph.{ModuleGraph}
use prunepytest.Items.{Item}
use prunepytest.Selector.{Config, Caches, should_keep, suspects, remaining}
use prunepytest.Selector.Collection.{visit_all, Selection, affected_files, modify_items}
use prunepytest.Selector.Collection.Loop.{
  split_by, visit_all-reverse_aux, reverse_aux-reverse, split_by-Perm, length-reverse_aux,
}

module _ {ℓ κ} {A : Type ℓ} {S : Type κ} (keep : A → S → Option Bool × S) where
  -- The loop that walks a list by index from its end, and deletes at the index an item that is not
  -- kept, gives for every list what a recursion on the reversed list gives, which asks for each
  -- item once.
  pub visit_all-split_by :
      (items : List A) (s : S)
      → visit_all keep (length items) (items, [], s) ≡ split_by keep (reverse items) [] [] s
  visit_all-split_by items s =
      ap₂ (λ n l. visit_all keep n (l, [], s)) (ground (arith, length-reverse_aux items []))
        (sym (reverse_aux-reverse items []))
      ∙ visit_all-reverse_aux keep (reverse items) [] [] s

  pub visit_all-Perm :
      (items : List A) (s : S) (kept deselected : List A) (t : S)
      → visit_all keep (length items) (items, [], s) ≡ some (kept, deselected, t)
      → Perm (kept ++ deselected) items
  visit_all-Perm items s kept deselected t h =
      Perm.trans
        (subst (Perm (kept ++ deselected)) (append-nil (reverse items)) (
          split_by-Perm keep (reverse items) [] [] s kept deselected t
            (sym (visit_all-split_by items s) ∙ h)))
        (reverse_perm items)

module _ (c : Config) (g : ModuleGraph) (modified : Set Text) where
  -- Where `pytest_collection_modifyitems` returns, the items to run and the deselected ones
  -- together are the collected items in some order: no test is lost or run twice.
  pub modify_items-Perm :
      (items : List Item) (s : Caches) (r : Selection) (t : Caches)
      → modify_items c g modified items s ≡ some (r, t)
      → Perm (r.items ++ r.deselected) items
  unfolding modify_items
  modify_items-Perm items s r t h =
      elim (Option-cases
        (visit_all (should_keep c g (affected_files g modified)) (length items) (items, [], s))) [
          | inl e ↦ absurd (ground arith)
          | inr ((kept, skipped, u), e) ↦ elim (Bool-cases (is_empty (remaining c g modified u))) [
            | inl b ↦ agreed kept skipped u (ground arith) e
            | inr b ↦ agreed kept skipped u (ground (arith, append-nil (kept ++ skipped))) e
          ]
        ]
    where
      agreed :
          (kept skipped : List Item) (u : Caches)
          → r.items ++ r.deselected ≡ kept ++ skipped
          → visit_all (should_keep c g (affected_files g modified)) (length items) (items, [], s)
            ≡ some (kept, skipped, u)
          → Perm (r.items ++ r.deselected) items
      agreed kept skipped u a e =
          subst (λ l. Perm l items) (sym a)
            (visit_all-Perm (should_keep c g (affected_files g modified)) items s kept skipped u e)

  suspects-nil :
      (fs : List Text) (f : Text)
      → suspects c g fs ≡ []
      → contains fs f ≡ true
      → c.exists f ≡ true
      → is_none (g.file_depends_on f) ≡ false
  unfolding suspects
  suspects-nil [] f e m x = absurd (cc)
  suspects-nil (h ∷ fs) f e m x = elim (Bool-cases (f == h)) [
    | inl q ↦
        let same : f ≡ h = eq_same f h q in
        ground (arith, e, x, ap c.exists same, ap g.file_depends_on same)
    | inr q ↦ suspects-nil fs f (ground (arith, e)) (ground (arith, m, q)) x
  ]

  deselected-remaining :
      (items : List Item) (s : Caches) (r : Selection) (t : Caches) (x : Item) (xs : List Item)
      → modify_items c g modified items s ≡ some (r, t)
      → r.deselected ≡ x ∷ xs
      → remaining c g modified t ≡ []
  unfolding modify_items
  deselected-remaining items s r t x xs h e =
      elim (Option-cases
        (visit_all (should_keep c g (affected_files g modified)) (length items) (items, [], s))) [
          | inl e' ↦ absurd (ground arith)
          | inr ((kept, skipped, u), e') ↦ elim (List-cases (remaining c g modified u)) [
            | inl n ↦ ground arith
            | inr (f, fs, n) ↦ absurd (ground arith)
          ]
        ]

  -- Where `pytest_collection_modifyitems` deselects an item, the graph covers every modified file that
  -- exists, unless it is a file of a collected test, or the hook calls it irrelevant among those that
  -- are none.
  pub remaining-modify_items :
      (items : List Item) (s : Caches) (r : Selection) (t : Caches) (x : Item) (xs : List Item)
      → modify_items c g modified items s ≡ some (r, t)
      → r.deselected ≡ x ∷ xs
      → (f : Text) → contains (c.filter_irrelevant_files (diff modified t.test_files)) f ≡ true
      → c.exists f ≡ true
      → (deps : Set Text) × (g.file_depends_on f ≡ some deps)
  unfolding remaining
  remaining-modify_items items s r t x xs h e f m on_disk =
      elim (Option-cases (g.file_depends_on f)) [
        | inl n ↦
            let covered =
              suspects-nil (c.filter_irrelevant_files (diff modified t.test_files)) f
                (deselected-remaining items s r t x xs h e) m on_disk in
            absurd (ground (arith, covered, n))
        | inr found ↦ found
      ]
