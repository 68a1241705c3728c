-- ===== src/Tests/Selection.antt =====
-- The selector on two tests, one of which is affected by a change.
use mathlib.Core.List.{Perm}
use prunepytest.Prelude.{
  leb, ◌≡◌, ◌+◌, length, refl, ◌⊎◌, ◌++◌, ℕ, true, false, Option, none, some, List, [], ◌∷◌,
  contains, Every, if◌then◌else◌, list_eq, nat_eq,
}
use prunepytest.Text.{Text, text}
use prunepytest.Sets.{diff, Set, union}
use prunepytest.Graph.{ModuleGraph}
use prunepytest.Items.{Item, key_eq}
use prunepytest.Selector.{Config, Caches, no_caches, should_keep}
use prunepytest.Selector.Laws.{IsValid, no_caches-IsValid, verdict, should_keep-verdict}
use prunepytest.Selector.Impact.{Quantiles, Counts, no_counts, impact}
use prunepytest.Selector.Impact.Totals.{impact-total, IsGain}
use prunepytest.Selector.Collection.{Selection, affected_files, modify_items}
use prunepytest.Selector.Collection.Laws.{modify_items-Perm, remaining-modify_items}
use prunepytest.Selector.Collection.Verdicts.{modify_items-verdict}

abbrev known_files : Set Text
known_files = text "a.py" ∷ text "b.py" ∷ text "c.py" ∷ []

abbrev small_graph : ModuleGraph
small_graph = record {
  file_depends_on = λ f. if contains known_files f then some [] else none;
  module_depends_on = λ m p. none;
  affected_by_files = λ fs. [];
  affected_by_modules = λ ms. [];
}

abbrev plain : Config
plain = record {
  rootpath = text "/r";
  under_rel_root = λ p. p;
  always_run = [];
  has_dynamic_hooks = false;
  filter_irrelevant_files = λ fs. fs;
  exists = λ f. true;
}

abbrev test_of : ℕ → Text → Item
test_of n path = record {
  id = n;
  name = text "test_it";
  is_function = true;
  location = path;
  parents = record { id = n; is_file = true; path = path } ∷ [];
}

abbrev two_tests : List Item
two_tests = test_of 1 (text "a.py") ∷ test_of 2 (text "/r/b.py") ∷ []

abbrev changed : Set Text
changed = text "a.py" ∷ text "c.py" ∷ []

selected : Option (Selection × Caches)
unfolding modify_items list_eq nat_eq key_eq
selected = modify_items plain small_graph changed two_tests no_caches

result : Selection × Caches
unfolding selected
result = elim selected [ none ↦ (record { items = []; deselected = [] }, no_caches) | some p ↦ p ]

-- The test in `a.py` is run, the one in `b.py` is not.
result_items :
    result.0
    ≡ record { items = test_of 1 (text "a.py") ∷ []; deselected = test_of 2 (text "/r/b.py") ∷ [] }
unfolding result union
result_items = refl

modify_items-Perm_example : Perm (result.0.items ++ result.0.deselected) two_tests
unfolding result union
modify_items-Perm_example =
    modify_items-Perm plain small_graph changed two_tests no_caches result.0 result.1 refl

remaining-modify_items_example :
    (deps : Set Text) × (small_graph.file_depends_on (text "c.py") ≡ some deps)
unfolding result union diff list_eq nat_eq
remaining-modify_items_example =
    remaining-modify_items plain small_graph changed two_tests no_caches result.0 result.1
      (test_of 2 (text "/r/b.py")) [] refl refl (text "c.py") refl refl

modify_items-verdict_example :
    Every
      (λ i. verdict plain small_graph (affected_files small_graph changed) i ≡ some false)
      result.0.deselected
    × (Every
          (λ i. verdict plain small_graph (affected_files small_graph changed) i ≡ some true)
          result.0.items
        ⊎ (result.0.deselected ≡ []))
unfolding result union
modify_items-verdict_example =
    modify_items-verdict plain small_graph changed two_tests no_caches
      (no_caches-IsValid plain small_graph) result.0 result.1 refl

should_keep-verdict_example :
    ((should_keep plain small_graph changed (test_of 1 (text "a.py")) no_caches).0
      ≡ verdict plain small_graph changed (test_of 1 (text "a.py")))
    × IsValid plain small_graph
        (should_keep plain small_graph changed (test_of 1 (text "a.py")) no_caches).1
should_keep-verdict_example =
    should_keep-verdict plain small_graph changed (test_of 1 (text "a.py")) no_caches
      (no_caches-IsValid plain small_graph)

-- `statistics.quantiles` of Python 3.12
abbrev before_3_13 : Quantiles
before_3_13 = some (leb 2)

analyzed : Counts × Selection
unfolding impact list_eq nat_eq key_eq union
analyzed =
    elim (impact plain small_graph before_3_13 (changed ∷ changed ∷ []) two_tests no_caches) [
      | none ↦ (no_counts, record { items = []; deselected = [] })
      | some r ↦ r
    ]

impact-total_example :
    (analyzed.0.unsafe + analyzed.0.skipped + analyzed.0.nogain + analyzed.0.partial ≡ 2)
    × (length analyzed.0.gains ≡ analyzed.0.partial)
    × Every (IsGain plain small_graph two_tests) analyzed.0.gains
unfolding analyzed
impact-total_example =
    impact-total plain small_graph before_3_13 (changed ∷ changed ∷ []) two_tests no_caches
      analyzed.0 analyzed.1 refl
