-- ===== src/Selector.antt =====
-- pytest/selector.py: which collected tests are run.
pub mod Collection
pub mod Impact
pub mod Laws
pub mod Dynamic
pub mod Finish
use prunepytest.Prelude.{
  ℕ, zero, suc, ◌+◌, Bool, true, false, not, ◌||◌, ◌&&◌, Option, none, some, List, [], ◌∷◌, ◌++◌,
  ◌==◌, contains, length, drop, get_elem?, is_none, is_empty, if◌then◌else◌, list_eq, nat_eq,
  bool_eq, pair_eq,
}
use prunepytest.Text.{Text, text, starts_with, slash}
use prunepytest.FilePath.{is_abs}
use prunepytest.Sets.{Set, add, union, diff}
use prunepytest.Dict.{Dict, lookup, insert, has}
use prunepytest.Graph.{ModuleGraph}
use prunepytest.Items.{Key, of_node, of_item, key_eq, Node, Item, find_file, actual_test_file}

-- What the selector takes from its surroundings: the hook's answers, whether its class has one of the
-- two methods on dynamic dependencies, `rel_root / path`, and the files that exist.
pub record Config : Type 0 where
  pub rootpath : Text
  pub under_rel_root : Text → Text
  pub always_run : Set Text
  pub has_dynamic_hooks : Bool
  pub filter_irrelevant_files : Set Text → Set Text
  pub exists : Text → Bool

-- The caches of `_BaseSelector`. `none` is `UNSET`. That is the empty frozenset: an answer that is the
-- same object is computed again, to the same value.
pub record Caches : Type 0 where
  pub file_cache : Dict Key (Text × Option Text)
  pub covered_files : Dict Text Bool
  pub unhandled : Option (Set Text)
  pub test_files : Set Text

abbrev pub no_caches : Caches
no_caches = record { file_cache = []; covered_files = []; unhandled = none; test_files = [] }

-- `file_cache_key`: the file of a function, or the item itself
unfoldable pub file_cache_key : Item → Key
unfolding find_file
file_cache_key item =
    if item.is_function
    then elim (find_file item.parents) [ none ↦ of_item item | some p ↦ of_node p ]
    else of_item item

-- `assert p.startswith(root)`, and the rest of `p` behind the separator; `none` is an
-- AssertionError.
unfoldable pub strip_root : Text → Text → Option Text
unfolding starts_with
strip_root root p = if starts_with p root then some (drop (length root + 1) p) else none

-- The first adjustment of the file, and the second of the data, which tests the adjusted file.
unfoldable pub relative_file : Text → Text → Option Text
unfolding strip_root
relative_file root file = if is_abs file then strip_root root file else some file

unfoldable pub relative_data : Text → Text → Option Text → Option (Option Text)
unfolding strip_root
relative_data root file none = some none
relative_data root file (some data_) =
    if not (is_empty data_) && is_abs file
    then elim (strip_root root data_) [ none ↦ none | some d ↦ some (some d) ]
    else some (some data_)

unfoldable pub add_data : Option Text → Set Text → Set Text
unfolding add
add_data none s = s
add_data (some d) s = if is_empty d then s else add d s

abbrev pub in_set : Option Text → Set Text → Bool
in_set none s = false
in_set (some d) s = contains s d

abbrev pub get_unhandled : Caches → Set Text
get_unhandled s = elim s.unhandled [ none ↦ [] | some u ↦ u ]

module _ (c : Config) where
  -- `str(self.rel_root / data) if data else data`
  unfoldable pub adjust_data : Option Text → Option Text
  adjust_data none = none
  adjust_data (some d) = if is_empty d then some d else some (c.under_rel_root d)

  -- The file and the data of an item as they are compared with paths in the graph.
  unfoldable pub locate : Item → Option (Text × Option Text)
  unfolding actual_test_file relative_file relative_data adjust_data
  locate item =
      let (file, data_) = actual_test_file item in
      elim (relative_file c.rootpath file) [
        | none ↦ none
        | some f ↦ elim (relative_data c.rootpath f data_) [
          | none ↦ none
          | some d ↦ some (c.under_rel_root f, adjust_data d)
        ]
      ]

  -- What the graph affects from the modules that import dynamically, if the hook knows of no such
  -- imports: a test whose file or data is among these is kept.
  unfoldable pub unhandled_imports : ModuleGraph → Set Text
  unhandled_imports g =
      if c.has_dynamic_hooks
      then []
      else g.affected_by_modules (text "importlib" ∷ text "__import__" ∷ [])

  -- Whether the graph covers a file is looked up once.
  unfoldable pub cover : ModuleGraph → Text → Caches → Caches
  unfolding has insert unhandled_imports
  cover g file s = if has file s.covered_files then s else record s {
    covered_files = insert file (not (is_none (g.file_depends_on file))) s.covered_files;
    unhandled = elim s.unhandled [ none ↦ some (unhandled_imports g) | some u ↦ some u ];
  }

  -- `actual_test_file` of the selector; `none` is an AssertionError.
  unfoldable pub cached_test_file :
      ModuleGraph → Item → Caches → Option (Text × Option Text) × Caches
  unfolding file_cache_key locate cover add_data
  cached_test_file g item s = elim (lookup (file_cache_key item) s.file_cache) [
    | some found ↦ (some found, s)
    | none ↦ elim (locate item) [
      | none ↦ (none, s)
      | some (file, data_) ↦
          let t = cover g file s in
          (
            some (file, data_),
            record t {
              file_cache = insert (file_cache_key item) (file, data_) t.file_cache;
              test_files = add_data data_ (add file t.test_files);
            },
          )
    ]
  ]

  -- The disjunction of `should_keep`.
  unfoldable pub keeps : Item → Set Text → Caches → Text → Option Text → Bool → Bool
  keeps item affected s file data_ is_covered =
      not is_covered
      || contains affected file
      || contains c.always_run file
      || (in_set data_ affected || in_set data_ c.always_run)
      || contains c.always_run item.name
      || contains (get_unhandled s) file
      || in_set data_ (get_unhandled s)

  -- `should_keep`; `none` is an exception.
  unfoldable pub should_keep : ModuleGraph → Set Text → Item → Caches → Option Bool × Caches
  unfolding cached_test_file keeps
  should_keep g affected item s =
      let (r, t) = cached_test_file g item s in
      elim r [
        | none ↦ (none, t)
        | some (file, data_) ↦ elim (lookup file t.covered_files) [
          | none ↦ (none, t)
          | some is_covered ↦ (some (keeps item affected t file data_ is_covered), t)
        ]
      ]

  -- `remaining`: modified files whose effect on the tests is unknown
  unfoldable pub suspects : ModuleGraph → List Text → Set Text
  suspects g [] = []
  suspects g (f ∷ fs) =
      let r = suspects g fs in if c.exists f && is_none (g.file_depends_on f) then f ∷ r else r

  unfoldable pub remaining : ModuleGraph → Set Text → Caches → Set Text
  unfolding suspects diff
  remaining g modified s = suspects g (c.filter_irrelevant_files (diff modified s.test_files))
