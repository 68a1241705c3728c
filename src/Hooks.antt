-- ===== src/Hooks.antt =====
-- api.py: the classes of hooks, and what they pass to the tracker.
pub mod Prefixes
use prunepytest.Prelude.{Bool, true, false, Option, none, some, List, [], ◌∷◌, list_eq, nat_eq}
use prunepytest.Text.{Text}
use prunepytest.Sets.{Set, union}
use prunepytest.Dict.{Dict}
use prunepytest.Fnmatch.{mixin_is_test_file, is_test_file}
use prunepytest.Loader.{Hook}
use prunepytest.Tracker.Deps.{Name}
use prunepytest.Tracker.Contexts.{Settings}
use prunepytest.Defaults.Assemble.{DefaultHook}

-- The methods that a subclass of `ValidatorHook` has to define, and those that it may define; `none`
-- is an inherited method. The callbacks before and after a folder or a file are not among them.
pub record Methods : Type 0 where
  pub global_namespaces : Set Text
  pub local_namespaces : Set Text
  pub source_roots : Dict Text Text
  pub test_folders : Dict Text Text
  pub include_typechecking : Option Bool
  pub external_imports : Option (Set Text)
  pub dynamic_dependencies : Option (Dict Text (Set Text))
  pub dynamic_dependencies_at_leaves : Option (List (Text × Dict Text (Set Text)))
  pub import_patches : Option (Option (Set Name))
  pub record_dynamic : Option Bool
  pub implicit_anchor_aggregation : Option Bool
  pub dynamic_anchors : Option (Option (Dict Name (Set Text)))
  pub dynamic_ignores : Option (Option (Dict Name (Set Text)))
  pub tracker_log : Option (Option Text)
  pub is_test_file : Option (Text → Bool)
  pub always_run : Option (Set Text)
  pub filter_irrelevant_files : Option (Set Text → Set Text)

-- The answers of `TrackerMixin`.
pub record TrackerHook : Type 0 where
  pub import_patches : Option (Set Name)
  pub record_dynamic : Bool
  pub implicit_anchor_aggregation : Bool
  pub dynamic_anchors : Option (Dict Name (Set Text))
  pub dynamic_ignores : Option (Dict Name (Set Text))
  pub tracker_log : Option Text

-- The answers of a `ValidatorHook`.
pub record ValidatorHook : Type 0 where
  pub base : Hook
  pub open base use *
  pub tracking : TrackerHook
  pub test_folders : Dict Text Text
  pub is_test_file : Text → Bool
  pub always_run : Set Text
  pub filter_irrelevant_files : Set Text → Set Text

-- A method, or the one that the base class has.
abbrev pub or_inherited {ℓ} : {A : Type ℓ} → Option A → A → A
or_inherited none a = a
or_inherited (some b) a = b

abbrev pub base_hook : Methods → Hook
base_hook m = record {
  global_namespaces = m.global_namespaces;
  local_namespaces = m.local_namespaces;
  source_roots = m.source_roots;
  include_typechecking = or_inherited m.include_typechecking false;
  external_imports = or_inherited m.external_imports [];
  dynamic_dependencies = or_inherited m.dynamic_dependencies [];
  dynamic_dependencies_at_leaves = or_inherited m.dynamic_dependencies_at_leaves [];
}

abbrev pub tracker_hook : Methods → TrackerHook
tracker_hook m = record {
  import_patches = or_inherited m.import_patches none;
  record_dynamic = or_inherited m.record_dynamic false;
  implicit_anchor_aggregation = or_inherited m.implicit_anchor_aggregation false;
  dynamic_anchors = or_inherited m.dynamic_anchors none;
  dynamic_ignores = or_inherited m.dynamic_ignores none;
  tracker_log = or_inherited m.tracker_log none;
}

unfoldable pub validator_hook : Methods → ValidatorHook
validator_hook m = record {
  base = base_hook m;
  tracking = tracker_hook m;
  test_folders = m.test_folders;
  is_test_file = or_inherited m.is_test_file mixin_is_test_file;
  always_run = or_inherited m.always_run [];
  filter_irrelevant_files = or_inherited m.filter_irrelevant_files (λ files. files);
}

-- The methods of `DefaultHook`, for a pattern that is a text or none.
unfoldable pub default_methods : DefaultHook → Option Text → Methods
default_methods h pattern = record {
  global_namespaces = h.global_ns;
  local_namespaces = h.local_ns;
  source_roots = h.src_roots;
  test_folders = h.tst_dirs;
  include_typechecking = none;
  external_imports = none;
  dynamic_dependencies = none;
  dynamic_dependencies_at_leaves = none;
  import_patches = none;
  record_dynamic = none;
  implicit_anchor_aggregation = none;
  dynamic_anchors = none;
  dynamic_ignores = none;
  tracker_log = none;
  is_test_file = some (is_test_file pattern);
  always_run = none;
  filter_irrelevant_files = none;
}

-- `anchors or {}`
abbrev pub or_empty {ℓ} : {A : Type ℓ} → Option (List A) → List A
or_empty none = []
or_empty (some d) = d

-- The arguments of `start_tracking` in `validate` and in `PruneValidator`.
unfoldable pub settings_of : ValidatorHook → Settings
unfolding union
settings_of h = record {
  prefixes = union h.global_namespaces h.local_namespaces;
  patches = or_empty h.tracking.import_patches;
  implicit_anchor_aggregation = h.tracking.implicit_anchor_aggregation;
  dynamic_anchors = or_empty h.tracking.dynamic_anchors;
  dynamic_ignores = or_empty h.tracking.dynamic_ignores;
  ignore_prefixes = h.external_imports;
}
