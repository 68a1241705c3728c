-- ===== src/Loader.antt =====
-- util.py: the import graph is built, or read from a file. The graph's code is a parameter.
pub mod Shared
pub mod Hooks
pub mod Files
pub mod Handoff
pub mod Replay
use prunepytest.Prelude.{
  ℕ, Bool, true, false, not, ◌&&◌, ◌||◌, Option, none, some, List, [], ◌∷◌, map, is_empty, is_none,
  if◌then◌else◌, list_eq, nat_eq,
}
use prunepytest.Text.{Text, text}
use prunepytest.Sets.{Set, add, union}
use prunepytest.Dict.{Dict, lookup, insert}
use prunepytest.FilePath.{join_paths, below, relative_to, dirname}
use prunepytest.Graph.{ModuleGraph}

-- What a process sees of the file system.
pub data Entry : Type 0 where
  folder : Entry
  regular : List ℕ → Entry

pub record World : Type 0 where
  pub cwd : Text
  pub entries : Dict Text Entry

-- The answers of a `BaseHook`.
pub record Hook : Type 0 where
  pub global_namespaces : Set Text
  pub local_namespaces : Set Text
  pub external_imports : Set Text
  pub source_roots : Dict Text Text
  pub dynamic_dependencies : Dict Text (Set Text)
  pub include_typechecking : Bool
  pub dynamic_dependencies_at_leaves : List (Text × Dict Text (Set Text))

-- The arguments of `ModuleGraph`.
pub record GraphArgs : Type 0 where
  pub source_roots : Dict Text Text
  pub global_prefixes : Set Text
  pub local_prefixes : Set Text
  pub external_prefixes : Set Text
  pub dynamic_deps : Dict Text (Set Text)
  pub include_typechecking : Bool

-- The class `ModuleGraph`: its constructor, which reads the source files, and the two directions
-- of its serialization.
pub record GraphClass : Type 0 where
  pub build : World → GraphArgs → ModuleGraph
  pub add_dynamic_dependencies_at_leaves :
      List (Text × Dict Text (Set Text)) → ModuleGraph → ModuleGraph
  pub dump : ModuleGraph → List ℕ
  pub parse : List ℕ → Option ModuleGraph

unfoldable pub entry_at : World → Text → Option Entry
unfolding lookup
entry_at w p = lookup (join_paths w.cwd p) w.entries

abbrev pub is_file_entry : Option Entry → Bool
is_file_entry none = false
is_file_entry (some folder) = false
is_file_entry (some (regular b)) = true

abbrev pub is_folder_entry : Option Entry → Bool
is_folder_entry none = false
is_folder_entry (some folder) = true
is_folder_entry (some (regular b)) = false

-- `os.path.isfile(p)`, `os.path.exists(p)`
abbrev pub is_file : World → Text → Bool
is_file w p = is_file_entry (entry_at w p)

abbrev pub exists : World → Text → Bool
exists w p = not (is_none (entry_at w p))

abbrev pub is_folder : World → Text → Bool
is_folder w p = is_folder_entry (entry_at w p)

-- `with chdir(d):` around code that changes nothing; the current directory is set back in any case.
unfoldable pub in_dir : {A : Type 0} → Text → (World → Option A) → World → Option A
in_dir d body w = if is_folder w d then body (record w { cwd = join_paths w.cwd d }) else none

-- `{str(rel_root / sr): i for sr, i in source_roots.items()}`, onto the entries of `roots`
unfoldable pub place_roots : Text → Dict Text Text → Dict Text Text → Dict Text Text
unfolding insert
place_roots rel_root [] roots = roots
place_roots rel_root ((sr, i) ∷ rest) roots =
    place_roots rel_root rest (insert (below rel_root sr) i roots)

unfoldable pub graph_args : Hook → Option Text → GraphArgs
unfolding union place_roots
graph_args hook rel_root = record {
  source_roots = elim rel_root [
    | none ↦ hook.source_roots
    | some r ↦ place_roots r hook.source_roots []
  ];
  global_prefixes = hook.global_namespaces;
  local_prefixes = hook.local_namespaces;
  external_prefixes = union hook.external_imports (text "importlib" ∷ text "__import__" ∷ []);
  dynamic_deps = hook.dynamic_dependencies;
  include_typechecking = hook.include_typechecking;
}

module _ (graphs : GraphClass) where
  abbrev pub read_entry : Option Entry → Option ModuleGraph
  read_entry none = none
  read_entry (some folder) = none
  read_entry (some (regular b)) = graphs.parse b

  -- `ModuleGraph.from_file(p)`
  unfoldable pub from_file : World → Text → Option ModuleGraph
  from_file w p = read_entry (entry_at w p)

  -- `graph.to_file(p)`
  unfoldable pub to_file : ModuleGraph → Text → World → Option World
  unfolding insert
  to_file g p w =
      if is_empty p || is_folder w p || not (is_folder w (dirname (join_paths w.cwd p)))
      then none
      else some
          (record w { entries = insert (join_paths w.cwd p) (regular (graphs.dump g)) w.entries })

  unfoldable pub build_graph : Hook → Option Text → World → ModuleGraph
  build_graph hook rel_root w =
      let g = graphs.build w (graph_args hook rel_root) in
      let per_pkg = hook.dynamic_dependencies_at_leaves in
      if is_empty per_pkg then g else graphs.add_dynamic_dependencies_at_leaves per_pkg g

  -- `rel_root / file` if there is a root
  abbrev pub place_file : Option Text → Text → Text
  place_file none file = file
  place_file (some r) file = below r file

  -- `load_import_graph`
  unfoldable pub load_import_graph : Hook → Option Text → Option Text → World → Option ModuleGraph
  load_import_graph hook none rel_root w = some (build_graph hook rel_root w)
  load_import_graph hook (some file) rel_root w =
      if not (is_empty file) && exists w file
      then from_file w (place_file rel_root file)
      else some (build_graph hook rel_root w)
