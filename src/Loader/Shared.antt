-- ===== src/Loader/Shared.antt =====
-- pytest/util.py: `GraphLoader`, which loads the graph once, and shares it between the processes of
-- pytest-xdist.
use prunepytest.Prelude.{
  Bool, true, false, not, ◌&&◌, Option, none, some, is_empty, is_none, if◌then◌else◌, list_eq,
  nat_eq,
}
use prunepytest.Text.{Text, text}
use prunepytest.Dict.{Dict, lookup}
use prunepytest.FilePath.{relative_to}
use prunepytest.Graph.{ModuleGraph}
use prunepytest.Loader.{
  World, Hook, GraphClass, is_file, in_dir, from_file, to_file, load_import_graph,
}

-- A session of pytest: `config.workerinput`, which only a worker has, and the answers of
-- `hasplugin("dsession")` and `is_xdist_controller`, which may raise an AttributeError.
pub record Session : Type 0 where
  pub workerinput : Option (Dict Text Text)
  pub has_dsession : Option Bool
  pub is_xdist_controller : Option Bool

-- `safe_is_xdist_controller`
unfoldable pub safe_is_xdist_controller : Session → Bool
safe_is_xdist_controller s = elim s.has_dsession [
  | none ↦ false
  | some active ↦ if active then elim s.is_xdist_controller [ none ↦ false | some b ↦ b ] else false
]

-- A `GraphLoader`, with the root path of its configuration.
pub record Loader : Type 0 where
  pub rootpath : Text
  pub hook : Hook
  pub graph_path : Option Text
  pub graph_root : Text
  pub graph : Option ModuleGraph

-- The fields of `_XdistHelper`.
pub record Helper : Type 0 where
  pub is_controller : Bool
  pub loader : Loader

-- `load_path`
unfoldable pub existing_path : World → Option Text → Option Text
existing_path w none = none
existing_path w (some p) = if not (is_empty p) && is_file w p then some p else none

module _ (graphs : GraphClass) where
  -- What follows the loading: the controller saves a graph that was not read from a file; without a
  -- path that is an exception.
  unfoldable pub saved : Bool → Option Text → World → ModuleGraph → Option (ModuleGraph × World)
  saved false path w g = some (g, w)
  saved true none w g = none
  saved true (some path) w g = elim (to_file graphs g path w) [
    | none ↦ none
    | some w' ↦ some (g, w')
  ]

  abbrev pub save_loaded :
      Bool → Option Text → World → Option ModuleGraph → Option (ModuleGraph × World)
  save_loaded saves path w none = none
  save_loaded saves path w (some g) = saved saves path w g

  abbrev pub unchanged : World → Option ModuleGraph → Option (ModuleGraph × World)
  unchanged w none = none
  unchanged w (some g) = some (g, w)

  abbrev pub read_shared : World → Option Text → Option (ModuleGraph × World)
  read_shared w none = none
  read_shared w (some path) = unchanged w (from_file graphs w path)

  unfoldable pub load_own : Loader → Session → World → Option Text → Option (ModuleGraph × World)
  load_own l s w none = none
  load_own l s w (some rel_root) =
      let load_path = existing_path w l.graph_path in
      save_loaded (safe_is_xdist_controller s && is_none load_path) l.graph_path w
        (in_dir l.graph_root (load_import_graph graphs l.hook load_path (some rel_root)) w)

  abbrev pub load_as :
      Loader → Session → World → Option (Dict Text Text) → Option (ModuleGraph × World)
  load_as l s w (some workerinput) = read_shared w (lookup (text "graph_path") workerinput)
  load_as l s w none = load_own l s w (relative_to l.rootpath l.graph_root)

  -- `GraphLoader.load`; `none` is an exception.
  unfoldable pub load : Loader → Session → World → Option (ModuleGraph × World)
  load l s w = load_as l s w s.workerinput

  abbrev pub keep : Loader → Option (ModuleGraph × World) → Option (ModuleGraph × Loader × World)
  keep l none = none
  keep l (some (g, w)) = some (g, record l { graph = some g }, w)

  abbrev pub get_from :
      Option ModuleGraph → Session → Loader → World → Option (ModuleGraph × Loader × World)
  get_from (some g) s l w = some (g, l, w)
  get_from none s l w = keep l (load l s w)

  -- `GraphLoader.get`
  unfoldable pub get : Session → Loader → World → Option (ModuleGraph × Loader × World)
  get s l w = get_from l.graph s l w

  abbrev pub started : Option (ModuleGraph × Loader × World) → Option (Helper × World)
  started none = none
  started (some (g, l, w)) = some (record { is_controller = true; loader = l }, w)

  -- `_XdistHelper.pytest_sessionstart`
  unfoldable pub session_start : Session → Helper → World → Option (Helper × World)
  session_start s h w =
      if safe_is_xdist_controller s then started (get s h.loader w) else some (h, w)
