-- ===== src/Tracker/Load/Machinery.antt =====
-- The code around tracker.py: Python's import machinery and the modules that it executes. Nothing
-- is assumed of it but that it reaches the tracker through the hooks alone.
use prunepytest.Prelude.{Bool, List}
use prunepytest.Text.{Text}
use prunepytest.Tracker.Deps.{Name}
use prunepytest.Tracker.State.{Anchor, Frame, Module, Outcome}
use prunepytest.Tracker.Frames.{Paths}

-- A run of such code, up to its end: it returns or raises, imports a name, handles a `from` list,
-- or calls a function that is wrapped to record its use. What comes next may depend on the outcome,
-- and on the state of the interpreter, `W`.
pub data Body (W : Type 0) : Type 0 where
  done : Outcome → W → Body W
  import_ : Name → W → (Outcome → W → Body W) → Body W
  from_import : Module → List Text → W → (Outcome → W → Body W) → Body W
  use_anchor : Anchor → W → (W → Body W) → Body W

pub record System : Type 1 where
  pub World : Type 0
  -- `importlib._bootstrap._find_and_load` and `_handle_fromlist`, before they are replaced
  pub find_and_load : World → Name → Body World
  pub handle_fromlist : World → Module → List Text → Body World
  -- `traceback.extract_stack()`
  pub extract_stack : World → List Frame
  -- `apply_patches` for a module: whether it raises, and its effect
  pub patch : World → Name → Bool × World
  pub paths : Paths
