-- ===== src/Graph.antt =====
-- _prunepytest.pyi: the import graph, as the Python code calls it. It is written in another
-- language, and it is a parameter of what uses it.
use prunepytest.Prelude.{Option}
use prunepytest.Text.{Text}
use prunepytest.Sets.{Set}

pub record ModuleGraph : Type 0 where
  pub file_depends_on : Text → Option (Set Text)
  pub module_depends_on : Text → Option Text → Option (Set Text)
  pub affected_by_files : Set Text → Set Text
  pub affected_by_modules : Set Text → Set Text
