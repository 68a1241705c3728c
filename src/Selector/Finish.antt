-- ===== src/Selector/Finish.antt =====
-- pytest/selector.py: `_BaseSelector.pytest_sessionfinish`.
use prunepytest.Prelude.{ℕ}

-- `ExitCode`
pub data ExitCode : Type 0 where
  ok no_tests_collected : ExitCode
  other : ℕ → ExitCode

-- `session.exitstatus` afterwards: that no test is left to run is no failure.
unfoldable pub session_finish : ExitCode → ExitCode → ExitCode
session_finish no_tests_collected exitstatus = ok
session_finish ok exitstatus = exitstatus
session_finish (other n) exitstatus = exitstatus
