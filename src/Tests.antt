-- ===== src/Tests.antt =====
-- Runs on small inputs, and the theorems at concrete inputs.
mod Imports
mod Dynamic
mod Selection
mod Validation
mod Commits
mod Protocol
mod Loading
mod Scanning
mod SmallProject
mod Commands
mod Sound
mod Running
mod HookFiles
