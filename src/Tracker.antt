-- ===== src/Tracker.antt =====
-- tracker.py
pub mod Deps
pub mod State
pub mod Frames
pub mod Warnings
pub mod Install
pub mod Patches
pub mod Dynamic
pub mod Load
pub mod Contexts
