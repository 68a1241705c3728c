-- ===== src/Validator.antt =====
-- validator.py: the imports that are tracked while all tests are loaded, compared with the graph.
pub mod Walk
pub mod Subset
pub mod Folder
pub mod Prepare
pub mod Main
