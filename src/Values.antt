-- ===== src/Values.antt =====
-- src/value/: the values that own their tree, and how they are built from a tape.
pub mod Parse
pub mod Merge
pub mod Rebuild
pub mod Ends
pub mod Paths
pub mod Distinct
pub mod Lazy
