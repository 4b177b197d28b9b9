-- ===== src/Views.antt =====
-- src/value/tape.rs and src/value/tape/: views of a tape, which read it in place.
pub mod Slices
pub mod Tree
pub mod Array
pub mod Object
pub mod Access
pub mod Lookup
pub mod Walk
pub mod Containers
