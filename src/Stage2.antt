-- ===== src/Stage2.antt =====
-- src/stage2.rs: from the structural indexes to the tape.
pub mod Machine
pub mod Slack
pub mod Adds
pub mod Scopes
pub mod Triple
pub mod Quiet
pub mod Frames
pub mod Scan
pub mod Header
pub mod Rows
pub mod States
pub mod Declared
pub mod Build
pub mod Total
