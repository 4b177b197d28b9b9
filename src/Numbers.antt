-- ===== src/Numbers.antt =====
-- src/numberparse.rs and src/numberparse/correct.rs: the parser of numbers.
pub mod Digits
pub mod Floats
pub mod Parts
pub mod Parse
pub mod Tables
pub mod Exact
pub mod Spelled
pub mod Integers
pub mod Swar
pub mod Eight
pub mod Range
pub mod Stages
pub mod Points
pub mod Grammar
pub mod Leads
pub mod Safe
pub mod Faster
pub mod Stops
pub mod Ends
