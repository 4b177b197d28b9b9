-- ===== src/Strings.antt =====
-- src/charutils.rs, src/stringparse.rs and src/impls/avx2/deser.rs: quoted strings and their escapes.
pub mod Chars
pub mod Utf8
pub mod Hex
pub mod Escape
pub mod Surrogates
pub mod Parse
pub mod Windows
pub mod Loops
pub mod Takes
pub mod Ends
pub mod Closed
pub mod Settled
pub mod Text
pub mod Quoted
