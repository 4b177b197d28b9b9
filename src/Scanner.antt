-- ===== src/Scanner.antt =====
-- src/impls/avx2/stage1.rs and src/comments_stripper.rs: the classes of bytes, and comment lines.
pub mod Masks
pub mod Classes
pub mod Backslashes
pub mod Bytewise
pub mod Comments
pub mod Lines
pub mod Indents
pub mod Bodies
pub mod Stripped
