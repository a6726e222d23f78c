-- ===== src/Manip.antt =====
-- src/manip.rs: construction and destruction of items, and the operations on trees.
pub mod Delete
pub mod Minify
pub mod Links
pub mod Lookup
pub mod Duplicate
pub mod Create
pub mod Types
