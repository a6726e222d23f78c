-- ===== src/Utils.antt =====
-- src/utils.rs: JSON pointers, and the finding of them.
pub mod Arrays
pub mod Find
pub mod Sort
pub mod Pointer
