-- ===== src/Print.antt =====
-- src/print.rs: the printer.
pub mod Buffer
pub mod Number
pub mod Text
pub mod Value
pub mod Written
pub mod Grammar
pub mod Entry
