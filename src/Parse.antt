-- ===== src/Parse.antt =====
-- src/parse.rs: the state of the parse engine. The functions stand in the children, in the order in
-- which they call one another.
pub mod State
pub mod Buffer
pub mod Hex
pub mod Utf16
pub mod Text
pub mod Parsed
pub mod Number
pub mod Kind
pub mod Value
pub mod Entry
