-- ===== src/Lib.antt =====
-- A model of cjson-rs, a port of the C library cJSON to Rust that works on raw memory.
--
-- The parts of the program and their files:
-- * src/model.rs, the nodes of a JSON tree, their type flags and the parse buffer: Model, Parse/State.
--   A node is `CJson`; the chain that `child` heads and `next` links is the list `Children`. A text
--   is its bytes, `none` is the null pointer.
-- * src/alloc.rs, the allocation hooks: Alloc, Alloc/Hooks. The hooks are foreign code: a parameter
--   `Grant` says which request gets a block, and `Memory` counts requests, allocations and releases; it does not tell
--   the blocks apart.
-- * src/parse.rs, the parser: Parse and its children. Buffer has the whitespace and the byte order
--   mark, Hex, Utf16 and Text the strings, Number the numbers, Kind and Value the values, Entry the
--   calls that a program makes. The functions have the names of the source; a part of a long function
--   is a definition of its own, which says where it stands in that function.
-- * src/manip.rs, construction and destruction: Manip/Delete has `cjson_delete`, which the parser
--   calls wherever it fails.
-- * src/manip.rs on trees: Manip/Lookup has the comparison of strings and the search of arrays and
--   objects, Manip/Minify `cjson_minify`, Manip/Duplicate `cjson_duplicate`, Manip/Create
--   the constructors, Manip/Types the tests of types.
-- * src/manip.rs on items at addresses: Manip/Links has the store, with the fields of each item by its
--   address, and how often the block of its valuestring and of its string was given back, and commands that
--   read and write them; Chain what it means that an array or object holds a
--   list of items; Operations, Replace, Delete, Dispose and Names the functions.
-- * src/print.rs, the printer: Print and its children. Buffer has the print buffer and `ensure`, Number
--   the numbers, Text the strings, Value the values, Entry the calls. Grammar is the text of a tree,
--   independent of buffers: the theorems say that what the printer writes is of that grammar. Text/Standard has the
--   escapes of RFC 8259.
-- * src/utils.rs, JSON pointers: Utils/Pointer has the elements of a pointer, their comparison with a
--   name and their encoding, Utils/Pointer/Index array indices, Utils/Pointer/Resolve the item that a
--   pointer leads to, and Utils/Find the pointer to an item, where a comparison of addresses is a test
--   of the item. Utils/Sort has the sorting of objects, and Utils/Arrays the
--   detaching from arrays, on items at addresses.
-- The parser calls the allocator for each node, string and copy of a number, and fills the trees that
-- the other parts work on.
--
-- Memory is explicit where it can go wrong: reads of the input are checked against its length, and
-- writes to a block against its size, and an access outside is the outcome `fault`. A theorem with
-- `Returns` says that a run has no fault, has enough fuel, and ends in a state as described.
-- Offsets are natural numbers: a buffer is shorter than the address space, so no sum wraps.
-- A function of the parser that gets an item returns it with its new fields, and nothing where it
-- fails, as the code then leaves the item alone.
--
-- Fuel: a loop over the input has fuel for each byte and one more, and moves forward in each round;
-- `parse_value` has 1001, one more than the nesting limit, since each array and object that it enters
-- adds to the depth and is refused at 1000. A pointer is followed with fuel for each of its
-- bytes. The deletion and the sorting of items at addresses have fuel for each item that they meet.
--
-- A print buffer is a block of a size with the fields of `PrintBuffer`; what a new block holds is a
-- parameter `fresh`, and whether there is a hook `reallocate` is a parameter too. A block that `realloc`
-- gives counts as an allocation, and the old one as released.
--
-- Parameters: `Doubles` is `snprintf` and the operations on doubles of the printer. `strtod`,
-- `localeconv` and the comparisons and conversions of doubles are the record `Libc`; of
-- `strtod` the theorems use that it reads no further than its text.
--
-- Not modelled: of src/manip.rs references, the calls that create an item and add it, comparison and
-- the creation of arrays, and the patches and merge patches of src/utils.rs. The null checks of the parser's buffers are left out, since a buffer here is
-- never null. The C interface (src/ffi.rs) forwards calls.
pub mod Base
pub mod Model
pub mod Alloc
pub mod Manip
pub mod Parse
pub mod Utils
pub mod Print
mod Tests
