-- ===== src/Model.antt =====
-- src/model.rs: type flags, limits and the node of a JSON tree.
mod Tree
unfoldable pub use Tree.*
use rust_json_port_mortem.Base.{ℕ}

abbrev pub cjson_invalid : ℕ
cjson_invalid = 0

abbrev pub cjson_false : ℕ
cjson_false = 1

abbrev pub cjson_true : ℕ
cjson_true = 2

abbrev pub cjson_null : ℕ
cjson_null = 4

abbrev pub cjson_number : ℕ
cjson_number = 8

abbrev pub cjson_string : ℕ
cjson_string = 16

abbrev pub cjson_array : ℕ
cjson_array = 32

abbrev pub cjson_object : ℕ
cjson_object = 64

abbrev pub cjson_raw : ℕ
cjson_raw = 128

abbrev pub cjson_is_reference : ℕ
cjson_is_reference = 256

abbrev pub cjson_string_is_const : ℕ
cjson_string_is_const = 512

-- Limits how deeply arrays and objects can be nested.
abbrev pub cjson_nesting_limit : ℕ
cjson_nesting_limit = 1000
