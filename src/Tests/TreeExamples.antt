-- ===== src/Tests/TreeExamples.antt =====
-- src/manip.rs, src/utils.rs: the theorems at concrete inputs.
use rust_json_port_mortem.Base.{
  ℕ, ◌≤◌, ◌≡◌, refl, ◌↔◌, true, some, none, [], ◌∷◌, ◌++◌, length, ◌<◌, arith,
}
use rust_json_port_mortem.Model.{Bytes, CJson, node, nil, cons, pos}
use rust_json_port_mortem.Manip.Minify.{
  skip_oneline_comment, skip_multiline_comment, minify_string, minify_step, minify_loop,
  cjson_minify,
}
use rust_json_port_mortem.Manip.Minify.Length.{cjson_minify-total}
use rust_json_port_mortem.Alloc.{Keeps, cjson_alloc}
use rust_json_port_mortem.Manip.Duplicate.{
  cjson_duplicate, duplicate_rec, copy_fields, copy_text, cjson_strdup, without_reference,
}
use rust_json_port_mortem.Tests.{always, no_memory, libc, twice}
use rust_json_port_mortem.Manip.Create.{cjson_create_string}
use rust_json_port_mortem.Manip.Create.Blocks.{owned_by, cjson_create_string-Keeps}
use rust_json_port_mortem.Manip.Lookup.{
  get_object_item, cjson_get_array_item, cjson_get_array_size, size_loop, as_c_int,
}
use rust_json_port_mortem.Manip.Delete.{is_some}
use rust_json_port_mortem.Manip.Lookup.Index.{cjson_get_array_item-size}
use rust_json_port_mortem.Manip.Lookup.Found.{NoNul, Search, get_object_item-Search}
use rust_json_port_mortem.Utils.Pointer.{in_element, compare_pointers, encode_string_as_pointer}
use rust_json_port_mortem.Utils.Pointer.Encode.{compare_pointers-encode}

-- `a/~`, and `/x` behind it in a pointer
abbrev name : Bytes
name = b'a' ∷ b'/' ∷ b'~' ∷ []

abbrev path : Bytes
path = b'/' ∷ b'x' ∷ []

name-NoNul : NoNul name
name-NoNul = ((λ e. cc e), ((λ e. cc e), ((λ e. cc e), tt)))

compare_pointers-encode_example :
    (compare_pointers (some name) (some (encode_string_as_pointer name ++ path)) true ≡ true)
    ↔ (name ≡ name)
unfolding in_element
compare_pointers-encode_example = compare_pointers-encode name name path name-NoNul refl

-- `[ "\" " , /**/ 1 ]//x`
abbrev spaced : Bytes
spaced =
    b'[' ∷ b' ' ∷ b'"' ∷ b'\\' ∷ b'"' ∷ b' ' ∷ b'"' ∷ b' ' ∷ b',' ∷ b'/' ∷ b'*' ∷ b'*' ∷ b'/' ∷ b'1'
    ∷ b' ' ∷ b']' ∷ b'/' ∷ b'/' ∷ b'x' ∷ []

cjson_minify-total_example :
    (out : Bytes) × (cjson_minify spaced ≡ some out) × (length out ≤ length spaced)
cjson_minify-total_example = cjson_minify-total spaced

minified :
    cjson_minify spaced ≡ some (b'[' ∷ b'"' ∷ b'\\' ∷ b'"' ∷ b' ' ∷ b'"' ∷ b',' ∷ b'1' ∷ b']' ∷ [])
unfolding cjson_minify minify_loop minify_step minify_string skip_oneline_comment
    skip_multiline_comment
minified = refl

abbrev member : CJson ℕ
member = node 4 none (pos 0) 0 (some name) nil

abbrev object : CJson ℕ
object = node 64 none (pos 0) 0 none (cons member nil)

get_object_item-Search_example :
    Search name (cons member nil) (get_object_item (some object) (some name) true)
get_object_item-Search_example =
    get_object_item-Search object name name-NoNul ((name, refl, name-NoNul), tt)

-- A copy of a tree is equal to it.
duplicated : (cjson_duplicate always (some object) true no_memory).0 ≡ some object
unfolding cjson_duplicate duplicate_rec copy_fields copy_text cjson_strdup without_reference
    cjson_alloc
duplicated = refl

cjson_get_array_item-size_example :
    (is_some (cjson_get_array_item (some object) (pos 0)) ≡ true) ↔ (0 < 1)
unfolding cjson_get_array_size size_loop as_c_int
cjson_get_array_item-size_example = cjson_get_array_item-size object 1 0 (omega arith) refl

cjson_create_string-Keeps_example :
    Keeps
      (owned_by (cjson_create_string libc twice (some name) no_memory).0)
      no_memory
      (cjson_create_string libc twice (some name) no_memory).1
cjson_create_string-Keeps_example = cjson_create_string-Keeps libc twice (some name) no_memory
