-- ===== src/Tests/PointerExamples.antt =====
-- src/utils.rs: the theorems on pointers at concrete inputs, and a run of the search.
use rust_json_port_mortem.Base.{
  ℕ, ◌≡◌, refl, Bool, some, none, [], ◌∷◌, ◌++◌, arith, ok, Returns, ◌==◌,
}
use rust_json_port_mortem.Model.{Bytes, CJson, node, nil, cons, pos}
use rust_json_port_mortem.Alloc.{cjson_alloc, cjson_dealloc}
use rust_json_port_mortem.Manip.Lookup.{type_, size_loop}
use rust_json_port_mortem.Manip.Lookup.Found.{NoNul, here}
use rust_json_port_mortem.Print.Number.{digits, to_string}
use rust_json_port_mortem.Utils.Pointer.{
  in_element, pointer_encoded_length, encode_string_as_pointer,
}
use rust_json_port_mortem.Utils.Pointer.Index.{
  decode_array_index_from_pointer, decode_array_index_from_pointer-to_string,
}
use rust_json_port_mortem.Utils.Pointer.Resolve.{
  array_item_loop, cjson_utils_get_pointer_case_sensitive,
}
use rust_json_port_mortem.Utils.Pointer.Resolve.Walk.{
  Walk, arrived, into_array, into_object, front, further,
  cjson_utils_get_pointer_case_sensitive-Walk,
}
use rust_json_port_mortem.Utils.Find.{
  cjson_utils_strdup, full_pointer, extend, find_pointer, find_below,
  cjson_utils_find_pointer_from_object_to,
}
use rust_json_port_mortem.Utils.Find.Located.{IsAddressable, members, named, nothing, Located}
use rust_json_port_mortem.Utils.Find.Result.{
  Resolved, cjson_utils_find_pointer_from_object_to-Located,
  cjson_utils_find_pointer_from_object_to-Resolved,
}
use rust_json_port_mortem.Tests.{always, no_memory}

-- `/x` behind an index
abbrev path : Bytes
path = b'/' ∷ b'x' ∷ []

decode_array_index_from_pointer-to_string_example :
    decode_array_index_from_pointer (to_string 120 ++ path) ≡ some 120
unfolding in_element
decode_array_index_from_pointer-to_string_example =
    decode_array_index_from_pointer-to_string 120 path (omega arith) refl

-- {"a/": [null, true]}
abbrev key : Bytes
key = b'a' ∷ b'/' ∷ []

key-NoNul : NoNul key
key-NoNul = ((λ e. cc e), ((λ e. cc e), tt))

abbrev leaf : ℕ → CJson ℕ
leaf t = node t none (pos 0) 0 none nil

abbrev array : CJson ℕ
array = node 32 none (pos 0) 0 (some key) (cons (leaf 4) (cons (leaf 2) nil))

abbrev object : CJson ℕ
object = node 64 none (pos 0) 0 none (cons array nil)

-- /a~1/1
abbrev pointer : Bytes
pointer = b'/' ∷ encode_string_as_pointer key ++ b'/' ∷ to_string 1 ++ []

walk : Walk object pointer (leaf 2)
unfolding array_item_loop encode_string_as_pointer
walk =
    into_object key refl key-NoNul ((key, refl, key-NoNul), tt) (here refl)
      (into_array 1 refl (omega arith) (further front) arrived)

cjson_utils_get_pointer_case_sensitive-Walk_example :
    cjson_utils_get_pointer_case_sensitive (some object) (some pointer) ≡ ok (some (leaf 2))
cjson_utils_get_pointer_case_sensitive-Walk_example =
    cjson_utils_get_pointer_case_sensitive-Walk object (leaf 2) pointer walk

-- The target is the item true.
abbrev is_target : CJson ℕ → Bool
is_target x = type_ x == 2

object-IsAddressable : IsAddressable object
unfolding IsAddressable size_loop
object-IsAddressable = (
  named refl ((key, refl, key-NoNul), tt) ((λ s e. tt), tt),
  ((members refl (omega arith), ((nothing refl, tt), ((nothing refl, tt), tt))), tt),
)

cjson_utils_find_pointer_from_object_to-Located_example :
    Returns
      (Located is_target object no_memory)
      (cjson_utils_find_pointer_from_object_to always (some object) (some is_target) no_memory)
cjson_utils_find_pointer_from_object_to-Located_example =
    cjson_utils_find_pointer_from_object_to-Located always (λ _ _. refl) is_target object no_memory
      object-IsAddressable

cjson_utils_find_pointer_from_object_to-Resolved_example :
    Returns
      (Resolved always (λ _ _. refl) is_target object)
      (cjson_utils_find_pointer_from_object_to always (some object) (some is_target) no_memory)
cjson_utils_find_pointer_from_object_to-Resolved_example =
    cjson_utils_find_pointer_from_object_to-Resolved always (λ _ _. refl) is_target object no_memory
      object-IsAddressable

target_is_found :
    cjson_utils_find_pointer_from_object_to always (some object) (some is_target) no_memory
    ≡ ok (
      some (b'/' ∷ b'a' ∷ b'~' ∷ b'1' ∷ b'/' ∷ b'1' ∷ []),
      record { requests = 3; allocs = 3; frees = 2 },
    )
unfolding cjson_utils_find_pointer_from_object_to find_pointer find_below extend full_pointer
    cjson_utils_strdup cjson_alloc cjson_dealloc to_string digits pointer_encoded_length
    encode_string_as_pointer
target_is_found = refl
