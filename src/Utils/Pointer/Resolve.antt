-- ===== src/Utils/Pointer/Resolve.antt =====
-- src/utils.rs: the item that a JSON pointer leads to.
pub mod Walk
use rust_json_port_mortem.Base.{
  ℕ, zero, suc, ◌+◌, Bool, true, false, Option, none, some, [], ◌∷◌, Outcome, ok, out_of_fuel, ◌==◌,
  bit_and, if◌then◌else◌, match_option, length,
}
use rust_json_port_mortem.Model.{
  Bytes, first, behind, CJson, Children, nil, cons, cjson_array, cjson_object,
}
use rust_json_port_mortem.Manip.Lookup.{type_, string, child}
use rust_json_port_mortem.Utils.Pointer.{compare_pointers}
use rust_json_port_mortem.Utils.Pointer.Index.{decode_array_index_from_pointer, skip_element}

module _ {D : Type 0} where
  -- `get_array_item` of this file: the loop
  unfoldable pub array_item_loop : Children D → ℕ → Option (CJson D)
  array_item_loop nil item = none
  array_item_loop (cons x next) zero = some x
  array_item_loop (cons x next) (suc item) = array_item_loop next item

  -- The search of an object in `get_item_from_pointer`
  unfoldable pub member_loop : Bool → Bytes → Children D → Option (CJson D)
  member_loop case_sensitive pointer nil = none
  member_loop case_sensitive pointer (cons x next) =
      let rest = member_loop case_sensitive pointer next in
      if compare_pointers (string x) (some pointer) case_sensitive then some x else rest

  -- The loop of `get_item_from_pointer`; each round takes at least the slash.
  unfoldable pub follow : Bool → ℕ → Bytes → Option (CJson D) → Outcome (Option (CJson D))
  follow case_sensitive zero pointer current = out_of_fuel
  follow case_sensitive (suc fuel) pointer none = ok none
  follow case_sensitive (suc fuel) pointer (some current) =
      let token = behind pointer in
      let rest = follow case_sensitive fuel (skip_element token) in
      if first pointer == b'/'
      then if bit_and (type_ current) 0xFF == cjson_array
        then match_option (decode_array_index_from_pointer token) (ok none)
            (λ index. rest (array_item_loop (child current) index))
        else if bit_and (type_ current) 0xFF == cjson_object
        then rest (member_loop case_sensitive token (child current))
        else ok none
      else ok (some current)

  -- `get_item_from_pointer`
  unfoldable pub get_item_from_pointer :
      Option (CJson D) → Option Bytes → Bool → Outcome (Option (CJson D))
  get_item_from_pointer object none case_sensitive = ok none
  get_item_from_pointer object (some pointer) case_sensitive =
      follow case_sensitive (length pointer + 1) pointer object

  -- `cjson_utils_get_pointer` and `cjson_utils_get_pointer_case_sensitive`
  unfoldable pub cjson_utils_get_pointer :
      Option (CJson D) → Option Bytes → Outcome (Option (CJson D))
  cjson_utils_get_pointer object pointer = get_item_from_pointer object pointer false

  unfoldable pub cjson_utils_get_pointer_case_sensitive :
      Option (CJson D) → Option Bytes → Outcome (Option (CJson D))
  cjson_utils_get_pointer_case_sensitive object pointer = get_item_from_pointer object pointer true
