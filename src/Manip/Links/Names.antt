-- ===== src/Manip/Links/Names.antt =====
-- src/manip.rs: the members of an object by their names, on items at addresses.
pub mod Add
pub mod Detach
use rust_json_port_mortem.Base.{
  ℕ, zero, suc, Bool, true, false, not, ◌&&◌, ◌||◌, Option, none, some, ◌-◌, ◌==◌, bit_and, bit_or,
  if◌then◌else◌, match_option, ok, out_of_fuel,
}
use rust_json_port_mortem.Model.{Bytes, cjson_string_is_const}
use rust_json_port_mortem.Alloc.{Grant}
use rust_json_port_mortem.Manip.Delete.{is_string_is_const, is_some}
use rust_json_port_mortem.Manip.Duplicate.{cjson_strdup}
use rust_json_port_mortem.Manip.Lookup.{passes}
use rust_json_port_mortem.Manip.Links.{
  null, Action, pure, ◌>>=◌, ◌>>◌, next_of, child_of, type_of, string_of, set_type, set_string,
  free_string,
}
use rust_json_port_mortem.Manip.Links.Operations.{add_item_to_array, cjson_detach_item_via_pointer}
use rust_json_port_mortem.Manip.Links.Delete.{cjson_delete}
use rust_json_port_mortem.Manip.Links.Dispose.{cjson_replace_item_via_pointer}

-- The old name of an item is given back, unless it is not the item's own.
unfoldable pub free_name : ℕ → ℕ → Action (Unit {0})
free_name t item = string_of item >>= λ s.
    if not (is_string_is_const t) && is_some s then free_string item else pure tt

-- `new_type` of `add_item_to_object`
unfoldable pub new_type : Bool → ℕ → ℕ
new_type constant_key t =
    if constant_key then bit_or t cjson_string_is_const else t - bit_and t cjson_string_is_const

module _ (grant : Grant) where
  -- The call of `cjson_strdup` for a name
  unfoldable pub duplicate_name : Bytes → Action (Option Bytes)
  duplicate_name name h =
      let r = cjson_strdup grant name h.memory in ok (r.0, record h { memory = r.1 })

  -- `add_item_to_object`
  unfoldable pub add_item_to_object : ℕ → Option Bytes → ℕ → Bool → Action Bool
  add_item_to_object object none item constant_key = pure false
  add_item_to_object object (some name) item constant_key =
      if object == null || item == null || object == item
      then pure false
      else type_of item >>= λ t.
          (if constant_key then pure (some name) else duplicate_name name) >>= λ new_key.
          if not (is_some new_key)
          then pure false
          else free_name t item
            >> set_string item new_key
            >> set_type item (new_type constant_key t)
            >> add_item_to_array object item

  -- `cjson_add_item_to_object` and `cjson_add_item_to_object_cs`
  unfoldable pub cjson_add_item_to_object : ℕ → Option Bytes → ℕ → Action Bool
  cjson_add_item_to_object object string item = add_item_to_object object string item false

  unfoldable pub cjson_add_item_to_object_cs : ℕ → Option Bytes → ℕ → Action Bool
  cjson_add_item_to_object_cs object string item = add_item_to_object object string item true

-- The loops of `get_object_item`
unfoldable pub name_loop : Bool → Bytes → ℕ → ℕ → Action ℕ
name_loop case_sensitive name zero current = λ h. out_of_fuel
name_loop case_sensitive name (suc fuel) current =
    let rest = name_loop case_sensitive name fuel in
    if current == null
    then pure null
    else string_of current >>= λ s.
        if passes case_sensitive name s then next_of current >>= rest else pure current

-- `get_object_item`
unfoldable pub get_object_item : ℕ → ℕ → Option Bytes → Bool → Action ℕ
get_object_item fuel object none case_sensitive = pure null
get_object_item fuel object (some name) case_sensitive =
    if object == null
    then pure null
    else child_of object >>= λ child. name_loop case_sensitive name fuel child >>= λ current.
        if current == null
        then pure null
        else string_of current >>= λ s. if is_some s then pure current else pure null

-- `cjson_detach_item_from_object` and `cjson_detach_item_from_object_case_sensitive`
unfoldable pub detach_item_from_object : Bool → ℕ → ℕ → Option Bytes → Action ℕ
detach_item_from_object case_sensitive fuel object string =
    get_object_item fuel object string case_sensitive >>= cjson_detach_item_via_pointer object

-- `cjson_delete_item_from_object` and `cjson_delete_item_from_object_case_sensitive`
unfoldable pub delete_item_from_object : Bool → ℕ → ℕ → Option Bytes → Action (Unit {0})
delete_item_from_object case_sensitive fuel object string =
    detach_item_from_object case_sensitive fuel object string >>= cjson_delete fuel

-- `replace_item_in_object`
unfoldable pub replace_item_in_object : Grant → ℕ → ℕ → Option Bytes → ℕ → Bool → Action Bool
replace_item_in_object grant fuel object none replacement case_sensitive = pure false
replace_item_in_object grant fuel object (some name) replacement case_sensitive =
    if replacement == null
    then pure false
    else (type_of replacement >>= λ t. free_name t replacement)
      >> (duplicate_name grant name >>= λ new_key.
          set_string replacement new_key
          >> (if not (is_some new_key)
              then pure false
              else (type_of replacement >>= λ t. set_type replacement (new_type false t))
                >> (get_object_item fuel object (some name) case_sensitive >>= λ item.
                    cjson_replace_item_via_pointer fuel object item replacement)))
