-- ===== src/Manip/Types.antt =====
-- src/manip.rs: the tests of an item's type, and the values that depend on it.
use rust_json_port_mortem.Base.{
  ℕ, Bool, false, not, Option, none, some, ◌==◌, bit_and, if◌then◌else◌, match_option,
}
use rust_json_port_mortem.Model.{
  Bytes, CJson, node, cjson_invalid, cjson_false, cjson_true, cjson_null, cjson_number,
  cjson_string, cjson_array, cjson_object, cjson_raw,
}
use rust_json_port_mortem.Manip.Lookup.{type_}
use rust_json_port_mortem.Parse.Number.{Libc, saturate}

module _ {D : Type 0} where
  -- `(*item).type_ & 0xFF == t`, and false for null
  unfoldable pub has_type : ℕ → Option (CJson D) → Bool
  has_type t item = match_option item false (λ i. bit_and (type_ i) 0xFF == t)

  abbrev pub cjson_is_invalid : Option (CJson D) → Bool
  cjson_is_invalid = has_type cjson_invalid

  abbrev pub cjson_is_false : Option (CJson D) → Bool
  cjson_is_false = has_type cjson_false

  abbrev pub cjson_is_true : Option (CJson D) → Bool
  cjson_is_true = has_type cjson_true

  unfoldable pub cjson_is_bool : Option (CJson D) → Bool
  cjson_is_bool item = match_option item false (λ i. not (bit_and (type_ i) 3 == 0))

  abbrev pub cjson_is_null : Option (CJson D) → Bool
  cjson_is_null = has_type cjson_null

  abbrev pub cjson_is_number : Option (CJson D) → Bool
  cjson_is_number = has_type cjson_number

  abbrev pub cjson_is_string : Option (CJson D) → Bool
  cjson_is_string = has_type cjson_string

  abbrev pub cjson_is_array : Option (CJson D) → Bool
  cjson_is_array = has_type cjson_array

  abbrev pub cjson_is_object : Option (CJson D) → Bool
  cjson_is_object = has_type cjson_object

  abbrev pub cjson_is_raw : Option (CJson D) → Bool
  cjson_is_raw = has_type cjson_raw

  -- `cjson_get_string_value`
  unfoldable pub cjson_get_string_value : Option (CJson D) → Option Bytes
  cjson_get_string_value none = none
  cjson_get_string_value (some (node t v i d s c)) =
      if not (cjson_is_string (some (node t v i d s c))) then none else v

module _ {D : Type 0} (libc : Libc D) (nan : D) where
  -- `cjson_get_number_value`
  unfoldable pub cjson_get_number_value : Option (CJson D) → D
  cjson_get_number_value none = nan
  cjson_get_number_value (some (node t v i d s c)) =
      if not (cjson_is_number (some (node t v i d s c))) then nan else d

  -- `cjson_set_number_helper`: the item after it, and the result
  unfoldable pub cjson_set_number_helper : Option (CJson D) → D → Option (CJson D) × D
  cjson_set_number_helper none number = (none, nan)
  cjson_set_number_helper (some (node t v i d s c)) number =
      (some (node t v (saturate libc number) number s c), number)
