-- ===== src/Manip/Lookup.antt =====
-- src/manip.rs: the strings of C, and the search for the members of arrays and objects.
pub mod Found
pub mod Index
use rust_json_port_mortem.Base.{
  ℕ, zero, suc, ◌+◌, ◌-◌, ◌%◌, ◌^◌, Bool, true, false, not, ◌&&◌, ◌||◌, Option, none, some, List,
  [], ◌∷◌, ◌==◌, ltb, in_range, if◌then◌else◌, match_option, bit_and,
}
use rust_json_port_mortem.Model.{
  Bytes, ℤ, pos, negsuc, CJson, node, Children, nil, cons, cjson_invalid, cjson_false, cjson_true,
  cjson_null, cjson_number, cjson_string, cjson_array, cjson_object, cjson_raw,
}

-- `x - y` of two bytes
unfoldable pub difference : ℕ → ℕ → ℤ
difference x y = if ltb x y then negsuc (y - x - 1) else pos (x - y)

-- `cstr_cmp`
unfoldable pub cstr_cmp : Bytes → Bytes → ℤ
cstr_cmp [] [] = pos 0
cstr_cmp [] (y ∷ b) = difference 0 y
cstr_cmp (x ∷ a) [] = difference x 0
cstr_cmp (x ∷ a) (y ∷ b) = let rest = cstr_cmp a b in if x == y then rest else difference x y

-- `u8::to_ascii_lowercase`
unfoldable pub to_ascii_lowercase : ℕ → ℕ
to_ascii_lowercase c = if in_range 65 90 c then c + 32 else c

-- The loop of `case_insensitive_strcmp`
unfoldable pub insensitive_loop : Bytes → Bytes → ℤ
insensitive_loop [] [] = pos 0
insensitive_loop [] (y ∷ b) = difference 0 (to_ascii_lowercase y)
insensitive_loop (x ∷ a) [] = difference (to_ascii_lowercase x) 0
insensitive_loop (x ∷ a) (y ∷ b) =
    let rest = insensitive_loop a b in
    if to_ascii_lowercase x == to_ascii_lowercase y
    then rest
    else difference (to_ascii_lowercase x) (to_ascii_lowercase y)

-- `case_insensitive_strcmp`; one pointer twice is equal to itself by the loop, too.
unfoldable pub case_insensitive_strcmp : Option Bytes → Option Bytes → ℤ
case_insensitive_strcmp none s2 = pos 1
case_insensitive_strcmp (some s1) none = pos 1
case_insensitive_strcmp (some s1) (some s2) = insensitive_loop s1 s2

-- `n as c_int`
unfoldable pub as_c_int : ℕ → ℤ
as_c_int n =
    let word = n % 2 ^ 32 in if ltb word (2 ^ 31) then pos word else negsuc (2 ^ 32 - word - 1)

abbrev pub is_zero : ℤ → Bool
is_zero (pos n) = n == 0
is_zero (negsuc n) = false

-- The loops of `get_object_item`: whether they pass an item that has this name.
unfoldable pub passes : Bool → Bytes → Option Bytes → Bool
passes true name none = false
passes true name (some s) = not (is_zero (cstr_cmp s name))
passes false name s = not (is_zero (case_insensitive_strcmp (some name) s))

module _ {D : Type 0} where
  abbrev pub type_ : CJson D → ℕ
  type_ (node t v i d s c) = t

  abbrev pub string : CJson D → Option Bytes
  string (node t v i d s c) = s

  abbrev pub child : CJson D → Children D
  child (node t v i d s c) = c

  unfoldable pub search_loop : Bool → Bytes → Children D → Option (CJson D)
  search_loop case_sensitive name nil = none
  search_loop case_sensitive name (cons current next) =
      let rest = search_loop case_sensitive name next in
      if passes case_sensitive name (string current) then rest else some current

  -- `get_object_item`
  unfoldable pub get_object_item : Option (CJson D) → Option Bytes → Bool → Option (CJson D)
  get_object_item none name case_sensitive = none
  get_object_item (some object) none case_sensitive = none
  get_object_item (some object) (some name) case_sensitive =
      match_option (search_loop case_sensitive name (child object)) none
        (λ current. match_option (string current) none (λ s. some current))

  -- `cjson_get_object_item`, `cjson_get_object_item_case_sensitive` and `cjson_has_object_item`
  unfoldable pub cjson_get_object_item : Option (CJson D) → Option Bytes → Option (CJson D)
  cjson_get_object_item object string = get_object_item object string false

  unfoldable pub cjson_get_object_item_case_sensitive :
      Option (CJson D) → Option Bytes → Option (CJson D)
  cjson_get_object_item_case_sensitive object string = get_object_item object string true

  unfoldable pub cjson_has_object_item : Option (CJson D) → Option Bytes → Bool
  cjson_has_object_item object string =
      match_option (cjson_get_object_item object string) false (λ _. true)

  -- `get_array_item`
  unfoldable pub index_loop : Children D → ℕ → Option (CJson D)
  index_loop nil index = none
  index_loop (cons current next) zero = some current
  index_loop (cons current next) (suc index) = index_loop next index

  unfoldable pub get_array_item : Option (CJson D) → ℕ → Option (CJson D)
  get_array_item none index = none
  get_array_item (some array) index = index_loop (child array) index

  -- `cjson_get_array_item`
  unfoldable pub cjson_get_array_item : Option (CJson D) → ℤ → Option (CJson D)
  cjson_get_array_item array (negsuc n) = none
  cjson_get_array_item array (pos index) = get_array_item array index

  -- `cjson_get_array_size`: the loop, and its count as a `c_int`
  unfoldable pub size_loop : Children D → ℕ
  size_loop nil = 0
  size_loop (cons current next) = size_loop next + 1

  unfoldable pub cjson_get_array_size : Option (CJson D) → ℤ
  cjson_get_array_size none = pos 0
  cjson_get_array_size (some array) = as_c_int (size_loop (child array))
