-- ===== src/Parse/Number.antt =====
-- src/parse.rs: `get_decimal_point` and `parse_number`.
pub mod Result
use rust_json_port_mortem.Base.{
  ℕ, zero, suc, ◌+◌, ◌^◌, ◌-◌, ◌≤◌, Bool, true, false, not, ◌||◌, Option, none, some, List, [], ◌∷◌,
  Outcome, ok, out_of_fuel, ◌>>=◌, ◌==◌, in_range, if◌then◌else◌, match_option, length, map, ◌++◌,
}
use rust_json_port_mortem.Model.{Bytes, ℤ, pos, negsuc, CJson, node, cjson_number}
use rust_json_port_mortem.Alloc.{Memory, Grant, cjson_alloc, cjson_dealloc}
use rust_json_port_mortem.Parse.Text.{write_bytes}
use rust_json_port_mortem.Parse.State.{Input, ParseBuffer, read, can_access_at_index}

-- What the code uses of libc and of the type of doubles, `D`.
pub record Libc (D : Type 0) : Type 0 where
  -- `localeconv()` and its field `decimal_point`, each of which may be null
  pub localeconv : Option (Option ℕ)
  -- the value, and the count of the bytes that it was read from
  pub strtod : Bytes → D × ℕ
  -- `number >= i32::MAX as f64`, `number <= i32::MIN as f64` and `number as c_int`
  pub ge_int_max : D → Bool
  pub le_int_min : D → Bool
  pub to_int : D → ℤ
  -- the double whose bytes are zero
  pub zero_bits : D

-- `strtod` reads no further than the text that it is given.
abbrev pub StrtodWithin : {D : Type 0} → Libc D → Type 0
StrtodWithin c = (s : Bytes) → (c.strtod s).1 ≤ length s

module _ {D : Type 0} (libc : Libc D) where
  unfoldable pub get_decimal_point : ℕ
  get_decimal_point =
      match_option libc.localeconv b'.'
        λ lconv. match_option lconv b'.' λ decimal_point. decimal_point

  -- The saturated `valueint` of a number.
  unfoldable pub saturate : D → ℤ
  saturate number =
      if libc.ge_int_max number
      then pos (2 ^ 31 - 1)
      else if libc.le_int_min number
      then negsuc (2 ^ 31 - 1)
      else libc.to_int number

-- The bytes that the loop takes for a part of a number, but for the point.
unfoldable pub is_number_byte : ℕ → Bool
is_number_byte c = in_range b'0' b'9' c || (c == b'+' || (c == b'-' || (c == b'e' || c == b'E')))

module _ (i : Input) where
  -- `number_string_length` and `has_decimal_point` behind the loop
  unfoldable pub number_loop : ℕ → ℕ → ℕ → Bool → Outcome (ℕ × Bool)
  number_loop zero o n has_point = out_of_fuel
  number_loop (suc f) o n has_point =
      let next = number_loop f o (n + 1) in
      let body = (do
        c ← read i (o + n)
        if is_number_byte c
            then next has_point
            else if c == b'.'
            then next true
            else ok (n, has_point)) in
      if can_access_at_index i o n then body else ok (n, has_point)

  -- `copy_nonoverlapping` of `n` bytes from an offset
  unfoldable pub copy_bytes : ℕ → ℕ → Outcome Bytes
  copy_bytes o zero = ok []
  copy_bytes o (suc n) = do c ← read i o; cs ← copy_bytes (o + 1) n; ok (c ∷ cs)

module _ {D : Type 0} (libc : Libc D) (grant : Grant) (i : Input) where
  -- What follows the allocation of `number_c_string`, a block of this size.
  unfoldable pub convert_number :
      ℕ → ℕ → Bool → CJson D → ParseBuffer → Outcome (Option (CJson D) × ParseBuffer)
  convert_number size n has_point (node t v vi vd s c) b = do
    text ← copy_bytes i b.offset n
    _ ← write_bytes size [] (text ++ 0 ∷ [])
    let number_c_string =
        if has_point then map (λ c. if c == b'.' then get_decimal_point libc else c) text else text
    let (number, after_end) = libc.strtod number_c_string
    ok (
        if after_end == 0 then (none, record b { memory = cjson_dealloc b.memory }) else (
          some (node cjson_number v (saturate libc number) number s c),
          record b { offset = b.offset + after_end; memory = cjson_dealloc b.memory },
        ))

  -- `parse_number`: the item with its new fields, or `none` for a result of 0, which leaves it alone.
  unfoldable pub parse_number : CJson D → ParseBuffer → Outcome (Option (CJson D) × ParseBuffer)
  parse_number item b = do
    (n, has_point) ← number_loop i (i.length + 1) b.offset 0 false
    let (granted, memory) = cjson_alloc grant (n + 1) b.memory
    if not granted
        then ok (none, record b { memory = memory })
        else convert_number (n + 1) n has_point item (record b { memory = memory })
