-- ===== src/Parse/Utf16.antt =====
-- src/parse.rs: `utf16_literal_to_utf8`.
pub mod Encode
pub mod Literal
use rust_json_port_mortem.Base.{
  ℕ, zero, suc, ◌+◌, ◌-◌, ◌*◌, ◌/◌, ◌%◌, ◌^◌, bit_and, bit_or, Bool, not, ◌||◌, Option, none, some,
  List, [], ◌∷◌, Outcome, ok, ◌>>=◌, ltb, leb, ◌==◌, in_range, if◌then◌else◌, match_option,
}
use rust_json_port_mortem.Parse.State.{Input, read}
use rust_json_port_mortem.Parse.Hex.{parse_hex4}

-- `utf8_length` and `first_byte_mark` of a code point
unfoldable pub utf8_shape : ℕ → Option (ℕ × ℕ)
utf8_shape codepoint =
    if ltb codepoint 0x80
    then some (1, 0)
    else if ltb codepoint 0x800
    then some (2, 0xC0)
    else if ltb codepoint 0x10000
    then some (3, 0xE0)
    else if leb codepoint 0x10FFFF
    then some (4, 0xF0)
    else none

-- `while pos > 0`, from the last byte back to the second: what is left of `cp`, and the bytes.
unfoldable pub write_tail : ℕ → ℕ → List ℕ → ℕ × List ℕ
write_tail zero cp written = (cp, written)
write_tail (suc pos) cp written =
    write_tail pos (cp / 2 ^ 6) (bit_and (bit_or (cp % 256) 0x80) 0xBF ∷ written)

-- The bytes that are written at `*output_pointer`; `none` is the early `return 0`.
unfoldable pub utf8_bytes : ℕ → Option (List ℕ)
utf8_bytes codepoint = match_option (utf8_shape codepoint) none λ (utf8_length, mark).
    let (cp, tail) = write_tail (utf8_length - 1) codepoint [] in
    some (
      (if ltb 1 utf8_length then bit_and (bit_or (cp % 256) mark) 0xFF else bit_and (cp % 256) 0x7F)
      ∷ tail)

module _ (i : Input) where
  -- `codepoint` and `sequence_length`, once `first_code` is a leading surrogate
  unfoldable pub second_code : ℕ → ℕ → ℕ → Outcome (Option (ℕ × ℕ))
  second_code p input_end first_code =
      let second_sequence = p + 6 in
      if ltb (input_end - second_sequence) 6 then ok none else (do
        a ← read i second_sequence
        b ← read i (second_sequence + 1)
        if not (a == 92) || not (b == b'u') then ok none else (do
          second ← parse_hex4 i (second_sequence + 2)
          ok (
              if not (in_range 0xDC00 0xDFFF second)
              then none
              else some (
                bit_or (0x10000 + bit_and first_code 0x3FF * 2 ^ 10) (bit_and second 0x3FF),
                12,
              ))))

  -- The bytes of the input that are consumed and the bytes that are written; `none` is a result of 0.
  unfoldable pub utf16_literal_to_utf8 : ℕ → ℕ → Outcome (Option (ℕ × List ℕ))
  utf16_literal_to_utf8 p input_end = if ltb (input_end - p) 6 then ok none else (do
    first_code ← parse_hex4 i (p + 2)
    if in_range 0xDC00 0xDFFF first_code then ok none else (do
      code ←
          if in_range 0xD800 0xDBFF first_code
          then second_code p input_end first_code
          else ok (some (first_code, 6))
      ok (
          match_option code none λ (codepoint, sequence_length).
            match_option (utf8_bytes codepoint) none λ bytes. some (sequence_length, bytes))))
