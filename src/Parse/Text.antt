-- ===== src/Parse/Text.antt =====
-- src/parse.rs: `parse_string`.
pub mod Scan
pub mod Copy
pub mod Loop
pub mod Result
use rust_json_port_mortem.Base.{
  ℕ, zero, suc, ◌+◌, ◌-◌, ◌≡◌, Bool, true, false, not, ◌||◌, Option, none, some, List, [], ◌∷◌,
  ◌++◌, Outcome, ok, fault, out_of_fuel, ◌>>=◌, ltb, leb, ◌==◌, if◌then◌else◌, match_option, length,
}
use rust_json_port_mortem.Model.{Bytes}
use rust_json_port_mortem.Alloc.{Memory, Grant, cjson_alloc, cjson_dealloc}
use rust_json_port_mortem.Parse.State.{Input, ParseBuffer, read}
use rust_json_port_mortem.Parse.Utf16.{utf16_literal_to_utf8}

-- Writes at `output_pointer`, behind what has been written to a block of this size.
unfoldable pub write_bytes : ℕ → Bytes → Bytes → Outcome Bytes
write_bytes size written bs =
    if leb (length written + length bs) size then ok (written ++ bs) else fault

-- The byte that a one character escape stands for; `none` at `u` and at an invalid escape.
unfoldable pub unescape : ℕ → Option ℕ
unescape c =
    if c == b'b'
    then some 8
    else if c == b'f'
    then some 12
    else if c == b'n'
    then some 10
    else if c == b'r'
    then some 13
    else if c == b't'
    then some 9
    else if c == b'"' || c == 92 || c == b'/'
    then some c
    else none

module _ (i : Input) where
  -- `while input_end < length && *input_end != '"'`: `input_end` and `skipped_bytes` behind the loop;
  -- `none` is the jump to `fail` at a backslash that ends the buffer.
  unfoldable pub scan_loop : ℕ → ℕ → ℕ → Outcome (Option (ℕ × ℕ))
  scan_loop zero input_end skipped = out_of_fuel
  scan_loop (suc f) input_end skipped =
      let escaped = scan_loop f (input_end + 1 + 1) (skipped + 1) in
      let plain = scan_loop f (input_end + 1) skipped in
      let body = (do
        c ← read i input_end
        if c == b'"'
            then ok (some (input_end, skipped))
            else if c == 92
            then if leb i.length (input_end + 1) then ok none else escaped
            else plain) in
      if ltb input_end i.length then body else ok (some (input_end, skipped))

  -- The bytes that an escape sequence consumes and writes; `none` leaves the loop.
  unfoldable pub escape_sequence : ℕ → ℕ → Outcome (Option (ℕ × Bytes))
  escape_sequence input_pointer input_end = do
    c ← read i (input_pointer + 1)
    if c == b'u'
        then utf16_literal_to_utf8 i input_pointer input_end
        else ok (match_option (unescape c) none λ b. some (2, b ∷ []))

  -- The loop over the bytes of the string, where a plain byte takes one round too: `input_pointer`
  -- behind the loop, and what has been written to `output`, a block of this size.
  unfoldable pub copy_loop : ℕ → ℕ → ℕ → ℕ → Bytes → Outcome (ℕ × Bytes)
  copy_loop zero size input_end input_pointer output = out_of_fuel
  copy_loop (suc f) size input_end input_pointer output =
      let next = copy_loop f size input_end in
      let body = (do
        c ← read i input_pointer
        if not (c == 92)
            then (do output' ← write_bytes size output (c ∷ []); next (input_pointer + 1) output')
            else (do
              escape ← escape_sequence input_pointer input_end
              match_option escape (ok (input_pointer, output)) λ (sequence_length, bytes). (do
                output' ← write_bytes size output bytes
                next (input_pointer + sequence_length) output'))) in
      if ltb input_pointer input_end then body else ok (input_pointer, output)

  -- What follows the allocation of `output`: the copy, and the two ways out of the function.
  unfoldable pub copy_string : ℕ → ℕ → ℕ → ParseBuffer → Outcome (Option Bytes × ParseBuffer)
  copy_string size start input_end b = do
    (input_pointer, output) ← copy_loop (i.length + 1) size input_end (start + 1) []
    if ltb input_pointer input_end
        then ok (none, record b { offset = input_pointer; memory = cjson_dealloc b.memory })
        else (do
          _ ← write_bytes size output (0 ∷ [])
          ok (some output, record b { offset = input_end + 1 }))

module _ (grant : Grant) (i : Input) where
  -- The allocation of `output`, and what follows it.
  unfoldable pub allocate_string : ℕ → ℕ → ParseBuffer → Outcome (Option Bytes × ParseBuffer)
  allocate_string input_end skipped_bytes b =
      let size = input_end - b.offset - skipped_bytes + 1 in
      let (granted, memory) = cjson_alloc grant size b.memory in
      if not granted
      then ok (none, record b { offset = b.offset + 1; memory = memory })
      else copy_string i size b.offset input_end (record b { memory = memory })

  -- `parse_string`: the block that becomes `valuestring`, or `none` for a result of 0. Both write the
  -- new offset.
  unfoldable pub parse_string : ParseBuffer → Outcome (Option Bytes × ParseBuffer)
  parse_string b =
      let fail : Option Bytes × ParseBuffer = (none, record b { offset = b.offset + 1 }) in
      do
        at ← read i b.offset
        if not (at == b'"') then ok fail else (do
          scanned ← scan_loop i (i.length + 1) (b.offset + 1) 0
          match_option scanned (ok fail) λ (input_end, skipped_bytes).
              if leb i.length input_end then ok fail else (do
                close ← read i input_end
                if not (close == b'"') then ok fail else allocate_string input_end skipped_bytes b))
