-- ===== src/Print/Text.antt =====
-- src/print.rs: `print_string_ptr`.
pub mod Escape
pub mod Result
pub mod Standard
use rust_json_port_mortem.Base.{
  ℕ, zero, suc, ◌+◌, ◌-◌, ◌/◌, ◌%◌, Bool, true, false, not, ◌||◌, ◌&&◌, Option, none, some, List,
  [], ◌∷◌, ◌++◌, Outcome, ok, ◌>>=◌, ltb, ◌==◌, if◌then◌else◌, length,
}
use rust_json_port_mortem.Model.{Bytes}
use rust_json_port_mortem.Alloc.{Grant}
use rust_json_port_mortem.Print.Buffer.{PrintBuffer, or_return, put, ensure, write}

-- The bytes that a character of one letter stands for
unfoldable pub is_short_escape : ℕ → Bool
is_short_escape c =
    c == b'"' || (c == b'\\' || (c == 8 || (c == 12 || (c == 10 || (c == 13 || c == 9)))))

-- The first loop of `print_string_ptr`: `escape_characters`
unfoldable pub escape_characters : Bytes → ℕ
escape_characters [] = 0
escape_characters (c ∷ input) =
    (if is_short_escape c then 1 else if ltb c 32 then 5 else 0) + escape_characters input

unfoldable pub hex_lower : ℕ → ℕ
hex_lower d = if ltb d 10 then b'0' + d else b'a' + d - 10

-- What the second loop writes for a byte.
unfoldable pub escape : ℕ → Bytes
escape c =
    if ltb 31 c && (not (c == b'"') && not (c == b'\\'))
    then c ∷ []
    else if c == b'\\'
    then b'\\' ∷ b'\\' ∷ []
    else if c == b'"'
    then b'\\' ∷ b'"' ∷ []
    else if c == 8
    then b'\\' ∷ b'b' ∷ []
    else if c == 12
    then b'\\' ∷ b'f' ∷ []
    else if c == 10
    then b'\\' ∷ b'n' ∷ []
    else if c == 13
    then b'\\' ∷ b'r' ∷ []
    else if c == 9
    then b'\\' ∷ b't' ∷ []
    else b'\\' ∷ b'u' ∷ b'0' ∷ b'0' ∷ hex_lower (c / 16) ∷ hex_lower (c % 16) ∷ []

-- The second loop.
unfoldable pub write_escaped : ℕ → Bytes → PrintBuffer → Outcome PrintBuffer
write_escaped o [] b = ok b
write_escaped o (c ∷ input) b = write o (escape c) b >>= write_escaped (o + length (escape c)) input

-- The writes of a text with escapes, where its output has this length between the quotes.
unfoldable pub write_quoted : ℕ → Bytes → PrintBuffer → Outcome PrintBuffer
write_quoted output_length input b = do
  b1 ← write b.offset (b'"' ∷ []) b
  b2 ← write_escaped (b.offset + 1) input b1
  write (b.offset + output_length + 1) (b'"' ∷ 0 ∷ []) b2

module _ (grant : Grant) (reallocate : Bool) (fresh : ℕ → ℕ → ℕ) where
  -- `print_string_ptr`
  unfoldable pub print_string_ptr : Option Bytes → PrintBuffer → Outcome (Bool × PrintBuffer)
  print_string_ptr none b = put grant reallocate fresh 3 (b'"' ∷ b'"' ∷ 0 ∷ []) b
  print_string_ptr (some input) b =
      let output_length = length input + escape_characters input in
      or_return (ensure grant reallocate fresh (output_length + 3) b) λ b'.
        if escape_characters input == 0
        then (write b'.offset (b'"' ∷ (input ++ b'"' ∷ 0 ∷ [])) b' >>= λ b''. ok (true, b''))
        else (write_quoted output_length input b' >>= λ b''. ok (true, b''))
