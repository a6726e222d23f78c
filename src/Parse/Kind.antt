-- ===== src/Parse/Kind.antt =====
-- src/parse.rs: the tests of `parse_value`, and the steps that the functions of values share.
use rust_json_port_mortem.Base.{
  ℕ, Bool, false, ◌||◌, [], ◌∷◌, Outcome, ok, ◌>>=◌, ◌==◌, in_range, if◌then◌else◌, length,
}
use rust_json_port_mortem.Model.{Bytes}
use rust_json_port_mortem.Parse.State.{Input, ParseBuffer, read, can_read, can_access_at_index}
use rust_json_port_mortem.Parse.Buffer.{buffer_skip_whitespace, matches_at}

-- Which branch of `parse_value` is taken.
pub data Kind : Type 0 where
  null false_ true_ string number array object nothing : Kind

module _ (i : Input) where
  -- `can_read(buf, n) && matches_at(buf, text)`
  unfoldable pub starts_with : ℕ → Bytes → Outcome Bool
  starts_with o text = if can_read i o (length text) then matches_at i o text else ok false

  -- `can_access_at_index(buf, 0) && test(*buffer_at_offset(buf))`
  unfoldable pub next_is : ℕ → (ℕ → Bool) → Outcome Bool
  next_is o test = if can_access_at_index i o 0 then (do c ← read i o; ok (test c)) else ok false

  unfoldable pub value_kind : ℕ → Outcome Kind
  value_kind o = do
    is_null ← starts_with o (b'n' ∷ b'u' ∷ b'l' ∷ b'l' ∷ [])
    if is_null then ok null else do
      is_false ← starts_with o (b'f' ∷ b'a' ∷ b'l' ∷ b's' ∷ b'e' ∷ [])
      if is_false then ok false_ else do
        is_true ← starts_with o (b't' ∷ b'r' ∷ b'u' ∷ b'e' ∷ [])
        if is_true then ok true_ else do
          is_string ← next_is o (λ c. c == b'"')
          if is_string then ok string else do
            is_number ← next_is o (λ c. c == b'-' || in_range b'0' b'9' c)
            if is_number then ok number else do
              is_array ← next_is o (λ c. c == b'[')
              if is_array then ok array else do
                is_object ← next_is o (λ c. c == b'{')
                ok (if is_object then object else nothing)

  -- `buffer_skip_whitespace(input_buffer)`
  unfoldable pub skip : ParseBuffer → Outcome ParseBuffer
  skip b = do o ← buffer_skip_whitespace i b.offset; ok (record b { offset = o })
