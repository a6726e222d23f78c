-- ===== src/Parse/Hex.antt =====
-- src/parse.rs: `parse_hex4`.
pub mod Value
use rust_json_port_mortem.Base.{
  ℕ, zero, suc, ◌+◌, ◌-◌, ◌*◌, ◌%◌, ◌^◌, Option, none, some, Outcome, ok, ◌>>=◌, ◌==◌, in_range,
  if◌then◌else◌, match_option,
}
use rust_json_port_mortem.Parse.State.{Input, read}

-- What a round of the loop adds to `h`; `none` is the early `return 0`.
unfoldable pub hex_digit : ℕ → Option ℕ
hex_digit c =
    if in_range b'0' b'9' c
    then some (c - b'0')
    else if in_range b'A' b'F' c
    then some (10 + (c - b'A'))
    else if in_range b'a' b'f' c
    then some (10 + (c - b'a'))
    else none

module _ (i : Input) where
  -- The rounds that are left, the address of the next digit, and `h`, a `u32`.
  unfoldable pub hex4_loop : ℕ → ℕ → ℕ → Outcome ℕ
  hex4_loop zero p h = ok h
  hex4_loop (suc n) p h =
      let next = hex4_loop n (p + 1) in
      do
        c ← read i p
        match_option (hex_digit c) (ok 0)
            λ d. next (if n == 0 then (h + d) % 2 ^ 32 else (h + d) % 2 ^ 32 * 16 % 2 ^ 32)

  unfoldable pub parse_hex4 : ℕ → Outcome ℕ
  parse_hex4 input = hex4_loop 4 input 0
