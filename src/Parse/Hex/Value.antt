-- ===== src/Parse/Hex/Value.antt =====
-- src/parse.rs: the number that `parse_hex4` reads.
use rust_json_port_mortem.Base.{
  ℕ, zero, suc, ◌+◌, ◌*◌, ◌%◌, ◌^◌, ◌≤◌, ◌<◌, ◌≡◌, inl, inr, some, arith, Returns, returns,
  Option-cases, ok, ◌==◌, if◌then◌else◌, ap,
}
use rust_json_port_mortem.Parse.State.{Input, read-ok}
use rust_json_port_mortem.Parse.Hex.{hex_digit, hex4_loop, parse_hex4}

pub hex_digit-lt : (c : ℕ) {d : ℕ} → hex_digit c ≡ some d → d < 16
unfolding hex_digit
hex_digit-lt c h = ground arith

-- The hexadecimal digits and their values.
pub data HexDigit : ℕ → ℕ → Type 0 where
  decimal : {d : ℕ} → d < 10 → HexDigit (48 + d) d
  capital : {d : ℕ} → d < 6 → HexDigit (65 + d) (10 + d)
  small : {d : ℕ} → d < 6 → HexDigit (97 + d) (10 + d)

HexDigit-lt : {c d : ℕ} → HexDigit c d → d < 16
HexDigit-lt (decimal h) = omega arith
HexDigit-lt (capital h) = omega arith
HexDigit-lt (small h) = omega arith

hex_digit-HexDigit : {c d : ℕ} → HexDigit c d → hex_digit c ≡ some d
unfolding hex_digit
hex_digit-HexDigit (decimal h) = ground arith
hex_digit-HexDigit (capital h) = ground arith
hex_digit-HexDigit (small h) = ground arith

module _ (i : Input) where
  -- With `n` rounds left and `h` at most `cap n` the result fits into 16 bits.
  abbrev cap : ℕ → ℕ
  cap zero = 65535
  cap (suc zero) = 65520
  cap (suc (suc zero)) = 4080
  cap (suc (suc (suc zero))) = 240
  cap _ = 0

  step-le-cap :
      (n h d : ℕ)
      → n ≤ 3
      → h ≤ cap (suc n)
      → d < 16
      → (if n == 0 then (h + d) % 2 ^ 32 else (h + d) % 2 ^ 32 * 16 % 2 ^ 32) ≤ cap n
  step-le-cap zero h d k c lt = omega arith
  step-le-cap (suc zero) h d k c lt = omega arith
  step-le-cap (suc (suc zero)) h d k c lt = omega arith
  step-le-cap (suc (suc (suc zero))) h d k c lt = omega arith
  step-le-cap (suc (suc (suc (suc n)))) h d k c lt = absurd (omega arith)

  hex4_loop-lt :
      (n p h : ℕ)
      → n ≤ 4
      → h ≤ cap n
      → p + n ≤ i.length
      → Returns (λ r. r < 2 ^ 16) (hex4_loop i n p h)
  unfolding hex4_loop
  hex4_loop-lt zero p h k c r = returns (omega arith)
  hex4_loop-lt (suc n) p h k c r =
      rw (read-ok i p (omega arith)) (elim (Option-cases (hex_digit (i.content p))) [
        | inl e ↦ rw e (returns (omega arith))
        | inr (d, e) ↦ rw e (
            hex4_loop-lt n (p + 1) _ (omega arith)
              (step-le-cap n h d (omega arith) c (hex_digit-lt _ e)) (omega arith))
      ])

  -- Four bytes that may be read give 16 bits.
  pub parse_hex4-lt : (p : ℕ) → p + 4 ≤ i.length → Returns (λ r. r < 2 ^ 16) (parse_hex4 i p)
  unfolding parse_hex4
  parse_hex4-lt p h = hex4_loop-lt 4 p 0 (omega arith) (omega arith) h

  -- Four hexadecimal digits, small or capital letters among them, give their number.
  pub parse_hex4-digits :
      (p : ℕ) {a b c d : ℕ}
      → p + 4 ≤ i.length
      → HexDigit (i.content p) a
      → HexDigit (i.content (p + 1)) b
      → HexDigit (i.content (p + 1 + 1)) c
      → HexDigit (i.content (p + 1 + 1 + 1)) d
      → parse_hex4 i p ≡ ok (((a * 16 + b) * 16 + c) * 16 + d)
  unfolding parse_hex4 hex4_loop
  parse_hex4-digits p h ha hb hc hd =
      rw
        (
          read-ok i p (omega arith),
          hex_digit-HexDigit ha,
          read-ok i (p + 1) (omega arith),
          hex_digit-HexDigit hb,
          read-ok i (p + 1 + 1) (omega arith),
          hex_digit-HexDigit hc,
          read-ok i (p + 1 + 1 + 1) (omega arith),
          hex_digit-HexDigit hd,
        )
        (ap ok (omega (arith, HexDigit-lt ha, HexDigit-lt hb, HexDigit-lt hc, HexDigit-lt hd)))
