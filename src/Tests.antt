-- ===== src/Tests.antt =====
-- Inputs for the tests and the examples, and a libc in which numbers are decimal integers.
mod ParseTests
mod ParseExamples
mod TreeExamples
mod PrintExamples
mod PointerExamples
mod LinkExamples
use rust_json_port_mortem.Base.{
  ℕ, zero, suc, ◌+◌, ◌-◌, ◌*◌, ◌≤◌, ◌^◌, Bool, true, false, some, List, [], ◌∷◌, arith, in_range,
  leb, if◌then◌else◌, length, get_or, Bool-cases, inl, inr,
}
use rust_json_port_mortem.Model.{Bytes, pos}
use rust_json_port_mortem.Alloc.{Memory, Grant}
use rust_json_port_mortem.Parse.State.{Input, ParseBuffer}
use rust_json_port_mortem.Parse.Number.{Libc, StrtodWithin}

abbrev pub input : Bytes → Input
input text = record { content = λ k. get_or text k 0; length = length text }

abbrev pub no_memory : Memory
no_memory = record { requests = 0; allocs = 0; frees = 0 }

abbrev pub buffer : ParseBuffer
buffer = record { offset = 0; depth = 0; memory = no_memory }

-- An allocator that never fails, and one that fails from its third call on.
abbrev pub always : Grant
always _ _ = true

abbrev pub twice : Grant
twice n _ = leb n 1

-- The digits at the front of a text, as a number, and their count.
abbrev pub decimal : ℕ → ℕ → Bytes → ℕ × ℕ
decimal value n [] = (value, n)
decimal value n (c ∷ cs) =
    if in_range b'0' b'9' c then decimal (value * 10 + (c - b'0')) (n + 1) cs else (value, n)

abbrev pub libc : Libc ℕ
libc = record {
  localeconv = some (some b'.');
  strtod = decimal 0 0;
  ge_int_max = λ n. leb (2 ^ 31 - 1) n;
  le_int_min = λ _. false;
  to_int = pos;
  zero_bits = 0;
}

decimal-within : (value n : ℕ) (s : Bytes) → (decimal value n s).1 ≤ n + length s
decimal-within value n [] = omega arith
decimal-within value n (c ∷ cs) = elim (Bool-cases (in_range b'0' b'9' c)) [
  | inl d ↦ rw d (omega (arith, decimal-within (value * 10 + (c - b'0')) (n + 1) cs))
  | inr d ↦ rw d (omega arith)
]

pub libc-within : StrtodWithin libc
libc-within s = omega (arith, decimal-within 0 0 s)

-- {"a" : [12, "\u00e9"]} and a nul
abbrev pub document : Bytes
document =
    b'{' ∷ b'"' ∷ b'a' ∷ b'"' ∷ b' ' ∷ b':' ∷ b' ' ∷ b'[' ∷ b'1' ∷ b'2' ∷ b',' ∷ b' ' ∷ b'"' ∷ 92
    ∷ b'u' ∷ b'0' ∷ b'0' ∷ b'e' ∷ b'9' ∷ b'"' ∷ b']' ∷ b'}' ∷ 0 ∷ []

-- "\u000\\": after the first literal the copy is a byte behind the scan
abbrev pub misaligned : Bytes
misaligned = b'"' ∷ 92 ∷ b'u' ∷ b'0' ∷ b'0' ∷ b'0' ∷ 92 ∷ 92 ∷ b'"' ∷ []

-- \ud83d\ude00
abbrev pub surrogates : Bytes
surrogates = 92 ∷ b'u' ∷ b'd' ∷ b'8' ∷ b'3' ∷ b'd' ∷ 92 ∷ b'u' ∷ b'd' ∷ b'e' ∷ b'0' ∷ b'0' ∷ []
