-- ===== src/Print/Text/Standard.antt =====
-- src/print.rs: the text of a string as RFC 8259 has it, and `print_string_ptr`.
use rust_json_port_mortem.Base.{
  ℕ, ◌+◌, ◌/◌, ◌%◌, ◌<◌, ◌≡◌, ◌≢◌, ◌⊎◌, refl, Bool, not, ◌&&◌, Option, none, some, [], ◌∷◌, ◌++◌,
  arith, Returns, Bool-cases, inl, inr, ltb, ◌==◌,
}
use rust_json_port_mortem.Model.{Bytes}
use rust_json_port_mortem.Alloc.{Grant}
use rust_json_port_mortem.Print.Buffer.{PrintBuffer}
use rust_json_port_mortem.Print.Text.{hex_lower, escape, print_string_ptr}
use rust_json_port_mortem.Print.Text.Escape.{escape_all, quoted, NoNul?}
use rust_json_port_mortem.Print.Text.Result.{print_string_ptr-Done}
use rust_json_port_mortem.Print.Written.{Printed, Ready, Done}

-- The digit of a value up to 15, from 0 to 9 and from a to f.
abbrev pub IsSmallDigit : ℕ → ℕ → Type 0
IsSmallDigit d c = ((d < 10) × (c ≡ 48 + d)) ⊎ ((9 < d) × (c ≡ 87 + d))

-- The text that a byte has between quotes: itself, a backslash and a letter, or its number behind `\u00`.
pub data EscapeOf (c : ℕ) (t : Bytes) : Type 0 where
  plain : 31 < c → c ≢ 34 → c ≢ 92 → t ≡ c ∷ [] → EscapeOf c t
  quote : c ≡ 34 → t ≡ 92 ∷ 34 ∷ [] → EscapeOf c t
  backslash : c ≡ 92 → t ≡ 92 ∷ 92 ∷ [] → EscapeOf c t
  backspace : c ≡ 8 → t ≡ 92 ∷ 98 ∷ [] → EscapeOf c t
  form_feed : c ≡ 12 → t ≡ 92 ∷ 102 ∷ [] → EscapeOf c t
  newline : c ≡ 10 → t ≡ 92 ∷ 110 ∷ [] → EscapeOf c t
  carriage_return : c ≡ 13 → t ≡ 92 ∷ 114 ∷ [] → EscapeOf c t
  tab : c ≡ 9 → t ≡ 92 ∷ 116 ∷ [] → EscapeOf c t
  control :
      (high low : ℕ)
      → c < 32
      → IsSmallDigit (c / 16) high
      → IsSmallDigit (c % 16) low
      → t ≡ 92 ∷ 117 ∷ 48 ∷ 48 ∷ high ∷ low ∷ []
      → EscapeOf c t

-- The escapes of the bytes one behind the other, and these between quotes; a null text is empty.
pub data Escapes : Bytes → Bytes → Type 0 where
  empty : Escapes [] []
  also : {c : ℕ} {s t ts : Bytes} → EscapeOf c t → Escapes s ts → Escapes (c ∷ s) (t ++ ts)

pub data IsQuoted : Option Bytes → Bytes → Type 0 where
  of_null : IsQuoted none (34 ∷ 34 ∷ [])
  of_text : {s t : Bytes} → Escapes s t → IsQuoted (some s) (34 ∷ (t ++ 34 ∷ []))

hex_lower-IsSmallDigit : (d : ℕ) → d < 16 → IsSmallDigit d (hex_lower d)
unfolding hex_lower
hex_lower-IsSmallDigit d h = ground arith

escape-EscapeOf : (c : ℕ) → EscapeOf c (escape c)
unfolding escape
escape-EscapeOf c = elim (Bool-cases (ltb 31 c && (not (c == 34) && not (c == 92)))) [
  | inl e ↦ rw e (plain (ground arith) (ground arith) (ground arith) refl)
  | inr n ↦ rw n (elim (Bool-cases (c == 92)) [
    | inl e ↦ rw e (backslash (ground arith) refl)
    | inr e1 ↦ rw e1 (elim (Bool-cases (c == 34)) [
      | inl e ↦ rw e (quote (ground arith) refl)
      | inr e2 ↦ rw e2 (elim (Bool-cases (c == 8)) [
        | inl e ↦ rw e (backspace (ground arith) refl)
        | inr e3 ↦ rw e3 (elim (Bool-cases (c == 12)) [
          | inl e ↦ rw e (form_feed (ground arith) refl)
          | inr e4 ↦ rw e4 (elim (Bool-cases (c == 10)) [
            | inl e ↦ rw e (newline (ground arith) refl)
            | inr e5 ↦ rw e5 (elim (Bool-cases (c == 13)) [
              | inl e ↦ rw e (carriage_return (ground arith) refl)
              | inr e6 ↦ rw e6 (elim (Bool-cases (c == 9)) [
                | inl e ↦ rw e (tab (ground arith) refl)
                | inr e7 ↦
                    let below : c < 32 = ground (arith, n, e1, e2) in
                    rw e7 (
                      control (hex_lower (c / 16)) (hex_lower (c % 16)) below
                        (hex_lower-IsSmallDigit (c / 16) (omega (arith, below)))
                        (hex_lower-IsSmallDigit (c % 16) (omega arith)) refl)
              ])
            ])
          ])
        ])
      ])
    ])
  ])
]

escape_all-Escapes : (s : Bytes) → Escapes s (escape_all s)
unfolding escape_all
escape_all-Escapes [] = empty
escape_all-Escapes (c ∷ s) = also (escape-EscapeOf c) (escape_all-Escapes s)

quoted-IsQuoted : (s : Option Bytes) → IsQuoted s (quoted s)
unfolding quoted
quoted-IsQuoted none = of_null
quoted-IsQuoted (some s) = of_text (escape_all-Escapes s)

-- Behind the text of a buffer that is ready for more, whose block is not empty, or may be reallocated, or
-- is not to grow, `print_string_ptr` writes a string without nuls between quotes, with the escapes of
-- RFC 8259, and a nul, within the block, or stops.
pub print_string_ptr-IsQuoted :
    (grant : Grant) (reallocate : Bool) (fresh : ℕ → ℕ → ℕ) (format : Bool) (text : Bytes)
    (depth : ℕ) (s : Option Bytes) (b : PrintBuffer)
    → Ready reallocate format text depth b
    → NoNul? s
    → (t : Bytes) × IsQuoted s t
      × Returns
          (Printed (Done reallocate format text t depth) b)
          (print_string_ptr grant reallocate fresh s b)
print_string_ptr-IsQuoted grant reallocate fresh format text depth s b r n = (
  quoted s,
  quoted-IsQuoted s,
  print_string_ptr-Done grant reallocate fresh format text depth s b r n,
)
