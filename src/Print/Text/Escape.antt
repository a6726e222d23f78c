-- ===== src/Print/Text/Escape.antt =====
-- src/print.rs: the text that `print_string_ptr` writes for a string.
use rust_json_port_mortem.Base.{
  ℕ, ◌+◌, ◌≡◌, ◌≢◌, refl, ap, Option, none, some, [], ◌∷◌, ◌++◌, arith, if◌then◌else◌, length,
  length-append, ltb,
}
use rust_json_port_mortem.Model.{Bytes}
use rust_json_port_mortem.Manip.Lookup.Found.{NoNul}
use rust_json_port_mortem.Print.Text.{is_short_escape, escape_characters, hex_lower, escape}

-- The escapes of a text, one behind the other, and between quotes.
unfoldable pub escape_all : Bytes → Bytes
escape_all [] = []
escape_all (c ∷ s) = escape c ++ escape_all s

unfoldable pub quoted : Option Bytes → Bytes
quoted none = b'"' ∷ b'"' ∷ []
quoted (some s) = b'"' ∷ (escape_all s ++ b'"' ∷ [])

-- The first loop counts what the second one writes beyond the text itself.
length-escape :
    (c : ℕ) → length (escape c) ≡ 1 + (if is_short_escape c then 1 else if ltb c 32 then 5 else 0)
unfolding escape is_short_escape
length-escape c = ground arith

pub length-escape_all : (s : Bytes) → length (escape_all s) ≡ length s + escape_characters s
unfolding escape_all escape_characters
length-escape_all [] = refl
length-escape_all (c ∷ s) =
    omega (arith, length-append (escape c) (escape_all s), length-escape c, length-escape_all s)

-- What the first loop counts for a byte
unfoldable pub extra : ℕ → ℕ
extra c = if is_short_escape c then 1 else if ltb c 32 then 5 else 0

plain-escape : (c : ℕ) → extra c ≡ 0 → escape c ≡ c ∷ []
unfolding escape is_short_escape extra
plain-escape c h = ground arith

-- A text with nothing to escape is written as it is.
pub escape_all-plain : (s : Bytes) → escape_characters s ≡ 0 → escape_all s ≡ s
unfolding escape_all escape_characters extra
escape_all-plain [] h = refl
escape_all-plain (c ∷ s) h =
    rw (plain-escape c (omega (arith, h))) (ap (λ t. c ∷ t) (escape_all-plain s (omega (arith, h))))

pub NoNul-append : (xs ys : Bytes) → NoNul xs → NoNul ys → NoNul (xs ++ ys)
NoNul-append [] ys h k = k
NoNul-append (x ∷ xs) ys h k = (h.0, NoNul-append xs ys h.1 k)

NoNul-escape : (c : ℕ) → c ≢ 0 → NoNul (escape c)
unfolding escape hex_lower
NoNul-escape c h = ground arith

NoNul-escape_all : (s : Bytes) → NoNul s → NoNul (escape_all s)
unfolding escape_all
NoNul-escape_all [] h = tt
NoNul-escape_all (c ∷ s) h =
    NoNul-append (escape c) (escape_all s) (NoNul-escape c h.0) (NoNul-escape_all s h.1)

-- No text has a nul, where there is one.
abbrev pub NoNul? : Option Bytes → Type 0
NoNul? none = Unit
NoNul? (some s) = NoNul s

pub NoNul-quoted : (s : Option Bytes) → NoNul? s → NoNul (quoted s)
unfolding quoted
NoNul-quoted none h = ground arith
NoNul-quoted (some s) h =
    ((λ e. cc e), NoNul-append (escape_all s) (b'"' ∷ []) (NoNul-escape_all s h) ((λ e. cc e), tt))
