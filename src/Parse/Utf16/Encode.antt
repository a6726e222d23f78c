-- ===== src/Parse/Utf16/Encode.antt =====
-- src/parse.rs: the bytes that `utf16_literal_to_utf8` writes are UTF-8.
use rust_json_port_mortem.Base.{
  ℕ, ◌+◌, ◌*◌, ◌/◌, ◌%◌, ◌≤◌, ◌<◌, ◌≡◌, refl, ap, ◌∙◌, bit_and, bit_or, some, List, [], ◌∷◌, arith,
  ◌==◌, ==_iff, all_below, all_below_sound, length, true, lt→ltb, ge→ltb, le→leb,
}
use native.Mathlib.Decide.{dec_lt}
use rust_json_port_mortem.Parse.Utf16.{utf8_shape, write_tail, utf8_bytes}

-- The well-formed byte sequences of the Unicode standard (table 3-6), in shortest form.
pub data IsUtf8 : ℕ → List ℕ → Type 0 where
  one : {c : ℕ} {bs : List ℕ} → c < 0x80 → bs ≡ c ∷ [] → IsUtf8 c bs
  two :
      {c : ℕ} {bs : List ℕ} (y x : ℕ)
      → x < 64
      → c ≡ y * 64 + x
      → 0x80 ≤ c
      → c < 0x800
      → bs ≡ (0xC0 + y) ∷ (0x80 + x) ∷ []
      → IsUtf8 c bs
  three :
      {c : ℕ} {bs : List ℕ} (z y x : ℕ)
      → y < 64
      → x < 64
      → c ≡ (z * 64 + y) * 64 + x
      → 0x800 ≤ c
      → c < 0x10000
      → bs ≡ (0xE0 + z) ∷ (0x80 + y) ∷ (0x80 + x) ∷ []
      → IsUtf8 c bs
  four :
      {c : ℕ} {bs : List ℕ} (u z y x : ℕ)
      → z < 64
      → y < 64
      → x < 64
      → c ≡ ((u * 64 + z) * 64 + y) * 64 + x
      → 0x10000 ≤ c
      → c ≤ 0x10FFFF
      → bs ≡ (0xF0 + u) ∷ (0x80 + z) ∷ (0x80 + y) ∷ (0x80 + x) ∷ []
      → IsUtf8 c bs

tail_table : all_below 256 (λ x. bit_and (bit_or x 0x80) 0xBF == 0x80 + x % 64) ≡ true
unfolding all_below
tail_table = refl

tail_byte : (x : ℕ) → bit_and (bit_or (x % 256) 0x80) 0xBF ≡ 0x80 + x % 64
tail_byte x =
    (==_iff _ _).0 (all_below_sound 256 _ (x % 256) tail_table (omega arith)) ∙ omega arith

lead_table : all_below 32 (λ x. bit_and (bit_or (x % 256) 0xC0) 0xFF == 0xC0 + x) ≡ true
unfolding all_below
lead_table = refl

lead_table_three : all_below 16 (λ x. bit_and (bit_or (x % 256) 0xE0) 0xFF == 0xE0 + x) ≡ true
unfolding all_below
lead_table_three = refl

lead_table_four : all_below 8 (λ x. bit_and (bit_or (x % 256) 0xF0) 0xFF == 0xF0 + x) ≡ true
unfolding all_below
lead_table_four = refl

plain_table : all_below 128 (λ x. bit_and (x % 256) 0x7F == x) ≡ true
unfolding all_below
plain_table = refl

lookup : (n : ℕ) (f g : ℕ → ℕ) (x : ℕ) → all_below n (λ y. f y == g y) ≡ true → x < n → f x ≡ g x
lookup n f g x t h = (==_iff _ _).0 (all_below_sound n (λ y. f y == g y) x t h)

encode_one : (c : ℕ) → c < 0x80 → utf8_bytes c ≡ some (c ∷ [])
unfolding utf8_bytes utf8_shape write_tail
encode_one c h = rw (lt→ltb c 0x80 h, lookup 128 _ (λ x. x) c plain_table h)

encode_two :
    (c : ℕ) → 0x80 ≤ c → c < 0x800 → utf8_bytes c ≡ some ((0xC0 + c / 64) ∷ (0x80 + c % 64) ∷ [])
unfolding utf8_bytes utf8_shape write_tail
encode_two c lo hi = rw (
  ge→ltb c 0x80 lo,
  lt→ltb c 0x800 hi,
  tail_byte c,
  lookup 32 _ (λ x. 0xC0 + x) (c / 64) lead_table (omega arith),
)

encode_three :
    (c : ℕ)
    → 0x800 ≤ c
    → c < 0x10000
    → utf8_bytes c ≡ some ((0xE0 + c / 64 / 64) ∷ (0x80 + c / 64 % 64) ∷ (0x80 + c % 64) ∷ [])
unfolding utf8_bytes utf8_shape write_tail
encode_three c lo hi = rw (
  ge→ltb c 0x80 (omega arith),
  ge→ltb c 0x800 lo,
  lt→ltb c 0x10000 hi,
  tail_byte c,
  tail_byte (c / 64),
  lookup 16 _ (λ x. 0xE0 + x) (c / 64 / 64) lead_table_three (omega arith),
)

encode_four :
    (c : ℕ)
    → 0x10000 ≤ c
    → c ≤ 0x10FFFF
    → utf8_bytes c
      ≡ some (
          (0xF0 + c / 64 / 64 / 64)
          ∷ (0x80 + c / 64 / 64 % 64)
          ∷ (0x80 + c / 64 % 64)
          ∷ (0x80 + c % 64)
          ∷ [])
unfolding utf8_bytes utf8_shape write_tail
encode_four c lo hi = rw (
  ge→ltb c 0x80 (omega arith),
  ge→ltb c 0x800 (omega arith),
  ge→ltb c 0x10000 lo,
  le→leb c 0x10FFFF hi,
  tail_byte c,
  tail_byte (c / 64),
  tail_byte (c / 64 / 64),
  lookup 8 _ (λ x. 0xF0 + x) (c / 64 / 64 / 64) lead_table_four (omega arith),
)

-- Every code point up to 0x10FFFF is written, in its shortest form.
pub utf8_bytes-IsUtf8 :
    (c : ℕ) → c ≤ 0x10FFFF → (bs : List ℕ) × (utf8_bytes c ≡ some bs) × IsUtf8 c bs
utf8_bytes-IsUtf8 c h = elim (dec_lt c 0x80) [
  | yes p ↦ (_, encode_one c p, one p refl)
  | no p ↦ elim (dec_lt c 0x800) [
    | yes q ↦ (
      _,
      encode_two c (omega arith) q,
      two (c / 64) (c % 64) (omega arith) (omega arith) (omega arith) q refl,
    )
    | no q ↦ elim (dec_lt c 0x10000) [
      | yes r ↦ (
        _,
        encode_three c (omega arith) r,
        three (c / 64 / 64) (c / 64 % 64) (c % 64) (omega arith) (omega arith) (omega arith)
            (omega arith) r refl,
      )
      | no r ↦ (
        _,
        encode_four c (omega arith) h,
        four (c / 64 / 64 / 64) (c / 64 / 64 % 64) (c / 64 % 64) (c % 64) (omega arith)
            (omega arith) (omega arith) (omega arith) (omega arith) h refl,
      )
    ]
  ]
]

-- The number of bytes that a code point takes.
pub IsUtf8-length : {c : ℕ} {bs : List ℕ} → IsUtf8 c bs → length bs ≤ 4
IsUtf8-length (one h e) = omega (arith, ap length e)
IsUtf8-length (two y x a b c d e) = omega (arith, ap length e)
IsUtf8-length (three z y x a b c d e f) = omega (arith, ap length f)
IsUtf8-length (four u z y x a b c d e f g) = omega (arith, ap length g)

pub IsUtf8-length_sixteen : {c : ℕ} {bs : List ℕ} → IsUtf8 c bs → c < 0x10000 → length bs ≤ 3
IsUtf8-length_sixteen (one h e) lt = omega (arith, ap length e)
IsUtf8-length_sixteen (two y x a b c d e) lt = omega (arith, ap length e)
IsUtf8-length_sixteen (three z y x a b c d e f) lt = omega (arith, ap length f)
IsUtf8-length_sixteen (four u z y x a b c d e f g) lt = absurd (omega arith)

-- A sequence stands for one code point.
pub IsUtf8-injective : {c d : ℕ} {bs cs : List ℕ} → IsUtf8 c bs → IsUtf8 d cs → bs ≡ cs → c ≡ d
IsUtf8-injective (one h e) (one h' e') p = ground arith
IsUtf8-injective (one h e) (two y x a b c d f) p = ground arith
IsUtf8-injective (one h e) (three z y x a b c d f g) p = ground arith
IsUtf8-injective (one h e) (four u z y x a b c d f g k) p = ground arith
IsUtf8-injective (two y x a b c d f) (one h e) p = ground arith
IsUtf8-injective (two y x a b c d f) (two y' x' a' b' c' d' f') p = ground arith
IsUtf8-injective (two y x a b c d f) (three z y' x' a' b' c' d' f' g) p = ground arith
IsUtf8-injective (two y x a b c d f) (four u z y' x' a' b' c' d' f' g k) p = ground arith
IsUtf8-injective (three z y x a b c d f g) (one h e) p = ground arith
IsUtf8-injective (three z y x a b c d f g) (two y' x' a' b' c' d' f') p = ground arith
IsUtf8-injective (three z y x a b c d f g) (three z' y' x' a' b' c' d' f' g') p = ground arith
IsUtf8-injective (three z y x a b c d f g) (four u z' y' x' a' b' c' d' f' g' k) p = ground arith
IsUtf8-injective (four u z y x a b c d f g k) (one h e) p = ground arith
IsUtf8-injective (four u z y x a b c d f g k) (two y' x' a' b' c' d' f') p = ground arith
IsUtf8-injective (four u z y x a b c d f g k) (three z' y' x' a' b' c' d' f' g') p = ground arith
IsUtf8-injective (four u z y x a b c d f g k) (four u' z' y' x' a' b' c' d' f' g' k') p =
    ground arith
