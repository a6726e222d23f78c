-- ===== src/Parse/Utf16/Literal.antt =====
-- src/parse.rs: which code point a `\uXXXX` literal stands for, and when it is refused.
use rust_json_port_mortem.Base.{
  ℕ, ◌+◌, ◌-◌, ◌*◌, ◌%◌, ◌^◌, ◌≤◌, ◌<◌, ◌≡◌, refl, ◌∙◌, inl, inr, ◌⊎◌, bit_and, bit_or, Option,
  none, some, List, arith, ok, Returns, returns, Returns-bind, Bool-cases, ltb, ◌==◌, in_range,
  if◌then◌else◌, match_option, length, true, false, not, ◌||◌, ◌↔◌, Returns-ok, ltb→lt, ge_of_ltb,
}
use rust_json_port_mortem.Base.Bits.{and_ten_ones, bit_or-shift_ten}
use rust_json_port_mortem.Parse.State.{Input, read-ok}
use rust_json_port_mortem.Parse.Hex.{parse_hex4}
use rust_json_port_mortem.Parse.Hex.Value.{parse_hex4-lt}
use rust_json_port_mortem.Parse.Utf16.{second_code, utf16_literal_to_utf8, utf8_bytes}
use rust_json_port_mortem.Parse.Utf16.Encode.{
  IsUtf8, IsUtf8-length, IsUtf8-length_sixteen, utf8_bytes-IsUtf8,
}

-- The code point of a surrogate pair.
abbrev pub pair_value : ℕ → ℕ → ℕ
pair_value hi lo = 0x10000 + (hi - 0xD800) * 1024 + (lo - 0xDC00)

abbrev pub IsLead : ℕ → Type 0
IsLead u = (0xD800 ≤ u) × (u ≤ 0xDBFF)

abbrev pub IsTrail : ℕ → Type 0
IsTrail u = (0xDC00 ≤ u) × (u ≤ 0xDFFF)

module _ (i : Input) (p input_end : ℕ) where
  -- The six bytes behind the literal are one of a trailing surrogate.
  pub record Followed : Type 0 where
    pub room : 12 ≤ input_end - p
    pub backslash : i.content (p + 6) ≡ 92
    pub letter : i.content (p + 6 + 1) ≡ b'u'
    pub lo : ℕ
    pub value : parse_hex4 i (p + 6 + 2) ≡ ok lo
    pub trail : IsTrail lo

  -- What the code of a literal at `p` stands for: its code point, and the length of the literal.
  pub data Code : Option (ℕ × ℕ) → Type 0 where
    single :
        (u : ℕ)
        → parse_hex4 i (p + 2) ≡ ok u
        → u < 2 ^ 16
        → ¬ (IsLead u)
        → ¬ (IsTrail u)
        → 6 ≤ input_end - p
        → Code (some (u, 6))
    pair :
        (hi lo : ℕ)
        → parse_hex4 i (p + 2) ≡ ok hi
        → parse_hex4 i (p + 6 + 2) ≡ ok lo
        → IsLead hi
        → IsTrail lo
        → 12 ≤ input_end - p
        → Followed
        → Code (some (pair_value hi lo, 12))
    too_short : input_end - p < 6 → Code none
    lone_trail : (u : ℕ) → parse_hex4 i (p + 2) ≡ ok u → IsTrail u → Code none
    lone_lead : (u : ℕ) → parse_hex4 i (p + 2) ≡ ok u → IsLead u → ¬ Followed → Code none

  surrogates :
      (hi lo : ℕ)
      → IsLead hi
      → IsTrail lo
      → bit_or (0x10000 + bit_and hi 0x3FF * 2 ^ 10) (bit_and lo 0x3FF) ≡ pair_value hi lo
  surrogates hi lo h l =
      rw (and_ten_ones hi, and_ten_ones lo)
        (let e : 0x10000 + hi % 1024 * 2 ^ 10 ≡ (64 + hi % 1024) * 1024 = omega arith in
          rw e (bit_or-shift_ten (64 + hi % 1024) (lo % 1024) (omega arith) ∙ omega arith))

  in_range_iff : (lo hi c : ℕ) → (in_range lo hi c ≡ true) ↔ ((lo ≤ c) × (c ≤ hi))
  in_range_iff lo hi c = (λ h. ground arith, λ h. ground arith)

  not-IsTrail : (lo lo' : ℕ) → in_range 0xDC00 0xDFFF lo ≡ false → lo' ≡ lo → ¬ (IsTrail lo')
  not-IsTrail lo lo' h e t = ground arith

  -- The byte tests of the second half.
  no_escape : (a b : ℕ) → (not (a == 92) || not (b == b'u')) ≡ true → ¬ ((a ≡ 92) × (b ≡ b'u'))
  no_escape a b h e = ground arith

  escape : (a b : ℕ) → (not (a == 92) || not (b == b'u')) ≡ false → (a ≡ 92) × (b ≡ b'u')
  escape a b h = ground arith

  module _ (bound : input_end ≤ i.length) (u : ℕ) (first : parse_hex4 i (p + 2) ≡ ok u) where
    second_code-Code : IsLead u → Returns Code (second_code i p input_end u)
    unfolding second_code
    second_code-Code lead = elim (Bool-cases (ltb (input_end - (p + 6)) 6)) [
      | inl short ↦ rw short (returns (lone_lead u first lead λ f. absurd (ground (arith, f.room))))
      | inr long ↦
          rw (long, read-ok i (p + 6) (ground arith), read-ok i (p + 6 + 1) (ground arith))
            (elim (Bool-cases
              (not (i.content (p + 6) == 92) || not (i.content (p + 6 + 1) == b'u'))) [
                | inl bad ↦ rw bad (
                    returns (lone_lead u first lead λ f. no_escape _ _ bad (f.backslash, f.letter)))
                | inr good ↦
                    let (lo, value, lt) = Returns-ok (parse_hex4-lt i (p + 6 + 2) (ground arith)) in
                    rw (good, value) (returns (trailing long good lo value))
              ])
    ]
      where
        trailing :
            ltb (input_end - (p + 6)) 6 ≡ false
            → (not (i.content (p + 6) == 92) || not (i.content (p + 6 + 1) == b'u')) ≡ false
            → (lo : ℕ) → parse_hex4 i (p + 6 + 2) ≡ ok lo
            → Code (
                if not (in_range 0xDC00 0xDFFF lo)
                then none
                else some (bit_or (0x10000 + bit_and u 0x3FF * 2 ^ 10) (bit_and lo 0x3FF), 12))
        trailing long good lo value = elim (Bool-cases (in_range 0xDC00 0xDFFF lo)) [
          | inl yes_trail ↦
              let room : 12 ≤ input_end - p = omega (arith, ge_of_ltb _ _ long) in
              let t = (in_range_iff _ _ _).0 yes_trail in
              let bytes = escape _ _ good in
              rw (yes_trail, surrogates u lo lead t)
                (pair u lo first value lead t room (record {
                  room = room;
                  backslash = bytes.0;
                  letter = bytes.1;
                  lo = lo;
                  value = value;
                  trail = t;
                }))
          | inr no_trail ↦ rw no_trail (
              lone_lead u first lead
                λ f. not-IsTrail lo f.lo no_trail (cc (f.value, value)) f.trail)
        ]

  -- The result of the function: the length of the literal and the bytes of its code point, or a
  -- refusal.
  pub data IsLiteral : Option (ℕ × List ℕ) → Type 0 where
    written :
        {codepoint len : ℕ} {bs : List ℕ}
        → Code (some (codepoint, len))
        → IsUtf8 codepoint bs
        → IsLiteral (some (len, bs))
    refused : Code none → IsLiteral none

  encoded :
      (u len : ℕ)
      → u ≤ 0x10FFFF
      → Code (some (u, len))
      → IsLiteral (match_option (utf8_bytes u) none λ bytes. some (len, bytes))
  encoded u len h c = let (bs, e, is) = utf8_bytes-IsUtf8 u h in rw e (written c is)

  finish :
      (code : Option (ℕ × ℕ))
      → Code code
      → IsLiteral (
          match_option code none λ (codepoint, sequence_length).
            match_option (utf8_bytes codepoint) none λ bytes. some (sequence_length, bytes))
  finish _ (single u e lt a b c) = encoded u 6 (omega arith) (single u e lt a b c)
  finish _ (pair hi lo a b c d e f) =
      encoded (pair_value hi lo) 12 (omega arith) (pair hi lo a b c d e f)
  finish _ (too_short h) = refused (too_short h)
  finish _ (lone_trail u e t) = refused (lone_trail u e t)
  finish _ (lone_lead u e l f) = refused (lone_lead u e l f)

  -- The function reads inside of the string only; it writes the UTF-8 of the code point that the
  -- literal, or the pair of literals, stands for, and refuses the literals that are too short and those
  -- of lone surrogates.
  pub utf16_literal_to_utf8-IsLiteral :
      input_end ≤ i.length → Returns IsLiteral (utf16_literal_to_utf8 i p input_end)
  unfolding utf16_literal_to_utf8
  utf16_literal_to_utf8-IsLiteral bound = elim (Bool-cases (ltb (input_end - p) 6)) [
    | inl short ↦ rw short (returns (refused (too_short (ltb→lt _ _ short))))
    | inr long ↦
        let (u, first, lt) = Returns-ok (parse_hex4-lt i (p + 2) (ground arith)) in
        rw (long, first)
          (elim (Bool-cases (in_range 0xDC00 0xDFFF u)) [
            | inl trail ↦
                rw trail (returns (refused (lone_trail u first ((in_range_iff _ _ _).0 trail))))
            | inr no_trail ↦ rw no_trail (
                Returns-bind (code_of (ground arith) u first lt no_trail)
                  λ code c. returns (finish code c))
          ])
  ]
    where
      code_of :
          6 ≤ input_end - p
          → (u : ℕ) → parse_hex4 i (p + 2) ≡ ok u
          → u < 2 ^ 16
          → in_range 0xDC00 0xDFFF u ≡ false
          → Returns Code
              (if in_range 0xD800 0xDBFF u then second_code i p input_end u else ok (some (u, 6)))
      code_of six u first lt no_trail = elim (Bool-cases (in_range 0xD800 0xDBFF u)) [
        | inl lead ↦ rw lead (second_code-Code bound u first ((in_range_iff _ _ _).0 lead))
        | inr no_lead ↦ rw no_lead (
            returns
              (single u first lt (λ l. ground arith) (λ t. not-IsTrail u u no_trail refl t) six))
      ]

  -- The room that a literal takes in the input and in the output.
  abbrev pub Shape : Option (ℕ × List ℕ) → Type 0
  Shape none = Unit
  Shape (some (n, bs)) =
      ((n ≡ 6) × (6 ≤ input_end - p) × (length bs ≤ 3))
      ⊎ ((n ≡ 12) × (12 ≤ input_end - p) × (length bs ≤ 4))

  Code-Shape :
      {bs : List ℕ} (c n : ℕ) (o : Option (ℕ × ℕ))
      → o ≡ some (c, n)
      → Code o
      → IsUtf8 c bs
      → Shape (some (n, bs))
  Code-Shape {bs} c n _ q (single u e lt a b room) is =
      let same : u ≡ c = cc in inl (cc, room, IsUtf8-length_sixteen is (omega arith))
  Code-Shape c n _ q (pair hi lo a b d e room f) is = inr (cc, room, IsUtf8-length is)
  Code-Shape c n _ q (too_short h) is = cc
  Code-Shape c n _ q (lone_trail u e t) is = cc
  Code-Shape c n _ q (lone_lead u e l f) is = cc

  pub IsLiteral-Shape : {o : Option (ℕ × List ℕ)} → IsLiteral o → Shape o
  IsLiteral-Shape (written {codepoint} {len} c is) = Code-Shape codepoint len _ refl c is
  IsLiteral-Shape (refused c) = tt
