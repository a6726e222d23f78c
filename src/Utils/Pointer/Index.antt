-- ===== src/Utils/Pointer/Index.antt =====
-- src/utils.rs: `decode_array_index_from_pointer`, and the pass over a path element.
use rust_json_port_mortem.Base.{
  ℕ, zero, suc, ◌+◌, ◌-◌, ◌*◌, ◌/◌, ◌%◌, ◌^◌, ◌<◌, ◌≡◌, ◌≢◌, ◌∙◌, refl, true, false, ◌&&◌, Option,
  none, some, [], ◌∷◌, ◌++◌, append_assoc, arith, ◌==◌, in_range, if◌then◌else◌, ltb, ltb→lt,
  ge_of_ltb, Bool-cases, inl, inr,
}
use rust_json_port_mortem.Model.{Bytes, first, behind}
use rust_json_port_mortem.Print.Number.{digits, to_string}
use rust_json_port_mortem.Utils.Pointer.{in_element}

-- The loop of `decode_array_index_from_pointer`: the number, and the text where it stops.
unfoldable pub parse_digits : Bytes → ℕ → ℕ × Bytes
parse_digits [] parsed_index = (parsed_index, [])
parse_digits (c ∷ pointer) parsed_index =
    let next = parse_digits pointer ((parsed_index * 10 % 2 ^ 64 + (c - b'0')) % 2 ^ 64) in
    if in_range b'0' b'9' c then next else (parsed_index, c ∷ pointer)

-- `decode_array_index_from_pointer`: `none` for `return 0`
unfoldable pub decode_array_index_from_pointer : Bytes → Option ℕ
decode_array_index_from_pointer pointer =
    if first pointer == b'0' && in_element (behind pointer)
    then none
    else (let r = parse_digits pointer 0 in if in_element r.1 then none else some r.0)

-- `while *pointer != 0 && *pointer != b'/'`, to the next path token or the end of the string
unfoldable pub skip_element : Bytes → Bytes
skip_element [] = []
skip_element (c ∷ pointer) =
    let next = skip_element pointer in if in_element (c ∷ pointer) then next else c ∷ pointer

pub skip_element-end : (r : Bytes) → in_element r ≡ false → skip_element r ≡ r
unfolding skip_element
skip_element-end [] h = refl
skip_element-end (c ∷ r) h = rw h refl

parse_digits-digit :
    (n : ℕ) (r : Bytes)
    → n < 2 ^ 64
    → parse_digits ((b'0' + n % 10) ∷ r) (n / 10) ≡ parse_digits r n
unfolding parse_digits
parse_digits-digit n r h =
    let step : (n / 10 * 10 % 2 ^ 64 + (b'0' + n % 10 - b'0')) % 2 ^ 64 ≡ n = omega arith in
    let is_digit : in_range b'0' b'9' (b'0' + n % 10) ≡ true = ground arith in
    rw is_digit (rw step refl)

parse_digits-first :
    (n : ℕ) (r : Bytes) → n < 10 → parse_digits ((b'0' + n) ∷ r) 0 ≡ parse_digits r n
unfolding parse_digits
parse_digits-first n r h =
    let step : (0 * 10 % 2 ^ 64 + (b'0' + n - b'0')) % 2 ^ 64 ≡ n = omega arith in
    let is_digit : in_range b'0' b'9' (b'0' + n) ≡ true = ground arith in rw is_digit (rw step refl)

skip_element-digit : (k : ℕ) (r : Bytes) → k < 10 → skip_element ((b'0' + k) ∷ r) ≡ skip_element r
unfolding skip_element in_element
skip_element-digit k r h = ground arith

shorter : (fuel n : ℕ) → n < 10 ^ suc fuel → n / 10 < 10 ^ fuel
shorter fuel n h = omega arith

-- The digits of a number are read back as the number,
parse_digits-digits :
    (fuel n : ℕ) (r : Bytes)
    → n < 10 ^ fuel
    → n < 2 ^ 64
    → parse_digits (digits fuel n ++ r) 0 ≡ parse_digits r n
unfolding digits
parse_digits-digits zero n r h k = let none_left : n ≡ 0 = omega arith in rw none_left refl
parse_digits-digits (suc fuel) n r h k = elim (Bool-cases (ltb n 10)) [
  | inl e ↦ rw e (parse_digits-first n r (ltb→lt n 10 e))
  | inr e ↦ rw e (
      rw (append_assoc (digits fuel (n / 10)) ((b'0' + n % 10) ∷ []) r) (
        parse_digits-digits fuel (n / 10) ((b'0' + n % 10) ∷ r) (shorter fuel n h) (omega arith)
        ∙ parse_digits-digit n r k))
]

skip_element-digits : (fuel n : ℕ) (r : Bytes) → skip_element (digits fuel n ++ r) ≡ skip_element r
unfolding digits
skip_element-digits zero n r = refl
skip_element-digits (suc fuel) n r = elim (Bool-cases (ltb n 10)) [
  | inl e ↦ rw e (skip_element-digit n r (ltb→lt n 10 e))
  | inr e ↦ rw e (
      rw (append_assoc (digits fuel (n / 10)) ((b'0' + n % 10) ∷ []) r) (
        skip_element-digits fuel (n / 10) ((b'0' + n % 10) ∷ r)
        ∙ skip_element-digit (n % 10) r (omega arith)))
]

first-digits : (fuel n : ℕ) (r : Bytes) → 0 < n → n < 10 ^ fuel → first (digits fuel n ++ r) ≢ b'0'
unfolding digits
first-digits zero n r p h = absurd (omega arith)
first-digits (suc fuel) n r p h = elim (Bool-cases (ltb n 10)) [
  | inl e ↦ rw e (λ f. omega arith)
  | inr e ↦ rw e (
      rw (append_assoc (digits fuel (n / 10)) ((b'0' + n % 10) ∷ []) r) (
        let ten = ge_of_ltb n 10 e in
        first-digits fuel (n / 10) ((b'0' + n % 10) ∷ r) (omega arith) (shorter fuel n h)))
]

parse_digits-end : (r : Bytes) (n : ℕ) → in_element r ≡ false → parse_digits r n ≡ (n, r)
unfolding parse_digits in_element
parse_digits-end [] n h = refl
parse_digits-end (c ∷ r) n h = ground (arith, h)

pub skip_element-to_string :
    (n : ℕ) (r : Bytes) → in_element r ≡ false → skip_element (to_string n ++ r) ≡ r
unfolding to_string
skip_element-to_string n r h = skip_element-digits 20 n r ∙ skip_element-end r h

-- `to_string` writes no leading zero that `decode_array_index_from_pointer` would refuse.
no_leading_zero :
    (n : ℕ) (r : Bytes)
    → n < 2 ^ 64
    → in_element r ≡ false
    → (first (to_string n ++ r) == b'0' && in_element (behind (to_string n ++ r))) ≡ false
unfolding to_string digits in_element
no_leading_zero zero r h e = e
no_leading_zero (suc n) r h e =
    ground (arith, first-digits 20 (suc n) r (omega arith) (omega arith))

parse_to_string :
    (n : ℕ) (r : Bytes)
    → n < 2 ^ 64
    → in_element r ≡ false
    → parse_digits (to_string n ++ r) 0 ≡ (n, r)
unfolding to_string
parse_to_string n r h e = parse_digits-digits 20 n r (omega arith) h ∙ parse_digits-end r n e

-- An index below 2 ^ 64 as `to_string` prints it, at the end of a pointer's element, is read back by
-- `decode_array_index_from_pointer`.
pub decode_array_index_from_pointer-to_string :
    (n : ℕ) (r : Bytes)
    → n < 2 ^ 64
    → in_element r ≡ false
    → decode_array_index_from_pointer (to_string n ++ r) ≡ some n
unfolding decode_array_index_from_pointer
decode_array_index_from_pointer-to_string n r h e =
    rw (no_leading_zero n r h e) (rw (parse_to_string n r h e) (rw e refl))
