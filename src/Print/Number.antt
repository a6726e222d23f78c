-- ===== src/Print/Number.antt =====
-- src/print.rs: `compare_double`, `format_number_g` and `print_number`.
pub mod Result
use rust_json_port_mortem.Base.{
  ℕ, zero, suc, ◌+◌, ◌*◌, ◌/◌, ◌%◌, Bool, true, false, not, ◌||◌, ◌&&◌, Option, none, some, List,
  [], ◌∷◌, ◌++◌, Outcome, ok, ◌>>=◌, ltb, leb, ◌==◌, if◌then◌else◌, match_option, length, map,
}
use rust_json_port_mortem.Model.{Bytes, ℤ, pos, negsuc}
use rust_json_port_mortem.Alloc.{Grant}
use rust_json_port_mortem.Parse.Number.{Libc, get_decimal_point}
use rust_json_port_mortem.Print.Buffer.{PrintBuffer, or_return, put}

-- What the printer uses of the type of doubles, `D`, and of `snprintf` with the format `%1.<p>g`,
-- where `none` is a negative result.
pub record Doubles (D : Type 0) : Type 0 where
  pub is_nan : D → Bool
  pub is_infinite : D → Bool
  pub eq_int : D → ℤ → Bool
  pub abs : D → D
  pub gt : D → D → Bool
  pub le : D → D → Bool
  pub sub : D → D → D
  pub mul : D → D → D
  pub epsilon : D
  pub snprintf : ℕ → D → Option Bytes

-- The decimal digits of a number below 10 ^ fuel, as `format!` and `to_string` print it
unfoldable pub digits : ℕ → ℕ → Bytes
digits zero n = []
digits (suc fuel) n =
    let higher = digits fuel (n / 10) in
    if ltb n 10 then (b'0' + n) ∷ [] else higher ++ (b'0' + n % 10) ∷ []

unfoldable pub to_string : ℕ → Bytes
to_string n = digits 20 n

unfoldable pub format_int : ℤ → Bytes
format_int (pos n) = to_string n
format_int (negsuc n) = b'-' ∷ to_string (n + 1)

module _ {D : Type 0} (doubles : Doubles D) where
  -- `compare_double`
  unfoldable pub compare_double : D → D → Bool
  compare_double a b =
      let max_val =
        if doubles.gt (doubles.abs a) (doubles.abs b) then doubles.abs a else doubles.abs b in
      doubles.le (doubles.abs (doubles.sub a b)) (doubles.mul max_val doubles.epsilon)

  -- `format_number_g`: the text in the buffer of 26 bytes, `none` for -1
  unfoldable pub format_number_g : D → ℕ → Option Bytes
  format_number_g d precision =
      if precision == 15 || precision == 17
      then match_option (doubles.snprintf precision d) none
          (λ text. if leb 26 (length text) then none else some text)
      else none

  -- `print_number` up to the text in the buffer
  unfoldable pub number_text : Libc D → D → ℤ → Option Bytes
  number_text libc d valueint =
      if doubles.is_nan d || doubles.is_infinite d
      then some (b'n' ∷ b'u' ∷ b'l' ∷ b'l' ∷ [])
      else if doubles.eq_int d valueint
      then some (format_int valueint)
      else (let text = format_number_g d 15 in
          let round_trip_ok = match_option text false λ start.
            (let (test, end) = libc.strtod start in not (end == 0) && compare_double test d) in
          if not round_trip_ok then format_number_g d 17 else text)

  -- The text with the locale's decimal point replaced.
  unfoldable pub with_point : Libc D → Bytes → Bytes
  with_point libc text = map (λ c. if c == get_decimal_point libc then b'.' else c) text

  module _ (libc : Libc D) (grant : Grant) (reallocate : Bool) (fresh : ℕ → ℕ → ℕ) where
    -- `print_number`
    unfoldable pub print_number : D → ℤ → PrintBuffer → Outcome (Bool × PrintBuffer)
    print_number d valueint b = match_option (number_text libc d valueint) (ok (false, b)) λ text.
        if ltb 25 (length text)
        then ok (false, b)
        else or_return
            (put grant reallocate fresh (length text + 1) (with_point libc text ++ 0 ∷ []) b)
            λ b'. ok (true, record b' { offset = b'.offset + length text })
