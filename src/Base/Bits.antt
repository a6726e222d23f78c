-- ===== src/Base/Bits.antt =====
-- Facts about `bit_and` and `bit_or` at variables, from their digit recursion.
use Prim.Native.Nat.{
  ℕ, zero, suc, ◌+◌, ◌-◌, ◌*◌, ◌/◌, ◌%◌, ◌≤◌, ◌<◌, min, max, bit_and, bit_or, digits,
  bit_and-bitwise, bit_or-bitwise,
}
use mathlib.Core.Path.{◌≡◌, refl, ap}
use native.Mathlib.Omega.{arith}

module _ (rest : ℕ → ℕ) (op : ℕ → ℕ → ℕ) (rest_zero : rest 0 ≡ 0) (op_zero : op 0 0 ≡ 0) where
  -- The digit recursion gives one value at any fuel that covers the left number.
  digits_enough : (x y f g : ℕ) → x ≤ f → x ≤ g → digits rest op f x y ≡ digits rest op g x y
  digits_enough zero y zero zero _ _ = refl
  digits_enough zero y (suc f) zero _ _ = refl
  digits_enough zero y zero (suc g) _ _ = refl
  digits_enough zero y (suc f) (suc g) _ _ = refl
  digits_enough (suc x) y zero g le _ = absurd (omega arith)
  digits_enough (suc x) y (suc f) zero _ le = absurd (omega arith)
  digits_enough (suc x) y (suc f) (suc g) le le' =
      let half = suc x / 2 in
      omega (arith, digits_enough half (y / 2) f g (omega arith) (omega arith))

zero-bit_and : (b : ℕ) → bit_and 0 b ≡ 0
zero-bit_and b = bit_and-bitwise 0 b

zero-bit_or : (b : ℕ) → bit_or 0 b ≡ b
zero-bit_or b = bit_or-bitwise 0 b

-- The laws for the lowest digit.
pub bit_or_step : (x y : ℕ) → bit_or x y ≡ 2 * bit_or (x / 2) (y / 2) + max (x % 2) (y % 2)
bit_or_step zero y = omega (arith, zero-bit_or (y / 2), zero-bit_or y)
bit_or_step (suc n) y =
    let half = suc n / 2 in
    let fuel =
      digits_enough (λ d. d) max refl refl half (y / 2) n half (omega arith) (omega arith) in
    omega (arith, fuel, bit_or-bitwise half (y / 2), bit_or-bitwise (suc n) y)

pub bit_and_step : (x y : ℕ) → bit_and x y ≡ 2 * bit_and (x / 2) (y / 2) + min (x % 2) (y % 2)
bit_and_step zero y = omega (arith, zero-bit_and (y / 2), zero-bit_and y)
bit_and_step (suc n) y =
    let half = suc n / 2 in
    let fuel =
      digits_enough (λ d. 0) min refl refl half (y / 2) n half (omega arith) (omega arith) in
    omega (arith, fuel, bit_and-bitwise half (y / 2), bit_and-bitwise (suc n) y)

-- A number below 2 ^ k has a zero rest after k digits.
bit_and-zero_below : (n a : ℕ) → a ≤ n → bit_and a 0 ≡ 0
bit_and-zero_below _ zero h = refl
bit_and-zero_below zero (suc x) h = absurd (omega arith)
bit_and-zero_below (suc bound) (suc x) h =
    let half = bit_and-zero_below bound (suc x / 2) (omega arith) in
    omega (arith, half, bit_and_step (suc x) 0)

bit_and-zero : (a : ℕ) → bit_and a 0 ≡ 0
bit_and-zero a = bit_and-zero_below a a (omega arith)

-- `a & 0x3FF`, and the smaller masks of ones on the way to it.
and_one : (a : ℕ) → bit_and a 1 ≡ a % 2
and_one a = omega (arith, bit_and_step a 1, bit_and-zero (a / 2))

and_two_ones : (a : ℕ) → bit_and a 3 ≡ a % 4
and_two_ones a = omega (arith, bit_and_step a 3, and_one (a / 2))

and_three_ones : (a : ℕ) → bit_and a 7 ≡ a % 8
and_three_ones a = omega (arith, bit_and_step a 7, and_two_ones (a / 2))

pub and_four_ones : (a : ℕ) → bit_and a 15 ≡ a % 16
and_four_ones a = omega (arith, bit_and_step a 15, and_three_ones (a / 2))

and_five_ones : (a : ℕ) → bit_and a 31 ≡ a % 32
and_five_ones a = omega (arith, bit_and_step a 31, and_four_ones (a / 2))

pub and_six_ones : (a : ℕ) → bit_and a 63 ≡ a % 64
and_six_ones a = omega (arith, bit_and_step a 63, and_five_ones (a / 2))

and_seven_ones : (a : ℕ) → bit_and a 127 ≡ a % 128
and_seven_ones a = omega (arith, bit_and_step a 127, and_six_ones (a / 2))

pub and_eight_ones : (a : ℕ) → bit_and a 255 ≡ a % 256
and_eight_ones a = omega (arith, bit_and_step a 255, and_seven_ones (a / 2))

and_nine_ones : (a : ℕ) → bit_and a 511 ≡ a % 512
and_nine_ones a = omega (arith, bit_and_step a 511, and_eight_ones (a / 2))

pub and_ten_ones : (a : ℕ) → bit_and a 1023 ≡ a % 1024
and_ten_ones a = omega (arith, bit_and_step a 1023, and_nine_ones (a / 2))

bit_or-zero_below : (n a : ℕ) → a ≤ n → bit_or a 0 ≡ a
bit_or-zero_below zero zero h = refl
bit_or-zero_below zero (suc a) h = absurd (omega arith)
bit_or-zero_below (suc n) zero h = refl
bit_or-zero_below (suc n) (suc a) h =
    omega (arith, bit_or_step (suc a) 0, bit_or-zero_below n (suc a / 2) (omega arith))

bit_or-zero : (a : ℕ) → bit_or a 0 ≡ a
bit_or-zero a = bit_or-zero_below a a (omega arith)

-- Doubled `k` times.
abbrev double_times : ℕ → ℕ → ℕ
double_times zero h = h
double_times (suc k) h = 2 * double_times k h

half_double : (d : ℕ) → 2 * d / 2 ≡ d
half_double d = omega arith

-- `(h << k) | l` is a sum where `l` has at most `k` digits.
bit_or-double_times :
    (k h l : ℕ) → l < double_times k 1 → bit_or (double_times k h) l ≡ double_times k h + l
bit_or-double_times zero h zero lt = omega (arith, bit_or-zero h)
bit_or-double_times zero h (suc l) lt = absurd (omega arith)
bit_or-double_times (suc k) h l lt = omega (
  arith,
  bit_or_step (2 * double_times k h) l,
  bit_or-double_times k h (l / 2) (omega arith),
  ap (λ t. bit_or t (l / 2)) (half_double (double_times k h)),
)

pub bit_or-shift_ten : (h l : ℕ) → l < 1024 → bit_or (h * 1024) l ≡ h * 1024 + l
bit_or-shift_ten h l lt =
    let e : h * 1024 ≡ double_times 10 h = omega arith in rw e (bit_or-double_times 10 h l lt)

-- The single bit that `k` doublings of 1 have, in a mask or set.
abbrev halve_times : ℕ → ℕ → ℕ
halve_times zero a = a
halve_times (suc k) a = halve_times k (a / 2)

and_bit : (k a : ℕ) → bit_and a (double_times k 1) ≡ double_times k (halve_times k a % 2)
and_bit zero a = and_one a
and_bit (suc k) a = omega (
  arith,
  bit_and_step a (2 * double_times k 1),
  ap (λ t. bit_and (a / 2) t) (half_double (double_times k 1)),
  and_bit k (a / 2),
)

-- What setting the bit adds
abbrev missing_bit : ℕ → ℕ → ℕ
missing_bit k a = double_times k (1 - halve_times k a % 2)

or_bit : (k a : ℕ) → bit_or a (double_times k 1) ≡ a + missing_bit k a
or_bit zero a = omega (arith, bit_or_step a 1, bit_or-zero (a / 2))
or_bit (suc k) a = omega (
  arith,
  bit_or_step a (2 * double_times k 1),
  ap (λ t. bit_or (a / 2) t) (half_double (double_times k 1)),
  or_bit k (a / 2),
)

pub and_tenth : (a : ℕ) → bit_and a 512 ≡ 512 * (a / 512 % 2)
and_tenth a = omega (arith, and_bit 9 a)

pub or_tenth : (a : ℕ) → bit_or a 512 ≡ a + 512 * (1 - a / 512 % 2)
or_tenth a = omega (arith, or_bit 9 a)
