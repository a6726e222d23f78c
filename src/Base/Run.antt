-- ===== src/Base/Run.antt =====
-- The outcome of a run of unsafe code.
use mathlib.Core.Path.{◌≡◌, refl}
use mathlib.Core.Bool.{Bool, true, false}
use rust_json_port_mortem.Base.Tests.{if◌then◌else◌}

-- `fault` is an access outside of the memory that the code was given; `out_of_fuel` has no
-- counterpart in the program.
pub data Outcome {ℓ} (A : Type ℓ) : Type ℓ where
  ok : A → Outcome A
  fault out_of_fuel : Outcome A

infixl 5 ◌>>=◌ ◌>>◌
abbrev pub ◌>>=◌ {ℓ κ} : {A : Type ℓ} {B : Type κ} → Outcome A → (A → Outcome B) → Outcome B
ok a >>= f = f a
fault >>= f = fault
out_of_fuel >>= f = out_of_fuel

abbrev pub ◌>>◌ {ℓ} : {B : Type ℓ} → Outcome (Unit {0}) → Outcome B → Outcome B
m >> k = m >>= λ _. k

-- The run ends with a value, within its memory and its fuel, and `P` holds of the value.
pub data Returns {ℓ κ} {A : Type ℓ} (P : A → Type κ) : Outcome A → Type (ℓ ⊔ κ) where
  returns : {a : A} → P a → Returns P (ok a)

module _ {ℓ κ} {A : Type ℓ} {P : A → Type κ} where
  pub Returns-bind {ℓ' κ'} :
      {B : Type ℓ'} {Q : B → Type κ'} {r : Outcome A} {f : A → Outcome B}
      → Returns P r
      → ((a : A) → P a → Returns Q (f a))
      → Returns Q (r >>= f)
  Returns-bind (returns {a} h) k = k a h

  pub Returns-mono {κ'} :
      {Q : A → Type κ'} {r : Outcome A} → Returns P r → ((a : A) → P a → Q a) → Returns Q r
  Returns-mono (returns {a} h) weaken = returns (weaken a h)

  pub Returns-ok : {r : Outcome A} → Returns P r → (a : A) × (r ≡ ok a) × P a
  Returns-ok (returns {a} h) = (a, λ i. ok a, h)

  -- A run that branches on a test does well if each branch does under what the test says.
  pub Returns-branch :
      (test : Bool) {r s : Outcome A}
      → (test ≡ true → Returns P r)
      → (test ≡ false → Returns P s)
      → Returns P (if test then r else s)
  Returns-branch false yea nay = nay refl
  Returns-branch true yea nay = yea refl
