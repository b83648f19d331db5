-- ===== src/Base/Bits/Step.antt =====
-- The laws for the lowest digit of `bit_and` and `bit_or`, from the digit recursion for which the
-- native operations stand.
use Prim.Native.Nat.{
  ℕ, zero, suc, ◌+◌, ◌*◌, ◌/◌, ◌%◌, ◌≤◌, min, max, digits, bit_and, bit_or, bit_and-bitwise,
  bit_or-bitwise,
}
use mathlib.Core.Path.{◌≡◌, refl}
use native.Mathlib.Omega.{arith}

-- `z` is what the operation makes of the second word once the first has run out.
module _ (z : ℕ → ℕ) (f : ℕ → ℕ → ℕ) where
  -- Any count that reaches the first word's last digit gives the same result.
  digits_count : (m n a b : ℕ) → a ≤ m → a ≤ n → digits z f m a b ≡ digits z f n a b
  digits_count zero zero a b p q = refl
  digits_count zero (suc n) zero b p q = refl
  digits_count zero (suc n) (suc a) b p q = absurd (omega arith)
  digits_count (suc m) zero zero b p q = refl
  digits_count (suc m) zero (suc a) b p q = absurd (omega arith)
  digits_count (suc m) (suc n) zero b p q = refl
  digits_count (suc m) (suc n) (suc a) b p q =
      omega (arith, digits_count m n (suc a / 2) (b / 2) (omega arith) (omega arith))

  digits_step :
      ((b : ℕ) → z b ≡ z (b / 2) * 2 + f 0 (b % 2))
      → (a b : ℕ) → digits z f a a b ≡ digits z f (a / 2) (a / 2) (b / 2) * 2 + f (a % 2) (b % 2)
  digits_step law zero b = law b
  digits_step law (suc a) b =
      omega (arith, digits_count a (suc a / 2) (suc a / 2) (b / 2) (omega arith) (omega arith))

pub bit_and_step : (a b : ℕ) → bit_and a b ≡ bit_and (a / 2) (b / 2) * 2 + min (a % 2) (b % 2)
bit_and_step a b = omega (
  arith,
  digits_step (λ _. zero) min (λ c. omega arith) a b,
  bit_and-bitwise a b,
  bit_and-bitwise (a / 2) (b / 2),
)

pub bit_or_step : (a b : ℕ) → bit_or a b ≡ bit_or (a / 2) (b / 2) * 2 + max (a % 2) (b % 2)
bit_or_step a b = omega (
  arith,
  digits_step (λ c. c) max (λ c. omega arith) a b,
  bit_or-bitwise a b,
  bit_or-bitwise (a / 2) (b / 2),
)
