-- ===== src/Base/Bits.antt =====
-- `&`, `|` and `~` of C on unsigned words, as arithmetic on bit fields at every width.
mod Step
use Step.{bit_and_step, bit_or_step}
use Prim.Native.Nat.{
  ℕ, zero, suc, ◌+◌, ◌-◌, ◌*◌, ◌/◌, ◌%◌, ◌^◌, ◌<◌, min, max, bit_and, bit_or, bit_or-bitwise,
}
use mathlib.Core.Path.{◌≡◌, refl, ap}
use native.Mathlib.Nat.{pow-suc, one-le-pow}
use native.Mathlib.Omega.{arith}

infixl 75 ◌<<<◌ ◌>>>◌
abbrev pub ◌<<<◌ : ℕ → ℕ → ℕ
x <<< k = x * 2 ^ k

abbrev pub ◌>>>◌ : ℕ → ℕ → ℕ
x >>> k = x / 2 ^ k

-- A bitwise operation `op`, given by its law for the lowest digit, works on the two fields of a
-- word apart.
module _ (op f : ℕ → ℕ → ℕ) (zero_op : op 0 0 ≡ 0)
    (step : (a b : ℕ) → op a b ≡ op (a / 2) (b / 2) * 2 + f (a % 2) (b % 2)) where
  op_fields :
      (k q r s t : ℕ)
      → r < 2 ^ k
      → t < 2 ^ k
      → op (q * 2 ^ k + r) (s * 2 ^ k + t) ≡ op q s * 2 ^ k + op r t
  op_fields zero q r s t hr ht =
      let er : r ≡ 0 = omega arith in
      let et : t ≡ 0 = omega arith in ground (arith, er, et, zero_op)
  op_fields (suc k) q r s t hr ht = ground (
    arith,
    pow-suc 2 k,
    step (q * 2 ^ suc k + r) (s * 2 ^ suc k + t),
    step r t,
    ap (λ (x : ℕ). q * x) (pow-suc 2 k),
    ap (λ (x : ℕ). s * x) (pow-suc 2 k),
    ap (λ (x : ℕ). op q s * x) (pow-suc 2 k),
    op_fields k q (r / 2) s (t / 2) (omega (arith, pow-suc 2 k)) (omega (arith, pow-suc 2 k)),
  )

pub bit_and_fields :
    (k q r s t : ℕ)
    → r < 2 ^ k
    → t < 2 ^ k
    → bit_and (q * 2 ^ k + r) (s * 2 ^ k + t) ≡ bit_and q s * 2 ^ k + bit_and r t
bit_and_fields = op_fields bit_and min refl bit_and_step

pub bit_or_fields :
    (k q r s t : ℕ)
    → r < 2 ^ k
    → t < 2 ^ k
    → bit_or (q * 2 ^ k + r) (s * 2 ^ k + t) ≡ bit_or q s * 2 ^ k + bit_or r t
bit_or_fields = op_fields bit_or max refl bit_or_step

-- `a & 0`, and `a & mask` for a mask of `k` ones.
pub bit_and-zero : (k a : ℕ) → a < 2 ^ k → bit_and a 0 ≡ 0
bit_and-zero zero a h = let e : a ≡ 0 = omega arith in rw e
bit_and-zero (suc k) a h =
    omega (arith, bit_and_step a 0, bit_and-zero k (a / 2) (omega (arith, pow-suc 2 k)))

pub bit_and_ones : (k a : ℕ) → a < 2 ^ k → bit_and a (2 ^ k - 1) ≡ a
bit_and_ones zero a h = let e : a ≡ 0 = omega arith in rw e
bit_and_ones (suc k) a h =
    let half : (2 ^ suc k - 1) / 2 ≡ 2 ^ k - 1 = omega (arith, pow-suc 2 k) in
    let low : (2 ^ suc k - 1) % 2 ≡ 1 = omega (arith, pow-suc 2 k, one-le-pow k 2 (omega arith)) in
    ground
      (arith, bit_and_step a (2 ^ suc k - 1), bit_and_ones k (a / 2) (omega (arith, pow-suc 2 k)))

-- `0 | a` and `a | 0`.
pub zero-bit_or : (a : ℕ) → bit_or 0 a ≡ a
zero-bit_or a = bit_or-bitwise 0 a

pub bit_or-zero : (k a : ℕ) → a < 2 ^ k → bit_or a 0 ≡ a
bit_or-zero zero a h = let e : a ≡ 0 = omega arith in rw e
bit_or-zero (suc k) a h =
    omega (arith, bit_or_step a 0, bit_or-zero k (a / 2) (omega (arith, pow-suc 2 k)))
