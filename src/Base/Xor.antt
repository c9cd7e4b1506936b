-- ===== src/Base/Xor.antt =====
-- `^` on bytes at variables, digit by digit. The tactics take a call of `bit_xor` for an unknown.
use Prim.Native.Nat.{
  ℕ, zero, suc, ◌+◌, ◌*◌, ◌/◌, ◌%◌, ◌≤◌, ◌<◌, ◌^◌, bit_xor, digits, differ, bit_xor-bitwise,
}
use mathlib.Core.Path.{◌≡◌, refl}
use native.Mathlib.Nat.{le_refl, pow-suc}
use native.Mathlib.Omega.{arith}

abbrev xor_digits : ℕ → ℕ → ℕ → ℕ
xor_digits n a b = digits (λ y. y) differ n a b

-- `differ` on digits, as arithmetic.
differ_bits : (x y : ℕ) → x < 2 → y < 2 → differ x y ≡ (x + y) % 2
differ_bits zero y p q = omega arith
differ_bits (suc zero) zero p q = refl
differ_bits (suc zero) (suc zero) p q = refl
differ_bits (suc zero) (suc (suc y)) p q = absurd (omega arith)
differ_bits (suc (suc x)) y p q = absurd (omega arith)

-- Fuel that covers the first number is as good as more fuel.
xor_digits_fuel : (n m a b : ℕ) → a ≤ n → a ≤ m → xor_digits n a b ≡ xor_digits m a b
xor_digits_fuel zero zero a b p q = refl
xor_digits_fuel zero (suc m) zero b p q = refl
xor_digits_fuel zero (suc m) (suc a) b p q = absurd (omega arith)
xor_digits_fuel (suc n) zero zero b p q = refl
xor_digits_fuel (suc n) zero (suc a) b p q = absurd (omega arith)
xor_digits_fuel (suc n) (suc m) zero b p q = refl
xor_digits_fuel (suc n) (suc m) (suc a) b p q =
    rw (xor_digits_fuel n m (suc a / 2) (b / 2) (omega arith) (omega arith))

zero-bit_xor : (b : ℕ) → bit_xor 0 b ≡ b
zero-bit_xor b = bit_xor-bitwise 0 b

bit_xor-suc :
    (a b : ℕ) → bit_xor (suc a) b ≡ bit_xor (suc a / 2) (b / 2) * 2 + differ (suc a % 2) (b % 2)
bit_xor-suc a b =
    simp bit_xor-bitwise
      (omega (arith, xor_digits_fuel a (suc a / 2) (suc a / 2) (b / 2) (omega arith) (le_refl _)))

bit_xor_step : (a b : ℕ) → bit_xor a b ≡ bit_xor (a / 2) (b / 2) * 2 + differ (a % 2) (b % 2)
bit_xor_step zero b = omega (arith, zero-bit_xor b, zero-bit_xor (b / 2), differ_bits 0 (b % 2))
bit_xor_step (suc a) b = bit_xor-suc a b

-- The involution, for all numbers up to a bound.
xor_twice_below : (n x k : ℕ) → x ≤ n → k ≤ n → bit_xor (bit_xor x k) k ≡ x
xor_twice_below zero zero zero p q = refl
xor_twice_below zero (suc x) k p q = absurd (omega arith)
xor_twice_below zero zero (suc k) p q = absurd (omega arith)
xor_twice_below (suc n) x k p q = ground (
  arith,
  bit_xor_step x k,
  bit_xor_step (bit_xor x k) k,
  differ_bits (x % 2) (k % 2),
  differ_bits (bit_xor x k % 2) (k % 2),
  xor_twice_below n (x / 2) (k / 2) (omega arith) (omega arith),
)

pub xor_twice : (x k : ℕ) → bit_xor (bit_xor x k) k ≡ x
xor_twice x k = xor_twice_below (x + k) x k (omega arith) (omega arith)

-- The result has no more digits than the operands.
pub bit_xor-lt : (w x k : ℕ) → x < 2 ^ w → k < 2 ^ w → bit_xor x k < 2 ^ w
bit_xor-lt zero x k p q =
    let e : x ≡ 0 = omega arith in let e' : k ≡ 0 = omega arith in rw (e, e') (omega arith)
bit_xor-lt (suc w) x k p q = ground (
  arith,
  pow-suc 2 w,
  bit_xor_step x k,
  differ_bits (x % 2) (k % 2),
  bit_xor-lt w (x / 2) (k / 2),
)
