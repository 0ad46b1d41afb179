-- ===== src/Prelude/Bits/Digits.antt =====
-- One equation for the lowest digit of `&` and `|`.
use Prim.Native.Nat.{ℕ, zero, suc, ◌+◌, ◌*◌, ◌/◌, ◌%◌, ◌≤◌, min, max, bit_and, bit_or}
use Prim.Native.Nat.{digits, bitwise, bit_and-bitwise, bit_or-bitwise}
use mathlib.Core.Path.{◌≡◌, refl}
use native.Mathlib.Omega.{arith}

-- More digits to go than the first number has make no difference.
module _ (z : ℕ → ℕ) (f : ℕ → ℕ → ℕ) where
  digits_enough : (k a b : ℕ) → a ≤ k → digits z f k a b ≡ digits z f a a b
  digits_enough k a b h = same k a a b h (omega arith)
    where
      same : (k l a b : ℕ) → a ≤ k → a ≤ l → digits z f k a b ≡ digits z f l a b
      same zero zero a b p q = refl
      same zero (suc l) zero b p q = refl
      same zero (suc l) (suc a) b p q = absurd (omega arith)
      same (suc k) zero zero b p q = refl
      same (suc k) zero (suc a) b p q = absurd (omega arith)
      same (suc k) (suc l) zero b p q = refl
      same (suc k) (suc l) (suc a) b p q =
          rw (same k l (suc a / 2) (b / 2) (omega arith) (omega arith))

  bitwise_low :
      (a b : ℕ)
      → bitwise z f (suc a) b ≡ bitwise z f (suc a / 2) (b / 2) * 2 + f (suc a % 2) (b % 2)
  bitwise_low a b = omega (arith, digits_enough a (suc a / 2) (b / 2) (omega arith))

pub and_low : (a b : ℕ) → bit_and a b ≡ bit_and (a / 2) (b / 2) * 2 + min (a % 2) (b % 2)
and_low zero b = omega (arith, bit_and-bitwise 0 b, bit_and-bitwise 0 (b / 2))
and_low (suc a) b = simp bit_and-bitwise (bitwise_low (λ _. zero) min a b)

pub or_low : (a b : ℕ) → bit_or a b ≡ bit_or (a / 2) (b / 2) * 2 + max (a % 2) (b % 2)
or_low zero b = omega (arith, bit_or-bitwise 0 b, bit_or-bitwise 0 (b / 2))
or_low (suc a) b = simp bit_or-bitwise (bitwise_low (λ b. b) max a b)
