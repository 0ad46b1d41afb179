-- ===== src/Prelude/Bits.antt =====
-- Laws of `&` and `|` at variables: both are read off the lowest digit, by strong induction.
mod Digits
use Prim.Native.Nat.{ℕ, zero, suc, ◌+◌, ◌-◌, ◌*◌, ◌/◌, ◌%◌, ◌^◌, ◌≤◌, ◌<◌, bit_and, bit_or}
use mathlib.Core.Path.{◌≡◌, refl}
use mathlib.Core.Path.{ap, sym, ◌∙◌}
use native.Mathlib.Nat.{pow-suc, one-le-pow, mul-one, div-one, div-div-eq-div-mul}
use native.Mathlib.Omega.{arith}
use Digits.{and_low, or_low}

-- The induction: what holds of `n / 2` for `n` not 0 holds of `n`.
halving : (P : ℕ → Type 0) → P 0 → ((n : ℕ) → P (n / 2) → P n) → (n : ℕ) → P n
halving P base step n = go n n (omega arith)
  where
    go : (fuel n : ℕ) → n ≤ fuel → P n
    go fuel zero h = base
    go zero (suc n) h = absurd (omega arith)
    go (suc fuel) (suc n) h = step (suc n) (go fuel (suc n / 2) (omega arith))

pub and-zero : (a : ℕ) → bit_and a 0 ≡ 0
and-zero = halving (λ a. bit_and a 0 ≡ 0) refl λ n ih. omega (arith, and_low n 0)

pub zero-and : (a : ℕ) → bit_and 0 a ≡ 0
zero-and a = halving (λ a. bit_and 0 a ≡ 0) refl (λ n ih. omega (arith, and_low 0 n)) a

pub or-zero : (a : ℕ) → bit_or a 0 ≡ a
or-zero = halving (λ a. bit_or a 0 ≡ a) refl λ n ih. omega (arith, or_low n 0)

pub zero-or : (a : ℕ) → bit_or 0 a ≡ a
zero-or a = halving (λ a. bit_or 0 a ≡ a) refl (λ n ih. omega (arith, or_low 0 n)) a

and_half : (a b : ℕ) → bit_and a b / 2 ≡ bit_and (a / 2) (b / 2)
and_half a b = omega (arith, and_low a b)

or_half : (a b : ℕ) → bit_or a b / 2 ≡ bit_or (a / 2) (b / 2)
or_half a b = omega (arith, or_low a b)

pub and_or_distrib : (m a b : ℕ) → bit_and (bit_or a b) m ≡ bit_or (bit_and a m) (bit_and b m)
and_or_distrib =
    halving (λ m. (a b : ℕ) → bit_and (bit_or a b) m ≡ bit_or (bit_and a m) (bit_and b m))
      (λ a b. rw (and-zero (bit_or a b), and-zero a, and-zero b) (sym (or-zero 0)))
      (λ m ih a b. ground (
        arith,
        and_low (bit_or a b) m,
        or_low a b,
        or_half a b,
        and_low a m,
        and_low b m,
        and_half a m,
        and_half b m,
        or_low (bit_and a m) (bit_and b m),
        ih (a / 2) (b / 2),
      ))

two_pow_suc : (q k : ℕ) → q * 2 ^ suc k ≡ q * 2 ^ k * 2
two_pow_suc q k = omega (arith, ap (λ (t : ℕ). q * t) (pow-suc 2 k))

masked_field : (k q r : ℕ) → r < 2 ^ k → bit_and (q * 2 ^ k + r) (2 ^ k - 1) ≡ r
masked_field zero q r h = rw and-zero (omega arith)
masked_field (suc k) q r h = ground (
  arith,
  pow-suc 2 k,
  two_pow_suc q k,
  and_low (q * 2 ^ suc k + r) (2 ^ suc k - 1),
  masked_field k q (r / 2) (omega (arith, pow-suc 2 k)),
)

-- A mask of the `k` low bits is the remainder by `2 ^ k`.
pub and_mask : (k a : ℕ) → bit_and a (2 ^ k - 1) ≡ a % 2 ^ k
and_mask k a = ground (arith, one-le-pow k 2, masked_field k (a / 2 ^ k) (a % 2 ^ k))

and_double : (a x : ℕ) → bit_and a (x * 2) ≡ bit_and (a / 2) x * 2
and_double a x = ground (arith, and_low a (x * 2))

half_shift : (a k : ℕ) → a / 2 / 2 ^ k ≡ a / 2 ^ suc k
half_shift a k = div-div-eq-div-mul a 2 (2 ^ k) ∙ ap (λ (t : ℕ). a / t) (omega (arith, pow-suc 2 k))

-- A mask shifted up reads the digits shifted down.
pub and_shl : (k a m : ℕ) → bit_and a (m * 2 ^ k) ≡ bit_and (a / 2 ^ k) m * 2 ^ k
and_shl zero a m = rw (mul-one m, div-one a) (omega arith)
and_shl (suc k) a m =
    rw (two_pow_suc m k, and_double a (m * 2 ^ k), and_shl k (a / 2) m, half_shift a k)
      (sym (two_pow_suc (bit_and (a / 2 ^ suc k) m) k))

-- `|` of disjoint fields is a sum.
pub or_fields : (k q r : ℕ) → r < 2 ^ k → bit_or (q * 2 ^ k) r ≡ q * 2 ^ k + r
or_fields zero q r h = let r0 : r ≡ 0 = omega arith in rw r0 (omega (arith, or-zero (q * 2 ^ 0)))
or_fields (suc k) q r h =
    ground (arith, pow-suc 2 k, two_pow_suc q k, or_low (q * 2 ^ suc k) r, or_fields k q (r / 2))

pub or_shr : (k a b : ℕ) → bit_or a b / 2 ^ k ≡ bit_or (a / 2 ^ k) (b / 2 ^ k)
or_shr zero a b = rw (div-one (bit_or a b), div-one a, div-one b) refl
or_shr (suc k) a b =
    rw (sym (half_shift (bit_or a b) k), sym (half_shift a k), sym (half_shift b k), or_half a b)
      (or_shr k (a / 2) (b / 2))

-- The lowest bit of a disjunction with an odd number.
pub or-odd : (a b : ℕ) → b % 2 ≡ 1 → bit_or a b % 2 ≡ 1
or-odd a b odd = ground (arith, odd, or_low a b)

pub or-even : (a b : ℕ) → b % 2 ≡ 0 → bit_or a b % 2 ≡ a % 2
or-even a b even = ground (arith, even, or_low a b)

pub or_comm : (a b : ℕ) → bit_or a b ≡ bit_or b a
or_comm =
    halving (λ a. (b : ℕ) → bit_or a b ≡ bit_or b a) (λ b. zero-or b ∙ sym (or-zero b))
      λ n ih b. omega (arith, or_low n b, or_low b n, ih (b / 2))

pub and_le_right : (a b : ℕ) → bit_and a b ≤ b
and_le_right =
    halving (λ a. (b : ℕ) → bit_and a b ≤ b) (λ b. omega (arith, zero-and b))
      λ n ih b. omega (arith, and_low n b, ih (b / 2))

pub or_le_sum : (a b : ℕ) → bit_or a b ≤ a + b
or_le_sum =
    halving (λ a. (b : ℕ) → bit_or a b ≤ a + b) (λ b. omega (arith, zero-or b))
      λ n ih b. omega (arith, or_low n b, ih (b / 2))
