-- ===== src/Prelude/Words.antt =====
-- Machine words as native numbers: the wrap-around of each width is written out.
use Prim.Native.Nat.{ℕ, ◌+◌, ◌-◌, ◌*◌, ◌/◌, ◌%◌, ◌^◌, min, bit_and}
use mathlib.Core.Bool.{Bool, not}
use mathlib.Core.Option.{Option, none, some}
use rincos.Prelude.Tests.{ltb, ◌==◌, if◌then◌else◌}

abbrev pub u8_mod : ℕ
u8_mod = 2 ^ 8

abbrev pub u16_mod : ℕ
u16_mod = 2 ^ 16

abbrev pub u32_mod : ℕ
u32_mod = 2 ^ 32

abbrev pub u64_mod : ℕ
u64_mod = 2 ^ 64

-- `x as u8`, `x as u16` and `x as u32` keep the low bits.
abbrev pub as_u8 : ℕ → ℕ
as_u8 x = x % u8_mod

abbrev pub as_u16 : ℕ → ℕ
as_u16 x = x % u16_mod

abbrev pub as_u32 : ℕ → ℕ
as_u32 x = x % u32_mod

-- `x << k` and `x >> k` of a u64.
abbrev pub shl : ℕ → ℕ → ℕ
shl x k = x * 2 ^ k % u64_mod

abbrev pub shr : ℕ → ℕ → ℕ
shr x k = x / 2 ^ k

-- `!x` of a u64.
abbrev pub bit_not : ℕ → ℕ
bit_not x = u64_mod - 1 - x

abbrev pub wrapping_add : ℕ → ℕ → ℕ
wrapping_add a b = (a + b) % u64_mod

abbrev pub wrapping_sub : ℕ → ℕ → ℕ
wrapping_sub a b = (a + u64_mod - b) % u64_mod

abbrev pub checked_add : ℕ → ℕ → Option ℕ
checked_add a b = if ltb (a + b) u64_mod then some (a + b) else none

abbrev pub saturating_mul : ℕ → ℕ → ℕ
saturating_mul a b = min (a * b) (u64_mod - 1)

-- `(x & m) != 0`.
abbrev pub has_bits : ℕ → ℕ → Bool
has_bits x m = not (bit_and x m == 0)
