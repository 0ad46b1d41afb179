-- ===== src/X86/Msr/Laws.antt =====
-- The registers of arch/x86_64/src/msr.rs: a write and a read of 64 bits.
use rincos.Prelude.{ℕ, ◌+◌, ◌*◌, ◌/◌, ◌%◌, ◌^◌, ◌≡◌, arith, ◌==◌, if◌then◌else◌}
use rincos.Prelude.Bits.{or_fields}
use rincos.X86.Machine.{Machine}
use rincos.X86.Msr.{wrmsr, rdmsr}

pub rdmsr_lem : (msr : ℕ) (m : Machine) → rdmsr msr m ≡ m.msr msr % 2 ^ 64
unfolding rdmsr
rdmsr_lem msr m =
    let v : ℕ = m.msr msr in
    let whole : v / 2 ^ 32 % 2 ^ 32 * 2 ^ 32 % 2 ^ 64 ≡ v / 2 ^ 32 % 2 ^ 32 * 2 ^ 32 =
      omega arith in
    rw (whole, or_fields 32 (v / 2 ^ 32 % 2 ^ 32) (v % 2 ^ 32) (omega arith)) (omega arith)

-- A write puts 64 bits into its register and leaves the others.
pub wrmsr-msr :
    (msr val other : ℕ) (m : Machine)
    → (wrmsr msr val m).msr other ≡ (if other == msr then val % 2 ^ 64 else m.msr other)
unfolding wrmsr
wrmsr-msr msr val other m = ground (arith, halves val)
  where
    halves : (v : ℕ) → v / 2 ^ 32 % 2 ^ 32 * 2 ^ 32 + v % 2 ^ 32 ≡ v % 2 ^ 64
    halves v = omega arith
