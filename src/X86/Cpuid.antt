-- ===== src/X86/Cpuid.antt =====
-- arch/x86_64/src/cpuid.rs: what CPUID says, with the instruction itself as a parameter.
pub mod Laws
use rincos.Prelude.{
  ℕ, ◌*◌, ◌/◌, ◌^◌, Bool, false, not, ◌&&◌, Option, none, some, ltb, leb, ◌==◌, if◌then◌else◌,
  bit_and, saturating_mul, has_bits,
}

pub record CpuidResult : Type 0 where
  pub eax : ℕ
  pub ebx : ℕ
  pub ecx : ℕ
  pub edx : ℕ

-- `__cpuid_count`, by leaf and sub-leaf.
abbrev pub CpuidCount : Type 0
CpuidCount = ℕ → ℕ → CpuidResult

module _ (cpuid : CpuidCount) where
  unfoldable pub has_leaf : ℕ → Bool
  has_leaf leaf = leb leaf (cpuid 0 0).eax

  unfoldable pub has_invariant_tsc : Bool
  has_invariant_tsc =
      let max_ext = (cpuid 0x8000_0000 0).eax in
      if ltb max_ext 0x8000_0007 then false else has_bits (cpuid 0x8000_0007 0).edx (2 ^ 8)

  unfoldable pub has_x2apic : Bool
  has_x2apic = has_bits (cpuid 1 0).ecx (2 ^ 21)

  unfoldable pub has_nx : Bool
  has_nx =
      let max_ext = (cpuid 0x8000_0000 0).eax in
      if ltb max_ext 0x8000_0001 then false else has_bits (cpuid 0x8000_0001 0).edx (2 ^ 20)

  -- From leaf 0x15, the crystal's frequency and its ratio to the counter's.
  unfoldable pub crystal_hz : Option ℕ
  unfolding has_leaf
  crystal_hz =
      if has_leaf 0x15
      then (let denom = (cpuid 0x15 0).eax in
          let numer = (cpuid 0x15 0).ebx in
          let crystal = (cpuid 0x15 0).ecx in
          if not (denom == 0) && not (numer == 0) && not (crystal == 0)
          then some (saturating_mul crystal numer / denom)
          else none)
      else none

  -- From leaf 0x16, the base frequency in megahertz.
  unfoldable pub base_hz : Option ℕ
  unfolding has_leaf
  base_hz =
      if has_leaf 0x16
      then (let mhz = (cpuid 0x16 0).eax in if not (mhz == 0) then some (mhz * 1_000_000) else none)
      else none

  unfoldable pub tsc_hz : Option ℕ
  unfolding crystal_hz base_hz
  tsc_hz = elim crystal_hz [ some hz ↦ some hz | none ↦ base_hz ]
