-- ===== src/X86/Msr.antt =====
-- arch/x86_64/src/msr.rs: the model-specific registers, written and read in two halves.
pub mod Laws
use rincos.Prelude.{ℕ, ◌^◌, ◌*◌, ◌+◌, bit_or, shl, shr, as_u32}
use rincos.X86.Machine.{Machine, update, emit, write_msr}

abbrev pub ia32_tsc_deadline : ℕ
ia32_tsc_deadline = 0x0000_06e0

abbrev pub ia32_apic_base : ℕ
ia32_apic_base = 0x1b

abbrev pub ia32_efer : ℕ
ia32_efer = 0xc000_0080

-- What the processor makes of EDX and EAX.
abbrev pub edx_eax : ℕ → ℕ → ℕ
edx_eax hi lo = hi * 2 ^ 32 + lo

unfoldable pub wrmsr : ℕ → ℕ → Machine → Machine
wrmsr msr val m =
    let lo = as_u32 val in
    let hi = as_u32 (shr val 32) in
    record (emit (write_msr msr (edx_eax hi lo)) m) { msr = update m.msr msr (edx_eax hi lo) }

unfoldable pub rdmsr : ℕ → Machine → ℕ
rdmsr msr m =
    let lo = as_u32 (m.msr msr) in let hi = as_u32 (shr (m.msr msr) 32) in bit_or (shl hi 32) lo
