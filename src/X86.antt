-- ===== src/X86.antt =====
-- arch/x86_64: the processor, its interrupt controller and its memory management unit.
pub mod Machine
pub mod Run
pub mod Msr
pub mod Cpuid
pub mod Apic
pub mod Tsc
pub mod Interrupts
pub mod Mmu
pub mod Descriptors
pub mod Serial
pub mod Start
