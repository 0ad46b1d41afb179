-- ===== src/Kernel.antt =====
-- kernel/src: what the kernel does with its interrupts and its clock, its memory service, and its start.
pub mod Time
pub mod Interrupts
pub mod Vm
pub mod Console
pub mod BootLog
pub mod Entry
pub mod Main
