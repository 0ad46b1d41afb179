-- ===== src/Hal.antt =====
-- crates/hal: the interfaces between the kernel and the architecture.
pub mod Mmu
pub mod Serial
pub mod Time
pub mod Interrupt
