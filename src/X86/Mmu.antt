-- ===== src/X86/Mmu.antt =====
-- arch/x86_64/src/mmu.rs.
pub mod Entry
pub mod Table
pub mod Page
pub mod Walk
pub mod Frames
pub mod Ensure
pub mod Slots
pub mod Features
pub mod Spaces
pub mod Local
pub mod Requests
pub mod System
pub mod Shootdown
