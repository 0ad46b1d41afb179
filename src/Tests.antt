-- ===== src/Tests.antt =====
-- A small machine and boot memory map, and the theorems at work on them.
pub mod Memory
pub mod Paging
pub mod Boot
pub mod Spaces
pub mod Requests
pub mod Lifetimes
pub mod Systems
pub mod Devices
pub mod Machines
pub mod Consoles
