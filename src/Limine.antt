-- ===== src/Limine.antt =====
-- crates/bootloader/limine/src/lib.rs: from the boot loader's responses to the `BootInfo`.
pub mod Memmap
pub mod Strings
pub mod Info
