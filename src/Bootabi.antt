-- ===== src/Bootabi.antt =====
-- crates/bootabi/src/lib.rs: the data that the boot loader hands to the kernel.
use rincos.Prelude.{ℕ, Bool, true, ◌||◌, ◌==◌}

abbrev pub bootabi_magic : ℕ
bootabi_magic = 0x424f4f54

abbrev pub bootabi_version : ℕ
bootabi_version = 1

pub record BootHeader : Type 0 where
  pub magic : ℕ
  pub version : ℕ
  pub header_size : ℕ

pub data Arch : Type 0 where
  x86_64 aarch64 : Arch

pub data BootMode : Type 0 where
  unknown bios uefi : BootMode

unfoldable pub from_raw : ℕ → BootMode
from_raw raw = elim (raw == 1) [
  | true ↦ BootMode.bios
  | _ ↦ elim (raw == 2) [ true ↦ BootMode.uefi | _ ↦ BootMode.unknown ]
]

unfoldable pub as_raw : BootMode → ℕ
as_raw BootMode.unknown = 0
as_raw BootMode.bios = 1
as_raw BootMode.uefi = 2

pub record ByteSpan : Type 0 where
  pub ptr : ℕ
  pub len : ℕ

abbrev pub empty_span : ByteSpan
empty_span = record { ptr = 0; len = 0 }

unfoldable pub is_empty : ByteSpan → Bool
is_empty s = s.ptr == 0 || s.len == 0

pub data MemType : Type 0 where
  reserved usable acpi_reclaimable acpi_nvs mmio bad_memory bootloader_reclaimable : MemType
  kernel_and_modules : MemType

pub record MemMapEntry : Type 0 where
  pub base : ℕ
  pub len : ℕ
  pub mem_type : MemType
  pub flags : ℕ

-- `MemMapFlags::TRUNCATED`.
abbrev pub mem_map_truncated : ℕ
mem_map_truncated = 1

-- `size_of::<MemMapEntry>()`: two words, and a byte, a byte and a half-word in a third.
abbrev pub mem_map_entry_size : ℕ
mem_map_entry_size = 24

-- `entries` is what `entries_ptr` points to; the buffer is written once, before the kernel runs.
pub record MemMapView : Type 0 where
  pub entries_ptr : ℕ
  pub entries : ℕ → MemMapEntry
  pub entry_count : ℕ
  pub entry_size : ℕ
  pub flags : ℕ

pub data FbFormat : Type 0 where
  rgb bgr unknown : FbFormat

pub record Framebuffer : Type 0 where
  pub addr : ℕ
  pub width : ℕ
  pub height : ℕ
  pub pitch : ℕ
  pub bpp : ℕ
  pub format : FbFormat

pub record BootInfo : Type 0 where
  pub hdr : BootHeader
  pub arch : Arch
  pub boot_mode : ℕ
  pub cpu_count : ℕ
  pub phys_addr_bits : ℕ
  pub virt_addr_bits : ℕ
  pub hhdm_offset : ℕ
  pub mem : MemMapView
  pub acpi_rsdp : ℕ
  pub fb : Framebuffer
  pub cmdline : ByteSpan
  pub bootloader : ByteSpan
  pub boot_flags : ℕ

-- `size_of::<BootInfo>()` with the padding that `repr(C)` puts before `hhdm_offset`.
abbrev pub boot_info_size : ℕ
boot_info_size = 120
