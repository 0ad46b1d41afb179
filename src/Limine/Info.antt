-- ===== src/Limine/Info.antt =====
-- `gather_bootinfo` of crates/bootloader/limine/src/lib.rs.
pub mod Laws
use rincos.Prelude.{
  ℕ, zero, suc, ◌+◌, ◌||◌, Bool, not, Option, none, some, List, [], ◌∷◌, ◌==◌, if◌then◌else◌,
  bit_or,
}
use rincos.Bootabi.{
  Arch, x86_64, aarch64, BootMode, as_raw, BootInfo, MemMapEntry, MemMapView, ByteSpan, Framebuffer,
  FbFormat, empty_span, bootabi_magic, bootabi_version, boot_info_size, mem_map_entry_size,
}
use rincos.Limine.Memmap.{EntryType, Entry, convert_memmap_entries, empty_memmap_view}
use rincos.Limine.Strings.{StrView, StrBuf, cstr_view, strbuf_alloc_copy, strbuf_alloc_join}

-- The constants of the crate `limine` for the kinds of firmware.
pub record FirmwareType : Type 0 where
  pub x86_bios : ℕ
  pub uefi_64 : ℕ
  pub uefi_32 : ℕ

-- What the boot loader has put into the requests, where it has answered them. The answers to the
-- requests for the command line and the loader's name are pointers to strings.
pub record Responses : Type 0 where
  pub is_valid : Bool
  pub is_supported : Bool
  pub firmware_type : Option ℕ
  pub hhdm : Option ℕ
  pub rsdp : Option ℕ
  pub memmap : Option (List Entry)
  pub cmdline : Option ℕ
  pub bootloader_info : Option (ℕ × ℕ)

-- The static buffers, and where they stand.
pub record Statics : Type 0 where
  pub membuf_ptr : ℕ
  pub membuf : ℕ → MemMapEntry
  pub strbuf_ptr : ℕ
  pub strbuf : StrBuf

abbrev pub default_addr_bits : Arch → ℕ × ℕ
default_addr_bits x86_64 = (52, 48)
default_addr_bits aarch64 = (48, 48)

abbrev pub no_framebuffer : Framebuffer
no_framebuffer = record {
  addr = 0;
  width = 0;
  height = 0;
  pitch = 0;
  bpp = 0;
  format = FbFormat.unknown;
}

-- `MEMBUF` holds `membuf`, which the empty view does not point to.
unfoldable pub minimal_bootinfo : Arch → ℕ → (ℕ → MemMapEntry) → BootInfo
minimal_bootinfo arch cpu_count membuf = record {
  hdr = record { magic = bootabi_magic; version = bootabi_version; header_size = boot_info_size };
  arch = arch;
  boot_mode = as_raw BootMode.unknown;
  cpu_count = cpu_count;
  phys_addr_bits = (default_addr_bits arch).0;
  virt_addr_bits = (default_addr_bits arch).1;
  hhdm_offset = 0;
  mem = record {
    entries_ptr = 0;
    entries = membuf;
    entry_count = 0;
    entry_size = mem_map_entry_size;
    flags = 0;
  };
  acpi_rsdp = 0;
  fb = no_framebuffer;
  cmdline = empty_span;
  bootloader = empty_span;
  boot_flags = 0;
}

unfoldable pub boot_mode_of : FirmwareType → Option ℕ → BootMode
boot_mode_of f none = BootMode.unknown
boot_mode_of f (some t) =
    if t == f.x86_bios
    then BootMode.bios
    else (if t == f.uefi_64
        then BootMode.uefi
        else (if t == f.uefi_32 then BootMode.uefi else BootMode.unknown))

abbrev pub unwrap_or : {A : Type 0} → Option A → A → A
unwrap_or none a = a
unwrap_or (some x) a = x

-- `from_raw_parts(view.ptr, view.len)`: the bytes from `ptr` on.
unfoldable pub from_raw_parts : (ℕ → ℕ) → ℕ → ℕ → List ℕ
from_raw_parts memory ptr zero = []
from_raw_parts memory ptr (suc len) = memory ptr ∷ from_raw_parts memory (ptr + 1) len

-- The bytes of a string that `cstr_view` accepts.
unfoldable pub string_at : (ℕ → ℕ) → ℕ → MemMapView → ℕ → Option (List ℕ)
unfolding from_raw_parts
string_at memory hhdm_offset mem ptr = elim (cstr_view memory ptr hhdm_offset mem) [
  | none ↦ none
  | some view ↦ some (from_raw_parts memory view.ptr view.len)
]

unfoldable pub gather_cmdline : Statics → Option (List ℕ) → StrBuf → ByteSpan × StrBuf
gather_cmdline statics none buf = (empty_span, buf)
gather_cmdline statics (some bytes) buf = strbuf_alloc_copy statics.strbuf_ptr bytes buf

unfoldable pub gather_bootloader :
    Statics → Option (List ℕ) → Option (List ℕ) → StrBuf → ByteSpan × StrBuf
gather_bootloader statics (some a) (some b) buf = strbuf_alloc_join statics.strbuf_ptr a b buf
gather_bootloader statics (some a) none buf = strbuf_alloc_copy statics.strbuf_ptr a buf
gather_bootloader statics none (some b) buf = strbuf_alloc_copy statics.strbuf_ptr b buf
gather_bootloader statics none none buf = (empty_span, buf)

abbrev pub bind : {A B : Type 0} → Option A → (A → Option B) → Option B
bind none f = none
bind (some a) f = f a

-- The information, and the buffers afterwards. `memory` has the boot loader's bytes, which lie
-- outside of the kernel's own buffers.
unfoldable pub gather_bootinfo :
    Arch → FirmwareType → EntryType → Responses → (ℕ → ℕ) → ℕ → Statics → BootInfo × Statics
unfolding string_at
gather_bootinfo arch f l responses memory cpu_count statics =
    let buf : StrBuf = record statics.strbuf { used = 0 } in
    if not responses.is_valid || not responses.is_supported
    then (minimal_bootinfo arch cpu_count statics.membuf, record statics { strbuf = buf })
    else (let hhdm_offset = unwrap_or responses.hhdm 0 in
        let (converted, membuf) : (MemMapView × ℕ) × (ℕ → MemMapEntry) = elim responses.memmap [
          | none ↦ (empty_memmap_view statics.membuf, statics.membuf)
          | some entries ↦ convert_memmap_entries l statics.membuf_ptr statics.membuf entries
        ] in
        let memmap_view = converted.0 in
        let memmap_flags = converted.1 in
        let string = string_at memory hhdm_offset memmap_view in
        let (cmdline, buf) = gather_cmdline statics (bind responses.cmdline string) buf in
        let (bootloader, buf) =
          gather_bootloader statics (bind responses.bootloader_info λ (name, version). string name)
            (bind responses.bootloader_info λ (name, version). string version) buf in
        (
          record {
            hdr = record {
              magic = bootabi_magic;
              version = bootabi_version;
              header_size = boot_info_size;
            };
            arch = arch;
            boot_mode = as_raw (boot_mode_of f responses.firmware_type);
            cpu_count = cpu_count;
            phys_addr_bits = (default_addr_bits arch).0;
            virt_addr_bits = (default_addr_bits arch).1;
            hhdm_offset = hhdm_offset;
            mem = memmap_view;
            acpi_rsdp = unwrap_or responses.rsdp 0;
            fb = no_framebuffer;
            cmdline = cmdline;
            bootloader = bootloader;
            boot_flags = bit_or 0 memmap_flags;
          },
          record statics { membuf = membuf; strbuf = buf },
        ))
