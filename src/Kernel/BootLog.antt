-- ===== src/Kernel/BootLog.antt =====
-- kernel/src/bootinfo.rs: the boot information as the kernel prints it. What the formatting of core makes
-- of a number or of a name is a parameter; so are the bytes that a pointer leads to.
pub mod Laws
pub mod Printed
use Prim.Native.String.{String}
use rincos.Prelude.{
  ℕ, zero, suc, ◌+◌, ◌||◌, not, Bool, Option, List, [], ◌∷◌, ◌++◌, map, ◌==◌, if◌then◌else◌,
  bit_and, codes,
}
use rincos.Bootabi.{
  Arch, BootMode, from_raw, ByteSpan, is_empty, MemType, MemMapEntry, MemMapView,
  mem_map_entry_size, FbFormat, Framebuffer, BootInfo, mem_map_truncated,
}
use rincos.Limine.Info.{from_raw_parts}
use rincos.Kernel.Console.{Output, LogSink, print}

-- A part of a formatted text: a literal, or an argument with its format.
pub data Piece : Type 0 where
  -- `{}` of a text.
  text : List ℕ → Piece
  -- `{:#x}`, `{}`, `{:02}` and `{:02x}` of a number.
  hex dec dec2 hex2 : ℕ → Piece
  -- `{:?}`.
  debug_arch : Arch → Piece
  debug_format : FbFormat → Piece

-- `klogln!`.
abbrev pub line : List Piece → List Piece
line pieces = pieces ++ (text (codes "\n") ∷ [])

unfoldable pub mem_type_name : MemType → String
mem_type_name MemType.reserved = "reserved"
mem_type_name MemType.usable = "usable"
mem_type_name MemType.acpi_reclaimable = "acpi_reclaimable"
mem_type_name MemType.acpi_nvs = "acpi_nvs"
mem_type_name MemType.mmio = "mmio"
mem_type_name MemType.bad_memory = "bad_memory"
mem_type_name MemType.bootloader_reclaimable = "bootloader_reclaimable"
mem_type_name MemType.kernel_and_modules = "kernel_and_modules"

unfoldable pub mem_flags_suffix : ℕ → String
mem_flags_suffix flags = if not (bit_and flags mem_map_truncated == 0) then " (TRUNCATED)" else ""

unfoldable pub boot_mode_name : BootMode → String
boot_mode_name BootMode.bios = "BIOS"
boot_mode_name BootMode.uefi = "UEFI"
boot_mode_name BootMode.unknown = "Unknown"

-- The loop over the bytes that are no text.
unfoldable pub hex_bytes : List ℕ → List Piece
hex_bytes [] = []
hex_bytes (b ∷ bytes) = hex2 b ∷ hex_bytes bytes

-- `is_utf8` says whether `from_utf8` accepts the bytes.
unfoldable pub print_bytespan : (ℕ → ℕ) → (List ℕ → Bool) → String → ByteSpan → List Piece
unfolding hex_bytes from_raw_parts is_empty
print_bytespan memory is_utf8 label span =
    let bytes = from_raw_parts memory span.ptr span.len in
    if is_empty span
    then line (text (codes "[boot] ") ∷ text (codes label) ∷ text (codes "=<none>") ∷ [])
    else (if is_utf8 bytes
        then line (text (codes "[boot] ") ∷ text (codes label) ∷ text (codes "=") ∷ text bytes ∷ [])
        else (text (codes "[boot] ") ∷ text (codes label) ∷ text (codes "=0x") ∷ [])
          ++ (hex_bytes bytes ++ line []))

unfoldable pub print_fb : Framebuffer → List Piece
print_fb fb =
    if not (fb.addr == 0)
    then line (
        text (codes "[boot] fb addr=")
        ∷ hex fb.addr
        ∷ text (codes " ")
        ∷ dec fb.width
        ∷ text (codes "x")
        ∷ dec fb.height
        ∷ text (codes " pitch=")
        ∷ dec fb.pitch
        ∷ text (codes " bpp=")
        ∷ dec fb.bpp
        ∷ text (codes " format=")
        ∷ debug_format fb.format
        ∷ [])
    else line (text (codes "[boot] fb=<none>") ∷ [])

unfoldable pub entry_line : ℕ → MemMapEntry → List Piece
unfolding mem_type_name
entry_line i entry = line (
    text (codes "[mem] ")
    ∷ dec2 i
    ∷ text (codes " base=")
    ∷ hex entry.base
    ∷ text (codes " len=")
    ∷ hex entry.len
    ∷ text (codes " type=")
    ∷ text (codes (mem_type_name entry.mem_type))
    ∷ [])

-- The loop over the `left` entries from entry `i` on.
unfoldable pub entry_lines : (ℕ → MemMapEntry) → ℕ → ℕ → List Piece
unfolding entry_line
entry_lines entries i zero = []
entry_lines entries i (suc left) = entry_line i (entries i) ++ entry_lines entries (i + 1) left

abbrev pub no_entries_line : List Piece
no_entries_line = line (text (codes "[mem] <none>") ∷ [])

-- The end of `print_boot_info`, from the count of the entries on.
unfoldable pub print_entries : MemMapView → List Piece
unfolding entry_lines
print_entries mem =
    if mem.entry_count == 0 || mem.entries_ptr == 0
    then no_entries_line
    else (if not (mem.entry_size == mem_map_entry_size)
        then line (
            text (codes "[mem] unsupported entry_size=")
            ∷ dec mem.entry_size
            ∷ text (codes " (expected ")
            ∷ dec mem_map_entry_size
            ∷ text (codes ")")
            ∷ [])
        else entry_lines mem.entries 0 mem.entry_count)

-- The lines on the boot itself, with which `print_boot_info` begins.
unfoldable pub header_lines : BootInfo → List Piece
unfolding boot_mode_name from_raw
header_lines boot =
    line (
      text (codes "[boot] hdr magic=")
      ∷ hex boot.hdr.magic
      ∷ text (codes " version=")
      ∷ dec boot.hdr.version
      ∷ text (codes " size=")
      ∷ dec boot.hdr.header_size
      ∷ [])
    ++ (line (
          text (codes "[boot] mode=")
          ∷ text (codes (boot_mode_name (from_raw boot.boot_mode)))
          ∷ [])
        ++ (line (
              text (codes "[boot] arch=")
              ∷ debug_arch boot.arch
              ∷ text (codes " cpu_count=")
              ∷ dec boot.cpu_count
              ∷ text (codes " phys_bits=")
              ∷ dec boot.phys_addr_bits
              ∷ text (codes " virt_bits=")
              ∷ dec boot.virt_addr_bits
              ∷ [])
            ++ (line (
                  text (codes "[boot] hhdm=")
                  ∷ hex boot.hhdm_offset
                  ∷ text (codes " acpi_rsdp=")
                  ∷ hex boot.acpi_rsdp
                  ∷ [])
                ++ line (text (codes "[boot] boot_flags=") ∷ hex boot.boot_flags ∷ []))))

-- The line that counts the entries of the memory map.
unfoldable pub count_line : MemMapView → List Piece
unfolding mem_flags_suffix
count_line mem = line (
    text (codes "[mem] entries=")
    ∷ dec mem.entry_count
    ∷ text (codes " entry_size=")
    ∷ dec mem.entry_size
    ∷ text (codes " flags=")
    ∷ hex mem.flags
    ∷ text (codes (mem_flags_suffix mem.flags))
    ∷ [])

-- The pieces of all calls of `klog!` and `klogln!`, in their order.
unfoldable pub boot_info_pieces : (ℕ → ℕ) → (List ℕ → Bool) → BootInfo → List Piece
unfolding header_lines print_bytespan print_fb count_line print_entries
boot_info_pieces memory is_utf8 boot =
    header_lines boot
    ++ (print_bytespan memory is_utf8 "cmdline" boot.cmdline
        ++ (print_bytespan memory is_utf8 "bootloader" boot.bootloader
            ++ (print_fb boot.fb ++ (count_line boot.mem ++ print_entries boot.mem))))

-- `render` is the formatting of core.
unfoldable pub print_boot_info :
    {M : Type 0} (render : Piece → List ℕ) (memory : ℕ → ℕ) (is_utf8 : List ℕ → Bool)
    → BootInfo
    → Option (LogSink M)
    → Output M
    → Option (Output M)
unfolding boot_info_pieces
print_boot_info render memory is_utf8 boot logger o =
    print logger (map render (boot_info_pieces memory is_utf8 boot)) o
