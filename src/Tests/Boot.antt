-- ===== src/Tests/Boot.antt =====
-- A boot loader's answers, with two entries and strings, and crates/bootloader/limine/src/lib.rs on
-- them.
use mathlib.Core.Path.{subst}
use rincos.Prelude.{
  ℕ, zero, suc, ◌+◌, ◌≡◌, ◌≢◌, ◌≤◌, refl, arith, none, some, List, [], ◌∷◌, true, ◌==◌,
  if◌then◌else◌, get_elem?, ◌⊎◌,
}
use rincos.Bootabi.{x86_64, MemMapView, mem_map_entry_size}
use rincos.Limine.Memmap.{EntryType, Entry, convert_memmap_entries}
use rincos.Limine.Memmap.Laws.{Converted, convert_memmap_entries-Converted}
use rincos.Limine.Memmap.Sane.{IsFree, IsKinds, IsReported}
use rincos.Limine.Strings.{StrBuf, strbuf_alloc_copy, cstr_view}
use rincos.Limine.Strings.Laws.{Placed, strbuf_alloc_copy-Placed}
use rincos.Limine.Strings.View.{Viewed, cstr_view-Viewed}
use rincos.Limine.Info.{FirmwareType, Responses, Statics, gather_bootinfo}
use rincos.Limine.Info.Laws.{Answered, gather_bootinfo-Answered}
use rincos.Vm.{new}
use rincos.Tests.Memory.{hhdm, one_entry}

abbrev pub kinds : EntryType
kinds = record {
  usable = 0;
  reserved = 1;
  acpi_reclaimable = 2;
  acpi_nvs = 3;
  bad_memory = 4;
  bootloader_reclaimable = 5;
  executable_and_modules = 6;
}

abbrev pub firmware : FirmwareType
firmware = record { x86_bios = 0; uefi_32 = 1; uefi_64 = 2 }

abbrev pub low_entry : Entry
low_entry = record { base = 0; length = 0x1000; entry_type = 1 }

abbrev pub high_entry : Entry
high_entry = record { base = 0x2000; length = 0x6800; entry_type = 0 }

abbrev pub reported : List Entry
reported = low_entry ∷ high_entry ∷ []

low_taken : ¬ IsFree kinds 1
low_taken free = ground (arith, free)

not_low : (e : Entry) → low_entry ≡ e → ¬ IsFree kinds e.entry_type
not_low e same = subst (λ (x : Entry). ¬ IsFree kinds x.entry_type) same low_taken

kinds-IsKinds : IsKinds kinds
kinds-IsKinds = record {
  not_reserved = λ e. ground (arith, e);
  not_acpi_reclaimable = λ e. ground (arith, e);
  not_acpi_nvs = λ e. ground (arith, e);
  not_bad_memory = λ e. ground (arith, e);
}

reported-IsReported : IsReported kinds reported
reported-IsReported = record { physical = physical; disjoint = disjoint }
  where
    physical :
        (i : ℕ) (e : Entry)
        → get_elem? reported i ≡ some e
        → IsFree kinds e.entry_type
        → e.base + e.length ≤ 0x10_0000_0000_0000
    physical zero e at _ = let same : low_entry ≡ e = cc at in rw (← same) (omega arith)
    physical (suc zero) e at _ = let same : high_entry ≡ e = cc at in rw (← same) (omega arith)
    physical (suc (suc i)) e at _ = ground arith

    disjoint :
        (i j : ℕ) (d e : Entry)
        → get_elem? reported i ≡ some d
        → get_elem? reported j ≡ some e
        → IsFree kinds d.entry_type
        → IsFree kinds e.entry_type
        → i ≢ j
        → (d.base + d.length ≤ e.base) ⊎ (e.base + e.length ≤ d.base)
    disjoint zero j d e at _ usable _ _ = absurd (not_low d (cc at) usable)
    disjoint (suc i) zero d e _ at _ usable _ = absurd (not_low e (cc at) usable)
    disjoint (suc zero) (suc zero) d e _ _ _ _ ne = absurd (ne refl)
    disjoint (suc (suc i)) (suc j) d e at _ _ _ _ = ground arith
    disjoint (suc zero) (suc (suc j)) d e _ at _ _ _ = ground arith

-- The bytes of "ab" and a zero, at physical address 0x3000.
abbrev pub loader_memory : ℕ → ℕ
loader_memory p =
    if p == 0xffff_8000_0000_3000 then 0x61 else (if p == 0xffff_8000_0000_3001 then 0x62 else 0)

abbrev pub responses : Responses
responses = record {
  is_valid = true;
  is_supported = true;
  firmware_type = some 2;
  hhdm = some hhdm;
  rsdp = none;
  memmap = some reported;
  cmdline = some 0xffff_8000_0000_3000;
  bootloader_info = none;
}

abbrev empty_buf : StrBuf
empty_buf = record { bytes = λ _. 0; used = 0 }

abbrev pub statics : Statics
statics = record {
  membuf_ptr = 0xffff_ffff_8010_0000;
  membuf = one_entry;
  strbuf_ptr = 0xffff_ffff_8010_8000;
  strbuf = empty_buf;
}

abbrev view : MemMapView
view = record {
  entries_ptr = 0x9000;
  entries = one_entry;
  entry_count = 1;
  entry_size = mem_map_entry_size;
  flags = 0;
}

all_reported : (es : List Entry) → some reported ≡ some es → IsReported kinds es
all_reported es e = let same : reported ≡ es = cc e in rw (← same) reported-IsReported

gather_bootinfo-Answered_example :
    Answered x86_64 firmware kinds responses loader_memory 1 statics kinds-IsKinds all_reported
      (new (gather_bootinfo x86_64 firmware kinds responses loader_memory 1 statics).0)
gather_bootinfo-Answered_example =
    gather_bootinfo-Answered x86_64 firmware kinds responses loader_memory 1 statics kinds-IsKinds
      all_reported

convert_memmap_entries-Converted_example :
    let r = (convert_memmap_entries kinds 0x9000 one_entry reported).0 in
    Converted kinds reported r.0 r.1
convert_memmap_entries-Converted_example =
    convert_memmap_entries-Converted kinds 0x9000 one_entry reported

cstr_view-Viewed_example : Viewed loader_memory hhdm view (cstr_view loader_memory 0x3000 hhdm view)
cstr_view-Viewed_example =
    cstr_view-Viewed loader_memory 0x3000 hhdm view (omega arith) (omega arith)

strbuf_alloc_copy-Placed_example :
    Placed 0x8000
      (0x61 ∷ 0x62 ∷ [])
      empty_buf
      (strbuf_alloc_copy 0x8000 (0x61 ∷ 0x62 ∷ []) empty_buf)
strbuf_alloc_copy-Placed_example =
    strbuf_alloc_copy-Placed 0x8000 (0x61 ∷ 0x62 ∷ []) empty_buf (omega arith)
