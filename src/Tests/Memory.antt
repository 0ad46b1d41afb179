-- ===== src/Tests/Memory.antt =====
-- A boot memory map with one usable entry, and the frames of kernel/src/svc/vm.rs in it.
use rincos.Prelude.{ℕ, ◌≡◌, ◌<◌, refl, arith, some, inl, inr}
use rincos.Hal.Mmu.{Memory}
use rincos.Bootabi.{
  BootInfo, MemMapEntry, MemType, mem_map_entry_size, x86_64, FbFormat, empty_span, bootabi_magic,
  bootabi_version, boot_info_size,
}
use rincos.Vm.{BootPtAlloc, new, alloc_frame_4k, free_frame_4k}
use rincos.Vm.Map.{IsMap}
use rincos.Vm.FromMap.{FromMap, next_from_map-FromMap}
use rincos.Vm.Alloc.{Avail, IsSound}
use rincos.Vm.Source.{Served, alloc_frame_4k-Served, Freed, free_frame_4k-Freed}
use rincos.Vm.Start.{Started, new-Started, begun, begun-IsSound}
use rincos.Vm

abbrev pub hhdm : ℕ
hhdm = 0xffff_8000_0000_0000

abbrev pub one_entry : ℕ → MemMapEntry
one_entry i = record { base = 0x2000; len = 0x6800; mem_type = MemType.usable; flags = 0 }

pub one_entry-IsMap : IsMap one_entry 1
one_entry-IsMap = record {
  physical = λ j lt _. omega arith;
  disjoint = λ i j lt lt' _ _ ne. ground arith;
}

abbrev pub sample_boot : BootInfo
sample_boot = record {
  hdr = record { magic = bootabi_magic; version = bootabi_version; header_size = boot_info_size };
  arch = x86_64;
  boot_mode = 2;
  cpu_count = 1;
  phys_addr_bits = 39;
  virt_addr_bits = 48;
  hhdm_offset = hhdm;
  mem = record {
    entries_ptr = 0x9000;
    entries = one_entry;
    entry_count = 1;
    entry_size = mem_map_entry_size;
    flags = 0;
  };
  acpi_rsdp = 0;
  fb = record { addr = 0; width = 0; height = 0; pitch = 0; bpp = 0; format = FbFormat.unknown };
  cmdline = empty_span;
  bootloader = empty_span;
  boot_flags = 0;
}

abbrev pub sample_alloc : BootPtAlloc
sample_alloc = begun sample_boot one_entry-IsMap

pub sample_alloc-IsSound : IsSound hhdm sample_alloc
sample_alloc-IsSound = begun-IsSound sample_boot one_entry-IsMap

abbrev pub zero_memory : Memory
zero_memory _ = 0

pub not_avail : (q : ℕ) → q < 0x2000 → ¬ (Avail sample_alloc q)
not_avail q low (inl (i, lt, _)) = ground arith
not_avail q low (inr (j, within, _)) = omega (arith, within.lower)

first_frame : (alloc_frame_4k sample_alloc zero_memory).0 ≡ some 0x2000
unfolding alloc_frame_4k Vm.entry_at Vm.next_round Vm.is_usable Vm.align_up
first_frame = refl

new-Started_example : Started sample_boot (new sample_boot)
new-Started_example = new-Started sample_boot one_entry-IsMap

next_from_map-FromMap_example : FromMap sample_alloc (Vm.next_from_map sample_alloc)
next_from_map-FromMap_example = next_from_map-FromMap sample_alloc sample_alloc-IsSound.cursor

alloc_frame_4k-Served_example :
    Served hhdm sample_alloc zero_memory (alloc_frame_4k sample_alloc zero_memory)
alloc_frame_4k-Served_example =
    alloc_frame_4k-Served hhdm refl sample_alloc zero_memory sample_alloc-IsSound

free_frame_4k-Freed_example : Freed hhdm sample_alloc 0x1000 (free_frame_4k sample_alloc 0x1000)
free_frame_4k-Freed_example =
    free_frame_4k-Freed hhdm sample_alloc sample_alloc-IsSound 0x1000 (refl, omega arith)
      (not_avail 0x1000 (omega arith))
