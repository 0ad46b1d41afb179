-- ===== src/Tests/Paging.antt =====
-- A machine with an empty root table at 0x1000, and the pages of arch/x86_64/src/mmu.rs on it.
use rincos.Prelude.{
  ◌/◌, ◌==◌, ◌%◌, ◌+◌, ℕ, ◌≡◌, ◌<◌, refl, arith, none, some, List, [], ◌∷◌, true, false,
  if◌then◌else◌, bit_or,
}
use rincos.Hal.Mmu.{AddressSpace, MapFlags, MapError, invalid_address}
use rincos.X86.Machine.{Machine, ApicMode}
use rincos.X86.Run.{World, Run, ok, err, fault}
use rincos.X86.Mmu.Entry.{pml4_index, is_canonical, has, pte_p, frame_of, flags_to_pte}
use rincos.X86.Mmu.Entry.Laws.{zero-has}
use rincos.X86.Mmu.Table.{entry, ensure_table}
use rincos.X86.Mmu.Walk.{table_at, next_table, IsTree, page_at}
use rincos.X86.Mmu.Ensure.{IsSpace, Ensured, ensure_table-Ensured}
use rincos.X86.Mmu.Page.{root_of, map_4k, unmap_4k, protect_4k, translate}
use rincos.X86.Mmu.Entry
use rincos.X86.Mmu.Table
use rincos.X86.Mmu.Walk
use rincos.Vm
use rincos.X86.Mmu.Page.Translate.{Translated, translate_lem}
use rincos.X86.Mmu.Page.Edits.{Edits, unmap_4k-Edits, protect_4k-Edits}
use rincos.X86.Mmu.Page.Map.{Mapped, map_4k-Mapped}
use rincos.X86.Mmu.Page.RoundTrip.{Restored, map-translate, unmap-map}
use rincos.Vm.{BootPtAlloc, boot_pt_alloc}
use rincos.Vm.Source.{boot_source}
use rincos.Tests.Memory.{hhdm, sample_alloc, sample_alloc-IsSound, zero_memory, not_avail}

abbrev pub root : ℕ
root = 0x1000

abbrev pub page : ℕ
page = 0x40_2000

abbrev pub read_write : MapFlags
read_write = record {
  read = true;
  write = true;
  exec = false;
  user = false;
  global = false;
  uncached = false;
}

abbrev pub machine : Machine
machine = record {
  cr0 = 0x8001_0001;
  cr2 = 0;
  cr3 = root;
  cr4 = 0x20;
  msr = λ _. 0;
  tsc = 0;
  tsc_hz = 0;
  mmio = λ _. 0;
  mem = zero_memory;
  events = [];
  hhdm_offset = hhdm;
  nxe_enabled = true;
  kas = some root;
  kas_handle = some AddressSpace.kernel;
  current_per_cpu = λ _. none;
  as_slots = [];
  apic_mode = ApicMode.unset;
  lapic_base_virt = 0;
}

abbrev pub world : World BootPtAlloc
world = record { machine = machine; pt_alloc = sample_alloc }

pub no_table : (i : ℕ) (is : List ℕ) → table_at zero_memory hhdm root (i ∷ is) ≡ none
unfolding table_at next_table entry
no_table i [] = rw zero-has refl
no_table i (j ∷ is) = rw (no_table j is) refl

pub no_page : (e : ℕ) (i : ℕ) (is : List ℕ) → ¬ (table_at zero_memory hhdm root (i ∷ is) ≡ some e)
no_page e i is found = cc (no_table i is, found)

pub one_path :
    (is js : List ℕ) {t : ℕ}
    → table_at zero_memory hhdm root is ≡ some t
    → table_at zero_memory hhdm root js ≡ some t
    → is ≡ js
one_path [] [] _ _ = refl
one_path (i ∷ is) js found _ = absurd (no_page _ i is found)
one_path [] (j ∷ js) _ found = absurd (no_page _ j js found)

tree : IsTree zero_memory hhdm root 512
tree = record {
  root_frame = (refl, omega arith);
  direct_map = refl;
  limit_le = omega arith;
  distinct = λ is js _ _. one_path is js;
}

pub fresh : (js : List ℕ) {u : ℕ} → table_at zero_memory hhdm root js ≡ some u → u < 0x2000
unfolding table_at
fresh [] found = ground (arith, found)
fresh (j ∷ js) found = absurd (no_page _ j js found)

pub space : IsSpace (boot_source hhdm refl) root 512 world
space = record {
  hhdm = refl;
  sound = sample_alloc-IsSound;
  tree = tree;
  fresh = λ js _ found. not_avail _ (fresh js found);
}

pub known : root_of machine AddressSpace.kernel ≡ some root
unfolding root_of
known = refl

pub low : pml4_index page < 512
unfolding pml4_index
low = omega arith

at_root : table_at zero_memory hhdm root [] ≡ some root
unfolding table_at
at_root = refl

map_4k-Mapped_example :
    Mapped
      (boot_source hhdm refl)
      root
      512
      page
      0x5000
      read_write
      world
      (map_4k boot_pt_alloc AddressSpace.kernel page 0x5000 read_write world)
map_4k-Mapped_example =
    map_4k-Mapped (boot_source hhdm refl) root 512 page 0x5000 read_write AddressSpace.kernel world
      (omega arith) low known space

ensure_table-Ensured_example :
    Ensured
      (boot_source hhdm refl)
      root
      512
      world
      (0 ∷ [])
      (ensure_table boot_pt_alloc root 0 true world)
ensure_table-Ensured_example =
    ensure_table-Ensured (boot_source hhdm refl) root 512 space [] 0 (omega arith) (omega arith, tt)
      (omega arith) at_root true

-- The world after the page has been mapped.
abbrev after : Run BootPtAlloc MapError (Unit {0}) → World BootPtAlloc
after (ok _ w) = w
after (err _ w) = w
after fault = world

mapped_world : World BootPtAlloc
mapped_world = after (map_4k boot_pt_alloc AddressSpace.kernel page 0x5000 read_write world)

mapped_entry : page_at mapped_world.machine.mem hhdm root page ≡ some 0x8000_0000_0000_5003
unfolding mapped_world map_4k root_of ensure_table is_canonical has pml4_index flags_to_pte frame_of
    Entry.aligned_4k Entry.pdpt_index Entry.pd_index Entry.pt_index Entry.table_flags
    Vm.alloc_frame_4k Vm.entry_at Vm.next_round Vm.is_usable Vm.align_up Table.store Table.slot_of
    Table.zero_frame table_at next_table entry Walk.entry_at Walk.present_entry
mapped_entry = refl

mapped-IsSpace : IsSpace (boot_source hhdm refl) root 512 mapped_world
unfolding mapped_world map_4k root_of ensure_table is_canonical has pml4_index flags_to_pte frame_of
    Entry.aligned_4k Entry.pdpt_index Entry.pd_index Entry.pt_index Entry.table_flags
    Vm.alloc_frame_4k Vm.entry_at Vm.next_round Vm.is_usable Vm.align_up Table.store Table.slot_of
    Table.zero_frame entry
mapped-IsSpace = map_4k-Mapped_example.4

known_mapped : root_of mapped_world.machine AddressSpace.kernel ≡ some root
unfolding mapped_world map_4k root_of ensure_table is_canonical has pml4_index flags_to_pte frame_of
    Entry.aligned_4k Entry.pdpt_index Entry.pd_index Entry.pt_index Entry.table_flags
    Vm.alloc_frame_4k Vm.entry_at Vm.next_round Vm.is_usable Vm.align_up Table.store Table.slot_of
    Table.zero_frame entry
known_mapped = refl

IsTree-mapped : IsTree mapped_world.machine.mem mapped_world.machine.hhdm_offset root 512
unfolding mapped_world map_4k root_of ensure_table is_canonical has pml4_index flags_to_pte frame_of
    Entry.aligned_4k Entry.pdpt_index Entry.pd_index Entry.pt_index Entry.table_flags
    Vm.alloc_frame_4k Vm.entry_at Vm.next_round Vm.is_usable Vm.align_up Table.store Table.slot_of
    Table.zero_frame entry
IsTree-mapped = mapped-IsSpace.tree

translate_lem_example : translate AddressSpace.kernel 0x40_2abc mapped_world ≡ (
    if is_canonical 0x40_2abc
    then Translated mapped_world 0x40_2abc
        (page_at mapped_world.machine.mem mapped_world.machine.hhdm_offset root 0x40_2abc)
    else err invalid_address mapped_world)
translate_lem_example = translate_lem mapped_world AddressSpace.kernel 0x40_2abc root known_mapped

unmap_4k-Edits_example :
    Edits mapped_world root 512 page (λ _. none) (unmap_4k AddressSpace.kernel page mapped_world)
unmap_4k-Edits_example =
    unmap_4k-Edits mapped_world page root 512 (omega arith) low IsTree-mapped AddressSpace.kernel
      known_mapped

protect_4k-Edits_example :
    Edits mapped_world root 512 page
      (λ e. some (bit_or (frame_of e) (flags_to_pte read_write mapped_world.machine.nxe_enabled)))
      (protect_4k AddressSpace.kernel page read_write mapped_world)
protect_4k-Edits_example =
    protect_4k-Edits mapped_world page root 512 (omega arith) low IsTree-mapped AddressSpace.kernel
      known_mapped read_write

mapped_ok :
    map_4k boot_pt_alloc AddressSpace.kernel page 0x5000 read_write world ≡ ok tt mapped_world
unfolding mapped_world map_4k root_of ensure_table is_canonical has pml4_index flags_to_pte frame_of
    Entry.aligned_4k Entry.pdpt_index Entry.pd_index Entry.pt_index Entry.table_flags
    Vm.alloc_frame_4k Vm.entry_at Vm.next_round Vm.is_usable Vm.align_up Table.store Table.slot_of
    Table.zero_frame entry
mapped_ok = refl

canonical : is_canonical page ≡ true
unfolding is_canonical
canonical = refl

map-translate_example : translate AddressSpace.kernel page mapped_world ≡ (
    if page / 4096 == page / 4096
    then ok (0x5000 + page % 4096) mapped_world
    else Translated mapped_world page (page_at world.machine.mem hhdm root page))
map-translate_example =
    map-translate (boot_source hhdm refl) root 512 page 0x5000 read_write AddressSpace.kernel world
      mapped_world (omega arith) low known space (omega arith) mapped_ok page
      (omega arith, canonical, low)

unmap-map_example : Restored hhdm root 512 world (unmap_4k AddressSpace.kernel page mapped_world)
unmap-map_example =
    unmap-map (boot_source hhdm refl) root 512 page 0x5000 read_write AddressSpace.kernel world
      mapped_world (omega arith) low known space canonical mapped_ok
