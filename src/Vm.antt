-- ===== src/Vm.antt =====
-- kernel/src/svc/vm.rs: the page-table frame allocator over the boot memory map.
pub mod Map
pub mod Rounds
pub mod FromMap
pub mod Alloc
pub mod Source
pub mod Start
use rincos.Prelude.{
  ℕ, zero, suc, ◌+◌, ◌-◌, ◌*◌, Bool, true, false, not, ◌||◌, Option, none, some, List, bit_and,
  bit_not, ltb, leb, ◌==◌, if◌then◌else◌, wrapping_add, wrapping_sub, checked_add, get_elem?, set,
  replicate,
}
use rincos.Bootabi.{BootInfo, MemMapEntry, MemType, mem_map_entry_size}
use rincos.Hal.Mmu.{PhysAddr, Memory, PageTableFrameAlloc}
use rincos.X86.Mmu.Table.{fill_zero}

abbrev pub page_size : ℕ
page_size = 4096

abbrev pub max_free_frames : ℕ
max_free_frames = 128

abbrev pub empty_paddr : PhysAddr
empty_paddr = 0

pub record BootPtAlloc : Type 0 where
  pub entries : ℕ → MemMapEntry
  pub entry_count : ℕ
  pub cur_entry : ℕ
  pub cur_addr : ℕ
  pub hhdm_offset : ℕ
  pub free_list : List PhysAddr
  pub free_count : ℕ

unfoldable pub new : BootInfo → Option BootPtAlloc
new boot =
    if boot.hhdm_offset == 0
    then none
    else (if boot.mem.entries_ptr == 0 || boot.mem.entry_count == 0
        then none
        else (if not (boot.mem.entry_size == mem_map_entry_size)
            then none
            else some (record {
              entries = boot.mem.entries;
              entry_count = boot.mem.entry_count;
              cur_entry = 0;
              cur_addr = 0;
              hhdm_offset = boot.hhdm_offset;
              free_list = replicate max_free_frames empty_paddr;
              free_count = 0;
            })))

unfoldable pub is_usable : MemType → Bool
is_usable MemType.usable = true
is_usable MemType.bootloader_reclaimable = true
is_usable _ = false

-- An overflow wraps, as in a release build.
unfoldable pub align_up : ℕ → ℕ → ℕ
align_up value align = bit_and (wrapping_sub (wrapping_add value align) 1) (bit_not (align - 1))

unfoldable pub entry_at : BootPtAlloc → ℕ → Option MemMapEntry
entry_at a idx = if leb a.entry_count idx then none else some (a.entries idx)

abbrev pub skip : BootPtAlloc → BootPtAlloc
skip a = record a { cur_entry = a.cur_entry + 1; cur_addr = 0 }

-- What a round of the loop of `next_from_map` does: it goes on with the next entry, or returns.
pub data Round : Type 0 where
  continue : BootPtAlloc → Round
  return : Option PhysAddr → BootPtAlloc → Round

unfoldable pub next_round : BootPtAlloc → MemMapEntry → Round
next_round a entry =
    if not (is_usable entry.mem_type)
    then continue (skip a)
    else elim (checked_add entry.base entry.len) [
      | none ↦ return none a
      | some end ↦
          let addr =
            align_up (if ltb a.cur_addr entry.base then entry.base else a.cur_addr) page_size in
          elim (checked_add addr page_size) [
            | none ↦ return none a
            | some next ↦
                if ltb end next
                then continue (skip a)
                else return (some addr) (record a { cur_addr = addr + page_size })
          ]
    ]

-- The loop makes at most a round for each entry that is left, which is the fuel.
unfoldable pub next_loop : ℕ → BootPtAlloc → Option PhysAddr × BootPtAlloc
next_loop zero a = (none, a)
next_loop (suc fuel) a =
    if ltb a.cur_entry a.entry_count
    then elim (entry_at a a.cur_entry) [
      | none ↦ (none, a)
      | some entry ↦ elim (next_round a entry) [
        | continue a' ↦ next_loop fuel a'
        | return r a' ↦ (r, a')
      ]
    ]
    else (none, a)

unfoldable pub next_from_map : BootPtAlloc → Option PhysAddr × BootPtAlloc
unfolding next_loop
next_from_map a = next_loop (a.entry_count - a.cur_entry) a

unfoldable pub zero_frame : BootPtAlloc → PhysAddr → Memory → Memory
zero_frame a paddr mem = fill_zero mem (wrapping_add paddr a.hhdm_offset) page_size

-- The frame to hand out: the last one freed, or the next of the map. An index out of the array's
-- bounds, a panic, does not arise while the count is at most the array's length.
unfoldable pub take_frame : BootPtAlloc → Option PhysAddr × BootPtAlloc
unfolding next_from_map
take_frame a =
    if ltb 0 a.free_count
    then (get_elem? a.free_list (a.free_count - 1), record a { free_count = a.free_count - 1 })
    else next_from_map a

unfoldable pub zero_taken :
    Memory → Option PhysAddr × BootPtAlloc → Option PhysAddr × BootPtAlloc × Memory
unfolding zero_frame
zero_taken mem (none, a) = (none, a, mem)
zero_taken mem (some p, a) = (some p, a, zero_frame a p mem)

unfoldable pub alloc_frame_4k : BootPtAlloc → Memory → Option PhysAddr × BootPtAlloc × Memory
unfolding take_frame zero_taken
alloc_frame_4k a mem = zero_taken mem (take_frame a)

unfoldable pub free_frame_4k : BootPtAlloc → PhysAddr → BootPtAlloc
free_frame_4k a paddr =
    if ltb a.free_count max_free_frames
    then record a { free_list = set a.free_list a.free_count paddr; free_count = a.free_count + 1 }
    else a

abbrev pub boot_pt_alloc : PageTableFrameAlloc BootPtAlloc
boot_pt_alloc = record { alloc_frame_4k = alloc_frame_4k; free_frame_4k = free_frame_4k }
