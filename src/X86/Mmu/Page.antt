-- ===== src/X86/Mmu/Page.antt =====
-- arch/x86_64/src/mmu.rs: `map_4k`, `unmap_4k`, `protect_4k` and `translate`.
pub mod View
pub mod Translate
pub mod Unmap
pub mod Edits
pub mod MapSteps
pub mod Map
pub mod RoundTrip
use rincos.Prelude.{Bool, not, ◌||◌, Option, none, some, get_elem?, bit_and, bit_or}
use rincos.Hal.Mmu.{
  PhysAddr, VirtAddr, MapFlags, MapError, TranslateError, unaligned, already_mapped, invalid_args,
  invalid_address, AddressSpace, kernel, slot, dangling, PageTableFrameAlloc,
}
use rincos.X86.Machine.{Machine, invlpg, emit}
use rincos.X86.Run.{ok, fault, Cmd, pure, fail_if, ◌>>=◌, ◌>>◌}
use rincos.X86.Mmu.Entry.{
  aligned_4k, is_canonical, pml4_index, pdpt_index, pd_index, pt_index, has, frame_of, flags_to_pte,
  addr_mask, pte_p,
}
use rincos.X86.Mmu.Table.{read_entry, write_entry, ensure_table}

-- The root that an address space's object holds; none behind a dangling pointer.
unfoldable pub root_of : Machine → AddressSpace → Option PhysAddr
root_of m kernel = m.kas
root_of m (slot i) = elim (get_elem? m.as_slots i) [ none ↦ none | some s ↦ some s.pml4_phys ]
root_of m dangling = none

module _ {A : Type 0} where
  -- `as_x86(aspace).pml4_phys`.
  unfoldable pub as_x86 : {E : Type 0} → AddressSpace → Cmd A E PhysAddr
  as_x86 aspace w = elim (root_of w.machine aspace) [ none ↦ fault | some root ↦ ok root w ]

  unfoldable pub flush_tlb_page : {E : Type 0} → VirtAddr → Cmd A E (Unit {0})
  flush_tlb_page vaddr w = ok tt (record w { machine = emit (invlpg vaddr) w.machine })

  unfoldable pub nxe_enabled : {E : Type 0} → Cmd A E Bool
  nxe_enabled w = ok w.machine.nxe_enabled w

  unfoldable pub unmap_4k : AddressSpace → VirtAddr → Cmd A MapError (Unit {0})
  unfolding as_x86 flush_tlb_page emit read_entry write_entry
  unmap_4k aspace vaddr = do
    fail_if (not (aligned_4k vaddr)) unaligned
    fail_if (not (is_canonical vaddr)) invalid_args
    root ← as_x86 aspace
    e1 ← read_entry root (pml4_index vaddr)
    fail_if (not (has e1 pte_p)) MapError.not_mapped
    let pdpt = frame_of e1
    e2 ← read_entry pdpt (pdpt_index vaddr)
    fail_if (not (has e2 pte_p)) MapError.not_mapped
    let pd = frame_of e2
    e3 ← read_entry pd (pd_index vaddr)
    fail_if (not (has e3 pte_p)) MapError.not_mapped
    let pt = frame_of e3
    let idx = pt_index vaddr
    e4 ← read_entry pt idx
    fail_if (not (has e4 pte_p)) MapError.not_mapped
    write_entry pt idx 0
    flush_tlb_page vaddr
    pure tt

  unfoldable pub protect_4k : AddressSpace → VirtAddr → MapFlags → Cmd A MapError (Unit {0})
  unfolding as_x86 flush_tlb_page emit nxe_enabled read_entry write_entry
  protect_4k aspace vaddr flags = do
    fail_if (not (aligned_4k vaddr)) unaligned
    fail_if (not (is_canonical vaddr)) invalid_args
    root ← as_x86 aspace
    e1 ← read_entry root (pml4_index vaddr)
    fail_if (not (has e1 pte_p)) MapError.not_mapped
    let pdpt = frame_of e1
    e2 ← read_entry pdpt (pdpt_index vaddr)
    fail_if (not (has e2 pte_p)) MapError.not_mapped
    let pd = frame_of e2
    e3 ← read_entry pd (pd_index vaddr)
    fail_if (not (has e3 pte_p)) MapError.not_mapped
    let pt = frame_of e3
    let idx = pt_index vaddr
    e4 ← read_entry pt idx
    fail_if (not (has e4 pte_p)) MapError.not_mapped
    let paddr = frame_of e4
    nxe ← nxe_enabled
    write_entry pt idx (bit_or paddr (flags_to_pte flags nxe))
    flush_tlb_page vaddr
    pure tt

  unfoldable pub translate : AddressSpace → VirtAddr → Cmd A TranslateError PhysAddr
  unfolding as_x86 read_entry
  translate aspace vaddr = do
    fail_if (not (is_canonical vaddr)) invalid_address
    root ← as_x86 aspace
    e1 ← read_entry root (pml4_index vaddr)
    fail_if (not (has e1 pte_p)) TranslateError.not_mapped
    let pdpt = frame_of e1
    e2 ← read_entry pdpt (pdpt_index vaddr)
    fail_if (not (has e2 pte_p)) TranslateError.not_mapped
    let pd = frame_of e2
    e3 ← read_entry pd (pd_index vaddr)
    fail_if (not (has e3 pte_p)) TranslateError.not_mapped
    let pt = frame_of e3
    e4 ← read_entry pt (pt_index vaddr)
    fail_if (not (has e4 pte_p)) TranslateError.not_mapped
    let base = frame_of e4
    let off = bit_and vaddr 0xfff
    pure (bit_or base off)

  unfoldable pub map_4k :
      PageTableFrameAlloc A
      → AddressSpace
      → VirtAddr
      → PhysAddr
      → MapFlags
      → Cmd A MapError (Unit {0})
  unfolding as_x86 flush_tlb_page emit nxe_enabled read_entry write_entry
  map_4k pt_alloc aspace vaddr paddr flags = do
    fail_if (not (aligned_4k vaddr) || not (aligned_4k paddr)) unaligned
    fail_if (not (is_canonical vaddr)) invalid_args
    let user = flags.user
    root ← as_x86 aspace
    pdpt ← ensure_table pt_alloc root (pml4_index vaddr) user
    pd ← ensure_table pt_alloc pdpt (pdpt_index vaddr) user
    pt ← ensure_table pt_alloc pd (pd_index vaddr) user
    let idx = pt_index vaddr
    e4 ← read_entry pt idx
    fail_if (has e4 pte_p) already_mapped
    nxe ← nxe_enabled
    write_entry pt idx (bit_or (bit_and paddr addr_mask) (flags_to_pte flags nxe))
    flush_tlb_page vaddr
    pure tt
