-- ===== src/X86/Mmu/Spaces.antt =====
-- arch/x86_64/src/mmu.rs: the kernel's address space, and the making, use and end of the others.
pub mod Copy
pub mod New
pub mod Under
pub mod Destroy
pub mod Teardown
pub mod Complete
pub mod Current
use rincos.Prelude.{
  ℕ, zero, suc, ◌+◌, ◌-◌, ◌*◌, Bool, false, not, ◌&&◌, Option, none, some, leb, ltb, ◌==◌,
  if◌then◌else◌, bit_and,
}
use rincos.Hal.Mmu.{
  PhysAddr, AddressSpace, kernel, Memory, MapError, invalid_args, PageTableFrameAlloc,
}
use rincos.X86.Machine.{Machine, update, emit, mov_cr3}
use rincos.X86.Run.{World, ok, err, fault, Cmd, pure, ◌>>=◌, ◌>>◌}
use rincos.X86.Apic.{cpu_id}
use rincos.X86.Mmu.Entry.{
  max_cpus, entry_count, kernel_pml4_start, addr_mask, pte_p, pte_ps, has, frame_of,
}
use rincos.X86.Mmu.Table.{with_mem, entry, slot_of, zero_table, alloc_frame}
use rincos.X86.Mmu.Page.{root_of, as_x86}
use rincos.X86.Mmu.Slots.{same_handle, alloc_slot, free_slot}

unfoldable pub cpu_index : Machine → ℕ
cpu_index m = let id = cpu_id m in if ltb id max_cpus then id else 0

-- `*current_slot_mut() = Some(aspace)`.
unfoldable pub set_current : AddressSpace → Machine → Machine
unfolding cpu_index
set_current aspace m = record m {
  current_per_cpu = update m.current_per_cpu (cpu_index m) (some aspace);
}

-- `copy_nonoverlapping` of `n` words.
unfoldable pub copy_words : Memory → ℕ → ℕ → ℕ → Memory
copy_words mem src dst n q =
    if leb dst q && ltb q (dst + 8 * n) then mem (src + (q - dst)) else mem q

module _ {A : Type 0} where
  unfoldable pub init_kernel : Cmd A MapError AddressSpace
  unfolding set_current
  init_kernel w = elim w.machine.kas_handle [
    | some h ↦ ok h w
    | none ↦
        let cr3 = bit_and w.machine.cr3 addr_mask in
        if cr3 == 0
        then err invalid_args w
        else ok kernel (record w {
          machine =
              set_current kernel (record w.machine { kas = some cr3; kas_handle = some kernel });
        })
  ]

  -- The root of the kernel's own space.
  unfoldable pub kernel_root : Cmd A MapError PhysAddr
  kernel_root w = elim w.machine.kas [ none ↦ err invalid_args w | some root ↦ ok root w ]

  -- The entries of the upper half, from one root to another.
  unfoldable pub copy_kernel_half : PhysAddr → PhysAddr → Cmd A MapError (Unit {0})
  unfolding copy_words
  copy_kernel_half root pml4 w =
      let h = w.machine.hhdm_offset in
      ok tt (
        with_mem w (
          copy_words w.machine.mem (slot_of h root kernel_pml4_start)
            (slot_of h pml4 kernel_pml4_start) (entry_count - kernel_pml4_start)))

  unfoldable pub address_space_new : PageTableFrameAlloc A → Cmd A MapError AddressSpace
  unfolding init_kernel kernel_root copy_kernel_half
  address_space_new pt_alloc = do
    init_kernel
    root ← kernel_root
    pml4 ← alloc_frame pt_alloc
    zero_table pml4
    copy_kernel_half root pml4
    alloc_slot pml4

  unfoldable pub activate : {E : Type 0} → AddressSpace → Cmd A E (Unit {0})
  unfolding as_x86 set_current
  activate aspace = do
    root ← as_x86 aspace
    λ w.
        let cr3 = bit_and root addr_mask in
        let m = record (emit (mov_cr3 cr3) w.machine) { cr3 = cr3 } in
        ok tt (record w { machine = set_current aspace m })

  unfoldable pub current : {E : Type 0} → Cmd A E AddressSpace
  unfolding cpu_index
  current w = elim (w.machine.current_per_cpu (cpu_index w.machine)) [
    | none ↦ fault
    | some h ↦ ok h w
  ]

-- A loop over `left` entries of a table from entry `i` on.
module _ {A : Type 0} (mem : Memory) (h : ℕ) where
  unfoldable pub for_each : PhysAddr → (ℕ → A → A) → ℕ → ℕ → A → A
  for_each t body i zero a = a
  for_each t body i (suc left) a = for_each t body (i + 1) left (body (entry mem h t i) a)

  -- The body of each of the three loops: an entry that is missing, or maps a large page, is left out.
  unfoldable pub if_table : (PhysAddr → A → A) → ℕ → A → A
  if_table act e a =
      if not (has e pte_p) then a else (if has e pte_ps then a else act (frame_of e) a)

  module _ (pt : PageTableFrameAlloc A) where
    unfoldable pub free_pt : PhysAddr → A → A
    free_pt t a = pt.free_frame_4k a t

    unfoldable pub free_pd : PhysAddr → A → A
    unfolding for_each if_table free_pt
    free_pd t a = pt.free_frame_4k (for_each t (if_table free_pt) 0 entry_count a) t

    unfoldable pub free_pdpt : PhysAddr → A → A
    unfolding for_each if_table free_pd
    free_pdpt t a = pt.free_frame_4k (for_each t (if_table free_pd) 0 entry_count a) t

    unfoldable pub free_root : PhysAddr → A → A
    unfolding for_each if_table free_pdpt
    free_root t a = pt.free_frame_4k (for_each t (if_table free_pdpt) 0 kernel_pml4_start a) t

-- Whether the handle is the kernel's own.
unfoldable pub is_kernel : Option AddressSpace → AddressSpace → Bool
is_kernel none aspace = false
is_kernel (some kas) aspace = same_handle kas aspace

module _ {A E : Type 0} (pt : PageTableFrameAlloc A) where
  unfoldable pub free_tables : PhysAddr → Cmd A E (Unit {0})
  unfolding free_root
  free_tables root w =
      ok tt
        (record w { pt_alloc = free_root w.machine.mem w.machine.hhdm_offset pt root w.pt_alloc })

  unfoldable pub address_space_destroy : AddressSpace → Cmd A E (Unit {0})
  unfolding as_x86 free_tables is_kernel
  address_space_destroy aspace w =
      if is_kernel w.machine.kas_handle aspace
      then ok tt w
      else (do root ← as_x86 aspace; free_tables root; free_slot aspace) w
