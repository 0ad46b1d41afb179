-- ===== src/X86/Mmu/Table.antt =====
-- arch/x86_64/src/mmu.rs: tables in memory, and the allocation of a missing one.
pub mod Laws
use rincos.Prelude.{
  ℕ, ◌+◌, ◌*◌, ◌/◌, ◌&&◌, Bool, none, some, bit_and, bit_or, ltb, leb, if◌then◌else◌, wrapping_add,
}
use rincos.Hal.Mmu.{PhysAddr, Memory, MapError, out_of_memory, PageTableFrameAlloc}
use rincos.X86.Machine.{update}
use rincos.X86.Run.{World, ok, err, Cmd, pure, ◌>>=◌, ◌>>◌}
use rincos.X86.Mmu.Entry.{page_size, addr_mask, pte_p, has, frame_of, table_flags}

unfoldable pub phys_to_virt : ℕ → PhysAddr → ℕ
phys_to_virt hhdm_offset p = wrapping_add p hhdm_offset

-- Where entry `idx` of the table at physical address `t` is stored.
unfoldable pub slot_of : ℕ → PhysAddr → ℕ → ℕ
unfolding phys_to_virt
slot_of hhdm_offset t idx = phys_to_virt hhdm_offset t + 8 * idx

unfoldable pub entry : Memory → ℕ → PhysAddr → ℕ → ℕ
entry mem hhdm_offset t idx = mem (slot_of hhdm_offset t idx)

unfoldable pub store : Memory → ℕ → PhysAddr → ℕ → ℕ → Memory
store mem hhdm_offset t idx e = update mem (slot_of hhdm_offset t idx) e

-- `write_bytes(ptr, 0, bytes)`.
unfoldable pub fill_zero : Memory → ℕ → ℕ → Memory
fill_zero mem ptr bytes q = if leb ptr q && ltb q (ptr + bytes) then 0 else mem q

unfoldable pub zero_frame : Memory → ℕ → PhysAddr → Memory
unfolding fill_zero
zero_frame mem hhdm_offset p = fill_zero mem (phys_to_virt hhdm_offset p) (page_size / 8 * 8)

abbrev pub with_mem : {A : Type 0} → World A → Memory → World A
with_mem w mem = record w { machine = record w.machine { mem = mem } }

unfoldable pub read_entry : {A E : Type 0} → PhysAddr → ℕ → Cmd A E ℕ
read_entry t idx w = ok (entry w.machine.mem w.machine.hhdm_offset t idx) w

unfoldable pub write_entry : {A E : Type 0} → PhysAddr → ℕ → ℕ → Cmd A E (Unit {0})
write_entry t idx e w = ok tt (with_mem w (store w.machine.mem w.machine.hhdm_offset t idx e))

unfoldable pub zero_table : {A E : Type 0} → PhysAddr → Cmd A E (Unit {0})
zero_table p w = ok tt (with_mem w (zero_frame w.machine.mem w.machine.hhdm_offset p))

module _ {A : Type 0} (pt : PageTableFrameAlloc A) where
  -- `pt_alloc.alloc_frame_4k().ok_or(MapError::OutOfMemory)?`.
  unfoldable pub alloc_frame : Cmd A MapError PhysAddr
  alloc_frame w =
      let (frame, a, mem) = pt.alloc_frame_4k w.pt_alloc w.machine.mem in
      let w' : World A = record (with_mem w mem) { pt_alloc = a } in
      elim frame [ none ↦ err out_of_memory w' | some p ↦ ok p w' ]

  -- The table below entry `idx` of `parent`, allocated and zeroed if it is missing.
  unfoldable pub ensure_table : PhysAddr → ℕ → Bool → Cmd A MapError PhysAddr
  unfolding read_entry write_entry zero_table alloc_frame
  ensure_table parent idx user = do
    e ← read_entry parent idx
    if has e pte_p then pure (frame_of e) else do
      frame ← alloc_frame
      zero_table frame
      write_entry parent idx (bit_or (bit_and frame addr_mask) (table_flags user))
      pure frame
