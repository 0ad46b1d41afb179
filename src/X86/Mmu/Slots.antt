-- ===== src/X86/Mmu/Slots.antt =====
-- arch/x86_64/src/mmu.rs: the slots that hold the address spaces beside the kernel's own.
pub mod Laws
use rincos.Prelude.{
  ℕ, zero, suc, ◌+◌, ◌&&◌, Bool, true, false, not, Option, none, some, List, [], ◌∷◌, ◌==◌,
  if◌then◌else◌,
}
use rincos.Hal.Mmu.{PhysAddr, AddressSpace, kernel, slot, dangling, MapError, out_of_memory}
use rincos.X86.Machine.{Machine, AddressSpaceSlot}
use rincos.X86.Run.{World, ok, err, Cmd}

abbrev pub empty_slot : AddressSpaceSlot
empty_slot = record { used = false; pml4_phys = 0; handle = dangling }

-- Whether two handles hold the same pointer.
unfoldable pub same_handle : AddressSpace → AddressSpace → Bool
same_handle kernel kernel = true
same_handle dangling dangling = true
same_handle (slot i) (slot j) = i == j
same_handle _ _ = false

-- The loop of `alloc_slot` from slot `i` on, with the index of the slot that it takes.
unfoldable pub take_slot : PhysAddr → ℕ → List AddressSpaceSlot → Option (ℕ × List AddressSpaceSlot)
take_slot pml4_phys i [] = none
take_slot pml4_phys i (s ∷ slots) =
    let rest = take_slot pml4_phys (i + 1) slots in
    if not s.used
    then some (i, record { used = true; pml4_phys = pml4_phys; handle = slot i } ∷ slots)
    else elim rest [ none ↦ none | some (k, slots') ↦ some (k, s ∷ slots') ]

unfoldable pub drop_slot : AddressSpace → List AddressSpaceSlot → List AddressSpaceSlot
drop_slot aspace [] = []
drop_slot aspace (s ∷ slots) =
    let rest = drop_slot aspace slots in
    if s.used && same_handle s.handle aspace
    then record s { used = false; pml4_phys = 0 } ∷ slots
    else s ∷ rest

abbrev with_slots : {A : Type 0} → World A → List AddressSpaceSlot → World A
with_slots w slots = record w { machine = record w.machine { as_slots = slots } }

module _ {A : Type 0} where
  unfoldable pub alloc_slot : PhysAddr → Cmd A MapError AddressSpace
  unfolding take_slot
  alloc_slot pml4_phys w = elim (take_slot pml4_phys 0 w.machine.as_slots) [
    | none ↦ err out_of_memory w
    | some (k, slots) ↦ ok (slot k) (with_slots w slots)
  ]

  unfoldable pub free_slot : {E : Type 0} → AddressSpace → Cmd A E (Unit {0})
  unfolding drop_slot
  free_slot aspace w = ok tt (with_slots w (drop_slot aspace w.machine.as_slots))
