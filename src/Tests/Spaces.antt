-- ===== src/Tests/Spaces.antt =====
-- A machine with one address space in its slots and one slot free, and the slots and the features of
-- arch/x86_64/src/mmu.rs on it.
use rincos.Prelude.{zero, suc, ◌≡◌, refl, arith, List, [], ◌∷◌, true, false}
use rincos.Hal.Mmu.{slot}
use rincos.X86.Machine.{AddressSpaceSlot}
use rincos.X86.Run.{World}
use rincos.X86.Mmu.Features.{IsNxSound, Enabled, enable_nx, enable_nx-Enabled}
use rincos.X86.Mmu.Slots.{empty_slot}
use rincos.X86.Mmu.Slots.Laws.{IsNamed}
use rincos.Vm.{BootPtAlloc}
use rincos.Tests.Paging.{world}

abbrev used_slot : AddressSpaceSlot
used_slot = record { used = true; pml4_phys = 0x1000; handle = slot 0 }

abbrev pub slots : List AddressSpaceSlot
slots = used_slot ∷ empty_slot ∷ []

abbrev pub slotted : World BootPtAlloc
slotted = record world { machine = record world.machine { as_slots = slots } }

pub slots-IsNamed : IsNamed 0 slots
slots-IsNamed zero s at _ = let same : used_slot ≡ s = cc at in rw (← same) refl
slots-IsNamed (suc zero) s at busy =
    let same : empty_slot ≡ s = cc at in ground (arith, rw (← same) at busy)
slots-IsNamed (suc (suc k)) s at _ = ground arith

without_nx : World BootPtAlloc
without_nx = record world { machine = record world.machine { nxe_enabled = false } }

without_nx-IsNxSound : IsNxSound without_nx.machine
unfolding without_nx
without_nx-IsNxSound e = ground arith

enable_nx-Enabled_example : Enabled true without_nx (enable_nx true without_nx)
enable_nx-Enabled_example = enable_nx-Enabled true without_nx without_nx-IsNxSound
