-- ===== src/X86/Machine.antt =====
-- The state that the functions of arch/x86_64 work on: the processor's registers and memory, and
-- the statics of mmu.rs, apic.rs and lib.rs. Effects that leave no state are events, newest first.
use rincos.Prelude.{ℕ, Bool, Option, List, ◌∷◌, ◌==◌, if◌then◌else◌}
use rincos.Hal.Mmu.{PhysAddr, AddressSpace, Memory}

pub data Event : Type 0 where
  invlpg : ℕ → Event
  mov_cr0 mov_cr3 mov_cr4 : ℕ → Event
  write_msr : ℕ → ℕ → Event
  write_mmio : ℕ → ℕ → Event

pub data ApicMode : Type 0 where
  unset xapic x2apic : ApicMode

pub record AddressSpaceSlot : Type 0 where
  pub used : Bool
  pub pml4_phys : PhysAddr
  pub handle : AddressSpace

pub record Machine : Type 0 where
  pub cr0 : ℕ
  -- The address of the last page fault.
  pub cr2 : ℕ
  pub cr3 : ℕ
  pub cr4 : ℕ
  pub msr : ℕ → ℕ
  -- The time-stamp counter, and the static that holds its frequency.
  pub tsc : ℕ
  pub tsc_hz : ℕ
  -- 32-bit device registers, by virtual address.
  pub mmio : ℕ → ℕ
  -- 64-bit words, by virtual address.
  pub mem : Memory
  pub events : List Event
  pub hhdm_offset : ℕ
  pub nxe_enabled : Bool
  pub kas : Option PhysAddr
  pub kas_handle : Option AddressSpace
  pub current_per_cpu : ℕ → Option AddressSpace
  pub as_slots : List AddressSpaceSlot
  pub apic_mode : ApicMode
  pub lapic_base_virt : ℕ

abbrev pub update {ℓ} : {V : Type ℓ} → (ℕ → V) → ℕ → V → ℕ → V
update f p v q = if q == p then v else f q

unfoldable pub emit : Event → Machine → Machine
emit e m = record m { events = e ∷ m.events }
