-- ===== src/Hal/Mmu.antt =====
-- crates/hal/src/mmu.rs: addresses, mapping flags, errors and the page-table frame allocator.
use rincos.Prelude.{ℕ, Bool, Option}

abbrev pub PhysAddr : Type 0
PhysAddr = ℕ

abbrev pub VirtAddr : Type 0
VirtAddr = ℕ

-- A value of the flags type is a subset of the six flags, and `contains` is its field.
pub record MapFlags : Type 0 where
  pub read : Bool
  pub write : Bool
  pub exec : Bool
  pub user : Bool
  pub global : Bool
  pub uncached : Bool

pub data MapError : Type 0 where
  unaligned already_mapped not_mapped out_of_memory invalid_args : MapError

pub data TranslateError : Type 0 where
  not_mapped invalid_address : TranslateError

-- An address space is known by a pointer to the object that holds its root: the kernel's own
-- object, one of the slots, or the dangling pointer of an empty slot.
pub data AddressSpace : Type 0 where
  kernel : AddressSpace
  slot : ℕ → AddressSpace
  dangling : AddressSpace

-- The words of memory, by address.
abbrev pub Memory : Type 0
Memory = ℕ → ℕ

-- The trait: a provider with a state of its own, which also writes the frames that it hands out.
pub record PageTableFrameAlloc (A : Type 0) : Type 0 where
  pub alloc_frame_4k : A → Memory → Option PhysAddr × A × Memory
  pub free_frame_4k : A → PhysAddr → A
