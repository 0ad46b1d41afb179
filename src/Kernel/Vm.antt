-- ===== src/Kernel/Vm.antt =====
-- kernel/src/svc/vm.rs: the kernel's memory service, over the allocator of Vm.antt and the platform's
-- memory management unit.
pub mod Laws
pub mod System
pub mod Calls
use rincos.Prelude.{Bool, Option, none, some}
use rincos.Bootabi.{BootInfo}
use rincos.Hal.Mmu.{PhysAddr, VirtAddr, MapFlags, MapError, TranslateError, AddressSpace}
use rincos.X86.Run.{World, Run, ok, err, fault, Cmd, ◌>>=◌, ◌>>◌}
use rincos.X86.Mmu.Page
use rincos.X86.Mmu.Spaces.{init_kernel, address_space_new, address_space_destroy}
use rincos.X86.Mmu.Features.{enable_nx}
use rincos.Vm.{BootPtAlloc, boot_pt_alloc, new}

-- `PT_ALLOC`, beside the machine.
abbrev pub Service : Type 0 → Type 0 → Type 0
Service E X = Cmd (Option BootPtAlloc) E X

abbrev pub with_alloc : World (Option BootPtAlloc) → BootPtAlloc → World BootPtAlloc
with_alloc w a = record { machine = w.machine; pt_alloc = a }

abbrev pub stored : World BootPtAlloc → World (Option BootPtAlloc)
stored w = record { machine = w.machine; pt_alloc = some w.pt_alloc }

abbrev pub stored_run : {E X : Type 0} → Run BootPtAlloc E X → Run (Option BootPtAlloc) E X
stored_run (ok x w) = ok x (stored w)
stored_run (err e w) = err e (stored w)
stored_run fault = fault

-- `guard.as_mut().expect("vm: not initialized")`, and the call with it.
unfoldable pub with_guard : {E X : Type 0} → Cmd BootPtAlloc E X → Service E X
with_guard body w = elim w.pt_alloc [ none ↦ fault | some a ↦ stored_run (body (with_alloc w a)) ]

-- `.expect(…)`: an error is a panic.
abbrev pub expect_run : {A E X : Type 0} → Run A E X → Run A ⊥ X
expect_run (ok x w) = ok x w
expect_run (err e w) = fault
expect_run fault = fault

unfoldable pub expect : {A E X : Type 0} → Cmd A E X → Cmd A ⊥ X
expect body w = expect_run (body w)

-- `*PT_ALLOC.lock() = Some(alloc)`.
unfoldable pub set_alloc : Option BootPtAlloc → Service ⊥ (Unit {0})
set_alloc none w = fault
set_alloc (some alloc) w = ok tt (record w { pt_alloc = some alloc })

unfoldable pub init : BootInfo → Bool → Service ⊥ (Unit {0})
unfolding expect set_alloc
init boot has_nx = do set_alloc (new boot); expect init_kernel; expect (enable_nx has_nx)

unfoldable pub new_address_space : Service MapError AddressSpace
unfolding with_guard
new_address_space = with_guard (address_space_new boot_pt_alloc)

unfoldable pub destroy_address_space : AddressSpace → Service ⊥ (Unit {0})
unfolding with_guard
destroy_address_space aspace = with_guard (address_space_destroy boot_pt_alloc aspace)

unfoldable pub map_4k : AddressSpace → VirtAddr → PhysAddr → MapFlags → Service MapError (Unit {0})
unfolding with_guard
map_4k aspace vaddr paddr flags = with_guard (Page.map_4k boot_pt_alloc aspace vaddr paddr flags)

unfoldable pub unmap_4k : AddressSpace → VirtAddr → Service MapError (Unit {0})
unmap_4k aspace vaddr = Page.unmap_4k aspace vaddr

unfoldable pub protect_4k : AddressSpace → VirtAddr → MapFlags → Service MapError (Unit {0})
protect_4k aspace vaddr flags = Page.protect_4k aspace vaddr flags

unfoldable pub translate : AddressSpace → VirtAddr → Service TranslateError PhysAddr
translate aspace vaddr = Page.translate aspace vaddr
