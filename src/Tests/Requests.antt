-- ===== src/Tests/Requests.antt =====
-- Requests on the empty address space, answered by arch/x86_64/src/mmu.rs and kernel/src/svc/vm.rs.
use rincos.Prelude.{ℕ, ◌≡◌, ◌<◌, refl, arith, none, Option, List, [], ◌∷◌, true, Bool}
use rincos.Hal.Mmu.{kernel}
use rincos.X86.Run.{World}
use rincos.X86.Mmu.Walk.{entry_at, table_at, path_of, page_at}
use rincos.X86.Mmu.Walk
use rincos.X86.Mmu.Requests.{Request, map_page, unmap_page, protect_page, lookup, serve}
use rincos.X86.Mmu.Requests.Represents.{Represents}
use rincos.X86.Mmu.Requests.Refines.{Served, serve-Served}
use rincos.X86.Mmu.Entry.{pml4_index}
use rincos.Vm.{BootPtAlloc, boot_pt_alloc}
use rincos.Vm.Source.{boot_source}
use rincos.Kernel.Vm.{with_alloc}
use rincos.Kernel.Vm
use rincos.Kernel.Vm.Laws.{Started, init-Started}
use rincos.Tests.Memory.{hhdm, zero_memory, sample_boot}
use rincos.Tests.Paging.{root, world, machine, space, known, no_table, page, read_write, low}

empty_pages : (u : ℕ) → page_at zero_memory hhdm root u ≡ none
empty_pages u = Walk.entry_at-none zero_memory hhdm root (path_of u) _ (no_table _ _)

represented : Represents (boot_source hhdm refl) root 512 kernel world (λ _. none)
represented = record {
  known = known;
  space = space;
  pages = λ u _. empty_pages u;
  frames = λ k m e. absurd (cc e);
}

low_offset : pml4_index 0x40_2abc < 512
unfolding pml4_index
low_offset = omega arith

abbrev requests : List Request
requests =
    map_page page 0x5000 read_write
    ∷ lookup 0x40_2abc
    ∷ protect_page page read_write
    ∷ unmap_page page
    ∷ unmap_page page
    ∷ []

serve-Served_example :
    Served
      (boot_source hhdm refl)
      root
      512
      kernel
      (λ _. none)
      requests
      (serve boot_pt_alloc kernel requests world)
serve-Served_example =
    serve-Served (boot_source hhdm refl) root 512 kernel requests world (λ _. none)
      (
        (omega arith, low, omega arith),
        (
          (omega arith, low_offset),
          ((omega arith, low), ((omega arith, low), ((omega arith, low), tt))),
        ),
      )
      represented

abbrev pub before : World (Option BootPtAlloc)
before = record { machine = record machine { nxe_enabled = Bool.false }; pt_alloc = none }

init-Started_example : Started sample_boot before (Vm.init sample_boot true before)
init-Started_example = init-Started sample_boot true before λ e. absurd (cc e)
