-- ===== src/X86/Mmu/Shootdown.antt =====
-- arch/x86_64/src/mmu.rs: the flushes that the other processors are told of.
use rincos.Prelude.{ℕ, Bool, Option}
use rincos.Hal.Mmu.{VirtAddr}
use rincos.X86.Machine.{Machine, emit, invlpg}
use rincos.X86.Apic.{send_ipi_all_others, tlb_shootdown_vec}
use rincos.X86.Mmu.Features.{flush_tlb_all}

-- The device's answers and the fuel of the wait are those of `send_ipi_all_others`.
module _ (pending : ℕ → Bool) (fuel : ℕ) where
  unfoldable pub shootdown_tlb_page : VirtAddr → Machine → Option Machine
  shootdown_tlb_page vaddr m =
      send_ipi_all_others pending fuel tlb_shootdown_vec (emit (invlpg vaddr) m)

  unfoldable pub shootdown_tlb_all : Machine → Option Machine
  unfolding flush_tlb_all
  shootdown_tlb_all m = send_ipi_all_others pending fuel tlb_shootdown_vec (flush_tlb_all m)
