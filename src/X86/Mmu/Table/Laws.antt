-- ===== src/X86/Mmu/Table/Laws.antt =====
-- The branches of `ensure_table` of arch/x86_64/src/mmu.rs.
use rincos.Prelude.{ℕ, ◌≡◌, arith, Bool, true, false, none, some, bit_and, bit_or}
use rincos.Hal.Mmu.{Memory, out_of_memory, PageTableFrameAlloc}
use rincos.X86.Run.{World, ok, err}
use rincos.X86.Mmu.Entry.{has, frame_of, pte_p, addr_mask, table_flags}
use rincos.X86.Mmu.Table.{with_mem, entry, store, zero_frame, ensure_table}

-- The world after the provider has run.
abbrev pub provided : {A : Type 0} → World A → A → Memory → World A
provided w a mem = record (with_mem w mem) { pt_alloc = a }

module _ {A : Type 0} (pt : PageTableFrameAlloc A) (w : World A) (h : ℕ)
    (hhdm : w.machine.hhdm_offset ≡ h) (t i : ℕ) (user : Bool) where
  pub ensure_table-present :
      has (entry w.machine.mem h t i) pte_p ≡ true
      → ensure_table pt t i user w ≡ ok (frame_of (entry w.machine.mem h t i)) w
  unfolding ensure_table
  ensure_table-present present = simp (hhdm, present)

  pub ensure_table-none :
      (a : A) (mem : Memory)
      → has (entry w.machine.mem h t i) pte_p ≡ false
      → pt.alloc_frame_4k w.pt_alloc w.machine.mem ≡ (none, a, mem)
      → ensure_table pt t i user w ≡ err out_of_memory (provided w a mem)
  unfolding ensure_table
  ensure_table-none a mem missing e = ground arith

  pub ensure_table-some :
      (f : ℕ) (a : A) (mem : Memory)
      → has (entry w.machine.mem h t i) pte_p ≡ false
      → pt.alloc_frame_4k w.pt_alloc w.machine.mem ≡ (some f, a, mem)
      → ensure_table pt t i user w
        ≡ ok f (
            provided w a
              (store (zero_frame mem h f) h t i (bit_or (bit_and f addr_mask) (table_flags user))))
  unfolding ensure_table
  ensure_table-some f a mem missing e = ground arith
