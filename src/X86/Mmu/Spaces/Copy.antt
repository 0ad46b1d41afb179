-- ===== src/X86/Mmu/Spaces/Copy.antt =====
-- The root that `address_space_new` of arch/x86_64/src/mmu.rs fills: the entries of its two halves.
use rincos.Prelude.{
  ℕ, ◌+◌, ◌-◌, ◌*◌, ◌%◌, ◌^◌, ◌≤◌, ◌<◌, ◌≡◌, arith, refl, ap, true, none, List, [], ◌∷◌, leb, ltb,
}
use rincos.Hal.Mmu.{Memory}
use rincos.X86.Mmu.Entry.{kernel_pml4_start, entry_count}
use rincos.X86.Mmu.Entry.Laws.{IsFrame, zero-has}
use rincos.X86.Mmu.Table.{entry, slot_of, phys_to_virt}
use rincos.X86.Mmu.Walk.{table_at, next_table, IsIndices}
use rincos.X86.Mmu.Walk.Outside.{SameOutside}
use rincos.X86.Mmu.Spaces.{copy_words}

-- The memory once the upper half has been copied.
abbrev pub copied : Memory → ℕ → ℕ → ℕ → Memory
copied mem h root f =
    copy_words mem (slot_of h root kernel_pml4_start) (slot_of h f kernel_pml4_start)
      (entry_count - kernel_pml4_start)

module _ (mem : Memory) (h root f : ℕ) (direct_map : h % 4096 ≡ 0) (frame : IsFrame f)
    (root_frame : IsFrame root) where
  pub copied-SameOutside : SameOutside h f mem (copied mem h root f)
  unfolding entry slot_of copy_words phys_to_virt
  copied-SameOutside u j fu lt ne = ground arith

  pub entry-copied_low : (j : ℕ) → j < 256 → entry (copied mem h root f) h f j ≡ entry mem h f j
  unfolding entry slot_of copy_words phys_to_virt
  entry-copied_low j lt = ground arith

  pub entry-copied_high :
      (j : ℕ) → 256 ≤ j → j < 512 → entry (copied mem h root f) h f j ≡ entry mem h root j
  unfolding entry slot_of copy_words phys_to_virt
  entry-copied_high j le lt = rw (leb_true, ltb_true) (ap mem (omega (arith, le)))
    where
      at : ℕ
      at = (f + h) % 2 ^ 64

      leb_true : leb (at + 2048) (at + 8 * j) ≡ true
      leb_true = ground (arith, le)

      ltb_true : ltb (at + 8 * j) (at + 2048 + 2048) ≡ true
      ltb_true = ground (arith, lt)

-- A root with nothing in its lower half has no table below.
pub no_table :
    (mem : Memory) (h f i : ℕ) (is : List ℕ)
    → ((j : ℕ) → j < 256 → entry mem h f j ≡ 0)
    → IsIndices 256 (i ∷ is)
    → table_at mem h f (i ∷ is) ≡ none
unfolding table_at next_table
no_table mem h f i [] empty (lt, _) = rw (empty i lt, zero-has) refl
no_table mem h f i (j ∷ js) empty (_, path) = rw (no_table mem h f j js empty path) refl
