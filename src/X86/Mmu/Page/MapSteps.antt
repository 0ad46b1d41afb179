-- ===== src/X86/Mmu/Page/MapSteps.antt =====
-- `map_4k` of arch/x86_64/src/mmu.rs in its parts: the guards, the tables and the last entry.
use rincos.Prelude.{
  ℕ, ◌≡◌, refl, arith, true, false, some, ◌∷◌, inl, inr, Bool-cases, bit_or, bit_and, if◌then◌else◌,
  not, ◌||◌,
}
use rincos.Hal.Mmu.{
  MapError, AddressSpace, MapFlags, unaligned, invalid_args, already_mapped, PageTableFrameAlloc,
}
use rincos.X86.Machine.{invlpg, emit}
use rincos.X86.Run.{World, Cmd, ok, err, fail_if, pure, ◌>>=◌, ◌>>◌}
use rincos.X86.Mmu.Entry.{
  is_canonical, aligned_4k, has, pte_p, pml4_index, pdpt_index, pd_index, pt_index, flags_to_pte,
  addr_mask,
}
use rincos.X86.Mmu.Table.{entry, store, read_entry, write_entry, ensure_table}
use rincos.X86.Mmu.Page.{root_of, as_x86, flush_tlb_page, nxe_enabled, map_4k}

module _ {A : Type 0} (pt : PageTableFrameAlloc A) (v p : ℕ) (flags : MapFlags) where
  abbrev pub leaf_entry : World A → ℕ
  leaf_entry w = bit_or (bit_and p addr_mask) (flags_to_pte flags w.machine.nxe_enabled)

  -- The end of `map_4k`, in the last table.
  unfoldable pub map_leaf : ℕ → Cmd A MapError (Unit {0})
  unfolding read_entry write_entry flush_tlb_page emit nxe_enabled
  map_leaf table = do
    e4 ← read_entry table (pt_index v)
    fail_if (has e4 pte_p) already_mapped
    nxe ← nxe_enabled
    write_entry table (pt_index v) (bit_or (bit_and p addr_mask) (flags_to_pte flags nxe))
    flush_tlb_page v
    pure tt

  -- `map_4k` behind its guards.
  unfoldable pub map_tables : ℕ → Cmd A MapError (Unit {0})
  map_tables root = do
    pdpt ← ensure_table pt root (pml4_index v) flags.user
    pd ← ensure_table pt pdpt (pdpt_index v) flags.user
    table ← ensure_table pt pd (pd_index v) flags.user
    map_leaf table

  pub map_4k-guards :
      (aspace : AddressSpace) (w : World A) (root : ℕ)
      → root_of w.machine aspace ≡ some root
      → map_4k pt aspace v p flags w ≡ (
          if not (aligned_4k v) || not (aligned_4k p)
          then err unaligned w
          else (if is_canonical v then map_tables root w else err invalid_args w))
  unfolding map_4k map_tables map_leaf
  map_4k-guards aspace w root known = elim (Bool-cases (not (aligned_4k v) || not (aligned_4k p))) [
    | inl odd ↦ rw odd refl
    | inr al ↦ elim (Bool-cases (is_canonical v)) [
      | inr odd ↦ rw (al, odd) refl
      | inl ca ↦ rw (al, ca, known, as_x86) refl
    ]
  ]

  pub map_leaf-mapped :
      (w : World A) (h table : ℕ)
      → w.machine.hhdm_offset ≡ h
      → has (entry w.machine.mem h table (pt_index v)) pte_p ≡ true
      → map_leaf table w ≡ err already_mapped w
  unfolding map_leaf
  map_leaf-mapped w h table hhdm there = ground arith

  abbrev pub mapped : World A → ℕ → ℕ → World A
  mapped w h table = record w {
    machine = record w.machine {
      mem = store w.machine.mem h table (pt_index v) (leaf_entry w);
      events = invlpg v ∷ w.machine.events;
    };
  }

  pub map_leaf-free :
      (w : World A) (h table : ℕ)
      → w.machine.hhdm_offset ≡ h
      → has (entry w.machine.mem h table (pt_index v)) pte_p ≡ false
      → map_leaf table w ≡ ok tt (mapped w h table)
  unfolding map_leaf
  map_leaf-free w h table hhdm gone = ground arith
