-- ===== src/Vm/Start.antt =====
-- `BootPtAlloc::new` of kernel/src/svc/vm.rs: the allocator that a boot begins with.
use rincos.Prelude.{
  ℕ, zero, suc, replicate, ◌≡◌, ◌⊎◌, ◌≢◌, arith, refl, Option, none, some, inl, inr, Bool-cases,
  ◌==◌, length-replicate,
}
use rincos.Bootabi.{BootInfo, mem_map_entry_size}
use rincos.Vm.{BootPtAlloc, new, max_free_frames, empty_paddr}
use rincos.Vm.Map.{IsMap, IsIn}
use rincos.Vm.Alloc.{Avail, IsSound}

-- What `new` answers to a boot's information.
abbrev pub Started : BootInfo → Option BootPtAlloc → Type 0
Started boot none =
    (boot.hhdm_offset ≡ 0)
    ⊎ (boot.mem.entries_ptr ≡ 0)
    ⊎ (boot.mem.entry_count ≡ 0)
    ⊎ (boot.mem.entry_size ≢ mem_map_entry_size)
Started boot (some a) =
    (boot.hhdm_offset ≢ 0)
    × (boot.mem.entries_ptr ≢ 0)
    × (boot.mem.entry_count ≢ 0)
    × (boot.mem.entry_size ≡ mem_map_entry_size)
    × IsSound boot.hhdm_offset a
    × ((j q : ℕ) → IsIn boot.mem.entries boot.mem.entry_count j q → Avail a q)
    × ((q : ℕ) → Avail a q → (j : ℕ) × IsIn boot.mem.entries boot.mem.entry_count j q)

module _ (boot : BootInfo) (map : IsMap boot.mem.entries boot.mem.entry_count) where
  abbrev pub begun : BootPtAlloc
  begun = record {
    entries = boot.mem.entries;
    entry_count = boot.mem.entry_count;
    cur_entry = 0;
    cur_addr = 0;
    hhdm_offset = boot.hhdm_offset;
    free_list = replicate max_free_frames empty_paddr;
    free_count = 0;
  }

  pub begun-IsSound : IsSound boot.hhdm_offset begun
  begun-IsSound = record {
    hhdm = refl;
    cursor = record { map = map; small = omega arith };
    count_le = omega arith;
    room = length-replicate max_free_frames empty_paddr;
    frames = λ q (i, lt, _). ground arith;
    apart = λ q (i, lt, _). ground arith;
    distinct = λ i j lt. ground arith;
  }

  ahead : (j q : ℕ) → IsIn boot.mem.entries boot.mem.entry_count j q → Avail begun q
  ahead zero q within = inr (0, within, inr (refl, omega arith))
  ahead (suc j) q within = inr (suc j, within, inl (omega arith))

  inside : (q : ℕ) → Avail begun q → (j : ℕ) × IsIn boot.mem.entries boot.mem.entry_count j q
  inside q (inl (i, lt, _)) = ground arith
  inside q (inr (j, within, _)) = (j, within)

  -- In a sane memory map, `new` gives a sound allocator whose available frames are those that lie
  -- in a usable entry, if there is a direct map, a memory map with an entry, and the entries have
  -- the kernel's size. If one of these is missing it gives none.
  pub new-Started : Started boot (new boot)
  unfolding new
  new-Started = elim (Bool-cases (boot.hhdm_offset == 0)) [
    | inl e ↦ rw e (inl (ground (arith, e)))
    | inr some_map ↦ elim (Bool-cases (boot.mem.entries_ptr == 0)) [
      | inl e ↦ rw (some_map, e) (inr (inl (ground (arith, e))))
      | inr some_ptr ↦ elim (Bool-cases (boot.mem.entry_count == 0)) [
        | inl e ↦ rw (some_map, some_ptr, e) (inr (inr (inl (ground (arith, e)))))
        | inr some_count ↦ elim (Bool-cases (boot.mem.entry_size == mem_map_entry_size)) [
          | inl same ↦
              rw (some_map, some_ptr, some_count, same)
                (
                  λ e. ground (arith, some_map),
                  λ e. ground (arith, some_ptr),
                  λ e. ground (arith, some_count),
                  ground (arith, same),
                  begun-IsSound,
                  ahead,
                  inside,
                )
          | inr other ↦
              rw (some_map, some_ptr, some_count, other)
                (inr (inr (inr (λ e. ground (arith, other)))))
        ]
      ]
    ]
  ]
