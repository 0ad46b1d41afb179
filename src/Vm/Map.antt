-- ===== src/Vm/Map.antt =====
-- What vm.rs relies on of the boot memory map, and the frames that the allocator has ahead of it.
use rincos.Prelude.{ℕ, ◌+◌, ◌-◌, ◌*◌, ◌/◌, ◌%◌, ◌^◌, ◌≤◌, ◌<◌, ◌≡◌, ◌≢◌, ◌⊎◌, arith, true}
use rincos.Prelude.Bits.{and_mask, and_shl}
use rincos.Bootabi.{MemMapEntry}
use rincos.Vm.{BootPtAlloc, is_usable, align_up, page_size}

abbrev pub IsUsable : MemMapEntry → Type 0
IsUsable e = is_usable e.mem_type ≡ true

-- The usable entries are physical memory, and no two of them overlap: the Limine protocol
-- promises both of the memory map that it reports.
pub record IsMap (entries : ℕ → MemMapEntry) (count : ℕ) : Type 0 where
  pub physical :
      (j : ℕ) → j < count → IsUsable (entries j) → (entries j).base + (entries j).len ≤ 2 ^ 52
  pub disjoint :
      (i j : ℕ)
      → i < count
      → j < count
      → IsUsable (entries i)
      → IsUsable (entries j)
      → i ≢ j
      → ((entries i).base + (entries i).len ≤ (entries j).base)
        ⊎ ((entries j).base + (entries j).len ≤ (entries i).base)

-- The frame `q` lies in the usable entry `j`.
pub record IsIn (entries : ℕ → MemMapEntry) (count j q : ℕ) : Type 0 where
  pub index : j < count
  pub usable : IsUsable (entries j)
  pub aligned : q % 4096 ≡ 0
  pub lower : (entries j).base ≤ q
  pub upper : q + 4096 ≤ (entries j).base + (entries j).len

-- The frame `q` has not yet been taken from the map: its entry is a later one, or the present one
-- from `cur_addr` on.
abbrev pub Ahead : BootPtAlloc → ℕ → Type 0
Ahead a q =
    (j : ℕ) × IsIn a.entries a.entry_count j q
    × ((a.cur_entry < j) ⊎ ((a.cur_entry ≡ j) × (a.cur_addr ≤ q)))

pub align_up-page : (x : ℕ) → x ≤ 2 ^ 53 → align_up x page_size ≡ (x + 4095) / 4096 * 4096
unfolding align_up
align_up-page x h = omega (
  arith,
  and_shl 12 ((x + 4096) % 2 ^ 64 + 2 ^ 64 - 1) (2 ^ 52 - 1),
  and_shl 12 (((x + 4096) % 2 ^ 64 + 2 ^ 64 - 1) % 2 ^ 64) (2 ^ 52 - 1),
  and_mask 52 (((x + 4096) % 2 ^ 64 + 2 ^ 64 - 1) % 2 ^ 64 / 4096),
)
