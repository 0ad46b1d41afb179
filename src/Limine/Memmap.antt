-- ===== src/Limine/Memmap.antt =====
-- The memory map of crates/bootloader/limine/src/lib.rs: the kernel's copy of it, and the search
-- for an address in it.
pub mod Laws
pub mod Sane
use rincos.Prelude.{
  ℕ, zero, suc, ◌+◌, ◌-◌, ◌&&◌, Bool, not, Option, none, some, List, [], ◌∷◌, ltb, leb, ◌==◌,
  if◌then◌else◌, length, take, min, as_u32, wrapping_add, wrapping_sub, checked_add,
}
use rincos.Bootabi.{MemMapEntry, MemMapView, MemType, mem_map_entry_size}
use rincos.X86.Machine.{update}

-- The constants of the crate `limine` for the kinds of memory.
pub record EntryType : Type 0 where
  pub usable : ℕ
  pub reserved : ℕ
  pub acpi_reclaimable : ℕ
  pub acpi_nvs : ℕ
  pub bad_memory : ℕ
  pub bootloader_reclaimable : ℕ
  pub executable_and_modules : ℕ

-- The crate's memory map entry.
pub record Entry : Type 0 where
  pub base : ℕ
  pub length : ℕ
  pub entry_type : ℕ

abbrev pub max_memmap : ℕ
max_memmap = 1024

abbrev pub flag_truncated : ℕ
flag_truncated = 1

unfoldable pub map_memtype : EntryType → ℕ → MemType
map_memtype l t =
    if t == l.usable
    then MemType.usable
    else (if t == l.reserved
        then MemType.reserved
        else (if t == l.acpi_reclaimable
            then MemType.acpi_reclaimable
            else (if t == l.acpi_nvs
                then MemType.acpi_nvs
                else (if t == l.bad_memory
                    then MemType.bad_memory
                    else (if t == l.bootloader_reclaimable
                        then MemType.bootloader_reclaimable
                        else (if t == l.executable_and_modules
                            then MemType.kernel_and_modules
                            else MemType.reserved))))))

unfoldable pub convert_entry : EntryType → Entry → MemMapEntry
convert_entry l e = record {
  base = e.base;
  len = e.length;
  mem_type = map_memtype l e.entry_type;
  flags = 0;
}

-- The loop that fills the buffer from index `i` on.
unfoldable pub fill_membuf : EntryType → (ℕ → MemMapEntry) → ℕ → List Entry → ℕ → MemMapEntry
fill_membuf l membuf i [] = membuf
fill_membuf l membuf i (e ∷ es) = fill_membuf l (update membuf i (convert_entry l e)) (i + 1) es

unfoldable pub empty_memmap_view : (ℕ → MemMapEntry) → MemMapView × ℕ
empty_memmap_view membuf = (
  record {
    entries_ptr = 0;
    entries = membuf;
    entry_count = 0;
    entry_size = mem_map_entry_size;
    flags = 0;
  },
  0,
)

-- The view, the flags, and the buffer `MEMBUF`, which stands at `membuf_ptr`.
unfoldable pub convert_memmap_entries :
    EntryType → ℕ → (ℕ → MemMapEntry) → List Entry → (MemMapView × ℕ) × (ℕ → MemMapEntry)
unfolding empty_memmap_view
convert_memmap_entries l membuf_ptr membuf [] = (empty_memmap_view membuf, membuf)
convert_memmap_entries l membuf_ptr membuf (e ∷ es) =
    let n_total = length (e ∷ es) in
    let n = min n_total max_memmap in
    let membuf' = fill_membuf l membuf 0 (take n (e ∷ es)) in
    let truncated = if ltb n n_total then flag_truncated else 0 in
    (
      (
        record {
          entries_ptr = membuf_ptr;
          entries = membuf';
          entry_count = n;
          entry_size = mem_map_entry_size;
          flags = truncated;
        },
        truncated,
      ),
      membuf',
    )

-- The loop of `phys_available`, with `left` entries to go from index `i` on.
unfoldable pub phys_search : (ℕ → MemMapEntry) → ℕ → ℕ → ℕ → Option ℕ
phys_search entries phys i zero = none
phys_search entries phys i (suc left) =
    let rest = phys_search entries phys (i + 1) left in
    elim (checked_add (entries i).base (entries i).len) [
      | none ↦ none
      | some end ↦ if leb (entries i).base phys && ltb phys end then some (end - phys) else rest
    ]

unfoldable pub phys_available : ℕ → (ℕ → MemMapEntry) → ℕ → Option ℕ
unfolding phys_search
phys_available phys entries count = phys_search entries phys 0 count

unfoldable pub resolve_limine_ptr : ℕ → ℕ → (ℕ → MemMapEntry) → ℕ → Option (ℕ × ℕ)
unfolding phys_available
resolve_limine_ptr ptr hhdm_offset entries count =
    if not (hhdm_offset == 0) && ltb ptr hhdm_offset
    then elim (phys_available ptr entries count) [
      | none ↦ none
      | some max ↦ some (wrapping_add ptr hhdm_offset, max)
    ]
    else (let phys = if hhdm_offset == 0 then ptr else wrapping_sub ptr hhdm_offset in
        elim (phys_available phys entries count) [ none ↦ none | some max ↦ some (ptr, max) ])
