-- ===== src/Limine/Memmap/Sane.antt =====
-- The boot loader's memory map, converted by crates/bootloader/limine/src/lib.rs, is one that
-- kernel/src/svc/vm.rs can rely on.
use rincos.Prelude.{
  ℕ, ◌+◌, ◌%◌, ◌^◌, ◌≤◌, ◌<◌, ◌≡◌, ◌≢◌, ◌⊎◌, arith, inl, inr, true, some, List, get_elem?,
  get_elem?_of_lt, lt_of_get_elem?,
}
use rincos.Bootabi.{MemMapEntry, MemMapView}
use rincos.Limine.Memmap.{EntryType, Entry, map_memtype, convert_entry, convert_memmap_entries}
use rincos.Limine.Memmap.Laws.{Converted, convert_memmap_entries-Converted}
use rincos.Vm.{is_usable}
use rincos.Vm.Map.{IsMap, IsIn}

-- Memory that is free, or that is free once the kernel no longer needs what the boot loader left there.
abbrev pub IsFree : EntryType → ℕ → Type 0
IsFree l t = (t ≡ l.usable) ⊎ (t ≡ l.bootloader_reclaimable)

-- The kinds of memory of the Limine protocol are different numbers; only these matter here.
pub record IsKinds (l : EntryType) : Type 0 where
  pub not_reserved : l.bootloader_reclaimable ≢ l.reserved
  pub not_acpi_reclaimable : l.bootloader_reclaimable ≢ l.acpi_reclaimable
  pub not_acpi_nvs : l.bootloader_reclaimable ≢ l.acpi_nvs
  pub not_bad_memory : l.bootloader_reclaimable ≢ l.bad_memory

-- What the Limine protocol promises of the free entries: they are physical memory and no two of them
-- overlap.
pub record IsReported (l : EntryType) (es : List Entry) : Type 0 where
  pub physical :
      (i : ℕ) (e : Entry)
      → get_elem? es i ≡ some e
      → IsFree l e.entry_type
      → e.base + e.length ≤ 2 ^ 52
  pub disjoint :
      (i j : ℕ) (d e : Entry)
      → get_elem? es i ≡ some d
      → get_elem? es j ≡ some e
      → IsFree l d.entry_type
      → IsFree l e.entry_type
      → i ≢ j
      → (d.base + d.length ≤ e.base) ⊎ (e.base + e.length ≤ d.base)

-- The frame `q` lies in a free entry, one of the first 1024 that the boot loader reports.
pub record IsFreeFrame (l : EntryType) (es : List Entry) (q : ℕ) : Type 0 where
  pub index : ℕ
  pub entry : Entry
  pub below : index < 1024
  pub found : get_elem? es index ≡ some entry
  pub free : IsFree l entry.entry_type
  pub aligned : q % 4096 ≡ 0
  pub lower : entry.base ≤ q
  pub upper : q + 4096 ≤ entry.base + entry.length

usable-IsFree : (l : EntryType) (t : ℕ) → is_usable (map_memtype l t) ≡ true → IsFree l t
unfolding is_usable map_memtype
usable-IsFree l t e = ground (arith, e)

free_usable : (l : EntryType) (t : ℕ) → IsKinds l → IsFree l t → is_usable (map_memtype l t) ≡ true
unfolding is_usable map_memtype
free_usable l t kinds (inl e) = ground (arith, e)
free_usable l t kinds (inr e) = ground (
  arith, e, kinds.not_reserved, kinds.not_acpi_reclaimable, kinds.not_acpi_nvs,
  kinds.not_bad_memory,
)

module _ (l : EntryType) (es : List Entry) (sane : IsReported l es) (view : MemMapView) (flags : ℕ)
    (conv : Converted l es view flags) where
  -- The boot loader's entry that an entry of the view comes from.
  source :
      (j : ℕ)
      → j < view.entry_count
      → (e : Entry) × (get_elem? es j ≡ some e) × (view.entries j ≡ convert_entry l e)
  source j lt =
      let (e, at) = get_elem?_of_lt es j (omega (arith, lt, conv.count)) in
      (e, at, conv.each j e (omega (arith, lt, conv.count)) at)

  view-IsMap : IsMap view.entries view.entry_count
  unfolding convert_entry
  view-IsMap = record {
    physical = λ j lt use_j.
        let (e, at, from) = source j lt in
        rw from (sane.physical j e at (usable-IsFree l e.entry_type (rw from at use_j)));
    disjoint = λ i j lt lt' use_i use_j ne.
        let (d, at, from) = source i lt in
        let (e, at', from') = source j lt' in
        rw (from, from')
          (sane.disjoint i j d e at at' (usable-IsFree l d.entry_type (rw from at use_i))
            (usable-IsFree l e.entry_type (rw from' at use_j)) ne);
  }

  pub IsIn-IsFreeFrame : (j q : ℕ) → IsIn view.entries view.entry_count j q → IsFreeFrame l es q
  unfolding convert_entry
  IsIn-IsFreeFrame j q within =
      let (e, at, from) = source j within.index in
      record {
        index = j;
        entry = e;
        below = omega (arith, within.index, conv.count);
        found = at;
        free = usable-IsFree l e.entry_type (rw from at within.usable);
        aligned = within.aligned;
        lower = rw from at within.lower;
        upper = rw from at within.upper;
      }

  pub IsFreeFrame-IsIn :
      IsKinds l
      → (q : ℕ) (frame : IsFreeFrame l es q) → IsIn view.entries view.entry_count frame.index q
  unfolding convert_entry
  IsFreeFrame-IsIn kinds q frame =
      let from : view.entries frame.index ≡ convert_entry l frame.entry =
        conv.each frame.index frame.entry frame.below frame.found in
      record {
        index = omega (arith, conv.count, frame.below, lt_of_get_elem? es frame.index frame.found);
        usable = rw from (free_usable l frame.entry.entry_type kinds frame.free);
        aligned = frame.aligned;
        lower = rw from frame.lower;
        upper = rw from frame.upper;
      }

-- If the free entries that the boot loader reports are physical memory and do not overlap, the
-- same holds of the view that the kernel gets.
pub convert_memmap_entries-IsMap :
    (l : EntryType) (membuf_ptr : ℕ) (membuf : ℕ → MemMapEntry) (es : List Entry)
    → IsReported l es
    → let view = (convert_memmap_entries l membuf_ptr membuf es).0.0 in
      IsMap view.entries view.entry_count
convert_memmap_entries-IsMap l membuf_ptr membuf es sane =
    let r = (convert_memmap_entries l membuf_ptr membuf es).0 in
    view-IsMap l es sane r.0 r.1 (convert_memmap_entries-Converted l membuf_ptr membuf es)
