-- ===== src/Kernel/BootLog/Laws.antt =====
-- What kernel/src/bootinfo.rs prints of the memory map that crates/bootloader/limine/src/lib.rs gathers.
use rincos.Prelude.{
  ℕ, zero, suc, ◌+◌, ◌<◌, ◌≡◌, ◌≢◌, ◌∙◌, refl, sym, ap, arith, false, some, List, [], ◌∷◌, ◌++◌,
  map, take, min, length, get_elem?, ◌==◌,
}
use rincos.Bootabi.{MemMapEntry, MemMapView}
use rincos.Limine.Memmap.{EntryType, Entry, max_memmap, convert_entry, convert_memmap_entries}
use rincos.Limine.Memmap.Laws.{Converted, convert_memmap_entries-Converted}
use rincos.Kernel.BootLog.{Piece, entry_line, entry_lines, print_entries}

-- One line for each entry, numbered from `i` on.
unfoldable pub listing : ℕ → List MemMapEntry → List Piece
listing i [] = []
listing i (e ∷ es) = entry_line i e ++ listing (i + 1) es

entry_lines-listing :
    (entries : ℕ → MemMapEntry) (i : ℕ) (xs : List MemMapEntry)
    → ((j : ℕ) (x : MemMapEntry) → get_elem? xs j ≡ some x → entries (i + j) ≡ x)
    → entry_lines entries i (length xs) ≡ listing i xs
unfolding entry_lines listing
entry_lines-listing entries i [] each = refl
entry_lines-listing entries i (x ∷ xs) each =
    rw
      (
        sym (ap entries first) ∙ each 0 x refl,
        entry_lines-listing entries (i + 1) xs (λ j y at. ap entries (shift j) ∙ each (suc j) y at),
      )
      refl
  where
    first : i + 0 ≡ i
    first = omega arith

    shift : (j : ℕ) → i + 1 + j ≡ i + suc j
    shift j = omega arith

module _ {A B : Type 0} (f : A → B) where
  length-map_take : (n : ℕ) (es : List A) → length (map f (take n es)) ≡ min (length es) n
  length-map_take zero es = omega arith
  length-map_take (suc n) [] = omega arith
  length-map_take (suc n) (e ∷ es) = omega (arith, length-map_take n es)

  -- What stands in the first `n` converted elements.
  element_of :
      (n : ℕ) (es : List A) (j : ℕ) (x : B)
      → get_elem? (map f (take n es)) j ≡ some x
      → (e : A) × (j < n) × (get_elem? es j ≡ some e) × (f e ≡ x)
  element_of zero es j x at = ground arith
  element_of (suc n) [] j x at = ground arith
  element_of (suc n) (e ∷ es) zero x at = (e, omega arith, refl, cc at)
  element_of (suc n) (e ∷ es) (suc j) x at =
      let (d, lt, there, same) = element_of n es j x at in (d, omega (arith, lt), there, same)

module _ (l : EntryType) (membuf_ptr : ℕ) (membuf : ℕ → MemMapEntry) (e : Entry) (es : List Entry)
    (placed : membuf_ptr ≢ 0) where
  abbrev view : MemMapView
  view = (convert_memmap_entries l membuf_ptr membuf (e ∷ es)).0.0

  converted : Converted l (e ∷ es) view (convert_memmap_entries l membuf_ptr membuf (e ∷ es)).0.1
  converted = convert_memmap_entries-Converted l membuf_ptr membuf (e ∷ es)

  abbrev first_entries : List MemMapEntry
  first_entries = map (convert_entry l) (take max_memmap (e ∷ es))

  some_entries : (view.entry_count == 0) ≡ false
  some_entries = ground (arith, converted.count)

  at_buffer : (view.entries_ptr == 0) ≡ false
  unfolding convert_memmap_entries
  at_buffer = ground (arith, placed)

  pub view-listing : print_entries view ≡ listing 0 first_entries
  unfolding print_entries
  view-listing =
      rw (some_entries, at_buffer, converted.size, converted.count)
        (ap (entry_lines view.entries 0)
            (sym (length-map_take (convert_entry l) max_memmap (e ∷ es)))
          ∙ entry_lines-listing view.entries 0 first_entries λ j x at.
            let (d, lt, there, same) = element_of (convert_entry l) max_memmap (e ∷ es) j x at in
            ap view.entries (zero_add j) ∙ converted.each j d lt there ∙ same)
    where
      zero_add : (j : ℕ) → 0 + j ≡ j
      zero_add j = omega arith
