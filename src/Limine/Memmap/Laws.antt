-- ===== src/Limine/Memmap/Laws.antt =====
-- The memory map of crates/bootloader/limine/src/lib.rs: what the copy holds, what a search finds.
use rincos.Prelude.{
  ℕ, zero, suc, ◌+◌, ◌^◌, ◌≤◌, ◌<◌, ◌≡◌, ◌⊎◌, ◌&&◌, arith, refl, ap, ◌∙◌, inl, inr, Option, none,
  some, List, [], ◌∷◌, ltb, leb, ◌==◌, if◌then◌else◌, length, take, get_elem?, min, checked_add,
  Bool-cases, ==_iff, Option-cases,
}
use rincos.Bootabi.{MemMapEntry, MemMapView, mem_map_entry_size}
use rincos.X86.Machine.{update}
use rincos.Limine.Memmap.{
  EntryType, Entry, max_memmap, flag_truncated, convert_entry, fill_membuf, convert_memmap_entries,
  phys_search, phys_available,
}

module _ (l : EntryType) where
  fill_membuf-below :
      (membuf : ℕ → MemMapEntry) (i : ℕ) (es : List Entry) (k : ℕ)
      → k < i
      → fill_membuf l membuf i es k ≡ membuf k
  unfolding fill_membuf
  fill_membuf-below membuf i [] k lt = refl
  fill_membuf-below membuf i (e ∷ es) k lt =
      fill_membuf-below (update membuf i (convert_entry l e)) (i + 1) es k (omega arith)
      ∙ ground arith

  update_self : (f : ℕ → MemMapEntry) (i k : ℕ) (v : MemMapEntry) → k ≡ i → update f i v k ≡ v
  update_self f i k v e = ground (arith, e)

  fill_membuf-at :
      (membuf : ℕ → MemMapEntry) (i : ℕ) (es : List Entry) (j : ℕ) (e : Entry)
      → get_elem? es j ≡ some e
      → fill_membuf l membuf i es (i + j) ≡ convert_entry l e
  unfolding fill_membuf
  fill_membuf-at membuf i [] j e at = ground arith
  fill_membuf-at membuf i (d ∷ es) zero e at =
      let same : d ≡ e = cc at in
      fill_membuf-below (update membuf i (convert_entry l d)) (i + 1) es (i + 0) (omega arith)
      ∙ update_self membuf i (i + 0) (convert_entry l d) (omega arith)
      ∙ ap (convert_entry l) same
  fill_membuf-at membuf i (d ∷ es) (suc j) e at =
      ap (fill_membuf l (update membuf i (convert_entry l d)) (i + 1) es) (omega arith)
      ∙ fill_membuf-at (update membuf i (convert_entry l d)) (i + 1) es j e at

  get_elem?-take :
      (n : ℕ) (es : List Entry) (j : ℕ) → j < n → get_elem? (take n es) j ≡ get_elem? es j
  get_elem?-take zero es j lt = absurd (omega arith)
  get_elem?-take (suc n) [] j lt = refl
  get_elem?-take (suc n) (e ∷ es) zero lt = refl
  get_elem?-take (suc n) (e ∷ es) (suc j) lt = get_elem?-take n es j (omega arith)

  lt_length : (es : List Entry) (j : ℕ) {e : Entry} → get_elem? es j ≡ some e → j < length es
  lt_length [] j at = ground arith
  lt_length (d ∷ es) zero at = omega arith
  lt_length (d ∷ es) (suc j) at = omega (arith, lt_length es j at)

  zero_add : (j : ℕ) → j ≡ 0 + j
  zero_add j = omega arith

  ltb-min : (n : ℕ) → ltb (min n max_memmap) n ≡ ltb max_memmap n
  ltb-min n = ground arith

  -- What the conversion of the boot loader's entries gives.
  pub record Converted (es : List Entry) (view : MemMapView) (flags : ℕ) : Type 0 where
    pub count : view.entry_count ≡ min (length es) max_memmap
    pub size : view.entry_size ≡ mem_map_entry_size
    pub each :
        (j : ℕ) (e : Entry)
        → j < max_memmap
        → get_elem? es j ≡ some e
        → view.entries j ≡ convert_entry l e
    pub truncated : view.flags ≡ (if ltb max_memmap (length es) then flag_truncated else 0)
    pub same_flags : flags ≡ view.flags

  -- The view has the first 1024 entries of the boot loader, converted, in their order, and says
  -- whether there are more.
  pub convert_memmap_entries-Converted :
      (membuf_ptr : ℕ) (membuf : ℕ → MemMapEntry) (es : List Entry)
      → let r = (convert_memmap_entries l membuf_ptr membuf es).0 in Converted es r.0 r.1
  unfolding convert_memmap_entries
  convert_memmap_entries-Converted membuf_ptr membuf [] = record {
    count = omega arith;
    size = refl;
    each = λ j e lt at. ground arith;
    truncated = refl;
    same_flags = refl;
  }
  convert_memmap_entries-Converted membuf_ptr membuf (d ∷ es) = record {
    count = refl;
    size = refl;
    each = λ j e lt at.
        ap (fill_membuf l membuf 0 (take (min (length (d ∷ es)) max_memmap) (d ∷ es))) (zero_add j)
        ∙ fill_membuf-at membuf 0 (take (min (length (d ∷ es)) max_memmap) (d ∷ es)) j e (
            get_elem?-take (min (length (d ∷ es)) max_memmap) (d ∷ es) j
              (omega (arith, lt_length (d ∷ es) j at))
            ∙ at);
    truncated = ap (λ b. if b then flag_truncated else 0) (ltb-min (length (d ∷ es)));
    same_flags = refl;
  }

module _ (entries : ℕ → MemMapEntry) (phys : ℕ) where
  -- The address lies in entry `j`.
  abbrev pub Holds : ℕ → Type 0
  Holds j = ((entries j).base ≤ phys) × (phys < (entries j).base + (entries j).len)

  -- What a search from index `i` on finds.
  abbrev pub Found : ℕ → ℕ → Option ℕ → Type 0
  Found i count none =
      ((j : ℕ) × (i ≤ j) × (j < count) × (2 ^ 64 ≤ (entries j).base + (entries j).len))
      ⊎ ((j : ℕ) → i ≤ j → j < count → ¬ (Holds j))
  Found i count (some room) =
      (j : ℕ) × (i ≤ j) × (j < count) × Holds j × (phys + room ≡ (entries j).base + (entries j).len)

  Holds-same : (i j : ℕ) → i ≡ j → Holds j → Holds i
  Holds-same i j e holds = rw e holds

  later : (i count : ℕ) (r : Option ℕ) → ¬ (Holds i) → Found (i + 1) count r → Found i count r
  later i count none out (inl (j, le, lt, big)) = inl (j, ground arith, lt, big)
  later i count none out (inr nowhere) = inr λ j le lt holds. elim (Bool-cases (i == j)) [
    | inl e ↦ out (Holds-same i j ((==_iff i j).0 e) holds)
    | inr ne ↦ nowhere j (ground (arith, ne)) lt holds
  ]
  later i count (some room) out (j, le, lt, holds, end) = (j, ground arith, lt, holds, end)

  search-Found :
      (i left count : ℕ) → i + left ≡ count → Found i count (phys_search entries phys i left)
  unfolding phys_search
  search-Found i zero count e = inr (λ j le lt. ground arith)
  search-Found i (suc left) count e =
      elim (Option-cases (checked_add (entries i).base (entries i).len)) [
        | inl big ↦ rw (big, Found) (inl (i, omega arith, omega (arith, e), ground (arith, big)))
        | inr (end, small) ↦ elim (Bool-cases (leb (entries i).base phys && ltb phys end)) [
          | inl in_i ↦
              rw (small, in_i, Found)
                (
                  i,
                  omega arith,
                  omega (arith, e),
                  ground (arith, in_i, small),
                  ground (arith, in_i, small),
                )
          | inr out ↦
              rw (small, out, Found)
                (later i count (phys_search entries phys (i + 1) left)
                  (λ holds. ground (arith, out, small))
                  (search-Found (i + 1) left count (omega (arith, e))))
        ]
      ]

  -- `phys_available` finds an entry that holds the address, and what is left of the entry there. It
  -- finds none only if no entry holds the address, or an entry runs past the 64-bit addresses.
  pub phys_available-Found : (count : ℕ) → Found 0 count (phys_available phys entries count)
  unfolding phys_available
  phys_available-Found count = search-Found 0 count count (omega arith)
