-- ===== src/Limine/Info/Laws.antt =====
-- From the boot loader's responses to the kernel's frame allocator: `gather_bootinfo` of
-- crates/bootloader/limine/src/lib.rs and `BootPtAlloc::new` of kernel/src/svc/vm.rs.
use mathlib.Core.Path.{subst}
use rincos.Prelude.{
  ℕ, suc, ◌≡◌, ◌⊎◌, ◌∙◌, arith, refl, sym, ap, true, false, not, ◌||◌, Option, none, some, List, [],
  ◌∷◌, length, inl, inr, Bool-cases, Option-cases, if◌then◌else◌,
}
use rincos.Bootabi.{Arch, BootInfo, MemMapView}
use rincos.Limine.Memmap.{EntryType, Entry, convert_memmap_entries, empty_memmap_view}
use rincos.Limine.Memmap.Sane.{
  IsReported, IsKinds, IsFreeFrame, IsIn-IsFreeFrame, IsFreeFrame-IsIn,
  convert_memmap_entries-IsMap,
}
use rincos.Limine.Memmap.Laws.{Converted, convert_memmap_entries-Converted}
use rincos.Limine.Info.{
  FirmwareType, Responses, Statics, unwrap_or, gather_bootinfo, minimal_bootinfo,
}
use rincos.Vm.{BootPtAlloc, new}
use rincos.Vm.Map.{IsMap, IsIn}
use rincos.Vm.Alloc.{Avail, IsSound}
use rincos.Vm.Start.{Started, new-Started}

list-cases : {A : Type 0} (xs : List A) → (xs ≡ []) ⊎ ((x : A) × (ys : List A) × (xs ≡ x ∷ ys))
list-cases [] = inl refl
list-cases (x ∷ ys) = inr (x, ys, refl)

module _ (arch : Arch) (f : FirmwareType) (l : EntryType) (responses : Responses) (memory : ℕ → ℕ)
    (cpu_count : ℕ) (statics : Statics) (kinds : IsKinds l)
    (reported : (es : List Entry) → responses.memmap ≡ some es → IsReported l es) where
  abbrev boot : BootInfo
  boot = (gather_bootinfo arch f l responses memory cpu_count statics).0

  none-IsMap : (entries : ℕ → _) → IsMap entries 0
  none-IsMap entries = record { physical = λ j lt. ground arith; disjoint = λ i j lt. ground arith }

  -- The view of the memory map that is handed over.
  view : MemMapView
  view =
      if not responses.is_valid || not responses.is_supported
      then (minimal_bootinfo arch cpu_count statics.membuf).mem
      else elim responses.memmap [
        | none ↦ (empty_memmap_view statics.membuf).0
        | some es ↦ (convert_memmap_entries l statics.membuf_ptr statics.membuf es).0.0
      ]

  view_eq : (gather_bootinfo arch f l responses memory cpu_count statics).0.mem ≡ view
  unfolding view gather_bootinfo
  view_eq = elim (Bool-cases (not responses.is_valid || not responses.is_supported)) [
    | inl old ↦ rw old refl
    | inr supported ↦ elim (Option-cases responses.memmap) [
      | inl no_map ↦ rw (supported, no_map) refl
      | inr (es, some_map) ↦ rw (supported, some_map) refl
    ]
  ]

  view-IsMap : IsMap view.entries view.entry_count
  unfolding view minimal_bootinfo empty_memmap_view
  view-IsMap = elim (Bool-cases (not responses.is_valid || not responses.is_supported)) [
    | inl old ↦ rw (old) (none-IsMap statics.membuf)
    | inr supported ↦ elim (Option-cases responses.memmap) [
      | inl no_map ↦ rw (supported, no_map) (none-IsMap statics.membuf)
      | inr (es, some_map) ↦
          rw (supported, some_map)
            (convert_memmap_entries-IsMap l statics.membuf_ptr statics.membuf es
              (reported es some_map))
    ]
  ]

  boot-IsMap : IsMap boot.mem.entries boot.mem.entry_count
  boot-IsMap = subst (λ v. IsMap v.entries v.entry_count) (sym view_eq) view-IsMap

  -- What the allocator is made of. There is none only if the boot loader has not answered, or knows of
  -- no direct map or of no memory, or the kernel's buffer for the entries stands at address 0.
  abbrev pub Answered : Option BootPtAlloc → Type 0
  Answered none =
      (responses.is_valid ≡ false)
      ⊎ (responses.is_supported ≡ false)
      ⊎ (responses.hhdm ≡ none)
      ⊎ (responses.hhdm ≡ some 0)
      ⊎ (responses.memmap ≡ none)
      ⊎ (responses.memmap ≡ some [])
      ⊎ (statics.membuf_ptr ≡ 0)
  Answered (some a) =
      (h : ℕ) × (es : List Entry) × (responses.is_valid ≡ true)
      × (responses.is_supported ≡ true)
      × (responses.hhdm ≡ some h)
      × (responses.memmap ≡ some es)
      × IsSound h a
      × ((q : ℕ) → Avail a q → IsFreeFrame l es q)
      × ((q : ℕ) → IsFreeFrame l es q → Avail a q)

  module _ (valid : responses.is_valid ≡ true) (supported : responses.is_supported ≡ true) where
    hhdm_eq : boot.hhdm_offset ≡ unwrap_or responses.hhdm 0
    unfolding gather_bootinfo
    hhdm_eq = rw (valid, supported) refl

    no_map_eq : responses.memmap ≡ none → boot.mem ≡ (empty_memmap_view statics.membuf).0
    unfolding gather_bootinfo
    no_map_eq e = rw (valid, supported, e) refl

    mem_eq :
        (es : List Entry)
        → responses.memmap ≡ some es
        → boot.mem ≡ (convert_memmap_entries l statics.membuf_ptr statics.membuf es).0.0
    unfolding gather_bootinfo
    mem_eq es e = rw (valid, supported, e) refl

    module _ (h : ℕ) (es : List Entry) (mapped : responses.hhdm ≡ some h)
        (some_map : responses.memmap ≡ some es) where
      abbrev given : (MemMapView × ℕ)
      given = (convert_memmap_entries l statics.membuf_ptr statics.membuf es).0

      conv : Converted l es given.0 given.1
      conv = convert_memmap_entries-Converted l statics.membuf_ptr statics.membuf es

      offset : boot.hhdm_offset ≡ h
      offset = hhdm_eq ∙ ap (λ o. unwrap_or o 0) mapped

      to_frame : (j q : ℕ) → IsIn boot.mem.entries boot.mem.entry_count j q → IsFreeFrame l es q
      to_frame j q within =
          IsIn-IsFreeFrame l es (reported es some_map) given.0 given.1 conv j q (
            subst (λ (v : MemMapView). IsIn v.entries v.entry_count j q) (mem_eq es some_map)
              within)

      of_frame :
          (q : ℕ) (frame : IsFreeFrame l es q)
          → IsIn boot.mem.entries boot.mem.entry_count frame.index q
      of_frame q frame =
          subst (λ (v : MemMapView). IsIn v.entries v.entry_count frame.index q)
            (sym (mem_eq es some_map))
            (IsFreeFrame-IsIn l es (reported es some_map) given.0 given.1 conv kinds q frame)

      given-ptr : given.0.entries_ptr ≡ 0 → (es ≡ []) ⊎ (statics.membuf_ptr ≡ 0)
      unfolding convert_memmap_entries
      given-ptr e = elim (list-cases es) [
        | inl gone ↦ inl gone
        | inr (d, ds, some_entry) ↦ inr (rw some_entry at e)
      ]

      given-count : given.0.entry_count ≡ 0 → es ≡ []
      given-count e = elim (list-cases es) [
        | inl gone ↦ gone
        | inr (d, ds, some_entry) ↦
            let n : length es ≡ suc (length ds) = ap length some_entry in
            absurd (omega (arith, e, conv.count, n))
      ]

      no_entry : (es ≡ []) ⊎ (statics.membuf_ptr ≡ 0) → Answered none
      no_entry (inl gone) = inr (inr (inr (inr (inr (inl (some_map ∙ ap (λ xs. some xs) gone))))))
      no_entry (inr zero_ptr) = inr (inr (inr (inr (inr (inr zero_ptr)))))

      answered : (o : Option BootPtAlloc) → Started boot o → Answered o
      answered none (inl e) = inr (inr (inr (inl (mapped ∙ ap (λ x. some x) (sym offset ∙ e)))))
      answered none (inr (inl e)) =
          no_entry
            (given-ptr (ap (λ (v : MemMapView). v.entries_ptr) (sym (mem_eq es some_map)) ∙ e))
      answered none (inr (inr (inl e))) = no_entry (
          inl (given-count (ap (λ (v : MemMapView). v.entry_count) (sym (mem_eq es some_map)) ∙ e)))
      answered none (inr (inr (inr other))) =
          absurd (other (ap (λ (v : MemMapView). v.entry_size) (mem_eq es some_map) ∙ conv.size))
      answered (some a) (_, _, _, _, sound, ahead, inside) = (
        h,
        es,
        valid,
        supported,
        mapped,
        some_map,
        subst (λ o. IsSound o a) offset sound,
        (λ q avail. let (j, within) = inside q avail in to_frame j q within),
        λ q frame. ahead frame.index q (of_frame q frame),
      )

    no_hhdm : responses.hhdm ≡ none → (o : Option BootPtAlloc) → Started boot o → Answered o
    no_hhdm gone none _ = inr (inr (inl gone))
    no_hhdm gone (some a) (mapped, _, _, _, _, _, _) =
        absurd (mapped (hhdm_eq ∙ ap (λ o. unwrap_or o 0) gone))

    no_memmap : responses.memmap ≡ none → (o : Option BootPtAlloc) → Started boot o → Answered o
    unfolding empty_memmap_view
    no_memmap gone none _ = inr (inr (inr (inr (inl gone))))
    no_memmap gone (some a) (_, placed, _, _, _, _, _) =
        absurd (placed (ap (λ (v : MemMapView). v.entries_ptr) (no_map_eq gone)))

  old_hhdm : (not responses.is_valid || not responses.is_supported) ≡ true → boot.hhdm_offset ≡ 0
  unfolding gather_bootinfo minimal_bootinfo
  old_hhdm old = elim (Bool-cases responses.is_valid) [
    | inl valid ↦
        let not_supported : responses.is_supported ≡ false = ground (arith, old, valid) in
        rw (valid, not_supported) refl
    | inr not_valid ↦ rw not_valid refl
  ]

  not_answered :
      (not responses.is_valid || not responses.is_supported) ≡ true
      → (o : Option BootPtAlloc) → Started boot o
      → Answered o
  not_answered old none _ = elim (Bool-cases responses.is_valid) [
    | inl valid ↦ inr (inl (ground (arith, old, valid)))
    | inr not_valid ↦ inl not_valid
  ]
  not_answered old (some a) (mapped, _, _, _, _, _, _) = absurd (mapped (old_hhdm old))

  -- If the boot loader reports its memory as the protocol says, the information that
  -- `gather_bootinfo` collects gives the kernel an allocator that is sound for the direct map reported,
  -- and whose available frames are exactly those that lie in a free entry among the first 1024 that
  -- the boot loader reports. There is no allocator only if the boot loader has not answered, reports no
  -- direct map or no memory, or the kernel's buffer for the entries stands at address 0.
  pub gather_bootinfo-Answered : Answered (new boot)
  gather_bootinfo-Answered =
      elim (Bool-cases (not responses.is_valid || not responses.is_supported)) [
        | inl old ↦ not_answered old (new boot) started
        | inr now ↦
            let valid : responses.is_valid ≡ true = ground (arith, now) in
            let supported : responses.is_supported ≡ true = ground (arith, now) in
            elim (Option-cases responses.hhdm) [
              | inl gone ↦ no_hhdm valid supported gone (new boot) started
              | inr (h, mapped) ↦ elim (Option-cases responses.memmap) [
                | inl gone ↦ no_memmap valid supported gone (new boot) started
                | inr (es, some_map) ↦
                    answered valid supported h es mapped some_map (new boot) started
              ]
            ]
      ]
    where
      started : Started boot (new boot)
      started = new-Started boot boot-IsMap
