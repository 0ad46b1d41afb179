-- ===== src/X86/Mmu/Page/RoundTrip.antt =====
-- `map_4k`, `unmap_4k` and `translate` of arch/x86_64/src/mmu.rs, one after the other.
use mathlib.Core.Path.{subst}
use rincos.Prelude.{
  ℕ, ◌+◌, ◌/◌, ◌%◌, ◌^◌, ◌<◌, ◌≡◌, refl, sym, ap, ◌∙◌, arith, true, none, some, Option, bit_or,
  ◌==◌, ==_iff, if◌then◌else◌, Bool-cases, inl, inr, get_elem?, ◌∷◌,
}
use rincos.Hal.Mmu.{
  MapFlags, MapError, AddressSpace, kernel, slot, dangling, PageTableFrameAlloc, Memory,
}
use rincos.X86.Machine.{Machine, Event, invlpg}
use rincos.X86.Run.{World, Run, ok, err, fault}
use rincos.X86.Mmu.Entry.{is_canonical, frame_of, flags_to_pte, pml4_index}
use rincos.X86.Mmu.Entry.Laws.{frame_of-frame, frame_of-or, flags_to_pte-IsFlags}
use rincos.X86.Mmu.Walk.{page_at, IsTree}
use rincos.X86.Mmu.Frames.{IsFrameSource}
use rincos.X86.Mmu.Ensure.{IsSpace}
use rincos.X86.Mmu.Page.{root_of, map_4k, unmap_4k, translate}
use rincos.X86.Mmu.Page.View.{IsAddress, IsRemap, indices_of_page}
use rincos.X86.Mmu.Page.Translate.{Translated, translate_lem}
use rincos.X86.Mmu.Page.Edits.{Edits, unmap_4k-Edits}
use rincos.X86.Mmu.Page.Map.{Mapped, map_4k-Mapped}

-- A change of memory and events leaves the roots.
same_root :
    (m m' : Machine) (mem : Memory) (e : Event) (aspace : AddressSpace)
    → m' ≡ record m { mem = mem; events = e ∷ m.events }
    → root_of m' aspace ≡ root_of m aspace
unfolding root_of
same_root m m' mem e kernel same = ap (λ (x : Machine). x.kas) same
same_root m m' mem e (slot i) same =
    ap (λ (x : Machine). elim (get_elem? x.as_slots i) [ none ↦ none | some s ↦ some s.pml4_phys ])
      same
same_root m m' mem e dangling same = refl

module _ {A : Type 0} where
  translate-view :
      (w : World A) (aspace : AddressSpace) (u root : ℕ) (r : Option ℕ)
      → root_of w.machine aspace ≡ some root
      → is_canonical u ≡ true
      → page_at w.machine.mem w.machine.hhdm_offset root u ≡ r
      → translate aspace u w ≡ Translated w u r
  translate-view w aspace u root r known ca at =
      translate_lem w aspace u root known ∙ rw (ca, at) refl

  -- A success that leaves the pages as they are in `w`.
  abbrev pub Restored : ℕ → ℕ → ℕ → World A → Run A MapError (Unit {0}) → Type 0
  Restored h root limit w (ok _ w'') =
      (u : ℕ)
      → IsAddress limit u
      → page_at w''.machine.mem h root u ≡ page_at w.machine.mem h root u
  Restored h root limit w (err e w'') = ⊥
  Restored h root limit w fault = ⊥

  module _ {pt : PageTableFrameAlloc A} {h : ℕ} (src : IsFrameSource pt h) (root limit v p : ℕ)
      (flags : MapFlags) (aspace : AddressSpace) (w w' : World A) (word : v < 2 ^ 64)
      (low : pml4_index v < limit) (known : root_of w.machine aspace ≡ some root)
      (space : IsSpace src root limit w) where
    pte_frame :
        p % 4096 ≡ 0
        → p < 2 ^ 52
        → frame_of (bit_or (frame_of p) (flags_to_pte flags w.machine.nxe_enabled)) ≡ p
    pte_frame al small =
        frame_of-or p (flags_to_pte flags w.machine.nxe_enabled)
          (flags_to_pte-IsFlags flags w.machine.nxe_enabled)
        ∙ frame_of-frame p (al, small)

    -- After `map_4k` has succeeded, `translate` takes every address of the page to the same place in
    -- the frame, and every address of another page to where it took it before.
    pub map-translate :
        p < 2 ^ 52
        → map_4k pt aspace v p flags w ≡ ok tt w'
        → (u : ℕ) → IsAddress limit u
        → translate aspace u w' ≡ (
            if u / 4096 == v / 4096
            then ok (p + u % 4096) w'
            else Translated w' u (page_at w.machine.mem h root u))
    map-translate small done u address =
        let (_, al, _, remap, space', same) : Mapped src root limit v p flags w (ok tt w') =
          subst (Mapped src root limit v p flags w) done
            (map_4k-Mapped src root limit v p flags aspace w word low known space) in
        let known' = same_root w.machine w'.machine w'.machine.mem (invlpg v) aspace same ∙ known in
        let at = ap (λ o. page_at w'.machine.mem o root u) space'.hhdm ∙ remap u address in
        elim (Bool-cases (u / 4096 == v / 4096)) [
          | inl this ↦ rw this (
              translate-view w' aspace u root
                (some (bit_or (frame_of p) (flags_to_pte flags w.machine.nxe_enabled))) known'
                address.1 (at ∙ rw this refl)
              ∙ ap (λ q. ok (q + u % 4096) w') (pte_frame al small))
          | inr other ↦ rw other (
              translate-view w' aspace u root (page_at w.machine.mem h root u) known' address.1
                (at ∙ rw other refl))
        ]

    same_page :
        (u : ℕ)
        → u / 4096 ≡ v / 4096
        → page_at w.machine.mem h root u ≡ page_at w.machine.mem h root v
    same_page u same = let (e1, e2, e3, e4) = indices_of_page u v same in rw (e1, e2, e3, e4) refl

    module _ (canonical : is_canonical v ≡ true)
        (mapped : Mapped src root limit v p flags w (ok tt w')) where
      entry : ℕ
      entry = bit_or (frame_of p) (flags_to_pte flags w.machine.nxe_enabled)

      at_mapped : page_at w'.machine.mem w'.machine.hhdm_offset root v ≡ some entry
      unfolding entry
      at_mapped =
          ap (λ o. page_at w'.machine.mem o root v) mapped.4.hhdm
          ∙ mapped.3 v (word, canonical, low)
          ∙ rw ((==_iff (v / 4096) (v / 4096)).1 refl) refl

      Restored-pages :
          (w'' : World A) (e : ℕ)
          → IsRemap w'.machine.mem w''.machine.mem w'.machine.hhdm_offset root limit v none
          → Restored h root limit w (ok tt w'')
      Restored-pages w'' e remap2 u address = elim (Bool-cases (u / 4096 == v / 4096)) [
        | inl this ↦
            back ∙ rw this (sym (same_page u ((==_iff (u / 4096) (v / 4096)).0 this) ∙ mapped.2))
        | inr other ↦ back ∙ rw other (mapped.3 u address ∙ rw other refl)
      ]
        where
          back :
              page_at w''.machine.mem h root u
              ≡ (if u / 4096 == v / 4096 then none else page_at w'.machine.mem h root u)
          back = rw mapped.4.hhdm at (remap2 u address)

      restored :
          (r : Run A MapError (Unit {0}))
          → Edits w' root limit v (λ _. none) r
          → Restored h root limit w r
      restored (ok _ w'') (_, _, _, (e, _, remap2)) = Restored-pages w'' e remap2
      restored (err MapError.unaligned w'') (_, odd) = odd mapped.0
      restored (err MapError.invalid_args w'') (_, odd) = ground (arith, canonical, odd)
      restored (err MapError.not_mapped w'') (_, gone) = ground (arith, at_mapped, gone)
      restored (err MapError.already_mapped w'') bad = bad
      restored (err MapError.out_of_memory w'') bad = bad
      restored fault bad = bad

    -- After `map_4k` has succeeded, `unmap_4k` of the page succeeds, and every page is again as it
    -- was before.
    pub unmap-map :
        is_canonical v ≡ true
        → map_4k pt aspace v p flags w ≡ ok tt w'
        → Restored h root limit w (unmap_4k aspace v w')
    unmap-map canonical done =
        let mapped : Mapped src root limit v p flags w (ok tt w') =
          subst (Mapped src root limit v p flags w) done
            (map_4k-Mapped src root limit v p flags aspace w word low known space) in
        let known' =
          same_root w.machine w'.machine w'.machine.mem (invlpg v) aspace mapped.5 ∙ known in
        let tree : IsTree w'.machine.mem w'.machine.hhdm_offset root limit =
          rw mapped.4.hhdm mapped.4.tree in
        restored canonical mapped (unmap_4k aspace v w')
          (unmap_4k-Edits w' v root limit word low tree aspace known')
