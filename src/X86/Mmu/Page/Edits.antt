-- ===== src/X86/Mmu/Page/Edits.antt =====
-- `unmap_4k` and `protect_4k` of arch/x86_64/src/mmu.rs change the entry of one page.
use rincos.Prelude.{
  ℕ, ◌%◌, ◌^◌, ◌<◌, ◌≡◌, ◌≢◌, refl, ◌∙◌, false, Option, none, some, ◌∷◌, inl, inr, Bool-cases,
  Option-cases, bit_or, if◌then◌else◌,
}
use rincos.Hal.Mmu.{Memory, MapError, AddressSpace, MapFlags}
use rincos.X86.Machine.{invlpg}
use rincos.X86.Run.{World, Run, ok, err, fault}
use rincos.X86.Mmu.Entry.{
  is_canonical, aligned_4k, has, pte_p, frame_of, pml4_index, pt_index, flags_to_pte,
}
use rincos.X86.Mmu.Entry.Laws.{
  aligned_4k_iff, aligned_4k-false, has-or, zero-has, flags_to_pte-IsFlags,
}
use rincos.X86.Mmu.Table.{entry}
use rincos.X86.Mmu.Walk.{
  page_at, present_entry, table_at, path_of, IsTree, IsPath, entry_at-none, entry_at-some,
}
use rincos.X86.Mmu.Walk.Leaf.{IsTree-store_leaf}
use rincos.X86.Mmu.Page.{root_of, unmap_4k, protect_4k}
use rincos.X86.Mmu.Page.View.{IsRemap, store-IsRemap, path_of-IsPath, index_bounds}
use rincos.X86.Mmu.Page.Unmap.{unmap_4k-edit, protect_4k-edit, edit_page}

module _ {A : Type 0} where
  -- Beside the memory, only the events change: the page's translation is dropped.
  abbrev pub IsEdited : World A → World A → ℕ → Type 0
  IsEdited w w' v =
      (w'.pt_alloc ≡ w.pt_alloc)
      × (w'.machine
          ≡ record w.machine { mem = w'.machine.mem; events = invlpg v ∷ w.machine.events })

  -- How an operation on a mapped page may end, with the entry that it leaves, by the one it finds.
  abbrev pub Edits : World A → ℕ → ℕ → ℕ → (ℕ → Option ℕ) → Run A MapError (Unit {0}) → Type 0
  Edits w root limit v change (ok _ w') =
      let h = w.machine.hhdm_offset in
      (v % 4096 ≡ 0)
      × IsEdited w w' v
      × IsTree w'.machine.mem h root limit
      × ((e : ℕ) × (page_at w.machine.mem h root v ≡ some e)
          × IsRemap w.machine.mem w'.machine.mem h root limit v (change e))
  Edits w root limit v change (err MapError.unaligned w') = (w' ≡ w) × (v % 4096 ≢ 0)
  Edits w root limit v change (err MapError.invalid_args w') = (w' ≡ w) × (is_canonical v ≡ false)
  Edits w root limit v change (err MapError.not_mapped w') =
      (w' ≡ w) × (page_at w.machine.mem w.machine.hhdm_offset root v ≡ none)
  Edits w root limit v change (err MapError.already_mapped w') = ⊥
  Edits w root limit v change (err MapError.out_of_memory w') = ⊥
  Edits w root limit v change fault = ⊥

  module _ (w : World A) (v root limit : ℕ) (word : v < 2 ^ 64) (low : pml4_index v < limit)
      (tree : IsTree w.machine.mem w.machine.hhdm_offset root limit) where
    edit_page-Edits :
        (change : ℕ → ℕ) (left : ℕ → Option ℕ)
        → ((e : ℕ) → (if has (change e) pte_p then some (change e) else none) ≡ left e)
        → Edits w root limit v left (edit_page w root v change)
    unfolding present_entry
    edit_page-Edits change left leaves = elim (Bool-cases (aligned_4k v)) [
      | inr odd ↦ rw odd (refl, aligned_4k-false v odd)
      | inl al ↦ elim (Bool-cases (is_canonical v)) [
        | inr odd ↦ rw (al, odd) (refl, odd)
        | inl ca ↦ elim (Option-cases (table_at mem h root (path_of v))) [
          | inl gone ↦ rw (al, ca, gone) (refl, entry_at-none mem h root (path_of v) idx gone)
          | inr (pt, at) ↦ elim (Bool-cases (has (entry mem h pt idx) pte_p)) [
            | inr gone ↦
                rw (al, ca, at, gone)
                  (refl, entry_at-some mem h root (path_of v) idx at ∙ rw gone refl)
            | inl there ↦
                rw (al, ca, at, there)
                  (
                    aligned_4k_iff v al,
                    (refl, refl),
                    IsTree-store_leaf tree (path_of v) idx refl path small at
                        (change (entry mem h pt idx)),
                    (
                      entry mem h pt idx,
                      entry_at-some mem h root (path_of v) idx at ∙ rw there refl,
                      rw (← leaves (entry mem h pt idx))
                          (store-IsRemap tree v (word, ca, low) at (change (entry mem h pt idx))),
                    ),
                  )
          ]
        ]
      ]
    ]
      where
        mem : Memory
        mem = w.machine.mem

        h : ℕ
        h = w.machine.hhdm_offset

        idx : ℕ
        idx = pt_index v

        path : IsPath limit (path_of v)
        path = path_of-IsPath limit v low

        small : idx < 512
        small = (index_bounds v).3

    module _ (aspace : AddressSpace) (known : root_of w.machine aspace ≡ some root) where
      -- `unmap_4k` removes the page's entry if there is one, changes no other page, keeps the
      -- tables a tree, and drops the page's translation. On an error it changes nothing, and each
      -- error says what was wrong.
      pub unmap_4k-Edits : Edits w root limit v (λ _. none) (unmap_4k aspace v w)
      unmap_4k-Edits =
          rw (unmap_4k-edit w aspace v root known)
            (edit_page-Edits (λ _. 0) (λ _. none) (λ _. rw zero-has refl))

      -- `protect_4k` gives the page's entry the new flags and keeps its frame, changes no other
      -- page, keeps the tables a tree, and drops the page's translation. On an error it changes
      -- nothing, and each error says what was wrong.
      pub protect_4k-Edits :
          (flags : MapFlags)
          → Edits w root limit v
              (λ e. some (bit_or (frame_of e) (flags_to_pte flags w.machine.nxe_enabled)))
              (protect_4k aspace v flags w)
      protect_4k-Edits flags = rw (protect_4k-edit w aspace v root known flags) (
          edit_page-Edits (λ e. bit_or (frame_of e) pte) (λ e. some (bit_or (frame_of e) pte))
            (λ e. rw (has-or e pte (flags_to_pte-IsFlags flags w.machine.nxe_enabled)) refl))
        where
          pte : ℕ
          pte = flags_to_pte flags w.machine.nxe_enabled
