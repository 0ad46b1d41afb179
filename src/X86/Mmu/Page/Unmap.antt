-- ===== src/X86/Mmu/Page/Unmap.antt =====
-- `unmap_4k` and `protect_4k` of arch/x86_64/src/mmu.rs, with their walks put together.
use rincos.Prelude.{
  ℕ, ◌≡◌, refl, arith, true, false, none, some, ◌∷◌, ◌⊎◌, inl, inr, Bool-cases, bit_or,
  if◌then◌else◌,
}
use rincos.Hal.Mmu.{MapError, AddressSpace, MapFlags, unaligned, invalid_args}
use rincos.X86.Machine.{invlpg}
use rincos.X86.Run.{World, Run, ok, err}
use rincos.X86.Mmu.Entry.{is_canonical, aligned_4k, has, pte_p, frame_of, pt_index, flags_to_pte}
use rincos.X86.Mmu.Table.{entry, store}
use rincos.X86.Mmu.Walk.{next_table, table_at, path_of}
use rincos.X86.Mmu.Walk.Cases.{WalkCase, Walk-cases, no_pdpt, no_pd, no_pt, no_page, page}
use rincos.X86.Mmu.Page.{root_of, as_x86, unmap_4k, protect_4k}

module _ {A : Type 0} where
  -- The world after the page's entry has been written and its translation dropped.
  abbrev pub edited : World A → ℕ → ℕ → ℕ → World A
  edited w v pt e = record w {
    machine = record w.machine {
      mem = store w.machine.mem w.machine.hhdm_offset pt (pt_index v) e;
      events = invlpg v ∷ w.machine.events;
    };
  }

  -- The guards of an operation on a page, and the write that it makes if the page is mapped.
  abbrev pub edit_page : World A → ℕ → ℕ → (ℕ → ℕ) → Run A MapError (Unit {0})
  edit_page w root v change =
      let mem = w.machine.mem in
      let h = w.machine.hhdm_offset in
      if aligned_4k v
      then (if is_canonical v
          then elim (table_at mem h root (path_of v)) [
            | none ↦ err MapError.not_mapped w
            | some pt ↦
                if has (entry mem h pt (pt_index v)) pte_p
                then ok tt (edited w v pt (change (entry mem h pt (pt_index v))))
                else err MapError.not_mapped w
          ]
          else err invalid_args w)
      else err unaligned w

  module _ (w : World A) (aspace : AddressSpace) (v root : ℕ)
      (known : root_of w.machine aspace ≡ some root) where
    unmap_4k-refused :
        (aligned_4k v ≡ false) ⊎ (is_canonical v ≡ false)
        → unmap_4k aspace v w ≡ edit_page w root v (λ _. 0)
    unfolding unmap_4k
    unmap_4k-refused bad = ground arith

    unmap_4k-walked :
        aligned_4k v ≡ true
        → is_canonical v ≡ true
        → WalkCase w.machine.mem w.machine.hhdm_offset root v
        → unmap_4k aspace v w ≡ edit_page w root v (λ _. 0)
    unfolding unmap_4k next_table table_at
    unmap_4k-walked al ca (no_pdpt a) = rw (al, ca, known, as_x86, a) refl
    unmap_4k-walked al ca (no_pd a b) = rw (al, ca, known, as_x86, a, b) refl
    unmap_4k-walked al ca (no_pt a b c) = rw (al, ca, known, as_x86, a, b, c) refl
    unmap_4k-walked al ca (no_page a b c d) = rw (al, ca, known, as_x86, a, b, c, d) refl
    unmap_4k-walked al ca (page a b c d) = rw (al, ca, known, as_x86, a, b, c, d) refl

    protect_4k-refused :
        (flags : MapFlags)
        → (aligned_4k v ≡ false) ⊎ (is_canonical v ≡ false)
        → protect_4k aspace v flags w
          ≡ edit_page w root v (λ e. bit_or (frame_of e) (flags_to_pte flags w.machine.nxe_enabled))
    unfolding protect_4k
    protect_4k-refused flags bad = ground arith

    protect_4k-walked :
        (flags : MapFlags)
        → aligned_4k v ≡ true
        → is_canonical v ≡ true
        → WalkCase w.machine.mem w.machine.hhdm_offset root v
        → protect_4k aspace v flags w
          ≡ edit_page w root v (λ e. bit_or (frame_of e) (flags_to_pte flags w.machine.nxe_enabled))
    unfolding protect_4k next_table table_at
    protect_4k-walked flags al ca (no_pdpt a) = rw (al, ca, known, as_x86, a) refl
    protect_4k-walked flags al ca (no_pd a b) = rw (al, ca, known, as_x86, a, b) refl
    protect_4k-walked flags al ca (no_pt a b c) = rw (al, ca, known, as_x86, a, b, c) refl
    protect_4k-walked flags al ca (no_page a b c d) = rw (al, ca, known, as_x86, a, b, c, d) refl
    protect_4k-walked flags al ca (page a b c d) = rw (al, ca, known, as_x86, a, b, c, d) refl

    pub unmap_4k-edit : unmap_4k aspace v w ≡ edit_page w root v (λ _. 0)
    unmap_4k-edit = elim (Bool-cases (aligned_4k v)) [
      | inr odd ↦ unmap_4k-refused (inl odd)
      | inl al ↦ elim (Bool-cases (is_canonical v)) [
        | inr odd ↦ unmap_4k-refused (inr odd)
        | inl ca ↦ unmap_4k-walked al ca (Walk-cases _ _ root v)
      ]
    ]

    pub protect_4k-edit :
        (flags : MapFlags)
        → protect_4k aspace v flags w
          ≡ edit_page w root v (λ e. bit_or (frame_of e) (flags_to_pte flags w.machine.nxe_enabled))
    protect_4k-edit flags = elim (Bool-cases (aligned_4k v)) [
      | inr odd ↦ protect_4k-refused flags (inl odd)
      | inl al ↦ elim (Bool-cases (is_canonical v)) [
        | inr odd ↦ protect_4k-refused flags (inr odd)
        | inl ca ↦ protect_4k-walked flags al ca (Walk-cases _ _ root v)
      ]
    ]
