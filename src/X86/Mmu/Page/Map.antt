-- ===== src/X86/Mmu/Page/Map.antt =====
-- `map_4k` of arch/x86_64/src/mmu.rs puts one page into the view.
use rincos.Prelude.{
  ℕ, ◌/◌, ◌%◌, ◌^◌, ◌<◌, ◌≡◌, ◌≢◌, refl, sym, ap, ◌∙◌, arith, true, false, none, some, List, [],
  ◌∷◌, ◌⊎◌, inl, inr, Bool-cases, bit_or, bit_and, ◌==◌, if◌then◌else◌, not, ◌||◌,
}
use rincos.Hal.Mmu.{MapError, AddressSpace, MapFlags, unaligned, invalid_args, PageTableFrameAlloc}
use rincos.X86.Machine.{Machine, invlpg}
use rincos.X86.Run.{World, Run, Cmd, ok, err, fault, and_then}
use rincos.X86.Mmu.Entry.{
  is_canonical, aligned_4k, has, pte_p, frame_of, pml4_index, pdpt_index, pd_index, pt_index,
  flags_to_pte, addr_mask,
}
use rincos.X86.Mmu.Entry.Laws.{aligned_4k_iff, aligned_4k-false, has-or, flags_to_pte-IsFlags}
use rincos.X86.Mmu.Table.{entry}
use rincos.X86.Mmu.Walk.{page_at, present_entry, table_at, path_of, IsPath, entry_at-some}
use rincos.X86.Mmu.Walk.Leaf.{IsTree-store_leaf, table_at-store_leaf}
use rincos.X86.Mmu.Frames.{IsFrameSource}
use rincos.X86.Mmu.Ensure.{IsSpace, SamePages, Kept, Ensured, ensure_table-Ensured}
use rincos.X86.Mmu.Page.{root_of, map_4k}
use rincos.X86.Mmu.Page.View.{IsRemap, store-IsRemap, path_of-IsPath, index_bounds}
use rincos.X86.Mmu.Page.MapSteps.{
  map_leaf, map_tables, map_4k-guards, map_leaf-mapped, map_leaf-free, mapped, leaf_entry,
}

module _ {A : Type 0} {pt : PageTableFrameAlloc A} {h : ℕ} (src : IsFrameSource pt h)
    (root limit v p : ℕ) (flags : MapFlags) where
  -- How `map_4k` may end. The address space stays sound on every path.
  abbrev pub Mapped : World A → Run A MapError (Unit {0}) → Type 0
  Mapped w (ok _ w') =
      (v % 4096 ≡ 0)
      × (p % 4096 ≡ 0)
      × (page_at w.machine.mem h root v ≡ none)
      × IsRemap w.machine.mem w'.machine.mem h root limit v
          (some (bit_or (frame_of p) (flags_to_pte flags w.machine.nxe_enabled)))
      × IsSpace src root limit w'
      × (w'.machine
          ≡ record w.machine { mem = w'.machine.mem; events = invlpg v ∷ w.machine.events })
  Mapped w (err MapError.unaligned w') = (w' ≡ w) × ((v % 4096 ≢ 0) ⊎ (p % 4096 ≢ 0))
  Mapped w (err MapError.invalid_args w') = (w' ≡ w) × (is_canonical v ≡ false)
  Mapped w (err MapError.already_mapped w') =
      (page_at w.machine.mem h root v ≢ none)
      × IsSpace src root limit w'
      × SamePages src root limit w w'
      × Kept src root limit w w'
  Mapped w (err MapError.out_of_memory w') =
      ((q : ℕ) → ¬ src.Avail w'.pt_alloc q)
      × IsSpace src root limit w'
      × SamePages src root limit w w'
      × Kept src root limit w w'
  Mapped w (err MapError.not_mapped w') = ⊥
  Mapped w fault = ⊥

  module _ (word : v < 2 ^ 64) (low : pml4_index v < limit) (al : aligned_4k v ≡ true)
      (alp : aligned_4k p ≡ true) (ca : is_canonical v ≡ true) (w : World A) where
    path : IsPath limit (path_of v)
    path = path_of-IsPath limit v low

    small : pt_index v < 512
    small = (index_bounds v).3

    -- The last table has been reached, and no page has changed on the way.
    module _ (w' : World A) (space : IsSpace src root limit w') {t : ℕ}
        (at : table_at w'.machine.mem h root (path_of v) ≡ some t)
        (same : SamePages src root limit w w') (kept : Kept src root limit w w') where
      same_nxe : w'.machine.nxe_enabled ≡ w.machine.nxe_enabled
      same_nxe = ap (λ (m : Machine). m.nxe_enabled) kept

      here : page_at w.machine.mem h root v ≡ present_entry w'.machine.mem h t (pt_index v)
      here =
          sym (same (path_of v) (pt_index v) path refl small)
          ∙ entry_at-some w'.machine.mem h root (path_of v) (pt_index v) at

      leaf-IsSpace : IsSpace src root limit (mapped pt v p flags w' h t)
      leaf-IsSpace = record {
        hhdm = space.hhdm;
        sound = space.sound;
        tree = IsTree-store_leaf space.tree (path_of v) (pt_index v) refl path small at _;
        fresh = λ js q found. space.fresh js q (
            sym (table_at-store_leaf space.tree (path_of v) (pt_index v) refl path small at _ js q)
            ∙ found);
      }

      new_entry : ℕ
      new_entry = bit_or (frame_of p) (flags_to_pte flags w.machine.nxe_enabled)

      entry_eq : leaf_entry pt v p flags w' ≡ new_entry
      unfolding new_entry frame_of
      entry_eq = ap (λ b. bit_or (bit_and p addr_mask) (flags_to_pte flags b)) same_nxe

      entry_present : has new_entry pte_p ≡ true
      unfolding new_entry
      entry_present =
          has-or p (flags_to_pte flags w.machine.nxe_enabled)
            (flags_to_pte-IsFlags flags w.machine.nxe_enabled)

      not-none :
          has (entry w'.machine.mem h t (pt_index v)) pte_p ≡ true
          → page_at w.machine.mem h root v ≢ none
      unfolding present_entry
      not-none there e = ground (arith, here)

      leaf-IsRemap :
          IsRemap w.machine.mem
            (mapped pt v p flags w' h t).machine.mem
            h
            root
            limit
            v
            (some (bit_or (frame_of p) (flags_to_pte flags w.machine.nxe_enabled)))
      unfolding new_entry
      leaf-IsRemap u address = elim (Bool-cases (u / 4096 == v / 4096)) [
        | inl this ↦ stored ∙ rw (this, entry_eq, entry_present) refl
        | inr other ↦
            stored
            ∙ rw other (
                same (path_of u) (pt_index u) (path_of-IsPath limit u address.2) refl
                  ((index_bounds u).3))
      ]
        where
          stored : page_at (mapped pt v p flags w' h t).machine.mem h root u ≡ (
              if u / 4096 == v / 4096
              then (if has (leaf_entry pt v p flags w') pte_p
                  then some (leaf_entry pt v p flags w')
                  else none)
              else page_at w'.machine.mem h root u)
          stored =
              store-IsRemap space.tree v (word, ca, low) at (leaf_entry pt v p flags w') u address

      leaf-Mapped : Mapped w (map_leaf pt v p flags t w')
      unfolding present_entry
      leaf-Mapped = elim (Bool-cases (has (entry w'.machine.mem h t (pt_index v)) pte_p)) [
        | inl there ↦
            rw (map_leaf-mapped pt v p flags w' h t space.hhdm there)
              ((λ none_here. not-none there none_here), space, same, kept)
        | inr gone ↦ rw (map_leaf-free pt v p flags w' h t space.hhdm gone) (
          aligned_4k_iff v al,
          aligned_4k_iff p alp,
          here ∙ rw gone refl,
          leaf-IsRemap,
          leaf-IsSpace,
          λ i. record (kept i) {
            mem = (mapped pt v p flags w' h t).machine.mem;
            events = invlpg v ∷ (kept i).events;
          },
        )
      ]

    -- One `ensure_table`, and what follows it.
    and_then-Mapped :
        (is : List ℕ) (w1 : World A) (r : Run A MapError ℕ) (k : ℕ → Cmd A MapError (Unit {0}))
        → SamePages src root limit w w1
        → Kept src root limit w w1
        → Ensured src root limit w1 is r
        → ((u : ℕ) (w2 : World A)
            → IsSpace src root limit w2
            → table_at w2.machine.mem h root is ≡ some u
            → SamePages src root limit w w2
            → Kept src root limit w w2
            → Mapped w (k u w2))
        → Mapped w (and_then r k)
    and_then-Mapped is w1 (ok u w2) k same kept (space, at, same2, kept2) next =
        next u w2 space at (λ js j q d lt. same2 js j q d lt ∙ same js j q d lt)
          (kept2 ∙ ap (λ (m : Machine). record m { mem = w2.machine.mem }) kept)
    and_then-Mapped is w1 (err e w2) k same kept (oom, empty, space, same2, kept2) next = rw oom (
      empty,
      space,
      (λ js j q d lt. same2 js j q d lt ∙ same js j q d lt),
      kept2 ∙ ap (λ (m : Machine). record m { mem = w2.machine.mem }) kept,
    )
    and_then-Mapped is w1 fault k same kept bad next = bad

    at_root : table_at w.machine.mem h root [] ≡ some root
    unfolding table_at
    at_root = refl

    map_tables-Mapped : IsSpace src root limit w → Mapped w (map_tables pt v p flags root w)
    unfolding map_tables
    map_tables-Mapped space =
        and_then-Mapped (i1 ∷ []) w _ _ (λ js j q d lt. refl) refl
          (ensure_table-Ensured src root limit space [] i1 (omega arith) (omega arith, tt) low
            at_root flags.user)
          λ pdpt w1 space1 at1 same1 kept1.
            and_then-Mapped (i2 ∷ i1 ∷ []) w1 _ _ same1 kept1
              (ensure_table-Ensured src root limit space1 (i1 ∷ []) i2 (omega arith)
                (omega arith, path.1.1.1) path.1.1.0 at1 flags.user)
              λ pd w2 space2 at2 same2 kept2.
                and_then-Mapped (path_of v) w2 _ _ same2 kept2
                  (ensure_table-Ensured src root limit space2 (i2 ∷ i1 ∷ []) (pd_index v)
                    (omega arith) (omega arith, path.1.1) path.1.0 at2 flags.user)
                  λ table w3 space3 at3 same3 kept3. leaf-Mapped w3 space3 at3 same3 kept3
      where
        i1 : ℕ
        i1 = pml4_index v

        i2 : ℕ
        i2 = pdpt_index v

  -- `map_4k` on a page that is not mapped, with aligned and canonical addresses, gives the page
  -- the entry of the frame and the flags, or finds that the provider has no frame left. It changes
  -- no other page, keeps the tables a tree apart from the provider's frames, and each error says
  -- what was wrong.
  pub map_4k-Mapped :
      (aspace : AddressSpace) (w : World A)
      → v < 2 ^ 64
      → pml4_index v < limit
      → root_of w.machine aspace ≡ some root
      → IsSpace src root limit w
      → Mapped w (map_4k pt aspace v p flags w)
  map_4k-Mapped aspace w word low known space =
      rw (map_4k-guards pt v p flags aspace w root known) guarded
    where
      guarded : Mapped w (
          if not (aligned_4k v) || not (aligned_4k p)
          then err unaligned w
          else (if is_canonical v then map_tables pt v p flags root w else err invalid_args w))
      guarded = elim (Bool-cases (aligned_4k v)) [
        | inr odd ↦ rw odd (refl, inl (aligned_4k-false v odd))
        | inl al ↦ elim (Bool-cases (aligned_4k p)) [
          | inr odd ↦ rw (al, odd) (refl, inr (aligned_4k-false p odd))
          | inl alp ↦ elim (Bool-cases (is_canonical v)) [
            | inr odd ↦ rw (al, alp, odd) (refl, odd)
            | inl ca ↦ rw (al, alp, ca) (map_tables-Mapped word low al alp ca w space)
          ]
        ]
      ]
