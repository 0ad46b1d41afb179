-- ===== src/X86/Mmu/Spaces/New.antt =====
-- `address_space_new` of arch/x86_64/src/mmu.rs: a root with the kernel's upper half and nothing below.
use mathlib.Core.Path.{subst}
use rincos.Prelude.{
  ℕ, ◌%◌, ◌≤◌, ◌<◌, ◌≡◌, ◌≢◌, ◌⊎◌, ◌∙◌, arith, refl, sym, ap, true, false, Option, none, some, List,
  [], ◌∷◌, inl, inr, get_elem?, set,
}
use rincos.Hal.Mmu.{
  PhysAddr, Memory, MapError, out_of_memory, AddressSpace, slot, PageTableFrameAlloc,
}
use rincos.X86.Machine.{AddressSpaceSlot}
use rincos.X86.Run.{World, Run, ok, err, fault}
use rincos.X86.Mmu.Entry.Laws.{IsFrame}
use rincos.X86.Mmu.Table.{with_mem, entry, zero_frame, zero_table, alloc_frame}
use rincos.X86.Mmu.Walk.{table_at, IsPath}
use rincos.X86.Mmu.Walk.Outside.{SameOutside, zero_frame-SameOutside, entry-zero_frame}
use rincos.X86.Mmu.Frames.{IsFrameSource, Allocated}
use rincos.X86.Mmu.Ensure.{IsSpace}
use rincos.X86.Mmu.Page.{root_of}
use rincos.X86.Mmu.Slots.{alloc_slot, take_slot}
use rincos.X86.Mmu.Slots.Laws.{IsNamed, taken_slot, AllocatedSlot, alloc_slot-AllocatedSlot}
use rincos.X86.Mmu.Spaces.{init_kernel, kernel_root, copy_kernel_half, address_space_new}
use rincos.X86.Mmu.Spaces.Copy.{
  copied, copied-SameOutside, entry-copied_low, entry-copied_high, no_table,
}

module _ {A : Type 0} where
  -- `alloc_slot` changes the slots alone.
  abbrev SlotsOnly : World A → Run A MapError AddressSpace → Type 0
  SlotsOnly w (ok _ w') =
      w' ≡ record w { machine = record w.machine { as_slots = w'.machine.as_slots } }
  SlotsOnly w (err e w') = w' ≡ w
  SlotsOnly w fault = ⊥

  alloc_slot-SlotsOnly : (p : PhysAddr) (w : World A) → SlotsOnly w (alloc_slot p w)
  unfolding alloc_slot
  alloc_slot-SlotsOnly p w = by_result (take_slot p 0 w.machine.as_slots) refl
    where
      by_result :
          (r : Option (ℕ × List AddressSpaceSlot))
          → take_slot p 0 w.machine.as_slots ≡ r
          → SlotsOnly w (alloc_slot p w)
      by_result none e = rw (e, SlotsOnly) refl
      by_result (some (n, slots)) e = rw (e, SlotsOnly) refl

module _ {A : Type 0} {pt : PageTableFrameAlloc A} {h : ℕ} (src : IsFrameSource pt h)
    (root : ℕ) where
  -- Beside the slots, only frames that the provider had have changed.
  abbrev pub Grown : World A → World A → Type 0
  Grown w w' =
      (w'.machine ≡ record w.machine { mem = w'.machine.mem; as_slots = w'.machine.as_slots })
      × src.IsSound w'.pt_alloc
      × ((q : ℕ) → src.Avail w'.pt_alloc q → src.Avail w.pt_alloc q)
      × ((u j : ℕ)
          → IsFrame u
          → j < 512
          → ¬ src.Avail w.pt_alloc u
          → entry w'.machine.mem h u j ≡ entry w.machine.mem h u j)

  -- How the making of an address space may end.
  abbrev pub Created : World A → Run A MapError AddressSpace → Type 0
  Created w (ok aspace w') =
      (f : ℕ) × IsFrame f
      × src.Avail w.pt_alloc f
      × (root_of w'.machine aspace ≡ some f)
      × IsSpace src f 256 w'
      × ((j : ℕ) → j < 256 → entry w'.machine.mem h f j ≡ 0)
      × ((j : ℕ) → 256 ≤ j → j < 512 → entry w'.machine.mem h f j ≡ entry w.machine.mem h root j)
      × SameOutside h f w.machine.mem w'.machine.mem
      × ((k : ℕ) × (aspace ≡ slot k)
          × ((s : AddressSpaceSlot) × (get_elem? w.machine.as_slots k ≡ some s) × (s.used ≡ false))
          × (w'.machine.as_slots ≡ set w.machine.as_slots k (taken_slot f k))
          × ((j : ℕ) → k ≢ j → root_of w'.machine (slot j) ≡ root_of w.machine (slot j)))
      × IsNamed 0 w'.machine.as_slots
      × Grown w w'
  Created w (err e w') =
      (e ≡ out_of_memory)
      × (((q : ℕ) → ¬ src.Avail w'.pt_alloc q)
          ⊎ ((k : ℕ) (s : AddressSpaceSlot)
              → get_elem? w.machine.as_slots k ≡ some s
              → s.used ≡ true))
      × (w'.machine.as_slots ≡ w.machine.as_slots)
      × Grown w w'
  Created w fault = ⊥

  module _ (w : World A) (handle : AddressSpace) (has_root : w.machine.kas ≡ some root)
      (has_handle : w.machine.kas_handle ≡ some handle) (hhdm : w.machine.hhdm_offset ≡ h)
      (direct_map : h % 4096 ≡ 0) (sound : src.IsSound w.pt_alloc) (root_frame : IsFrame root)
      (kept_root : ¬ src.Avail w.pt_alloc root) (named : IsNamed 0 w.machine.as_slots) where
    -- The memory with the new root in frame `f`, and the world.
    new_mem : ℕ → Memory → Memory
    new_mem f mem = copied (zero_frame mem h f) h root f

    prepared : ℕ → A → Memory → World A
    prepared f a mem = record (with_mem w (new_mem f mem)) { pt_alloc = a }

    init_kernel-again : init_kernel w ≡ ok handle w
    unfolding init_kernel
    init_kernel-again = rw has_handle refl

    kernel_root-known : kernel_root w ≡ ok root w
    unfolding kernel_root
    kernel_root-known = rw has_root refl

    alloc_frame-none :
        (a : A) (mem : Memory)
        → pt.alloc_frame_4k w.pt_alloc w.machine.mem ≡ (none, a, mem)
        → alloc_frame pt w ≡ err out_of_memory (record (with_mem w mem) { pt_alloc = a })
    unfolding alloc_frame
    alloc_frame-none a mem e = ground arith

    alloc_frame-some :
        (f : ℕ) (a : A) (mem : Memory)
        → pt.alloc_frame_4k w.pt_alloc w.machine.mem ≡ (some f, a, mem)
        → alloc_frame pt w ≡ ok f (record (with_mem w mem) { pt_alloc = a })
    unfolding alloc_frame
    alloc_frame-some f a mem e = ground arith

    address_space_new-none :
        (a : A) (mem : Memory)
        → pt.alloc_frame_4k w.pt_alloc w.machine.mem ≡ (none, a, mem)
        → address_space_new pt w ≡ err out_of_memory (record (with_mem w mem) { pt_alloc = a })
    unfolding address_space_new
    address_space_new-none a mem e =
        rw (init_kernel-again, kernel_root-known, alloc_frame-none a mem e) refl

    address_space_new-some :
        (f : ℕ) (a : A) (mem : Memory)
        → pt.alloc_frame_4k w.pt_alloc w.machine.mem ≡ (some f, a, mem)
        → address_space_new pt w ≡ alloc_slot f (prepared f a mem)
    unfolding address_space_new zero_table copy_kernel_half prepared new_mem
    address_space_new-some f a mem e =
        rw (init_kernel-again, kernel_root-known, alloc_frame-some f a mem e)
          (ap
            (λ o.
              alloc_slot f
                (record (with_mem w (copied (zero_frame mem o f) o root f)) { pt_alloc = a }))
            hhdm)

    module _ (f : ℕ) (a : A) (mem : Memory) (sound' : src.IsSound a) (frame : IsFrame f)
        (own : src.Avail w.pt_alloc f) (fewer : (q : ℕ) → src.Avail a q → src.Avail w.pt_alloc q)
        (gone : ¬ src.Avail a f) (same : SameOutside h f w.machine.mem mem) where
      lower : (j : ℕ) → j < 256 → entry (new_mem f mem) h f j ≡ 0
      unfolding new_mem
      lower j lt =
          entry-copied_low (zero_frame mem h f) h root f direct_map frame root_frame j lt
          ∙ entry-zero_frame h f mem j (omega (arith, lt))

      zeroed_same : SameOutside h f w.machine.mem (zero_frame mem h f)
      zeroed_same u j fu lt ne =
          zero_frame-SameOutside h f mem direct_map frame u j fu lt ne ∙ same u j fu lt ne

      outside : SameOutside h f w.machine.mem (new_mem f mem)
      unfolding new_mem
      outside u j fu lt ne =
          copied-SameOutside (zero_frame mem h f) h root f direct_map frame root_frame u j fu lt ne
          ∙ zeroed_same u j fu lt ne

      upper :
          (j : ℕ) → 256 ≤ j → j < 512 → entry (new_mem f mem) h f j ≡ entry w.machine.mem h root j
      unfolding new_mem
      upper j le lt =
          entry-copied_high (zero_frame mem h f) h root f direct_map frame root_frame j le lt
          ∙ zeroed_same root j root_frame lt
              (λ e. kept_root (subst (src.Avail w.pt_alloc) (sym e) own))

      no_other :
          (i : ℕ) (is : List ℕ) {u : ℕ}
          → IsPath 256 (i ∷ is)
          → ¬ (table_at (new_mem f mem) h f (i ∷ is) ≡ some u)
      no_other i is (_, path) found = cc (no_table (new_mem f mem) h f i is lower path, found)

      one_path :
          (is js : List ℕ) {t : ℕ}
          → IsPath 256 is
          → IsPath 256 js
          → table_at (new_mem f mem) h f is ≡ some t
          → table_at (new_mem f mem) h f js ≡ some t
          → is ≡ js
      one_path [] [] _ _ _ _ = refl
      one_path (i ∷ is) js p _ found _ = absurd (no_other i is p found)
      one_path [] (j ∷ js) _ q _ found = absurd (no_other j js q found)

      fresh_root :
          (js : List ℕ) {u : ℕ}
          → IsPath 256 js
          → table_at (new_mem f mem) h f js ≡ some u
          → ¬ src.Avail a u
      unfolding table_at
      fresh_root [] {u} _ found avail =
          gone (let e : f ≡ u = cc found in subst (src.Avail a) (sym e) avail)
      fresh_root (j ∷ js) path found avail = no_other j js path found

      new-IsSpace :
          (w' : World A)
          → w'.machine.hhdm_offset ≡ h
          → w'.machine.mem ≡ new_mem f mem
          → w'.pt_alloc ≡ a
          → IsSpace src f 256 w'
      new-IsSpace w' same_h same_mem same_a = record {
        hhdm = same_h;
        sound = rw same_a sound';
        tree = rw same_mem record {
          root_frame = frame;
          direct_map = direct_map;
          limit_le = omega arith;
          distinct = one_path;
        };
        fresh = rw (same_mem, same_a) fresh_root;
      }

      grown :
          (w' : World A) (slots : List AddressSpaceSlot)
          → w' ≡ record (prepared f a mem) {
            machine = record (prepared f a mem).machine { as_slots = slots };
          }
          → Grown w w'
      unfolding prepared
      grown w' slots same_w = subst (Grown w) (sym same_w) (
        refl,
        sound',
        fewer,
        λ u j fu lt kept. outside u j fu lt (λ e. kept (subst (src.Avail w.pt_alloc) (sym e) own)),
      )

      created :
          (r : Run A MapError AddressSpace)
          → AllocatedSlot (prepared f a mem) f r
          → SlotsOnly (prepared f a mem) r
          → Created w r
      unfolding prepared root_of
      created (ok aspace w') (known, named', fresh_slot) same_w =
          let mem_eq : w'.machine.mem ≡ new_mem f mem =
            ap (λ (x : World A). x.machine.mem) same_w in
          (
            f,
            frame,
            own,
            known,
            new-IsSpace w' (ap (λ (x : World A). x.machine.hhdm_offset) same_w ∙ hhdm) mem_eq
                (ap (λ (x : World A). x.pt_alloc) same_w),
            rw mem_eq lower,
            rw mem_eq upper,
            rw mem_eq outside,
            fresh_slot,
            named',
            grown w' w'.machine.as_slots same_w,
          )
      created (err e w') (oom, _, full) same_w = (
        oom,
        inr full,
        ap (λ (x : World A). x.machine.as_slots) same_w,
        grown w' w.machine.as_slots same_w,
      )
      created fault bad _ = bad

    by_allocation :
        (r : Option PhysAddr × A × Memory)
        → pt.alloc_frame_4k w.pt_alloc w.machine.mem ≡ r
        → Allocated h src.Avail src.IsSound w.pt_alloc w.machine.mem r
        → Created w (address_space_new pt w)
    by_allocation (none, a, mem) e (sound', empty, same) =
        rw (address_space_new-none a mem e, Created)
          (
            refl,
            inl empty,
            refl,
            (refl, sound', (λ q avail. absurd (empty q avail)), λ u j fu lt kept. rw same refl),
          )
    by_allocation (some f, a, mem) e (sound', fewer, frame, own, gone, same) =
        rw (address_space_new-some f a mem e) (
          created f a mem sound' frame own fewer gone same _
            (unfold prepared in alloc_slot-AllocatedSlot (prepared f a mem) f named)
            (alloc_slot-SlotsOnly f (prepared f a mem)))

    -- Once the kernel's own space is known, `address_space_new` makes an address space of a frame that the
    -- provider had: its lower half is empty, its upper half is the kernel's, and it takes a slot that was
    -- free. It fails only when the provider has no frame or every slot is in use.
    pub address_space_new-Created : Created w (address_space_new pt w)
    address_space_new-Created = by_allocation _ refl (src.alloc_lem w.pt_alloc w.machine.mem sound)
