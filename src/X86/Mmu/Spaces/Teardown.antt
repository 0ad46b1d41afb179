-- ===== src/X86/Mmu/Spaces/Teardown.antt =====
-- `address_space_destroy` of arch/x86_64/src/mmu.rs as a whole: what it gives back and what it leaves.
use rincos.Prelude.{
  ℕ, ◌<◌, ◌≡◌, ◌≢◌, ◌⊎◌, ◌∙◌, arith, refl, sym, ap, inl, inr, true, false, Option, none, some, List,
  [], ◌∷◌, ==_iff, get_elem?, set, Bool-cases,
}
use rincos.Hal.Mmu.{Memory, PageTableFrameAlloc, AddressSpace, kernel, slot, dangling}
use rincos.X86.Machine.{AddressSpaceSlot}
use rincos.X86.Run.{World, Run, ok, err, fault}
use rincos.X86.Mmu.Walk.{table_at, IsPath, IsTree}
use rincos.X86.Mmu.Frames.{IsFrameSource}
use rincos.X86.Mmu.Ensure.{IsSpace}
use rincos.X86.Mmu.Page.{root_of, as_x86}
use rincos.X86.Mmu.Slots.{same_handle, free_slot, drop_slot}
use rincos.X86.Mmu.Slots.Laws.{IsNamed, freed_slot, drop_slot-set}
use rincos.X86.Mmu.Spaces.{
  free_pt, free_pd, free_pdpt, free_root, free_tables, is_kernel, address_space_destroy,
}
use rincos.X86.Mmu.Spaces.Under.{Under}
use rincos.X86.Mmu.Spaces.Destroy.{Freed, Frees, leaf-Frees, node-Frees}

same_handle_refl : (a : AddressSpace) → same_handle a a ≡ true
unfolding same_handle
same_handle_refl kernel = refl
same_handle_refl dangling = refl
same_handle_refl (slot i) = ground arith

eq_of_same_handle : (a b : AddressSpace) → same_handle a b ≡ true → a ≡ b
unfolding same_handle
eq_of_same_handle kernel kernel e = refl
eq_of_same_handle kernel dangling e = ground (arith, e)
eq_of_same_handle kernel (slot j) e = ground (arith, e)
eq_of_same_handle dangling kernel e = ground (arith, e)
eq_of_same_handle dangling dangling e = refl
eq_of_same_handle dangling (slot j) e = ground (arith, e)
eq_of_same_handle (slot i) kernel e = ground (arith, e)
eq_of_same_handle (slot i) dangling e = ground (arith, e)
eq_of_same_handle (slot i) (slot j) e = ap slot ((==_iff i j).0 e)

own_of_is_kernel : (k : Option AddressSpace) (a : AddressSpace) → is_kernel k a ≡ true → k ≡ some a
unfolding is_kernel
own_of_is_kernel none a e = ground (arith, e)
own_of_is_kernel (some b) a e = ap some (eq_of_same_handle b a e)

other_of_is_kernel :
    (k : Option AddressSpace) (a : AddressSpace) → is_kernel k a ≡ false → k ≢ some a
unfolding is_kernel
other_of_is_kernel none a e own = cc own
other_of_is_kernel (some b) a e own =
    let same : b ≡ a = cc own in cc (sym (rw same at e) ∙ same_handle_refl a)

module _ {A : Type 0} {pt : PageTableFrameAlloc A} {h : ℕ} (src : IsFrameSource pt h) (a0 : A)
    (mem : Memory) (root : ℕ) (tree : IsTree mem h root 256)
    (fresh : (js : List ℕ) (u : ℕ)
      → IsPath 256 js
      → table_at mem h root js ≡ some u
      → ¬ src.Avail a0 u) where
  pt-Frees :
      (k j i f : ℕ)
      → k < 512
      → j < 512
      → i < 256
      → table_at mem h root (k ∷ j ∷ i ∷ []) ≡ some f
      → Frees src a0 mem root 256 tree fresh (k ∷ j ∷ i ∷ []) (free_pt mem h pt f)
  unfolding free_pt
  pt-Frees k j i f hk hj hi at =
      leaf-Frees src a0 mem root 256 tree fresh (k ∷ j ∷ i ∷ []) f
        (omega arith, (hk, (hj, (hi, tt)))) at

  pd-Frees :
      (j i f : ℕ)
      → j < 512
      → i < 256
      → table_at mem h root (j ∷ i ∷ []) ≡ some f
      → Frees src a0 mem root 256 tree fresh (j ∷ i ∷ []) (free_pd mem h pt f)
  unfolding free_pd
  pd-Frees j i f hj hi at =
      node-Frees src a0 mem root 256 tree fresh (j ∷ i ∷ []) f at (free_pt mem h pt) 512
        (omega arith, (hj, (hi, tt))) λ k u hk found. pt-Frees k j i u hk hj hi found

  pdpt-Frees :
      (i f : ℕ)
      → i < 256
      → table_at mem h root (i ∷ []) ≡ some f
      → Frees src a0 mem root 256 tree fresh (i ∷ []) (free_pdpt mem h pt f)
  unfolding free_pdpt
  pdpt-Frees i f hi at =
      node-Frees src a0 mem root 256 tree fresh (i ∷ []) f at (free_pd mem h pt) 512
        (omega arith, (hi, tt)) λ j u hj found. pd-Frees j i u hj hi found

  root-Frees : Frees src a0 mem root 256 tree fresh [] (free_root mem h pt root)
  unfolding free_root table_at
  root-Frees =
      node-Frees src a0 mem root 256 tree fresh [] root refl (free_pdpt mem h pt) 256
        (omega arith, tt) λ i u hi found. pdpt-Frees i u hi found

module _ {A : Type 0} {pt : PageTableFrameAlloc A} {h : ℕ} (src : IsFrameSource pt h) where
  -- Of an address space that is not the kernel's, the slot is free again, all else of the machine as
  -- it was, and the provider has got no frame but those of the space's tables.
  abbrev pub TornDown : ℕ → AddressSpace → World A → World A → Type 0
  TornDown root aspace w w' =
      src.IsSound w'.pt_alloc
      × ((q : ℕ)
          → src.Avail w'.pt_alloc q
          → src.Avail w.pt_alloc q
            ⊎ ((js : List ℕ) × IsPath 256 js × (table_at w.machine.mem h root js ≡ some q)))
      × (w'.machine ≡ record w.machine { as_slots = w'.machine.as_slots })
      × ((k : ℕ) (s : AddressSpaceSlot)
          → aspace ≡ slot k
          → get_elem? w.machine.as_slots k ≡ some s
          → s.used ≡ true
          → w'.machine.as_slots ≡ set w.machine.as_slots k (freed_slot s))

  -- How the end of an address space may go.
  abbrev pub Destroyed : ℕ → AddressSpace → World A → Run A ⊥ (Unit {0}) → Type 0
  Destroyed root aspace w (ok _ w') =
      (w.machine.kas_handle ≡ some aspace → w' ≡ w)
      × (w.machine.kas_handle ≢ some aspace → TornDown root aspace w w')
  Destroyed root aspace w (err e w') = ⊥
  Destroyed root aspace w fault = ⊥

  module _ (root : ℕ) (aspace : AddressSpace) (w : World A)
      (known : root_of w.machine aspace ≡ some root) (space : IsSpace src root 256 w)
      (named : IsNamed 0 w.machine.as_slots) where
    all-Freed :
        Freed src w.pt_alloc w.machine.mem root 256
          (λ js. ⊥ ⊎ Under [] js)
          (free_root w.machine.mem h pt root w.pt_alloc)
    all-Freed =
        root-Frees src w.pt_alloc w.machine.mem root space.tree (λ js u. space.fresh js) (λ js. ⊥)
          w.pt_alloc (record { sound = space.sound; from = λ q avail. inl avail })
          (λ js _ none_done. none_done)

    only_tables :
        (q : ℕ)
        → src.Avail (free_root w.machine.mem h pt root w.pt_alloc) q
        → src.Avail w.pt_alloc q
          ⊎ ((js : List ℕ) × IsPath 256 js × (table_at w.machine.mem h root js ≡ some q))
    only_tables q avail = elim (all-Freed.from q avail) [
      | inl old ↦ inl old
      | inr (js, _, path, at) ↦ inr (js, path, at)
    ]

    dropped :
        (k : ℕ) (s : AddressSpaceSlot)
        → aspace ≡ slot k
        → get_elem? w.machine.as_slots k ≡ some s
        → s.used ≡ true
        → drop_slot aspace w.machine.as_slots ≡ set w.machine.as_slots k (freed_slot s)
    dropped k s this found busy =
        ap (λ a. drop_slot a w.machine.as_slots) (this ∙ ap slot (omega arith))
        ∙ drop_slot-set 0 k w.machine.as_slots s named found busy

    -- `address_space_destroy` changes nothing if the address space is the kernel's own. Of another
    -- space, whose lower half is a tree of tables, it gives the provider frames of its tables only,
    -- none of them twice. If the space is that of a slot in use, which has the handle of its place, it
    -- clears this slot; all other slots, memory and the rest of the machine stay as they are.
    pub address_space_destroy-Destroyed :
        Destroyed root aspace w (address_space_destroy pt aspace w)
    unfolding address_space_destroy as_x86 free_tables free_slot
    address_space_destroy-Destroyed = elim (Bool-cases (is_kernel w.machine.kas_handle aspace)) [
      | inl own ↦
          rw (own, Destroyed)
            ((λ _. refl), λ not_own. absurd (not_own (own_of_is_kernel _ aspace own)))
      | inr other ↦
          rw (other, known, space.hhdm, Destroyed)
            (
              (λ own. absurd (other_of_is_kernel _ aspace other own)),
              λ _. (all-Freed.sound, only_tables, refl, dropped),
            )
    ]
