-- ===== src/Kernel/Vm/System.antt =====
-- The address spaces after the start of kernel/src/svc/vm.rs: the state that the operations of
-- arch/x86_64/src/mmu.rs begin with.
use rincos.Prelude.{
  ℕ, ◌%◌, ◌≡◌, ◌≢◌, ◌∙◌, refl, sym, ap, Bool, false, Option, none, some, List, get_elem?, ◌==◌,
  ==_iff, inl, inr, Bool-cases,
}
use rincos.Bootabi.{BootInfo}
use rincos.Hal.Mmu.{AddressSpace, kernel, slot, dangling, MapError}
use rincos.X86.Machine.{Machine, AddressSpaceSlot}
use rincos.X86.Run.{World, Run, ok, err, fault}
use rincos.X86.Mmu.Entry.{frame_of}
use rincos.X86.Mmu.Walk.{IsTree, table_at, IsPath}
use rincos.X86.Mmu.Ensure.{IsSpace}
use rincos.X86.Mmu.Features.{enable_nx, TablesKept, enable_nx-TablesKept}
use rincos.X86.Mmu.Spaces.{init_kernel, set_current}
use rincos.X86.Mmu.System.{IsLive, IsSystem}
use rincos.Vm.{BootPtAlloc, new}
use rincos.Vm.Alloc.{IsSound, Avail}
use rincos.Vm.Source.{boot_source}
use rincos.Kernel.Vm.{with_alloc, expect, expect_run, set_alloc, init}

-- No slot is in use.
abbrev pub AllFree : List AddressSpaceSlot → Type 0
AllFree slots = (k : ℕ) (s : AddressSpaceSlot) → get_elem? slots k ≡ some s → s.used ≡ false

-- The tables that the processor uses are a tree, and the allocator has none of them.
pub record IsBooted (top : ℕ) (a : BootPtAlloc) (m : Machine) : Type 0 where
  pub direct_map : m.hhdm_offset % 4096 ≡ 0
  pub sound : IsSound m.hhdm_offset a
  pub first : m.kas_handle ≡ none
  pub free : AllFree m.as_slots
  pub has_root : frame_of m.cr3 ≢ 0
  pub tree : IsTree m.mem m.hhdm_offset (frame_of m.cr3) top
  pub fresh :
      (js : List ℕ) {u : ℕ}
      → IsPath top js
      → table_at m.mem m.hhdm_offset (frame_of m.cr3) js ≡ some u
      → ¬ Avail a u

module _ (top : ℕ) (a : BootPtAlloc) (m m' : Machine) (booted : IsBooted top a m)
    (mem : m'.mem ≡ m.mem) (hhdm : m'.hhdm_offset ≡ m.hhdm_offset)
    (kas : m'.kas ≡ some (frame_of m.cr3)) (handle : m'.kas_handle ≡ some kernel)
    (slots : m'.as_slots ≡ m.as_slots) where
  abbrev started : World BootPtAlloc
  started = record { machine = m'; pt_alloc = a }

  only_kernel :
      (b : AddressSpace) (r : ℕ) → IsLive started b r → (b ≡ kernel) × (r ≡ frame_of m.cr3)
  only_kernel kernel r live = (refl, cc (live, kas))
  only_kernel (slot k) r (s, at, busy, _) =
      let free : s.used ≡ false = booted.free k s (ap (λ xs. get_elem? xs k) (sym slots) ∙ at) in
      absurd (cc (free, busy))
  only_kernel dangling r live = elim live [ ]

  kernel-IsSpace :
      IsSpace (boot_source m.hhdm_offset booted.direct_map) (frame_of m.cr3) top started
  kernel-IsSpace = record {
    hhdm = hhdm;
    sound = booted.sound;
    tree = rw mem booted.tree;
    fresh = rw mem booted.fresh;
  }

  booted-IsSystem : IsSystem (boot_source m.hhdm_offset booted.direct_map) top started
  booted-IsSystem = record {
    hhdm = hhdm;
    sound = booted.sound;
    direct_map = booted.direct_map;
    begun = (frame_of m.cr3, kas);
    handle = handle;
    named = λ k s at busy.
        let free : s.used ≡ false = booted.free k s (ap (λ xs. get_elem? xs k) (sym slots) ∙ at) in
        absurd (cc (free, busy));
    spaces = λ b r live.
        let (is_kernel, is_root) = only_kernel b r live in rw (is_kernel, is_root) kernel-IsSpace;
    apart = λ b c r s u live_b live_c _ _.
        (only_kernel b r live_b).0 ∙ sym ((only_kernel c s live_c).0);
  }

-- How the start goes: it returns with the allocator stored and the address spaces in order.
abbrev pub Up :
    (top : ℕ) (h : ℕ) → h % 4096 ≡ 0 → BootPtAlloc → Run (Option BootPtAlloc) ⊥ (Unit {0}) → Type 0
Up top h direct_map a (ok _ w') =
    (w'.pt_alloc ≡ some a) × IsSystem (boot_source h direct_map) top (with_alloc w' a)
Up top h direct_map a (err e w') = ⊥
Up top h direct_map a fault = ⊥

init_kernel-first :
    {A : Type 0} (w : World A)
    → w.machine.kas_handle ≡ none
    → (frame_of w.machine.cr3 == 0) ≡ false
    → init_kernel w
      ≡ ok kernel (record w {
        machine =
            set_current kernel
              (record w.machine { kas = some (frame_of w.machine.cr3); kas_handle = some kernel });
      })
unfolding init_kernel frame_of
init_kernel-first w first has_root = rw (first, has_root) refl

module _ (top : ℕ) (boot : BootInfo) (has_nx : Bool) (a : BootPtAlloc)
    (w : World (Option BootPtAlloc)) (booted : IsBooted top a w.machine) where
  -- The world after `init_kernel`.
  abbrev known : World (Option BootPtAlloc)
  known = record {
    machine =
        set_current kernel
          (record w.machine { kas = some (frame_of w.machine.cr3); kas_handle = some kernel });
    pt_alloc = some a;
  }

  enabled-Up :
      (r : Run (Option BootPtAlloc) MapError (Unit {0}))
      → TablesKept has_nx known r
      → Up top w.machine.hhdm_offset booted.direct_map a (expect_run r)
  unfolding set_current
  enabled-Up (ok _ w2) ((mem, _, kas, hhdm, handle, slots), alloc) =
      (alloc, booted-IsSystem top a w.machine w2.machine booted mem hhdm kas handle slots)
  enabled-Up (err e w2) bad = absurd bad
  enabled-Up fault bad = absurd bad

  root_here : (frame_of w.machine.cr3 == 0) ≡ false
  root_here = elim (Bool-cases (frame_of w.machine.cr3 == 0)) [
    | inl nothing ↦ absurd (booted.has_root ((==_iff _ _).0 nothing))
    | inr there ↦ there
  ]

  -- On a machine whose tables are a tree that the allocator of the boot memory map has no frame of,
  -- with no address space made yet, the start of the service returns. It stores the allocator and
  -- leaves the address spaces in order, with the tables in use as the kernel's.
  pub init-Up :
      new boot ≡ some a → Up top w.machine.hhdm_offset booted.direct_map a (init boot has_nx w)
  unfolding init expect set_alloc
  init-Up e =
      rw (e, init_kernel-first (record w { pt_alloc = some a }) booted.first root_here)
        (enabled-Up (enable_nx has_nx known) (enable_nx-TablesKept has_nx known))
