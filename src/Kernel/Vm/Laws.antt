-- ===== src/Kernel/Vm/Laws.antt =====
-- The start of kernel/src/svc/vm.rs, and its calls before and after it.
use rincos.Prelude.{
  ℕ, ◌%◌, ◌^◌, ◌<◌, ◌≡◌, ◌⊎◌, ◌∙◌, refl, sym, Bool, Option, none, some, inl, inr, Option-cases,
  Bool-cases,
}
use rincos.Bootabi.{BootInfo}
use rincos.Hal.Mmu.{MapFlags, MapError, AddressSpace}
use rincos.X86.Run.{World, Run, ok, err, fault, and_then}
use rincos.X86.Mmu.Entry.{frame_of, pml4_index}
use rincos.X86.Mmu.Ensure.{IsSpace}
use rincos.X86.Mmu.Page.{root_of}
use rincos.X86.Mmu.Page
use rincos.X86.Mmu.Page.Map.{Mapped, map_4k-Mapped}
use rincos.X86.Mmu.Spaces.{init_kernel}
use rincos.X86.Mmu.Spaces.Current.{Begun, init_kernel-Begun}
use rincos.X86.Mmu.Requests.Keep.{After}
use rincos.X86.Mmu.Features.{IsNxSound, Enabled, enable_nx, enable_nx-Enabled}
use rincos.Vm.{BootPtAlloc, boot_pt_alloc, new}
use rincos.Vm.Source.{boot_source}
use rincos.Kernel.Vm.{
  with_alloc, stored_run, with_guard, expect, expect_run, set_alloc, init, map_4k,
}

-- How the start of the service may go.
abbrev pub Started :
    BootInfo → World (Option BootPtAlloc) → Run (Option BootPtAlloc) ⊥ (Unit {0}) → Type 0
Started boot w (ok _ w') =
    ((a : BootPtAlloc) × (new boot ≡ some a))
    × (w'.pt_alloc ≡ new boot)
    × IsNxSound w'.machine
    × (w'.machine.mem ≡ w.machine.mem)
    × (w'.machine.cr3 ≡ w.machine.cr3)
    × (w.machine.kas_handle ≡ none → w'.machine.kas ≡ some (frame_of w.machine.cr3))
Started boot w (err e w') = ⊥
Started boot w fault =
    (new boot ≡ none) ⊎ ((w.machine.kas_handle ≡ none) × (frame_of w.machine.cr3 ≡ 0))

enable_nx-alloc :
    {A : Type 0} (has_nx : Bool) (w : World A)
    → After (λ w'. w'.pt_alloc ≡ w.pt_alloc) (enable_nx has_nx w)
unfolding enable_nx
enable_nx-alloc has_nx w = elim (Bool-cases w.machine.nxe_enabled) [
  | inl on ↦ rw on refl
  | inr off ↦ elim (Bool-cases has_nx) [
    | inl there ↦ rw (off, there) refl
    | inr gone ↦ rw (off, gone) refl
  ]
]

module _ (boot : BootInfo) (has_nx : Bool) (w : World (Option BootPtAlloc))
    (sound : IsNxSound w.machine) where
  abbrev begun : BootPtAlloc → World (Option BootPtAlloc)
  begun a = record w { pt_alloc = some a }

  enabled :
      (a : BootPtAlloc) (w1 : World (Option BootPtAlloc))
      (r : Run (Option BootPtAlloc) MapError (Unit {0}))
      → new boot ≡ some a
      → Begun (begun a) (ok AddressSpace.kernel w1)
      → Enabled has_nx w1 r
      → After (λ w'. w'.pt_alloc ≡ w1.pt_alloc) r
      → Started boot w (expect_run r)
  enabled a w1 (ok _ w2) e (alloc, mem, cr3, _, _, first) (nx, mem2, cr32, kas2, _) alloc2 =
      ((a, e), alloc2 ∙ alloc ∙ sym e, nx, mem2 ∙ mem, cr32 ∙ cr3, λ fresh. kas2 ∙ first fresh)
  enabled a w1 (err e' w2) e _ bad _ = absurd bad
  enabled a w1 fault e _ bad _ = absurd bad

  kernel_known :
      (a : BootPtAlloc) (r : Run (Option BootPtAlloc) MapError AddressSpace)
      → new boot ≡ some a
      → Begun (begun a) r
      → Started boot w (and_then (expect_run r) (λ _ w1. expect_run (enable_nx has_nx w1)))
  kernel_known a (ok h w1) e known =
      enabled a w1 (enable_nx has_nx w1) e known
        (enable_nx-Enabled has_nx w1 (λ on. rw known.3 (sound (sym known.4 ∙ on))))
        (enable_nx-alloc has_nx w1)
  kernel_known a (err e' w1) e (none_here, no_root) = inr (none_here, no_root)
  kernel_known a fault e bad = absurd bad

  -- `init` stores the allocator of the boot memory map, takes the tables in use as the kernel's own
  -- if no one has, and leaves memory and the root alone. It panics only without a usable memory map
  -- or without tables in use.
  pub init-Started : Started boot w (init boot has_nx w)
  unfolding init expect set_alloc
  init-Started = elim (Option-cases (new boot)) [
    | inl gone ↦ rw gone (inl gone)
    | inr (a, e) ↦ rw e (kernel_known a (init_kernel (begun a)) e (init_kernel-Begun (begun a)))
  ]

module _ (h : ℕ) (direct_map : h % 4096 ≡ 0) (root limit v p : ℕ) (flags : MapFlags) where
  -- A call of the service that needs the allocator: a panic before `init`, and `map_4k` of the
  -- platform with the allocator after it.
  abbrev pub Serviced :
      World (Option BootPtAlloc) → Run (Option BootPtAlloc) MapError (Unit {0}) → Type 0
  Serviced w r =
      ((w.pt_alloc ≡ none) × (r ≡ fault))
      ⊎ ((a : BootPtAlloc) × (w.pt_alloc ≡ some a)
          × ((r' : Run BootPtAlloc MapError (Unit {0})) × (r ≡ stored_run r')
              × Mapped (boot_source h direct_map) root limit v p flags (with_alloc w a) r'))

  -- `map_4k` of the service maps the page, with the frames of the allocator that `init` has made,
  -- and fails for the reasons of the platform's `map_4k`; it panics exactly when there is no allocator.
  pub map_4k-Serviced :
      (aspace : AddressSpace) (w : World (Option BootPtAlloc))
      → v < 2 ^ 64
      → pml4_index v < limit
      → root_of w.machine aspace ≡ some root
      → ((a : BootPtAlloc)
          → w.pt_alloc ≡ some a
          → IsSpace (boot_source h direct_map) root limit (with_alloc w a))
      → Serviced w (map_4k aspace v p flags w)
  unfolding map_4k with_guard
  map_4k-Serviced aspace w word low known space = elim (Option-cases w.pt_alloc) [
    | inl gone ↦ inl (gone, rw gone refl)
    | inr (a, there) ↦ inr (
      a,
      there,
      (
        Page.map_4k boot_pt_alloc aspace v p flags (with_alloc w a),
        rw there refl,
        map_4k-Mapped (boot_source h direct_map) root limit v p flags aspace (with_alloc w a) word
            low known (space a there),
      ),
    )
  ]
