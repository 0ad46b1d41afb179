-- ===== src/Tests/Lifetimes.antt =====
-- Address spaces of arch/x86_64/src/mmu.rs made, entered and destroyed.
use rincos.Prelude.{ℕ, ◌≡◌, ◌⊎◌, refl, arith, inl, inr, none, some, List, [], ◌∷◌, false}
use rincos.Hal.Mmu.{kernel, slot, PageTableFrameAlloc}
use rincos.X86.Run.{World, ok}
use rincos.X86.Mmu.Entry.{has, frame_of}
use rincos.X86.Mmu.Table.{entry, store, slot_of, phys_to_virt}
use rincos.X86.Mmu.Walk.{IsTree}
use rincos.X86.Mmu.Ensure.{IsSpace}
use rincos.X86.Mmu.Page.{root_of}
use rincos.X86.Mmu.Slots.{same_handle}
use rincos.X86.Mmu.Spaces.{address_space_new, address_space_destroy, activate, is_kernel}
use rincos.X86.Mmu.Spaces.Current.{IsCurrent, activate-IsCurrent}
use rincos.X86.Mmu.Spaces.New.{Created, address_space_new-Created}
use rincos.X86.Mmu.Spaces.Teardown.{Destroyed, address_space_destroy-Destroyed}
use rincos.X86.Mmu.Spaces.Complete.{Below, self, child, GivenBack, address_space_destroy-GivenBack}
use rincos.Vm.{BootPtAlloc, boot_pt_alloc}
use rincos.Vm.Source.{boot_source}
use rincos.Tests.Memory.{hhdm, sample_alloc-IsSound, zero_memory, not_avail}
use rincos.Tests.Paging.{root, one_path, fresh}
use rincos.Tests.Spaces.{slotted, slots-IsNamed}

lower_tree : IsTree zero_memory hhdm root 256
lower_tree = record {
  root_frame = (refl, omega arith);
  direct_map = refl;
  limit_le = omega arith;
  distinct = λ is js _ _. one_path is js;
}

lower-IsSpace : IsSpace (boot_source hhdm refl) root 256 slotted
lower-IsSpace = record {
  hhdm = refl;
  sound = sample_alloc-IsSound;
  tree = lower_tree;
  fresh = λ js _ found. not_avail _ (fresh js found);
}

known_slot : root_of slotted.machine (slot 0) ≡ some root
unfolding root_of
known_slot = refl

address_space_destroy-Destroyed_example :
    Destroyed
      (boot_source hhdm refl)
      root
      (slot 0)
      slotted
      (address_space_destroy boot_pt_alloc (slot 0) slotted)
address_space_destroy-Destroyed_example =
    address_space_destroy-Destroyed (boot_source hhdm refl) root (slot 0) slotted known_slot
      lower-IsSpace slots-IsNamed

-- A provider that keeps every frame it gets.
abbrev collector : PageTableFrameAlloc (List ℕ)
collector = record { alloc_frame_4k = λ a mem. (none, a, mem); free_frame_4k = λ a f. f ∷ a }

abbrev Holds : ℕ → List ℕ → Type 0
Holds q [] = ⊥
Holds q (f ∷ fs) = (f ≡ q) ⊎ Holds q fs

-- The root at 0x1000 has one table below it, at 0x5000.
abbrev one_table : World (List ℕ)
one_table = record {
  machine = record slotted.machine { mem = store zero_memory hhdm root 3 0x5003 };
  pt_alloc = [];
}

one_table-Below : Below one_table.machine.mem hhdm 0x5000 3 256 root
unfolding store entry slot_of phys_to_virt has frame_of
one_table-Below = child 3 (omega arith) refl refl (self refl)

not_kernel : is_kernel one_table.machine.kas_handle (slot 0) ≡ false
unfolding is_kernel same_handle
not_kernel = refl

known_table : root_of one_table.machine (slot 0) ≡ some root
unfolding root_of
known_table = refl

address_space_destroy-GivenBack_example :
    GivenBack (Holds 0x5000) (address_space_destroy collector (slot 0) one_table)
address_space_destroy-GivenBack_example =
    address_space_destroy-GivenBack collector root 0x5000 (slot 0) one_table known_table
      (Holds 0x5000) (λ a f held. inr held) (λ a. inl refl) not_kernel one_table-Below

address_space_new-Created_example :
    Created (boot_source hhdm refl) root slotted (address_space_new boot_pt_alloc slotted)
address_space_new-Created_example =
    address_space_new-Created (boot_source hhdm refl) root slotted kernel refl refl refl refl
      sample_alloc-IsSound (refl, omega arith) (not_avail root (omega arith)) slots-IsNamed

activate-IsCurrent_example :
    (w' : World BootPtAlloc) × (activate {E = ⊥} (slot 0) slotted ≡ ok tt w')
    × IsCurrent (slot 0) slotted w'
    × (w'.machine.cr3 ≡ frame_of root)
    × (root_of w'.machine (slot 0) ≡ some root)
activate-IsCurrent_example = activate-IsCurrent (slot 0) slotted root known_slot
