-- ===== src/Tests/Systems.antt =====
-- A machine with the kernel's address space and one more, and the calls of arch/x86_64/src/mmu.rs on it.
use rincos.Prelude.{
  ℕ, zero, suc, ◌<◌, ◌≤◌, ◌≡◌, ◌⊎◌, ◌∙◌, inl, inr, refl, sym, arith, List, [], ◌∷◌, Option, none,
  some, false, true,
}
use rincos.Hal.Mmu.{AddressSpace, kernel, slot, dangling}
use rincos.X86.Machine.{AddressSpaceSlot, mov_cr3, emit}
use rincos.X86.Run.{World}
use rincos.X86.Mmu.Walk.{table_at, next_table, path_of, entry_at-none}
use rincos.X86.Mmu.Entry.Laws.{zero-has, IsFrame}
use rincos.X86.Mmu.Entry.{pt_index, frame_of}
use rincos.X86.Mmu.Table.{entry}
use rincos.X86.Mmu.Ensure.{IsSpace}
use rincos.X86.Mmu.Slots.{empty_slot, same_handle}
use rincos.X86.Mmu.Slots.Laws.{IsNamed}
use rincos.X86.Mmu.Requests.{Pages, map_page}
use rincos.X86.Mmu.Requests.Represents.{Represents}
use rincos.X86.Mmu.Page.{root_of, as_x86}
use rincos.X86.Mmu.Spaces.{activate, address_space_destroy, is_kernel, set_current}
use rincos.X86.Mmu.System.{
  Call, create, destroy, enter, Reply, destroyed, entered, perform, IsLive, limit_of, IsCall,
  IsSystem,
}
use rincos.X86.Mmu.System
use rincos.X86.Mmu.System.Change.{IsLive-root_of}
use rincos.X86.Mmu.System.Keep.{Safe, perform-Safe, Reached, Reached-IsSystem}
use rincos.X86.Mmu.System.Keep
use rincos.X86.Mmu.System.Moves.{Spaces, Moves, Holds}
use rincos.X86.Mmu.System.Refines.{Promised, perform-Promised, Performs, Performs-Moves}
use rincos.X86.Mmu.System.Refines
use rincos.Vm.{BootPtAlloc, boot_pt_alloc, new}
use rincos.Kernel.Vm
use rincos.Kernel.Vm.{with_alloc}
use rincos.Kernel.Vm.Calls.{Called, call, call-Called}
use rincos.Kernel.Vm.System.{IsBooted, Up, init-Up}
use rincos.Vm.Source.{boot_source}
use rincos.Tests.Memory.{
  hhdm, sample_boot, sample_alloc, sample_alloc-IsSound, zero_memory, not_avail,
}
use rincos.Tests.Paging.{root, world, page, read_write, low}

-- The second address space has its root at 0.
abbrev second : AddressSpaceSlot
second = record { used = true; pml4_phys = 0; handle = slot 0 }

abbrev pair : World BootPtAlloc
pair = record world { machine = record world.machine { as_slots = second ∷ empty_slot ∷ [] } }

pair-IsNamed : IsNamed 0 pair.machine.as_slots
pair-IsNamed zero s at _ = let same : second ≡ s = cc at in rw (← same) refl
pair-IsNamed (suc zero) s at busy =
    let same : empty_slot ≡ s = cc at in ground (arith, rw (← same) at busy)
pair-IsNamed (suc (suc k)) s at _ = ground arith

empty_table : (r i : ℕ) (is : List ℕ) → table_at zero_memory hhdm r (i ∷ is) ≡ none
unfolding table_at next_table entry
empty_table r i [] = rw zero-has refl
empty_table r i (j ∷ is) = rw (empty_table r j is) refl

only_root : (r u : ℕ) (js : List ℕ) → table_at zero_memory hhdm r js ≡ some u → (u ≡ r) × (js ≡ [])
unfolding table_at
only_root r u [] found = (cc, refl)
only_root r u (i ∷ is) found = absurd (cc (empty_table r i is, found))

empty-IsSpace :
    (r limit : ℕ)
    → IsFrame r
    → r < 0x2000
    → limit ≤ 512
    → IsSpace (boot_source hhdm refl) r limit pair
empty-IsSpace r limit frame small le = record {
  hhdm = refl;
  sound = sample_alloc-IsSound;
  tree = record {
    root_frame = frame;
    direct_map = refl;
    limit_le = le;
    distinct = λ is js {t} _ _ a b.
        let (_, no_is) = only_root r t is a in
        let (_, no_js) = only_root r t js b in cc (no_is, no_js);
  };
  fresh = λ js {u} _ found.
      let (same, _) = only_root r u js found in not_avail u (omega (arith, same, small));
}

-- The two address spaces and their roots.
who :
    (a : AddressSpace) (r : ℕ)
    → IsLive pair a r
    → ((a ≡ kernel) × (r ≡ root)) ⊎ ((a ≡ slot 0) × (r ≡ 0))
who kernel r live = inl (refl, cc live)
who (slot zero) r (s, at, busy, root_eq) =
    let same : second ≡ s = cc at in inr (refl, sym (rw (← same) at root_eq))
who (slot (suc zero)) r (s, at, busy, root_eq) =
    let same : empty_slot ≡ s = cc at in absurd (ground (arith, rw (← same) at busy))
who (slot (suc (suc k))) r (s, at, busy, root_eq) = absurd (ground arith)
who dangling r live = elim live [ ]

pair-IsSpace :
    (a : AddressSpace) (r : ℕ)
    → IsLive pair a r
    → IsSpace (boot_source hhdm refl) r (limit_of 512 a) pair
pair-IsSpace a r live = elim (who a r live) [
  | inl (is_kernel, is_root) ↦
      rw (is_kernel, is_root)
        (empty-IsSpace root 512 (refl, omega arith) (omega arith) (omega arith))
  | inr (is_slot, is_zero) ↦
      rw (is_slot, is_zero) (empty-IsSpace 0 256 (refl, omega arith) (omega arith) (omega arith))
]

one_owner : (a b : AddressSpace) (r s : ℕ) → IsLive pair a r → IsLive pair b s → r ≡ s → a ≡ b
one_owner a b r s live_a live_b same = elim (who a r live_a) [
  | inl (a_kernel, a_root) ↦ elim (who b s live_b) [
    | inl (b_kernel, _) ↦ a_kernel ∙ sym b_kernel
    | inr (_, b_root) ↦ absurd (omega (arith, a_root, b_root, same))
  ]
  | inr (a_slot, a_root) ↦ elim (who b s live_b) [
    | inl (_, b_root) ↦ absurd (omega (arith, a_root, b_root, same))
    | inr (b_slot, _) ↦ a_slot ∙ sym b_slot
  ]
]

pair-IsSystem : IsSystem (boot_source hhdm refl) 512 pair
pair-IsSystem = record {
  hhdm = refl;
  sound = sample_alloc-IsSound;
  direct_map = refl;
  begun = (root, refl);
  handle = refl;
  named = pair-IsNamed;
  spaces = pair-IsSpace;
  apart = λ a b r s u live_a live_b (js, _, at) (ks, _, at').
      let (here, _) = only_root r u js at in
      let (there, _) = only_root s u ks at' in one_owner a b r s live_a live_b (sym here ∙ there);
}

perform-Safe_example :
    Safe
      (boot_source hhdm refl)
      512
      pair
      (System.page kernel (map_page page 0x5000 read_write))
      (perform boot_pt_alloc (System.page kernel (map_page page 0x5000 read_write)) pair)
perform-Safe_example =
    perform-Safe (boot_source hhdm refl) 512 pair
      (System.page kernel (map_page page 0x5000 read_write)) pair-IsSystem
      ((root, refl), (omega arith, low, omega arith))

-- Both are empty.
abbrev none_mapped : Spaces
none_mapped kernel = some (λ _. none)
none_mapped (slot zero) = some (λ _. none)
none_mapped _ = none

empty-Represents :
    (a : AddressSpace) (r : ℕ)
    → IsLive pair a r
    → Represents (boot_source hhdm refl) r (limit_of 512 a) a pair (λ _. none)
empty-Represents a r live = record {
  known = IsLive-root_of pair a r live;
  space = pair-IsSpace a r live;
  pages = λ u _. entry_at-none zero_memory hhdm r (path_of u) (pt_index u) (empty_table r _ _);
  frames = λ _ m at. absurd (cc at);
}

live_slot : IsLive pair (slot 0) 0
live_slot = (second, refl, refl, refl)

mapped_there : (a : AddressSpace) (r : ℕ) → IsLive pair a r → none_mapped a ≡ some (λ _. none)
mapped_there a r live = elim (who a r live) [
  | inl (is_kernel, _) ↦ rw is_kernel refl
  | inr (is_slot, _) ↦ rw is_slot refl
]

mapped_live : (a : AddressSpace) (p : Pages) → none_mapped a ≡ some p → (r : ℕ) × IsLive pair a r
mapped_live kernel p at = (root, refl)
mapped_live (slot zero) p at = (0, live_slot)
mapped_live (slot (suc k)) p at = absurd (cc at)
mapped_live dangling p at = absurd (cc at)

pair-Holds : Holds (boot_source hhdm refl) 512 pair none_mapped
pair-Holds = record {
  system = pair-IsSystem;
  there = λ a r live. ((λ _. none), mapped_there a r live, empty-Represents a r live);
  live = mapped_live;
}

perform-Promised_example :
    Promised
      (boot_source hhdm refl)
      512
      pair
      none_mapped
      pair-Holds
      create
      (perform boot_pt_alloc create pair)
perform-Promised_example =
    perform-Promised (boot_source hhdm refl) 512 pair none_mapped pair-Holds create tt

-- The world after `activate` of the second.
abbrev in_second : World BootPtAlloc
in_second = record pair {
  machine = set_current (slot 0) (record (emit (mov_cr3 0) pair.machine) { cr3 = 0 });
}

stays_and_enters :
    Performs
      (boot_source hhdm refl)
      512
      pair
      (destroy kernel ∷ enter (slot 0) ∷ [])
      (destroyed ∷ entered ∷ [])
      in_second
unfolding perform address_space_destroy is_kernel same_handle activate as_x86 root_of set_current
    emit
stays_and_enters = Refines.then (root, refl) refl (Refines.then (0, live_slot) refl Refines.idle)

Performs-Moves_example :
    (s : Spaces) × Moves none_mapped
      (destroy kernel ∷ enter (slot 0) ∷ [])
      (destroyed ∷ entered ∷ [])
      s
    × Holds (boot_source hhdm refl) 512 in_second s
Performs-Moves_example = Performs-Moves (boot_source hhdm refl) 512 pair-Holds stays_and_enters

second_entered : perform boot_pt_alloc (enter (slot 0)) pair ≡ some (entered, in_second)
unfolding perform activate as_x86 root_of set_current emit
second_entered = refl

Reached-IsSystem_example : IsSystem (boot_source hhdm refl) 512 in_second
Reached-IsSystem_example =
    Reached-IsSystem (boot_source hhdm refl) 512 pair-IsSystem
      (Keep.then (enter (slot 0)) Keep.start (0, live_slot) second_entered)

-- The machine before the memory service has started.
abbrev booting : World (Option BootPtAlloc)
booting = record {
  machine = record world.machine { kas = none; kas_handle = none; nxe_enabled = false };
  pt_alloc = none;
}

root_frame : frame_of root ≡ root
unfolding frame_of
root_frame = refl

booting-IsBooted : IsBooted 512 sample_alloc booting.machine
booting-IsBooted = record {
  direct_map = refl;
  sound = sample_alloc-IsSound;
  first = refl;
  free = λ k s at. ground arith;
  has_root = rw root_frame (λ e. ground (arith, e));
  tree =
      rw root_frame (empty-IsSpace root 512 (refl, omega arith) (omega arith) (omega arith)).tree;
  fresh =
      rw root_frame (empty-IsSpace root 512 (refl, omega arith) (omega arith) (omega arith)).fresh;
}

sample_new : new sample_boot ≡ some sample_alloc
unfolding new
sample_new = refl

init-Up_example :
    Up 512 hhdm booting-IsBooted.direct_map sample_alloc (Vm.init sample_boot true booting)
init-Up_example = init-Up 512 sample_boot true sample_alloc booting booting-IsBooted sample_new

abbrev serviced : World (Option BootPtAlloc)
serviced = record { machine = pair.machine; pt_alloc = some sample_alloc }

serviced-IsSystem :
    (a : BootPtAlloc)
    → some sample_alloc ≡ some a
    → IsSystem (boot_source hhdm refl) 512 (with_alloc serviced a)
serviced-IsSystem a e = let same : sample_alloc ≡ a = cc e in rw (← same) pair-IsSystem

call-Called_example :
    Called hhdm refl 512 serviced
      (System.page kernel (map_page page 0x5000 read_write))
      (call (System.page kernel (map_page page 0x5000 read_write)) serviced)
call-Called_example =
    call-Called hhdm refl 512 serviced (System.page kernel (map_page page 0x5000 read_write))
      serviced-IsSystem λ a e. ((root, refl), (omega arith, low, omega arith))
