-- ===== src/X86/Mmu/System/Ending.antt =====
-- The end and the use of an address space of arch/x86_64/src/mmu.rs, with the others there.
use mathlib.Core.Path.{subst}
use rincos.Prelude.{
  ℕ, ◌<◌, ◌≡◌, ◌≢◌, ◌∙◌, refl, sym, ap, length, some, inl, inr, bit_and, set, lt_of_get_elem?,
}
use rincos.Hal.Mmu.{AddressSpace, kernel, slot, dangling, PageTableFrameAlloc}
use rincos.X86.Machine.{Machine, emit, mov_cr3}
use rincos.X86.Run.{World, Run, ok, err, fault}
use rincos.X86.Mmu.Table.{entry}
use rincos.X86.Mmu.Frames.{IsFrameSource}
use rincos.X86.Mmu.Page.{as_x86}
use rincos.X86.Mmu.Slots.{same_handle}
use rincos.X86.Mmu.Slots.Laws.{IsNamed, freed_slot, set-IsNamed}
use rincos.X86.Mmu.Spaces.{address_space_destroy, activate, is_kernel, set_current}
use rincos.X86.Mmu.Entry.{addr_mask}
use rincos.X86.Mmu.Spaces.Teardown.{TornDown, Destroyed, address_space_destroy-Destroyed}
use rincos.X86.Mmu.System.{IsLive, IsSystem}
use rincos.X86.Mmu.System.Spaces.{IsLive-set_ne, IsLive-unset, set_live, not_avail}
use rincos.X86.Mmu.System.Change.{IsLive-root_of, IsLive-same, IsChange}

module _ {A : Type 0} {pt : PageTableFrameAlloc A} {h : ℕ} (src : IsFrameSource pt h) (top : ℕ)
    (w : World A) (sys : IsSystem src top w) where
  -- The address space of a slot has ended.
  TornDown-Ended :
      (k root : ℕ) (w' : World A)
      → IsLive w (slot k) root
      → TornDown src root (slot k) w w'
      → IsChange src top (slot k) w w' × ((r : ℕ) → ¬ IsLive w' (slot k) r)
  TornDown-Ended k root w' (s, found, busy, root_eq) (sound, avail, machine, cleared) = (
    record {
      hhdm = ap (λ (m : Machine). m.hhdm_offset) machine;
      sound = sound;
      begun = (sys.begun.0, kas ∙ sys.begun.1);
      handle = ap (λ (m : Machine). m.kas_handle) machine;
      nxe = ap (λ (m : Machine). m.nxe_enabled) machine;
      named =
          subst (IsNamed 0) (sym slots)
            (set-IsNamed 0 k w.machine.as_slots (freed_slot s) (λ e. absurd (cc e)) lt sys.named);
      old = λ b r. IsLive-unset w w' k (freed_slot s) b r kas slots;
      stays = λ b r. IsLive-set_ne w w' k (freed_slot s) b r kas slots;
      same = λ b r u j _ _ _ _. ap (λ (m : Machine). entry m.mem h u j) machine;
      fresh = λ b r u other live_b av table. elim (avail u av) [
        | inl before ↦ not_avail src top w sys b r u live_b table before
        | inr mine ↦
            other (sys.apart b (slot k) r root u live_b (s, found, busy, root_eq) table mine)
      ];
      own = λ r live. absurd (gone r live);
      own_apart = λ b r _ u _ live. absurd (gone r live);
    },
    gone,
  )
    where
      lt : k < length w.machine.as_slots
      lt = lt_of_get_elem? w.machine.as_slots k found

      kas : w'.machine.kas ≡ w.machine.kas
      kas = ap (λ (m : Machine). m.kas) machine

      slots : w'.machine.as_slots ≡ set w.machine.as_slots k (freed_slot s)
      slots = cleared k s refl found busy

      gone : (r : ℕ) → ¬ IsLive w' (slot k) r
      gone r live = cc ((set_live w w' k (freed_slot s) r lt slots live).0)

  Destroyed-Ended :
      (k root : ℕ) (w' : World A)
      → IsLive w (slot k) root
      → Destroyed src root (slot k) w (ok tt w')
      → IsChange src top (slot k) w w' × ((r : ℕ) → ¬ IsLive w' (slot k) r)
  Destroyed-Ended k root w' live (_, done) = TornDown-Ended k root w' live (done not_kernel)
    where
      not_kernel : w.machine.kas_handle ≢ some (slot k)
      not_kernel own = let e : kernel ≡ slot k = cc (own, sys.handle) in cc e

  destroy_kernel : {E : Type 0} → address_space_destroy {E = E} pt kernel w ≡ ok tt w
  unfolding address_space_destroy is_kernel same_handle
  destroy_kernel = rw sys.handle refl

  -- How an address space may end: the kernel's does not, and another is no longer there.
  abbrev pub Ended : AddressSpace → Run A ⊥ (Unit {0}) → Type 0
  Ended kernel r = r ≡ ok tt w
  Ended a (ok _ w') = IsChange src top a w w' × ((r : ℕ) → ¬ IsLive w' a r)
  Ended a (err e w') = ⊥
  Ended a fault = ⊥

  of_slot :
      (k root : ℕ) (r : Run A ⊥ (Unit {0}))
      → IsLive w (slot k) root
      → Destroyed src root (slot k) w r
      → Ended (slot k) r
  of_slot k root (ok _ w') live done = Destroyed-Ended k root w' live done
  of_slot k root (err e w') live bad = bad
  of_slot k root fault live bad = bad

  pub address_space_destroy-Ended :
      (a : AddressSpace) (root : ℕ) → IsLive w a root → Ended a (address_space_destroy pt a w)
  address_space_destroy-Ended kernel root live = destroy_kernel
  address_space_destroy-Ended (slot k) root live =
      of_slot k root (address_space_destroy pt (slot k) w) live (
        address_space_destroy-Destroyed src root (slot k) w (IsLive-root_of w (slot k) root live)
          (sys.spaces (slot k) root live) sys.named)
  address_space_destroy-Ended dangling root live = elim live [ ]

  -- The world after `activate`.
  abbrev after_enter : AddressSpace → ℕ → World A
  after_enter a root = record w {
    machine = set_current a (record (emit (mov_cr3 (bit_and root addr_mask)) w.machine) {
      cr3 = bit_and root addr_mask;
    });
  }

  entered-IsChange :
      (a : AddressSpace) (root : ℕ) → IsChange src top dangling w (after_enter a root)
  unfolding set_current emit
  entered-IsChange a root = record {
    hhdm = refl;
    sound = sys.sound;
    begun = sys.begun;
    handle = refl;
    nxe = refl;
    named = sys.named;
    old = λ b r _. IsLive-same (after_enter a root) w b r refl refl;
    stays = λ b r _. IsLive-same w (after_enter a root) b r refl refl;
    same = λ b r u j _ _ _ _. refl;
    fresh = λ b r u _ live av table. not_avail src top w sys b r u live table av;
    own = λ r live. absurd live;
    own_apart = λ b r s u _ live. absurd live;
  }

  -- `activate` changes no address space.
  abbrev pub Entered : Run A ⊥ (Unit {0}) → Type 0
  Entered (ok _ w') = IsChange src top dangling w w'
  Entered (err e w') = ⊥
  Entered fault = ⊥

  pub activate-Entered : (a : AddressSpace) (root : ℕ) → IsLive w a root → Entered (activate a w)
  activate-Entered a root live = rw activated (entered-IsChange a root)
    where
      activated : activate {E = ⊥} a w ≡ ok tt (after_enter a root)
      activated = unfold activate in rw (IsLive-root_of w a root live, as_x86) refl
