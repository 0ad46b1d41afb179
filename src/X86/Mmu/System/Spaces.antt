-- ===== src/X86/Mmu/System/Spaces.antt =====
-- The making of an address space of arch/x86_64/src/mmu.rs, with the others there.
use mathlib.Core.Path.{subst}
use rincos.Prelude.{
  ℕ, ◌<◌, ◌≡◌, ◌≢◌, ◌∙◌, refl, sym, ap, arith, some, List, length, [], ◌∷◌, true, get_elem?, set,
  get_elem?-set_self, get_elem?-set_ne, lt_of_get_elem?,
}
use rincos.Hal.Mmu.{
  AddressSpace, kernel, slot, dangling, Memory, MapError, out_of_memory, PageTableFrameAlloc,
}
use rincos.X86.Machine.{Machine, AddressSpaceSlot}
use rincos.X86.Run.{World, Run, ok, err, fault}
use rincos.X86.Mmu.Entry.Laws.{IsFrame}
use rincos.X86.Mmu.Table.{entry}
use rincos.X86.Mmu.Walk.{table_at, IsPath, table_at-IsFrame}
use rincos.X86.Mmu.Frames.{IsFrameSource}
use rincos.X86.Mmu.Ensure.{IsSpace}
use rincos.X86.Mmu.Local.{IsTable}
use rincos.X86.Mmu.Slots.Laws.{IsNamed, taken_slot}
use rincos.X86.Mmu.Spaces.{address_space_new}
use rincos.X86.Mmu.Spaces.Copy.{no_table}
use rincos.X86.Mmu.Spaces.New.{Created, Grown, address_space_new-Created}
use rincos.X86.Mmu.System.{IsLive, limit_of, IsSystem}
use rincos.X86.Mmu.System.Change.{IsLive-same, IsChange}

-- A slot other than the written one holds what it held.
pub IsLive-set_ne :
    {A : Type 0} (w w' : World A) (k : ℕ) (s : AddressSpaceSlot) (b : AddressSpace) (r : ℕ)
    → w'.machine.kas ≡ w.machine.kas
    → w'.machine.as_slots ≡ set w.machine.as_slots k s
    → b ≢ slot k
    → IsLive w b r
    → IsLive w' b r
IsLive-set_ne w w' k s kernel r kas slots ne live = kas ∙ live
IsLive-set_ne w w' k s (slot j) r kas slots ne (t, at, busy, root_eq) = (
  t,
  ap (λ xs. get_elem? xs j) slots
      ∙ get_elem?-set_ne w.machine.as_slots k j s (λ e. ne (ap slot (sym e)))
      ∙ at,
  busy,
  root_eq,
)
IsLive-set_ne w w' k s dangling r kas slots ne live = elim live [ ]

pub IsLive-unset :
    {A : Type 0} (w w' : World A) (k : ℕ) (s : AddressSpaceSlot) (b : AddressSpace) (r : ℕ)
    → w'.machine.kas ≡ w.machine.kas
    → w'.machine.as_slots ≡ set w.machine.as_slots k s
    → b ≢ slot k
    → IsLive w' b r
    → IsLive w b r
IsLive-unset w w' k s kernel r kas slots ne live = sym kas ∙ live
IsLive-unset w w' k s (slot j) r kas slots ne (t, at, busy, root_eq) = (
  t,
  sym (get_elem?-set_ne w.machine.as_slots k j s (λ e. ne (ap slot (sym e))))
      ∙ ap (λ xs. get_elem? xs j) (sym slots)
      ∙ at,
  busy,
  root_eq,
)
IsLive-unset w w' k s dangling r kas slots ne live = elim live [ ]

-- The written slot of a list is live only if what was written is in use.
pub set_live :
    {A : Type 0} (w w' : World A) (k : ℕ) (s : AddressSpaceSlot) (r : ℕ)
    → k < length w.machine.as_slots
    → w'.machine.as_slots ≡ set w.machine.as_slots k s
    → IsLive w' (slot k) r
    → (s.used ≡ true) × (s.pml4_phys ≡ r)
set_live w w' k s r lt slots (t, at, busy, root_eq) =
    let there : some s ≡ some t =
      sym (get_elem?-set_self w.machine.as_slots k s lt)
      ∙ ap (λ xs. get_elem? xs k) (sym slots)
      ∙ at in
    let same : s ≡ t = cc there in
    (
      ap (λ (x : AddressSpaceSlot). x.used) same ∙ busy,
      ap (λ (x : AddressSpaceSlot). x.pml4_phys) same ∙ root_eq,
    )

only_root :
    (mem : Memory) (h f u : ℕ) (js : List ℕ)
    → ((j : ℕ) → j < 256 → entry mem h f j ≡ 0)
    → IsPath 256 js
    → table_at mem h f js ≡ some u
    → u ≡ f
unfolding table_at
only_root mem h f u [] empty _ there = cc
only_root mem h f u (i ∷ is) empty (_, p) there = absurd (cc (no_table mem h f i is empty p, there))

module _ {A : Type 0} {pt : PageTableFrameAlloc A} {h : ℕ} (src : IsFrameSource pt h) (top : ℕ)
    (w : World A) (sys : IsSystem src top w) where
  abbrev pub kernel_root : ℕ
  kernel_root = sys.begun.0

  pub not_avail :
      (b : AddressSpace) (r u : ℕ)
      → IsLive w b r
      → IsTable h r (limit_of top b) w u
      → ¬ src.Avail w.pt_alloc u
  not_avail b r u live (js, p, found) = (sys.spaces b r live).fresh js p found

  table-IsFrame :
      (b : AddressSpace) (r u : ℕ) → IsLive w b r → IsTable h r (limit_of top b) w u → IsFrame u
  table-IsFrame b r u live (js, p, found) =
      table_at-IsFrame _ h r js (sys.spaces b r live).tree.root_frame found

  -- The kernel's root is one of its tables.
  root-IsTable : IsTable h kernel_root (limit_of top kernel) w kernel_root
  unfolding table_at
  root-IsTable = ([], (omega arith, tt), refl)

  -- No address space is made.
  module _ (w' : World A) (grown : Grown src kernel_root w w') where
    kas_same : w'.machine.kas ≡ w.machine.kas
    kas_same = ap (λ (m : Machine). m.kas) (grown.0)

    kept_entry :
        (b : AddressSpace) (r u j : ℕ)
        → IsLive w b r
        → IsTable h r (limit_of top b) w u
        → j < 512
        → entry w'.machine.mem h u j ≡ entry w.machine.mem h u j
    kept_entry b r u j live table lt =
        grown.3 u j (table-IsFrame b r u live table) lt (not_avail b r u live table)

    refused-IsChange : w'.machine.as_slots ≡ w.machine.as_slots → IsChange src top dangling w w'
    refused-IsChange slots = record {
      hhdm = ap (λ (m : Machine). m.hhdm_offset) (grown.0);
      sound = grown.1;
      begun = (kernel_root, kas_same ∙ sys.begun.1);
      handle = ap (λ (m : Machine). m.kas_handle) (grown.0);
      nxe = ap (λ (m : Machine). m.nxe_enabled) (grown.0);
      named = subst (IsNamed 0) (sym slots) sys.named;
      old = λ b r _. IsLive-same w' w b r (sym kas_same) (sym slots);
      stays = λ b r _. IsLive-same w w' b r kas_same slots;
      same = λ b r u j _ live table lt. kept_entry b r u j live table lt;
      fresh = λ b r u _ live av table. not_avail b r u live table (grown.2 u av);
      own = λ r live. absurd live;
      own_apart = λ b r s u _ live. absurd live;
    }

    made-IsChange :
        (k f : ℕ) (s : AddressSpaceSlot)
        → get_elem? w.machine.as_slots k ≡ some s
        → w'.machine.as_slots ≡ set w.machine.as_slots k (taken_slot f k)
        → IsNamed 0 w'.machine.as_slots
        → src.Avail w.pt_alloc f
        → IsSpace src f 256 w'
        → ((j : ℕ) → j < 256 → entry w'.machine.mem h f j ≡ 0)
        → IsChange src top (slot k) w w'
    made-IsChange k f s found slots named own space empty = record {
      hhdm = ap (λ (m : Machine). m.hhdm_offset) (grown.0);
      sound = grown.1;
      begun = (kernel_root, kas_same ∙ sys.begun.1);
      handle = ap (λ (m : Machine). m.kas_handle) (grown.0);
      nxe = ap (λ (m : Machine). m.nxe_enabled) (grown.0);
      named = named;
      old = λ b r. IsLive-unset w w' k (taken_slot f k) b r kas_same slots;
      stays = λ b r. IsLive-set_ne w w' k (taken_slot f k) b r kas_same slots;
      same = λ b r u j _ live table lt. kept_entry b r u j live table lt;
      fresh = λ b r u _ live av table. not_avail b r u live table (grown.2 u av);
      own = λ r live. rw (← is_root r live) space;
      own_apart = λ b r s u _ live live_b table table_b. not_avail b s u live_b table_b (
          subst (src.Avail w.pt_alloc)
            (sym (here u (subst (λ x. IsTable h x 256 w' u) (sym (is_root r live)) table))) own);
    }
      where
        is_root : (r : ℕ) → IsLive w' (slot k) r → f ≡ r
        is_root r live =
            (set_live w w' k (taken_slot f k) r (lt_of_get_elem? w.machine.as_slots k found) slots
              live).1

        here : (u : ℕ) → IsTable h f 256 w' u → u ≡ f
        here u (js, p, there) = only_root w'.machine.mem h f u js empty p there

  -- What has changed when an address space has been made, or not.
  abbrev pub Made : Run A MapError AddressSpace → Type 0
  Made (ok a w') =
      IsChange src top a w w'
      × ((k : ℕ) × (a ≡ slot k))
      × ((r : ℕ) → ¬ IsLive w a r)
      × ((f : ℕ) × IsLive w' a f
          × IsSpace src f 256 w'
          × ((j : ℕ) → j < 256 → entry w'.machine.mem h f j ≡ 0))
  Made (err e w') = IsChange src top dangling w w' × (e ≡ out_of_memory)
  Made fault = ⊥

  Created-Made : (r : Run A MapError AddressSpace) → Created src kernel_root w r → Made r
  Created-Made (ok a w')
        (f, _, own, _, space, lower, _, _, (k, is_slot, (s, found, free), slots, _), named, grown) =
      (
        subst (λ x. IsChange src top x w w') (sym is_slot)
            (made-IsChange w' grown k f s found slots named own space lower),
        (k, is_slot),
        (λ r live. vacant r (subst (λ x. IsLive w x r) is_slot live)),
        (f, subst (λ x. IsLive w' x f) (sym is_slot) taken, space, lower),
      )
    where
      taken : IsLive w' (slot k) f
      taken = (
        taken_slot f k,
        ap (λ xs. get_elem? xs k) slots
            ∙ get_elem?-set_self w.machine.as_slots k (taken_slot f k)
                (lt_of_get_elem? w.machine.as_slots k found),
        refl,
        refl,
      )

      vacant : (r : ℕ) → ¬ IsLive w (slot k) r
      vacant r (t, at, busy, _) =
          let same : s ≡ t = cc (found, at) in
          let busy_s : s.used ≡ true = rw same busy in cc (free, busy_s)
  Created-Made (err e w') (oom, _, slots, grown) = (refused-IsChange w' grown slots, oom)
  Created-Made fault bad = bad

  pub address_space_new-Made : Made (address_space_new pt w)
  address_space_new-Made = Created-Made (address_space_new pt w) (
      address_space_new-Created src kernel_root w kernel (sys.begun.1) sys.handle sys.hhdm
        sys.direct_map sys.sound
        (table-IsFrame kernel kernel_root kernel_root (sys.begun.1) root-IsTable)
        (not_avail kernel kernel_root kernel_root (sys.begun.1) root-IsTable) sys.named)
