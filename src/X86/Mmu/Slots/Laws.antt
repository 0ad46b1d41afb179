-- ===== src/X86/Mmu/Slots/Laws.antt =====
-- The slots of address spaces of arch/x86_64/src/mmu.rs: who holds which.
use rincos.Prelude.{
  ℕ, zero, suc, ◌+◌, ◌<◌, ◌≡◌, ◌≢◌, ◌&&◌, arith, refl, sym, ap, ◌∙◌, true, false, Option, none,
  some, List, [], ◌∷◌, ◌==◌, ==_iff, get_elem?, set, length, Bool-cases, inl, inr,
  get_elem?-set_self, get_elem?-set_ne, lt_of_get_elem?,
}
use rincos.Hal.Mmu.{PhysAddr, AddressSpace, slot, MapError, out_of_memory}
use rincos.X86.Machine.{AddressSpaceSlot}
use rincos.X86.Run.{World, Run, ok, err, fault}
use rincos.X86.Mmu.Page.{root_of}
use rincos.X86.Mmu.Slots.{same_handle, take_slot, drop_slot, alloc_slot, free_slot}

-- A slot in use has the handle that points to it; the first slot of the list is slot `i`.
abbrev pub IsNamed : ℕ → List AddressSpaceSlot → Type 0
IsNamed i slots =
    (k : ℕ) (s : AddressSpaceSlot)
    → get_elem? slots k ≡ some s
    → s.used ≡ true
    → s.handle ≡ slot (i + k)

abbrev pub taken_slot : PhysAddr → ℕ → AddressSpaceSlot
taken_slot pml4_phys k = record { used = true; pml4_phys = pml4_phys; handle = slot k }

abbrev pub TakenSlot :
    PhysAddr → ℕ → List AddressSpaceSlot → Option (ℕ × List AddressSpaceSlot) → Type 0
TakenSlot p i slots none =
    (k : ℕ) (s : AddressSpaceSlot) → get_elem? slots k ≡ some s → s.used ≡ true
TakenSlot p i slots (some (n, slots')) =
    (k : ℕ) × (n ≡ i + k)
    × (slots' ≡ set slots k (taken_slot p n))
    × ((s : AddressSpaceSlot) × (get_elem? slots k ≡ some s) × (s.used ≡ false))

all_used :
    (k : ℕ) (s : AddressSpaceSlot) (slots : List AddressSpaceSlot) (t : AddressSpaceSlot)
    → s.used ≡ true
    → ((j : ℕ) (u : AddressSpaceSlot) → get_elem? slots j ≡ some u → u.used ≡ true)
    → get_elem? (s ∷ slots) k ≡ some t
    → t.used ≡ true
all_used zero s slots t busy all at = let same : s ≡ t = cc at in rw same at busy
all_used (suc k) s slots t busy all at = all k t at

module _ (p : PhysAddr) where
  after_used :
      (i : ℕ) (s : AddressSpaceSlot) (slots : List AddressSpaceSlot)
      → s.used ≡ true
      → (r : Option (ℕ × List AddressSpaceSlot)) → TakenSlot p (i + 1) slots r
      → TakenSlot p i (s ∷ slots) (elim r [ none ↦ none | some (k, slots') ↦ some (k, s ∷ slots') ])
  after_used i s slots busy none all = λ k t at. all_used k s slots t busy all at
  after_used i s slots busy (some (n, slots')) (k, e, stored, free) =
      (suc k, omega (arith, e), ap (λ xs. s ∷ xs) stored, free)

  take_slot-TakenSlot :
      (i : ℕ) (slots : List AddressSpaceSlot) → TakenSlot p i slots (take_slot p i slots)
  unfolding take_slot
  take_slot-TakenSlot i [] = λ k s at. ground arith
  take_slot-TakenSlot i (s ∷ slots) = elim (Bool-cases s.used) [
    | inl busy ↦
        rw (busy, TakenSlot)
          (after_used i s slots busy (take_slot p (i + 1) slots)
            (take_slot-TakenSlot (i + 1) slots))
    | inr free ↦ rw (free, TakenSlot) (0, omega arith, refl, (s, refl, free))
  ]

pub set-IsNamed :
    (i k : ℕ) (slots : List AddressSpaceSlot) (s : AddressSpaceSlot)
    → (s.used ≡ true → s.handle ≡ slot (i + k))
    → k < length slots
    → IsNamed i slots
    → IsNamed i (set slots k s)
set-IsNamed i k slots s named_s lt named j t at busy = elim (Bool-cases (k == j)) [
  | inl e ↦ let same : k ≡ j = (==_iff k j).0 e in at_same j same at busy
  | inr other ↦
      named j t (sym (get_elem?-set_ne slots k j s (λ e. ground (arith, other))) ∙ at) busy
]
  where
    at_same :
        (j : ℕ)
        → k ≡ j
        → {t : AddressSpaceSlot} → get_elem? (set slots k s) j ≡ some t
        → t.used ≡ true
        → t.handle ≡ slot (i + j)
    at_same j same {t = t} at busy =
        let found : get_elem? (set slots k s) j ≡ some s =
          rw (← same) (get_elem?-set_self slots k s lt) in
        let this : t ≡ s = cc (at, found) in rw (this, ← same) (named_s (rw this at busy))

module _ {A : Type 0} where
  -- What `alloc_slot` does: a handle of a slot that was free, which now holds the root, or no slot.
  abbrev pub AllocatedSlot : World A → PhysAddr → Run A MapError AddressSpace → Type 0
  AllocatedSlot w p (ok a w') =
      (root_of w'.machine a ≡ some p)
      × IsNamed 0 w'.machine.as_slots
      × ((k : ℕ) × (a ≡ slot k)
          × ((s : AddressSpaceSlot) × (get_elem? w.machine.as_slots k ≡ some s) × (s.used ≡ false))
          × (w'.machine.as_slots ≡ set w.machine.as_slots k (taken_slot p k))
          × ((j : ℕ) → k ≢ j → root_of w'.machine (slot j) ≡ root_of w.machine (slot j)))
  AllocatedSlot w p (err e w') =
      (e ≡ out_of_memory)
      × (w' ≡ w)
      × ((k : ℕ) (s : AddressSpaceSlot) → get_elem? w.machine.as_slots k ≡ some s → s.used ≡ true)
  AllocatedSlot w p fault = ⊥

  module _ (w : World A) (p : PhysAddr) (named : IsNamed 0 w.machine.as_slots) where
    by_result :
        (r : Option (ℕ × List AddressSpaceSlot))
        → take_slot p 0 w.machine.as_slots ≡ r
        → TakenSlot p 0 w.machine.as_slots r
        → AllocatedSlot w p (alloc_slot p w)
    unfolding alloc_slot root_of
    by_result none e all = rw (e, AllocatedSlot) (refl, refl, all)
    by_result (some (n, slots')) e (k, at, stored, (s, found, free)) =
        let lt : k < length w.machine.as_slots = lt_of_get_elem? w.machine.as_slots k found in
        let here : n ≡ k = omega (arith, at) in
        rw (e, stored, here, AllocatedSlot)
          (
            rw (get_elem?-set_self w.machine.as_slots k (taken_slot p k) lt) refl,
            set-IsNamed 0 k w.machine.as_slots (taken_slot p k) (λ _. ap slot (omega arith)) lt
                named,
            (
              k,
              refl,
              (s, found, free),
              refl,
              λ j ne. rw (get_elem?-set_ne w.machine.as_slots k j (taken_slot p k) ne) refl,
            ),
          )

    -- `alloc_slot` hands out a slot that was free and puts the root there; the other handles keep
    -- their roots. It fails, and changes nothing, only when every slot is in use.
    pub alloc_slot-AllocatedSlot : AllocatedSlot w p (alloc_slot p w)
    alloc_slot-AllocatedSlot =
        by_result (take_slot p 0 w.machine.as_slots) refl
          (take_slot-TakenSlot p 0 w.machine.as_slots)

abbrev pub freed_slot : AddressSpaceSlot → AddressSpaceSlot
freed_slot s = record s { used = false; pml4_phys = 0 }

zero_add : (k : ℕ) → k ≡ 0 + k
zero_add k = omega arith

first_handle :
    (i k : ℕ) (t : AddressSpaceSlot)
    → (t.used ≡ true → t.handle ≡ slot (i + 0))
    → t.used ≡ true
    → same_handle t.handle (slot (i + k)) ≡ (k == 0)
unfolding same_handle
first_handle i k t named busy = rw (named busy) (ground arith)

other_handle :
    (i k : ℕ) (t : AddressSpaceSlot)
    → (t.used ≡ true → t.handle ≡ slot (i + 0))
    → (t.used && same_handle t.handle (slot (i + suc k))) ≡ false
other_handle i k t named = elim (Bool-cases t.used) [
  | inl busy ↦ rw (busy, first_handle i (suc k) t named busy) (ground arith)
  | inr free ↦ rw free refl
]

tail-IsNamed :
    (i : ℕ) (t : AddressSpaceSlot) (slots : List AddressSpaceSlot)
    → IsNamed i (t ∷ slots)
    → IsNamed (i + 1) slots
tail-IsNamed i t slots named j u at busy = named (suc j) u at busy ∙ ap slot (omega arith)

pub drop_slot-set :
    (i k : ℕ) (slots : List AddressSpaceSlot) (s : AddressSpaceSlot)
    → IsNamed i slots
    → get_elem? slots k ≡ some s
    → s.used ≡ true
    → drop_slot (slot (i + k)) slots ≡ set slots k (freed_slot s)
unfolding drop_slot
drop_slot-set i k [] s named at busy = ground arith
drop_slot-set i zero (t ∷ slots) s named at busy =
    let same : t ≡ s = cc at in
    let busy_t : t.used ≡ true = rw same busy in
    rw (busy_t, first_handle i 0 t (named 0 t refl) busy_t) (ap (λ u. freed_slot u ∷ slots) same)
drop_slot-set i (suc k) (t ∷ slots) s named at busy =
    let shift : i + suc k ≡ i + 1 + k = omega arith in
    rw (other_handle i k t (named 0 t refl)) (
      ap (λ xs. t ∷ xs)
        (ap (λ n. drop_slot (slot n) slots) shift
          ∙ drop_slot-set (i + 1) k slots s (tail-IsNamed i t slots named) at busy))

module _ {A : Type 0} (w : World A) (named : IsNamed 0 w.machine.as_slots) (k : ℕ)
    (s : AddressSpaceSlot) (found : get_elem? w.machine.as_slots k ≡ some s)
    (busy : s.used ≡ true) where
  -- `free_slot` clears the slot that the handle points to, if it is in use, and nothing else.
  pub free_slot_lem :
      {E : Type 0}
      → free_slot {A = A} {E = E} (slot k) w
        ≡ ok tt (record w {
          machine = record w.machine { as_slots = set w.machine.as_slots k (freed_slot s) };
        })
  unfolding free_slot
  free_slot_lem =
      ap (λ xs. ok tt (record w { machine = record w.machine { as_slots = xs } }))
        (ap (λ n. drop_slot (slot n) w.machine.as_slots) (zero_add k)
          ∙ drop_slot-set 0 k w.machine.as_slots s named found busy)
