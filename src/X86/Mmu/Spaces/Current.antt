-- ===== src/X86/Mmu/Spaces/Current.antt =====
-- `init_kernel`, `activate` and `current` of arch/x86_64/src/mmu.rs: which address space the processor is in.
use rincos.Prelude.{
  ℕ, ◌<◌, ◌≡◌, ◌≢◌, ◌⊎◌, ◌∙◌, arith, refl, ap, false, Option, none, some, List, inl, inr,
  Bool-cases, Option-cases, ◌==◌, ==_iff,
}
use rincos.Hal.Mmu.{PhysAddr, MapError, invalid_args, AddressSpace, kernel}
use rincos.X86.Machine.{Machine, Event, update, emit, mov_cr3}
use rincos.X86.Run.{World, Run, ok, err, fault}
use rincos.X86.Msr.{rdmsr}
use rincos.X86.Apic.{cpu_id, read, lapic_addr}
use rincos.X86.Mmu.Entry.{frame_of, max_cpus}
use rincos.X86.Mmu.Page.{root_of, as_x86}
use rincos.X86.Mmu.Requests.Keep.{root_of-same}
use rincos.X86.Mmu.Spaces.{cpu_index, set_current, init_kernel, activate, current}

pub cpu_index_bound : (m : Machine) → cpu_index m < max_cpus
unfolding cpu_index
cpu_index_bound m = ground arith

update_ne :
    (f : ℕ → Option AddressSpace) (k i : ℕ) (o : Option AddressSpace) → i ≢ k → update f k o i ≡ f i
update_ne f k i o ne = ground (arith, ne)

-- The index comes from the interrupt controller alone.
cpu_index-other :
    (m : Machine) (cr3 : ℕ) (events : List Event) (kas : Option PhysAddr)
    (handle : Option AddressSpace) (slots : ℕ → Option AddressSpace)
    → cpu_index (record m {
      cr3 = cr3;
      events = events;
      kas = kas;
      kas_handle = handle;
      current_per_cpu = slots;
    })
      ≡ cpu_index m
unfolding cpu_index cpu_id read lapic_addr rdmsr
cpu_index-other m cr3 events kas handle slots = refl

module _ {A : Type 0} where
  -- The address space is the processor's own from now on, and those of the others stay.
  abbrev pub IsCurrent : AddressSpace → World A → World A → Type 0
  IsCurrent aspace w w' =
      (current {E = ⊥} w' ≡ ok aspace w')
      × ((i : ℕ)
          → i ≢ cpu_index w.machine
          → w'.machine.current_per_cpu i ≡ w.machine.current_per_cpu i)

  -- What `init_kernel` does: the first call takes the tables in use as the kernel's address space,
  -- if there are any, and later calls return what the first has set.
  abbrev pub KernelSpace : World A → Run A MapError AddressSpace → Type 0
  KernelSpace w (ok aspace w') =
      (w'.machine.kas_handle ≡ some aspace)
      × (((w.machine.kas_handle ≡ some aspace) × (w' ≡ w))
          ⊎ ((w.machine.kas_handle ≡ none)
              × (root_of w'.machine aspace ≡ some (frame_of w.machine.cr3))
              × (frame_of w.machine.cr3 ≢ 0)
              × IsCurrent aspace w w'
              × (w'.machine.mem ≡ w.machine.mem)))
  KernelSpace w (err e w') =
      (e ≡ invalid_args) × (w' ≡ w) × (w.machine.kas_handle ≡ none) × (frame_of w.machine.cr3 ≡ 0)
  KernelSpace w fault = ⊥

  current_value :
      (w' : World A) (o : Option AddressSpace)
      → w'.machine.current_per_cpu (cpu_index w'.machine) ≡ o
      → current {E = ⊥} w' ≡ elim o [ none ↦ fault | some a ↦ ok a w' ]
  unfolding current
  current_value w' o e = rw (e, current) refl

  current_set :
      (aspace : AddressSpace) (w' : World A) (slots : ℕ → Option AddressSpace) (k : ℕ)
      → w'.machine.current_per_cpu ≡ update slots k (some aspace)
      → cpu_index w'.machine ≡ k
      → current {E = ⊥} w' ≡ ok aspace w'
  current_set aspace w' slots k set_here here =
      current_value w' (some aspace) (ap (λ f. f (cpu_index w'.machine)) set_here ∙ at_self)
    where
      at_self : update slots k (some aspace) (cpu_index w'.machine) ≡ some aspace
      at_self = rw ((==_iff (cpu_index w'.machine) k).1 here) refl

  entered : AddressSpace → Machine → World A → World A
  entered aspace m w = record w { machine = set_current aspace m }

  entered-IsCurrent :
      (aspace : AddressSpace) (m : Machine) (w : World A)
      → m.current_per_cpu ≡ w.machine.current_per_cpu
      → cpu_index m ≡ cpu_index w.machine
      → IsCurrent aspace w (entered aspace m w)
  unfolding entered set_current
  entered-IsCurrent aspace m w same here = (
    current_set aspace (entered aspace m w) m.current_per_cpu (cpu_index m) refl
        (cpu_index-other m _ _ _ _ _),
    λ i ne.
        update_ne m.current_per_cpu (cpu_index m) i (some aspace) (λ e. ne (e ∙ here))
        ∙ ap (λ f. f i) same,
  )

  -- The first call makes the tables in use, if there are any, the kernel's address space and the
  -- current one. Later calls return the handle that the first has set, and change nothing.
  pub init_kernel-KernelSpace : (w : World A) → KernelSpace w (init_kernel w)
  unfolding init_kernel frame_of root_of entered set_current
  init_kernel-KernelSpace w = elim (Option-cases w.machine.kas_handle) [
    | inr (a, have) ↦ rw (have, KernelSpace) (have, inl (have, refl))
    | inl first ↦ elim (Bool-cases (frame_of w.machine.cr3 == 0)) [
      | inl zero_root ↦
          rw (first, zero_root, KernelSpace) (refl, refl, first, (==_iff _ _).0 zero_root)
      | inr root_here ↦
          rw (first, root_here, KernelSpace)
            (
              refl,
              inr (
                first,
                refl,
                not_zero root_here,
                entered-IsCurrent kernel (begun (frame_of w.machine.cr3)) w refl
                    (cpu_index-other w.machine _ _ _ _ _),
                refl,
              ),
            )
    ]
  ]
    where
      begun : ℕ → Machine
      begun root = record w.machine { kas = some root; kas_handle = some kernel }

      not_zero : (frame_of w.machine.cr3 == 0) ≡ false → frame_of w.machine.cr3 ≢ 0
      not_zero ne e = ground (arith, ne, e)

  -- What else `init_kernel` leaves.
  abbrev pub Begun : World A → Run A MapError AddressSpace → Type 0
  Begun w (ok _ w') =
      (w'.pt_alloc ≡ w.pt_alloc)
      × (w'.machine.mem ≡ w.machine.mem)
      × (w'.machine.cr3 ≡ w.machine.cr3)
      × (w'.machine.msr ≡ w.machine.msr)
      × (w'.machine.nxe_enabled ≡ w.machine.nxe_enabled)
      × (w.machine.kas_handle ≡ none → w'.machine.kas ≡ some (frame_of w.machine.cr3))
  Begun w (err e w') = (w.machine.kas_handle ≡ none) × (frame_of w.machine.cr3 ≡ 0)
  Begun w fault = ⊥

  pub init_kernel-Begun : (w : World A) → Begun w (init_kernel w)
  unfolding init_kernel frame_of set_current
  init_kernel-Begun w = elim (Option-cases w.machine.kas_handle) [
    | inr (a, have) ↦ rw (have, Begun) (refl, refl, refl, refl, refl, λ e. absurd (cc (have, e)))
    | inl first ↦ elim (Bool-cases (frame_of w.machine.cr3 == 0)) [
      | inl zero_root ↦ rw (first, zero_root, Begun) (first, (==_iff _ _).0 zero_root)
      | inr root_here ↦ rw (first, root_here, Begun) (refl, refl, refl, refl, refl, λ _. refl)
    ]
  ]

  -- `activate` of an address space loads the frame of its root and makes it the processor's current
  -- one; those of the other processors stay.
  pub activate-IsCurrent :
      (aspace : AddressSpace) (w : World A) (root : PhysAddr)
      → root_of w.machine aspace ≡ some root
      → (w' : World A) × (activate {E = ⊥} aspace w ≡ ok tt w')
        × IsCurrent aspace w w'
        × (w'.machine.cr3 ≡ frame_of root)
        × (root_of w'.machine aspace ≡ some root)
  activate-IsCurrent aspace w root known = (
    entered aspace m w,
    activated,
    entered-IsCurrent aspace m w (unfold emit in refl)
        (unfold emit in cpu_index-other w.machine _ _ _ _ _),
    unfold entered set_current emit in refl,
    root_kept,
  )
    where
      m : Machine
      m = record (emit (mov_cr3 (frame_of root)) w.machine) { cr3 = frame_of root }

      activated : activate {E = ⊥} aspace w ≡ ok tt (entered aspace m w)
      activated = unfold activate entered emit set_current frame_of in rw (known, as_x86) refl

      root_kept : root_of (entered aspace m w).machine aspace ≡ some root
      root_kept =
          unfold entered set_current emit in
          root_of-same w.machine (entered aspace m w).machine aspace refl refl ∙ known
