-- ===== src/Kernel/Main/Running.antt =====
-- The kernel of kernel/src/kmain.rs once it runs.
use mathlib.Core.Path.{subst}
use rincos.Prelude.{
  ℕ, ◌%◌, ◌^◌, ◌<◌, ◌≤◌, ◌≡◌, ◌⊎◌, ◌∙◌, refl, sym, ap, Bool, true, false, Option, none, some, inl,
  inr,
}
use rincos.Bootabi.{BootInfo}
use rincos.X86.Machine.{Machine, emit}
use rincos.X86.Run.{World, Run, ok, err, fault}
use rincos.X86.Cpuid.{CpuidCount, has_nx, has_x2apic}
use rincos.X86.Apic.{eoi}
use rincos.X86.Descriptors.{Layout, init_core}
use rincos.X86.Interrupts.{ExceptionContext, irq_dispatch}
use rincos.X86.Mmu.Entry.{frame_of}
use rincos.X86.Mmu.Features.{IsNxSound, init_features, init_features-IsNxSound}
use rincos.X86.Start.{init_mmu}
use rincos.Vm.{BootPtAlloc, new}
use rincos.Kernel.Interrupts
use rincos.Kernel.Interrupts.Laws.{work_of, irq_dispatch_lem}
use rincos.Kernel.Vm
use rincos.Kernel.Vm.Laws.{Started, init-Started}
use rincos.Kernel.Main.{Kernel, start_time, kmain}
use rincos.Kernel.Main.Kept.{Kept, Returned, counted_hz, init_mmu-Kept, vm_init-Kept}
use rincos.Kernel.Main.Clock.{clock, first_deadline, ClockStarted, Clocked, clocked}
use rincos.X86.Apic.Init.{BaseEnabled, IsBase}
use rincos.X86.Msr.{ia32_apic_base, ia32_tsc_deadline}
use rincos.X86.Descriptors.{is_canonical}
use rincos.X86.Descriptors.Core.{Loaded, init_core-Loaded}

-- `init_mmu` leaves the root, the memory and what is known of the kernel's address space.
init_mmu_lem :
    (boot : BootInfo) (nx : Bool) (m : Machine)
    → ((init_mmu boot nx m).mem ≡ m.mem)
      × ((init_mmu boot nx m).cr3 ≡ m.cr3)
      × ((init_mmu boot nx m).kas_handle ≡ m.kas_handle)
unfolding init_mmu init_features emit
init_mmu_lem boot nx m = (refl, refl, refl)

init_mmu-IsNxSound : (boot : BootInfo) (nx : Bool) (m : Machine) → IsNxSound (init_mmu boot nx m)
unfolding init_mmu
init_mmu-IsNxSound boot nx m =
    init_features-IsNxSound nx false (record m { hhdm_offset = boot.hhdm_offset })

module _ (boot : BootInfo) (cpuid : CpuidCount) where
  module _ (place : Layout) (rsp0_top : ℕ) (k : Kernel) where
    -- How the start may go.
    abbrev pub Running : Option Kernel → Type 0
    Running none =
        (new boot ≡ none)
        ⊎ ((k.world.machine.kas_handle ≡ none) × (frame_of k.world.machine.cr3 ≡ 0))
    Running (some k') =
        (k'.world.pt_alloc ≡ new boot)
        × (k'.world.machine.mem ≡ k.world.machine.mem)
        × (k'.world.machine.hhdm_offset ≡ boot.hhdm_offset)
        × (k'.timer ≡ clock cpuid)
        × ClockStarted cpuid boot.hhdm_offset k.world.machine k'.world.machine
        × Loaded place rsp0_top k.descriptors k'.descriptors
        × ((ctx : ExceptionContext) (m : Machine)
            → irq_dispatch (k'.handler k'.timer) ctx m
              ≡ some (eoi (work_of k'.timer m (ctx.vector % 2 ^ 8))))

    begun : World (Option BootPtAlloc)
    begun = record k.world { machine = init_mmu boot (has_nx cpuid) k.world.machine }

    after_vm : World (Option BootPtAlloc) → Kernel
    after_vm w1 = record {
      world = w1;
      descriptors = init_core place rsp0_top k.descriptors;
      handler = λ ops. Interrupts.init ops (k.handler ops);
      timer = k.timer;
    }

    -- The clock as started from the machine that memory has been started on.
    from_cold :
        (w1 : World (Option BootPtAlloc)) (m' : Machine)
        → Kept begun.machine w1.machine
        → ClockStarted cpuid boot.hhdm_offset w1.machine m'
        → ClockStarted cpuid boot.hhdm_offset k.world.machine m'
    unfolding begun
    from_cold w1 m' (base, deadline, tsc, _) (ready, mode, enabled, virt, first) =
        let (base0, deadline0, tsc0, _) = init_mmu-Kept boot (has_nx cpuid) k.world.machine in
        (
          ready,
          mode,
          subst (λ b. BaseEnabled (has_x2apic cpuid) b (m'.msr ia32_apic_base)) (base ∙ base0)
              enabled,
          (λ by_memory.
              subst (λ b. IsBase boot.hhdm_offset b m'.lapic_base_virt) (base ∙ base0)
                (virt by_memory)),
          first ∙ same_first (deadline ∙ deadline0) (tsc ∙ tsc0),
        )
      where
        same_first :
            w1.machine.msr ia32_tsc_deadline ≡ k.world.machine.msr ia32_tsc_deadline
            → w1.machine.tsc ≡ k.world.machine.tsc
            → first_deadline (counted_hz cpuid) w1.machine
              ≡ first_deadline (counted_hz cpuid) k.world.machine
        same_first deadline tsc = rw (deadline, tsc) refl

    direct_map : begun.machine.hhdm_offset ≡ boot.hhdm_offset
    unfolding begun
    direct_map = (init_mmu-Kept boot (has_nx cpuid) k.world.machine).3

    running :
        Loaded place rsp0_top k.descriptors (init_core place rsp0_top k.descriptors)
        → (w1 : World (Option BootPtAlloc)) (o : Option Kernel) → Started boot begun (ok tt w1)
        → Kept begun.machine w1.machine
        → Clocked boot cpuid (after_vm w1) o
        → Running o
    unfolding begun after_vm
    running loaded w1 none started kept bad = absurd bad
    running loaded w1 (some k') (_, alloc, _, mem, _, _) kept
          (timer, mem2, hhdm, alloc2, handler, descriptors, clock_started) =
        (
          alloc2 ∙ alloc,
          mem2 ∙ mem ∙ (init_mmu_lem boot (has_nx cpuid) k.world.machine).0,
          hhdm ∙ kept.3 ∙ direct_map,
          timer,
          from_cold w1 k'.world.machine kept clock_started,
          subst (Loaded place rsp0_top k.descriptors) (sym descriptors) loaded,
          λ ctx m. rw handler (irq_dispatch_lem k'.timer (k.handler k'.timer) ctx m),
        )

    panic :
        (m : Machine)
        → (m.mem ≡ k.world.machine.mem)
          × (m.cr3 ≡ k.world.machine.cr3)
          × (m.kas_handle ≡ k.world.machine.kas_handle)
        → (new boot ≡ none) ⊎ ((m.kas_handle ≡ none) × (frame_of m.cr3 ≡ 0))
        → Running none
    panic m same (inl gone) = inl gone
    panic m (_, cr3, handle) (inr (none_here, zero_root)) =
        inr (sym handle ∙ none_here, ap frame_of (sym cr3) ∙ zero_root)

    module _ (slow : counted_hz cpuid ≤ 10 ^ 12) (fresh : k.timer ≡ none)
        (loaded : Loaded place rsp0_top k.descriptors
          (init_core place rsp0_top k.descriptors)) where
      by_vm :
          (r : Run (Option BootPtAlloc) ⊥ (Unit {0}))
          → Started boot begun r
          → Returned (Kept begun.machine) r
          → Running (elim r [
            | ok _ w1 ↦ start_time boot cpuid (after_vm w1)
            | err e w1 ↦ none
            | fault ↦ none
          ])
      by_vm (ok _ w1) started kept =
          running loaded w1 _ started kept
            (clocked boot cpuid (after_vm w1) slow (unfold after_vm in fresh))
      by_vm (err e w1) bad kept = absurd bad
      by_vm fault why kept =
          unfold begun in
          panic (init_mmu boot (has_nx cpuid) k.world.machine)
            (init_mmu_lem boot (has_nx cpuid) k.world.machine) why

    -- On a processor whose counter runs at most at a terahertz, and with the task state segment at a
    -- canonical address, `kmain` comes to the point where interrupts are enabled. Then the descriptors
    -- and gates are loaded, the allocator is the one of the boot memory map, the direct map is the boot
    -- loader's, memory is as it was, the interrupt controller is ready and enabled, the timer is there
    -- exactly if the counter is invariant, its first deadline is armed if the counter is known to run
    -- at a hundred hertz at least, and with the handler that is registered every interrupt does the
    -- work of its vector. `kmain` panics only without a usable memory map or without tables in use.
    pub kmain-Running :
        place.tss_addr < 2 ^ 64
        → is_canonical place.tss_addr ≡ true
        → counted_hz cpuid ≤ 10 ^ 12
        → k.timer ≡ none
        → Running (kmain boot cpuid place rsp0_top k)
    unfolding kmain begun init_mmu after_vm init_core
    kmain-Running word canonical slow fresh =
        by_vm slow fresh (init_core-Loaded place rsp0_top k.descriptors word canonical)
          (Vm.init boot (has_nx cpuid) begun)
          (init-Started boot (has_nx cpuid) begun
            (init_mmu-IsNxSound boot (has_nx cpuid) k.world.machine))
          (vm_init-Kept boot (has_nx cpuid) begun)
