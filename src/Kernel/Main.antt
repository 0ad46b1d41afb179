-- ===== src/Kernel/Main.antt =====
-- kernel/src/kmain.rs: the start of the kernel, up to the point where interrupts are enabled. What it
-- prints on the way is left out.
pub mod Clock
pub mod Kept
pub mod Running
use rincos.Prelude.{ℕ, Bool, not, Option, none, some, if◌then◌else◌}
use rincos.Bootabi.{BootInfo}
use rincos.Hal.Time.{TimerOps}
use rincos.Hal.Interrupt.{InterruptHandler}
use rincos.X86.Machine.{Machine}
use rincos.X86.Run.{World, Run, ok, err, fault}
use rincos.X86.Cpuid.{CpuidCount, has_nx}
use rincos.X86.Descriptors.{Descriptors, Layout, init_core}
use rincos.X86.Start.{init_mmu, init_time_source, init_irqs}
use rincos.Vm.{BootPtAlloc}
use rincos.Kernel.Interrupts
use rincos.Kernel.Time
use rincos.Kernel.Vm

-- The statics of all parts. The handler that is registered reads the timer when it runs.
pub record Kernel : Type 0 where
  pub world : World (Option BootPtAlloc)
  pub descriptors : Descriptors
  pub handler : Option (TimerOps Machine) → Option (InterruptHandler Machine)
  pub timer : Option (TimerOps Machine)

module _ (boot : BootInfo) (cpuid : CpuidCount) where
  -- From `init_time_source` on.
  unfoldable pub start_time : Kernel → Option Kernel
  unfolding init_time_source init_irqs
  start_time k =
      let (has_time, m) = init_time_source cpuid k.world.machine in
      let (apic_ok, timer, m) = init_irqs cpuid boot has_time k.timer m in
      if not apic_ok
      then none
      else some (record k { world = record k.world { machine = Time.init timer m }; timer = timer })

  -- The result is none for a panic. `rsp0_top` is the stack pointer of `init_core`.
  unfoldable pub kmain : Layout → ℕ → Kernel → Option Kernel
  unfolding start_time
  kmain place rsp0_top k =
      let d = init_core place rsp0_top k.descriptors in
      let w = record k.world { machine = init_mmu boot (has_nx cpuid) k.world.machine } in
      let handler = λ (ops : Option (TimerOps Machine)). Interrupts.init ops (k.handler ops) in
      elim (Vm.init boot (has_nx cpuid) w) [
        | ok _ w1 ↦
            start_time (record { world = w1; descriptors = d; handler = handler; timer = k.timer })
        | err e w1 ↦ none
        | fault ↦ none
      ]
