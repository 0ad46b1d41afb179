-- ===== src/Tests/Devices.antt =====
-- The interrupt controller, the clock and the interrupts of arch/x86_64 on a small machine.
use rincos.Prelude.{
  ℕ, ◌≡◌, ◌≢◌, ◌<◌, ◌+◌, ◌/◌, ◌%◌, ◌^◌, refl, arith, none, some, Option, true, Bool, ltb,
  if◌then◌else◌, ◌==◌,
}
use rincos.Hal.Interrupt.{InterruptHandler, IrqFrame}
use rincos.X86.Machine.{Machine, ApicMode, unset}
use rincos.X86.Msr.{wrmsr, ia32_tsc_deadline}
use rincos.X86.Cpuid.{CpuidCount}
use rincos.X86.Cpuid.Laws.{IsCpuid}
use rincos.X86.Apic
use rincos.X86.Apic.{lapic_svr, lapic_timer_div, read, write, send_ipi_all_others, eoi}
use rincos.X86.Apic.Delivery.{Delivered, send_ipi_all_others-Delivered}
use rincos.X86.Tsc.{tsc_timer}
use rincos.X86.Interrupts.{ExceptionContext, irq_dispatch, exception_dispatch}
use rincos.Kernel.Time.{arm_next_tick}
use rincos.Kernel.Time.Laws.{arm_next_tick_lem}
use rincos.Kernel.Interrupts
use rincos.Kernel.Interrupts.Ticks.{next_deadline, tick-deadline}
use rincos.Kernel.Interrupts.{on_interrupt, kernel_interrupts}
use rincos.Kernel.Interrupts.Laws.{work_of, irq_dispatch_lem, Reported, exception_dispatch-Reported}
use rincos.Hal.Time.{TimerOps}
use rincos.Tests.Paging.{machine}

-- A crystal of 24 MHz and a ratio of 125, and an invariant counter.
abbrev pub cpuid : CpuidCount
cpuid leaf sub = record {
  eax = if leaf == 0x15 then 2 else (if leaf == 0x8000_0000 then 0x8000_0008 else 0x16);
  ebx = 250;
  ecx = 24_000_000;
  edx = 2 ^ 8;
}

cpuid-IsCpuid : IsCpuid cpuid
cpuid-IsCpuid leaf sub = (ground arith, omega arith, omega arith)

abbrev on_xapic : Machine
on_xapic = record machine {
  apic_mode = ApicMode.xapic;
  lapic_base_virt = 0xffff_8000_fee0_0000;
  tsc = 5_000;
  tsc_hz = 3_000_000_000;
}

xapic_on : on_xapic.apic_mode ≢ unset
xapic_on e = cc

-- The device is busy at the first read only.
abbrev pending : ℕ → Bool
pending i = i == 0

first_pending : (j : ℕ) → j < 1 → pending j ≡ true
first_pending j lt = ground (arith, lt)

vector_small : 0xe1 < 256
vector_small = omega arith

send_ipi_all_others-Delivered_example :
    Delivered pending 1 5 0xe1 on_xapic first_pending refl vector_small
      (send_ipi_all_others pending 5 0xe1 on_xapic)
send_ipi_all_others-Delivered_example =
    send_ipi_all_others-Delivered pending 1 5 0xe1 on_xapic first_pending refl vector_small

arm_next_tick_lem_example : arm_next_tick (some tsc_timer) on_xapic ≡ (
    if ltb on_xapic.tsc_hz 100
    then on_xapic
    else wrmsr ia32_tsc_deadline ((on_xapic.tsc + on_xapic.tsc_hz / 100) % 2 ^ 64) on_xapic)
arm_next_tick_lem_example = arm_next_tick_lem on_xapic (omega arith)

abbrev tick : ExceptionContext
tick = record { vector = 0xe0; error_code = 0 }

irq_dispatch_lem_example :
    irq_dispatch (Interrupts.init (some tsc_timer) none) tick on_xapic
    ≡ some (eoi (work_of (some tsc_timer) on_xapic (tick.vector % 2 ^ 8)))
irq_dispatch_lem_example = irq_dispatch_lem (some tsc_timer) none tick on_xapic

abbrev page_fault_context : ExceptionContext
page_fault_context = record { vector = 14; error_code = 2 }

exception_dispatch-Reported_example :
    (frame : IrqFrame) × Reported page_fault_context on_xapic frame
    × (exception_dispatch (some (kernel_interrupts none)) page_fault_context on_xapic
        ≡ InterruptHandler.on_interrupt (kernel_interrupts none) frame on_xapic)
    × (exception_dispatch none page_fault_context on_xapic ≡ some on_xapic)
    × ((ops : Option (TimerOps Machine)) → on_interrupt ops frame on_xapic ≡ none)
exception_dispatch-Reported_example =
    exception_dispatch-Reported (kernel_interrupts none) page_fault_context on_xapic

tick-deadline_example :
    (m' : Machine) × (irq_dispatch (Interrupts.init (some tsc_timer) none) tick on_xapic ≡ some m')
    × (m'.msr ia32_tsc_deadline ≡ next_deadline none tick on_xapic)
    × (m'.mem ≡ on_xapic.mem)
tick-deadline_example = tick-deadline none tick on_xapic refl (omega arith)
