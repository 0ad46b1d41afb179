-- ===== src/X86/Start.antt =====
-- arch/x86_64/src/lib.rs: the steps of the platform's start on the processor's registers.
use rincos.Prelude.{◌^◌, Bool, false, Option, some, bit_and, bit_or, bit_not, if◌then◌else◌}
use rincos.Bootabi.{BootInfo}
use rincos.Hal.Time.{TimerOps}
use rincos.X86.Machine.{Machine}
use rincos.X86.Cpuid.{CpuidCount, has_x2apic}
use rincos.X86.Apic
use rincos.X86.Tsc
use rincos.X86.Mmu.Features.{init_features, set_cr0, set_cr4}

unfoldable pub enable_sse : Machine → Machine
enable_sse m =
    let cr0 = bit_and m.cr0 (bit_not (2 ^ 2)) in
    let cr0 = bit_and cr0 (bit_not (2 ^ 3)) in
    let cr0 = bit_or cr0 (2 ^ 1) in
    let cr0 = bit_or cr0 (2 ^ 5) in
    let m = set_cr0 cr0 m in
    let cr4 = bit_or m.cr4 (2 ^ 9) in let cr4 = bit_or cr4 (2 ^ 10) in set_cr4 cr4 m

-- `has_nx` is what CPUID answers; it is not asked.
unfoldable pub init_mmu : BootInfo → Bool → Machine → Machine
unfolding init_features
init_mmu boot has_nx m = init_features has_nx false (record m { hhdm_offset = boot.hhdm_offset })

unfoldable pub init_time_source : CpuidCount → Machine → Bool × Machine
init_time_source cpuid m = Tsc.init cpuid m

-- The timer that is registered.
unfoldable pub register_timer : Option (TimerOps Machine) → Option (TimerOps Machine)
register_timer timer = some Tsc.tsc_timer

unfoldable pub init_irqs :
    CpuidCount
    → BootInfo
    → Bool
    → Option (TimerOps Machine)
    → Machine
    → Bool × Option (TimerOps Machine) × Machine
unfolding register_timer
init_irqs cpuid boot has_time timer m =
    let (apic_ok, m') = Apic.init (has_x2apic cpuid) boot.hhdm_offset m in
    (apic_ok, (if has_time then register_timer timer else timer), m')
