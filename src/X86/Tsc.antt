-- ===== src/X86/Tsc.antt =====
-- arch/x86_64/src/tsc.rs: the time-stamp counter as the kernel's clock and timer.
use rincos.Prelude.{
  ℕ, ◌/◌, Bool, true, false, not, Option, none, some, ◌==◌, if◌then◌else◌, saturating_mul,
  wrapping_add,
}
use rincos.Hal.Time.{TimerOps}
use rincos.X86.Machine.{Machine}
use rincos.X86.Msr.{wrmsr, ia32_tsc_deadline}
use rincos.X86.Cpuid.{CpuidCount, has_invariant_tsc, tsc_hz}

unfoldable pub init : CpuidCount → Machine → Bool × Machine
init cpuid m =
    if not (has_invariant_tsc cpuid)
    then (false, record m { tsc_hz = 0 })
    else (true, record m { tsc_hz = elim (tsc_hz cpuid) [ none ↦ 0 | some hz ↦ hz ] })

unfoldable pub hz : Machine → Option ℕ
hz m = if m.tsc_hz == 0 then none else some m.tsc_hz

unfoldable pub now : Machine → ℕ
now m = m.tsc

unfoldable pub ticks_from_ns : ℕ → Machine → Option ℕ
unfolding hz
ticks_from_ns ns m = elim (hz m) [
  | none ↦ none
  | some h ↦ some (saturating_mul ns h / 1_000_000_000)
]

unfoldable pub set_deadline_tsc : ℕ → Machine → Machine
set_deadline_tsc abs_tsc m = wrmsr ia32_tsc_deadline abs_tsc m

unfoldable pub set_deadline_after_ticks : ℕ → Machine → Machine
unfolding now set_deadline_tsc
set_deadline_after_ticks ticks m = set_deadline_tsc (wrapping_add (now m) ticks) m

unfoldable pub frequency_hz : Machine → ℕ
unfolding hz
frequency_hz m = elim (hz m) [ none ↦ 0 | some h ↦ h ]

-- `TscTimer` as a timer.
abbrev pub tsc_timer : TimerOps Machine
tsc_timer = record { now_ticks = now; frequency_hz = frequency_hz; arm_one_shot = set_deadline_tsc }
