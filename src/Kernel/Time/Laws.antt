-- ===== src/Kernel/Time/Laws.antt =====
-- The tick of kernel/src/time.rs on the time-stamp counter of arch/x86_64/src/tsc.rs.
use rincos.Prelude.{◌+◌, ◌/◌, ◌%◌, ◌^◌, ◌≤◌, ◌≡◌, arith, some, ltb, if◌then◌else◌}
use rincos.X86.Machine.{Machine}
use rincos.X86.Msr.{wrmsr, ia32_tsc_deadline}
use rincos.X86.Tsc.{tsc_timer, now, hz, frequency_hz, set_deadline_tsc}
use rincos.Kernel.Time.{arm_next_tick}

-- With a counter of at most a terahertz, the deadline is a hundredth of a second ahead of the
-- counter, in ticks rounded down and modulo 2^64. A counter below a hundred hertz, or of unknown
-- frequency, leaves the timer alone.
pub arm_next_tick_lem :
    (m : Machine)
    → m.tsc_hz ≤ 10 ^ 12
    → arm_next_tick (some tsc_timer) m ≡ (
        if ltb m.tsc_hz 100
        then m
        else wrmsr ia32_tsc_deadline ((m.tsc + m.tsc_hz / 100) % 2 ^ 64) m)
unfolding arm_next_tick now hz frequency_hz set_deadline_tsc
arm_next_tick_lem m slow = ground arith
