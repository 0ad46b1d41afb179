-- ===== src/Kernel/Time.antt =====
-- kernel/src/time.rs: the periodic tick.
pub mod Laws
use rincos.Prelude.{ℕ, ◌/◌, Option, ◌==◌, if◌then◌else◌, saturating_mul, wrapping_add}
use rincos.Hal.Time.{TimerOps, now_ticks, frequency_hz, arm_one_shot}

abbrev pub tick_ns : ℕ
tick_ns = 10_000_000

module _ {S : Type 0} (timer : Option (TimerOps S)) where
  unfoldable pub arm_next_tick : S → S
  unfolding now_ticks frequency_hz arm_one_shot
  arm_next_tick s =
      let hz = frequency_hz timer s in
      if hz == 0
      then s
      else (let ticks = saturating_mul tick_ns hz / 1_000_000_000 in
          if ticks == 0
          then s
          else (let now = now_ticks timer s in arm_one_shot timer (wrapping_add now ticks) s))

  unfoldable pub init : S → S
  unfolding arm_next_tick
  init s = arm_next_tick s

  unfoldable pub on_timer_tick : S → S
  unfolding arm_next_tick
  on_timer_tick s = arm_next_tick s
