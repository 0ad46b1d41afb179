-- ===== src/Hal/Time.antt =====
-- crates/hal/src/time.rs: the timer that is registered, if one is.
use rincos.Prelude.{ℕ, Option, none, some}

-- The trait, on a state that the timer reads and changes.
pub record TimerOps (S : Type 0) : Type 0 where
  pub now_ticks : S → ℕ
  pub frequency_hz : S → ℕ
  pub arm_one_shot : ℕ → S → S

module _ {S : Type 0} (timer : Option (TimerOps S)) where
  unfoldable pub now_ticks : S → ℕ
  now_ticks s = elim timer [ none ↦ 0 | some t ↦ t.now_ticks s ]

  unfoldable pub frequency_hz : S → ℕ
  frequency_hz s = elim timer [ none ↦ 0 | some t ↦ t.frequency_hz s ]

  unfoldable pub arm_one_shot : ℕ → S → S
  arm_one_shot deadline_ticks s = elim timer [ none ↦ s | some t ↦ t.arm_one_shot deadline_ticks s ]
