-- ===== src/Kernel/Interrupts/Ticks.antt =====
-- A timer interrupt, from arch/x86_64/src/interrupts/mod.rs to the counter's deadline register, which
-- kernel/src/time.rs sets again.
use rincos.Prelude.{
  ℕ, ◌+◌, ◌/◌, ◌%◌, ◌^◌, ◌≤◌, ◌≡◌, ◌∙◌, refl, arith, ap, Option, some, ltb, inl, inr, Bool-cases,
  if◌then◌else◌,
}
use rincos.Hal.Interrupt.{InterruptHandler}
use rincos.X86.Machine.{Machine, emit}
use rincos.X86.Msr.{wrmsr, ia32_tsc_deadline}
use rincos.X86.Msr.Laws.{wrmsr-msr}
use rincos.X86.Apic.{timer_vec, eoi, write, write_volatile, apic_msr}
use rincos.X86.Apic.Laws.{mode-cases}
use rincos.X86.Tsc.{tsc_timer}
use rincos.X86.Interrupts.{ExceptionContext, irq_dispatch}
use rincos.Kernel.Time.{on_timer_tick}
use rincos.Kernel.Time.Laws.{arm_next_tick_lem}
use rincos.Kernel.Interrupts.{init}
use rincos.Kernel.Interrupts.Laws.{work_of, irq_dispatch_lem}

-- The end of interrupt leaves the deadline and memory.
eoi-deadline :
    (m : Machine)
    → ((eoi m).msr ia32_tsc_deadline ≡ m.msr ia32_tsc_deadline) × ((eoi m).mem ≡ m.mem)
unfolding eoi write apic_msr write_volatile wrmsr emit
eoi-deadline m = elim (mode-cases m.apic_mode) [
  | inl e ↦ rw e (refl, refl)
  | inr (inl e) ↦ rw e (refl, refl)
  | inr (inr e) ↦ rw e (refl, refl)
]

module _ (before : Option (InterruptHandler Machine)) (ctx : ExceptionContext) (m : Machine) where
  -- The deadline register after a tick.
  abbrev pub next_deadline : ℕ
  next_deadline =
      if ltb m.tsc_hz 100 then m.msr ia32_tsc_deadline else (m.tsc + m.tsc_hz / 100) % 2 ^ 64

  abbrev armed : Machine
  armed =
      if ltb m.tsc_hz 100 then m else wrmsr ia32_tsc_deadline ((m.tsc + m.tsc_hz / 100) % 2 ^ 64) m

  tick_work :
      ctx.vector % 2 ^ 8 ≡ timer_vec
      → m.tsc_hz ≤ 10 ^ 12
      → work_of (some tsc_timer) m (ctx.vector % 2 ^ 8) ≡ armed
  unfolding on_timer_tick
  tick_work tick slow = rw tick (arm_next_tick_lem m slow)

  armed-deadline : (armed.msr ia32_tsc_deadline ≡ next_deadline) × (armed.mem ≡ m.mem)
  unfolding wrmsr emit
  armed-deadline = elim (Bool-cases (ltb m.tsc_hz 100)) [
    | inl unknown ↦ rw unknown (refl, refl)
    | inr known ↦ rw known (wrmsr-msr ia32_tsc_deadline _ ia32_tsc_deadline m ∙ omega arith, refl)
  ]

  -- With a counter of at most a terahertz, the dispatch of a timer interrupt returns and leaves memory
  -- alone. If the counter runs at a hundred hertz at least, the next deadline then lies a hundredth of
  -- a second of ticks ahead; if it is slower or its frequency unknown, the deadline is as it was.
  pub tick-deadline :
      ctx.vector % 2 ^ 8 ≡ timer_vec
      → m.tsc_hz ≤ 10 ^ 12
      → (m' : Machine) × (irq_dispatch (init (some tsc_timer) before) ctx m ≡ some m')
        × (m'.msr ia32_tsc_deadline ≡ next_deadline)
        × (m'.mem ≡ m.mem)
  tick-deadline tick slow = (
    eoi armed,
    irq_dispatch_lem (some tsc_timer) before ctx m ∙ ap (λ x. some (eoi x)) (tick_work tick slow),
    (eoi-deadline armed).0 ∙ armed-deadline.0,
    (eoi-deadline armed).1 ∙ armed-deadline.1,
  )
