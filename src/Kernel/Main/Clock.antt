-- ===== src/Kernel/Main/Clock.antt =====
-- The clock and the interrupt controller as kernel/src/kmain.rs starts them, with the first tick.
use mathlib.Core.Path.{subst}
use rincos.Prelude.{
  ℕ, ◌+◌, ◌/◌, ◌%◌, ◌^◌, ◌≤◌, ◌<◌, ◌≡◌, ◌∙◌, refl, sym, arith, ap, bit_or, bit_and, Bool, true,
  false, Option, none, some, inl, inr, ltb, Bool-cases, if◌then◌else◌,
}
use rincos.Bootabi.{BootInfo}
use rincos.Hal.Time.{TimerOps}
use rincos.X86.Machine.{Machine, emit, x2apic, xapic}
use rincos.X86.Msr.{wrmsr, rdmsr, ia32_apic_base, ia32_tsc_deadline}
use rincos.X86.Msr.Laws.{wrmsr-msr}
use rincos.X86.Cpuid.{CpuidCount, has_invariant_tsc, has_x2apic}
use rincos.X86.Apic
use rincos.X86.Apic.{
  apic_msr, read, lapic_addr, set_up, lapic_svr, lapic_timer_div, lapic_lvt_timer,
}
use rincos.X86.Apic.Laws.{mode-cases, IsReady, read-x2apic, read-xapic}
use rincos.X86.Apic.Init.{BaseEnabled, IsBase, init-IsReady, set_up-others}
use rincos.X86.Tsc
use rincos.X86.Start.{init_time_source, init_irqs, register_timer}
use rincos.Kernel.Time
use rincos.Kernel.Time.Laws.{arm_next_tick_lem}
use rincos.Kernel.Main.{Kernel, start_time}
use rincos.Kernel.Main.Kept.{counted_hz, source-Kept}

-- The deadline is no register of the interrupt controller.
read-deadline : (off v : ℕ) (m : Machine) → read off (wrmsr ia32_tsc_deadline v m) ≡ read off m
read-deadline off v m = elim (mode-cases m.apic_mode) [
  | inl e ↦ unfold read wrmsr emit in rw e refl
  | inr (inl e) ↦
      let same : m'.mmio (lapic_addr off m') ≡ m.mmio (lapic_addr off m) =
        unfold wrmsr emit lapic_addr in refl in
      let mode : m'.apic_mode ≡ xapic = unfold wrmsr emit in e in
      read-xapic off m' mode ∙ same ∙ sym (read-xapic off m e)
  | inr (inr e) ↦
      let mode : m'.apic_mode ≡ x2apic = unfold wrmsr emit in e in
      let same : m'.msr (apic_msr off) % 2 ^ 32 ≡ m.msr (apic_msr off) % 2 ^ 32 =
        unfold wrmsr emit apic_msr in ground arith in
      read-x2apic off m' mode ∙ same ∙ sym (read-x2apic off m e)
]
  where
    m' : Machine
    m' = wrmsr ia32_tsc_deadline v m

-- What a tick leaves, and what it leaves in the deadline register.
abbrev Ticked : ℕ → Machine → Machine → Type 0
Ticked deadline m m' =
    (m'.msr ia32_tsc_deadline ≡ deadline)
    × (m'.msr ia32_apic_base ≡ m.msr ia32_apic_base)
    × (m'.lapic_base_virt ≡ m.lapic_base_virt)
    × (m'.hhdm_offset ≡ m.hhdm_offset)
    × (m'.mem ≡ m.mem)
    × (m'.apic_mode ≡ m.apic_mode)
    × (IsReady m → IsReady m')

armed-Ticked : (v : ℕ) (m : Machine) → v < 2 ^ 64 → Ticked v m (wrmsr ia32_tsc_deadline v m)
unfolding wrmsr emit
armed-Ticked v m small = (
  wrmsr-msr ia32_tsc_deadline v ia32_tsc_deadline m ∙ omega (arith, small),
  refl,
  refl,
  refl,
  refl,
  refl,
  λ ready. record {
    on = ready.on;
    svr = read-deadline lapic_svr v m ∙ ready.svr;
    divider = read-deadline lapic_timer_div v m ∙ ready.divider;
    timer = read-deadline lapic_lvt_timer v m ∙ ready.timer;
  },
)

idle-Ticked : (m : Machine) → Ticked (m.msr ia32_tsc_deadline) m m
idle-Ticked m = (refl, refl, refl, refl, refl, refl, λ ready. ready)

-- The deadline that the first tick sets, on a counter of `hz` hertz.
abbrev pub first_deadline : ℕ → Machine → ℕ
first_deadline hz m = if ltb hz 100 then m.msr ia32_tsc_deadline else (m.tsc + hz / 100) % 2 ^ 64

some_timer-Ticked :
    (m : Machine)
    → m.tsc_hz ≤ 10 ^ 12
    → Ticked (first_deadline m.tsc_hz m) m (Time.init (some Tsc.tsc_timer) m)
unfolding Time.init
some_timer-Ticked m slow = elim (Bool-cases (ltb m.tsc_hz 100)) [
  | inl unknown ↦ rw (arm_next_tick_lem m slow, unknown) (idle-Ticked m)
  | inr known ↦
      rw (arm_next_tick_lem m slow, known)
        (armed-Ticked ((m.tsc + m.tsc_hz / 100) % 2 ^ 64) m (omega arith))
]

no_timer-Ticked :
    (m : Machine) → m.tsc_hz ≡ 0 → Ticked (first_deadline m.tsc_hz m) m (Time.init none m)
unfolding Time.init Time.arm_next_tick
no_timer-Ticked m unknown =
    subst (λ d. Ticked d m m) (sym (ap (λ hz. first_deadline hz m) unknown)) (idle-Ticked m)

module _ (cpuid : CpuidCount) where
  -- The timer that is registered.
  abbrev pub clock : Option (TimerOps Machine)
  clock = if has_invariant_tsc cpuid then some Tsc.tsc_timer else none

  clock-Ticked :
      (m : Machine)
      → m.tsc_hz ≡ counted_hz cpuid
      → counted_hz cpuid ≤ 10 ^ 12
      → Ticked (first_deadline m.tsc_hz m) m (Time.init clock m)
  clock-Ticked m counted slow = elim (Bool-cases (has_invariant_tsc cpuid)) [
    | inl there ↦ rw there (some_timer-Ticked m (omega (arith, counted, slow)))
    | inr gone ↦
        let zero_hz : counted_hz cpuid ≡ 0 = rw gone refl in
        rw gone (no_timer-Ticked m (counted ∙ zero_hz))
  ]

-- What the start of the interrupt controller leaves.
apic-Kept :
    (b : Bool) (h : ℕ) (m : Machine)
    → ((Apic.init b h m).1.msr ia32_tsc_deadline ≡ m.msr ia32_tsc_deadline)
      × ((Apic.init b h m).1.tsc ≡ m.tsc)
      × ((Apic.init b h m).1.tsc_hz ≡ m.tsc_hz)
      × ((Apic.init b h m).1.hhdm_offset ≡ m.hhdm_offset)
unfolding Apic.init wrmsr emit
apic-Kept true h m =
    let new = bit_or (bit_or (rdmsr ia32_apic_base m) (2 ^ 11)) (2 ^ 10) in
    let others =
      set_up-others (record (wrmsr ia32_apic_base new m) { apic_mode = x2apic }) ia32_tsc_deadline
        (omega arith) in
    (others.0, others.3, others.4, others.2)
apic-Kept false h m =
    let new = bit_or (rdmsr ia32_apic_base m) (2 ^ 11) in
    let at = (bit_and (rdmsr ia32_apic_base m) 0xffff_f000 + h) % 2 ^ 64 in
    let others =
      set_up-others
        (record (wrmsr ia32_apic_base new m) { apic_mode = xapic; lapic_base_virt = at })
        ia32_tsc_deadline (omega arith) in
    (others.0, others.3, others.4, others.2)

of_false : (X Y : Type 0) (b : Bool) → b ≡ false → (if b then X else Y) → Y
of_false X Y true e x = absurd (cc e)
of_false X Y false e y = y

-- The interrupt controller and the timer, started from the machine `m`: the controller is ready, and
-- enabled in the mode that the processor has, and the first tick is armed.
abbrev pub ClockStarted : CpuidCount → ℕ → Machine → Machine → Type 0
ClockStarted cpuid h m m' =
    IsReady m'
    × (m'.apic_mode ≡ (if has_x2apic cpuid then x2apic else xapic))
    × BaseEnabled (has_x2apic cpuid) (m.msr ia32_apic_base) (m'.msr ia32_apic_base)
    × (has_x2apic cpuid ≡ false → IsBase h (m.msr ia32_apic_base) m'.lapic_base_virt)
    × (m'.msr ia32_tsc_deadline ≡ first_deadline (counted_hz cpuid) m)

module _ (boot : BootInfo) (cpuid : CpuidCount) where
  abbrev pub Clocked : Kernel → Option Kernel → Type 0
  Clocked k none = ⊥
  Clocked k (some k') =
      (k'.timer ≡ clock cpuid)
      × (k'.world.machine.mem ≡ k.world.machine.mem)
      × (k'.world.machine.hhdm_offset ≡ k.world.machine.hhdm_offset)
      × (k'.world.pt_alloc ≡ k.world.pt_alloc)
      × (k'.handler ≡ k.handler)
      × (k'.descriptors ≡ k.descriptors)
      × ClockStarted cpuid boot.hhdm_offset k.world.machine k'.world.machine

  module _ (k : Kernel) (slow : counted_hz cpuid ≤ 10 ^ 12) where
    abbrev counting : Machine
    counting = (init_time_source cpuid k.world.machine).1

    abbrev controlled : Machine
    controlled = (Apic.init (has_x2apic cpuid) boot.hhdm_offset counting).1

    started :
        ClockStarted cpuid boot.hhdm_offset k.world.machine (Time.init (clock cpuid) controlled)
        × ((Time.init (clock cpuid) controlled).mem ≡ counting.mem)
        × ((Time.init (clock cpuid) controlled).hhdm_offset ≡ k.world.machine.hhdm_offset)
    started =
        let ((base, deadline, tsc, hhdm), hz, _, _) = source-Kept cpuid k.world.machine in
        let (deadline', tsc', hz', hhdm') =
          apic-Kept (has_x2apic cpuid) boot.hhdm_offset counting in
        let (_, (ready, mem', mode, enabled, virt)) =
          init-IsReady (has_x2apic cpuid) boot.hhdm_offset counting in
        let m' = Time.init (clock cpuid) controlled in
        let (tick, base2, virt2, hhdm2, mem2, mode2, still) =
          clock-Ticked cpuid controlled (hz' ∙ hz) slow in
        (
          (
            still ready,
            mode2 ∙ mode,
            subst (λ b. BaseEnabled (has_x2apic cpuid) b (m'.msr ia32_apic_base)) base
                (subst (λ b. BaseEnabled (has_x2apic cpuid) (counting.msr ia32_apic_base) b)
                  (sym base2) enabled),
            (λ by_memory.
                subst (λ b. IsBase boot.hhdm_offset b m'.lapic_base_virt) base
                  (subst (λ v. IsBase boot.hhdm_offset (counting.msr ia32_apic_base) v) (sym virt2)
                    (of_false _ _ (has_x2apic cpuid) by_memory virt))),
            tick ∙ deadline_eq (hz' ∙ hz) (tsc' ∙ tsc) (deadline' ∙ deadline),
          ),
          mem2 ∙ mem',
          hhdm2 ∙ hhdm' ∙ hhdm,
        )
      where
        deadline_eq :
            controlled.tsc_hz ≡ counted_hz cpuid
            → controlled.tsc ≡ k.world.machine.tsc
            → controlled.msr ia32_tsc_deadline ≡ k.world.machine.msr ia32_tsc_deadline
            → first_deadline controlled.tsc_hz controlled
              ≡ first_deadline (counted_hz cpuid) k.world.machine
        deadline_eq hz tsc deadline = rw (hz, tsc, deadline) refl

    pub clocked : k.timer ≡ none → Clocked k (start_time boot cpuid k)
    unfolding start_time init_irqs register_timer
    clocked fresh =
        let (done, mem, hhdm) = started in
        let (_, _, same_mem, has_time) = source-Kept cpuid k.world.machine in
        rw (apic_ok, has_time, fresh) (refl, mem ∙ same_mem, hhdm, refl, refl, refl, done)
      where
        apic_ok : (Apic.init (has_x2apic cpuid) boot.hhdm_offset counting).0 ≡ true
        apic_ok = (init-IsReady (has_x2apic cpuid) boot.hhdm_offset counting).0
