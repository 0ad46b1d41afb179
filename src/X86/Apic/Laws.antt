-- ===== src/X86/Apic/Laws.antt =====
-- The local interrupt controller of arch/x86_64/src/apic.rs: its registers and their set-up.
use rincos.Prelude.{
  ℕ, ◌+◌, ◌%◌, ◌^◌, ◌<◌, ◌≡◌, ◌≢◌, ◌⊎◌, ◌∙◌, arith, refl, sym, ◌==◌, if◌then◌else◌, inl, inr,
}
use rincos.X86.Machine.{Machine, ApicMode, unset, xapic, x2apic, emit}
use rincos.X86.Msr.{wrmsr}
use rincos.X86.Msr.Laws.{rdmsr_lem, wrmsr-msr}
use rincos.X86.Apic.{
  lapic_svr, lapic_lvt_timer, lapic_timer_div, timer_vec, apic_msr, lapic_addr, read,
  write_volatile, write, set_up,
}

-- The offset of a register.
abbrev pub IsOffset : ℕ → Type 0
IsOffset off = (off % 16 ≡ 0) × (off < 4096)

same_msr : (a b : ℕ) → IsOffset a → IsOffset b → (apic_msr a == apic_msr b) ≡ (a == b)
unfolding apic_msr
same_msr a b ha hb = ground arith

same_addr :
    (m : Machine) (a b : ℕ)
    → IsOffset a
    → IsOffset b
    → (lapic_addr a m == lapic_addr b m) ≡ (a == b)
unfolding lapic_addr
same_addr m a b ha hb = ground arith

pub read-x2apic :
    (off : ℕ) (m : Machine) → m.apic_mode ≡ x2apic → read off m ≡ m.msr (apic_msr off) % 2 ^ 32
unfolding read
read-x2apic off m mode = ground (arith, mode, rdmsr_lem (apic_msr off) m)

pub read-xapic :
    (off : ℕ) (m : Machine) → m.apic_mode ≡ xapic → read off m ≡ m.mmio (lapic_addr off m)
unfolding read
read-xapic off m mode = rw mode refl

write-x2apic :
    (off val : ℕ) (m : Machine)
    → m.apic_mode ≡ x2apic
    → write off val m ≡ wrmsr (apic_msr off) val m
unfolding write
write-x2apic off val m mode = ground arith

write-xapic :
    (off val : ℕ) (m : Machine)
    → m.apic_mode ≡ xapic
    → write off val m ≡ write_volatile (lapic_addr off m) val m
unfolding write
write-xapic off val m mode = ground arith

pub mode-cases : (a : ApicMode) → (a ≡ unset) ⊎ (a ≡ xapic) ⊎ (a ≡ x2apic)
mode-cases unset = inl refl
mode-cases xapic = inr (inl refl)
mode-cases x2apic = inr (inr refl)

pub write-mode : (off val : ℕ) (m : Machine) → (write off val m).apic_mode ≡ m.apic_mode
unfolding write write_volatile wrmsr emit
write-mode off val m = elim (mode-cases m.apic_mode) [
  | inl e ↦ ground (arith, e)
  | inr (inl e) ↦ ground (arith, e)
  | inr (inr e) ↦ ground (arith, e)
]

module _ (other off val : ℕ) (m : Machine) (at_other : IsOffset other) (at_off : IsOffset off)
    (small : val < 2 ^ 32) where
  by_memory :
      m.apic_mode ≡ xapic
      → read other (write off val m) ≡ (if other == off then val else read other m)
  unfolding write_volatile emit lapic_addr
  by_memory mode =
      read-xapic other (write off val m) (write-mode off val m ∙ mode)
      ∙ rw (write-xapic off val m mode, read-xapic other m mode) (ground (arith, at_other, at_off))

  by_register :
      m.apic_mode ≡ x2apic
      → read other (write off val m) ≡ (if other == off then val else read other m)
  by_register mode =
      read-x2apic other (write off val m) (write-mode off val m ∙ mode)
      ∙ rw
          (
            write-x2apic off val m mode,
            read-x2apic other m mode,
            wrmsr-msr (apic_msr off) val (apic_msr other) m,
            same_msr other off at_other at_off,
          )
          (ground (arith, small))

  -- Once the controller is set up in either mode, a register reads back as it was written, and a
  -- write leaves the other registers.
  pub read-write :
      m.apic_mode ≢ unset
      → read other (write off val m) ≡ (if other == off then val else read other m)
  read-write on = elim (mode-cases m.apic_mode) [
    | inl e ↦ absurd (on e)
    | inr (inl e) ↦ by_memory e
    | inr (inr e) ↦ by_register e
  ]

-- A register of the controller is none of the processor's others that the kernel writes.
pub write-others :
    (off val : ℕ) (m : Machine) (other : ℕ)
    → other < 0x800
    → ((write off val m).msr other ≡ m.msr other)
      × ((write off val m).lapic_base_virt ≡ m.lapic_base_virt)
      × ((write off val m).hhdm_offset ≡ m.hhdm_offset)
      × ((write off val m).tsc ≡ m.tsc)
      × ((write off val m).tsc_hz ≡ m.tsc_hz)
unfolding write write_volatile wrmsr emit apic_msr
write-others off val m other low = elim (mode-cases m.apic_mode) [
  | inl e ↦ rw e (refl, refl, refl, refl, refl)
  | inr (inl e) ↦ rw e (refl, refl, refl, refl, refl)
  | inr (inr e) ↦ rw e (ground (arith, low), refl, refl, refl, refl)
]

-- The controller accepts interrupts, and its timer waits for the deadline register.
pub record IsReady (m : Machine) : Type 0 where
  pub on : m.apic_mode ≢ unset
  pub svr : read lapic_svr m ≡ 0x1ff
  pub divider : read lapic_timer_div m ≡ 11
  pub timer : read lapic_lvt_timer m ≡ 0x40000 + timer_vec

pub set_up-IsReady : (m : Machine) → m.apic_mode ≢ unset → IsReady (set_up m)
unfolding set_up
set_up-IsReady m on =
    let m1 = write lapic_svr 0x1ff m in
    let m2 = write lapic_timer_div 11 m1 in
    let m3 = write lapic_lvt_timer 0x400e0 m2 in
    let on1 : m1.apic_mode ≢ unset = λ e. on (sym (write-mode lapic_svr 0x1ff m) ∙ e) in
    let on2 : m2.apic_mode ≢ unset = λ e. on1 (sym (write-mode lapic_timer_div 11 m1) ∙ e) in
    let on3 : m3.apic_mode ≢ unset = λ e. on2 (sym (write-mode lapic_lvt_timer 0x400e0 m2) ∙ e) in
    let step3 = λ (other : ℕ) (o : IsOffset other).
      read-write other lapic_lvt_timer 0x400e0 m2 o (omega arith) (omega arith) on2 in
    let step2 = λ (other : ℕ) (o : IsOffset other).
      read-write other lapic_timer_div 11 m1 o (omega arith) (omega arith) on1 in
    record {
      on = on3;
      svr =
          step3 lapic_svr (omega arith)
          ∙ step2 lapic_svr (omega arith)
          ∙ read-write lapic_svr lapic_svr 0x1ff m (omega arith) (omega arith) (omega arith) on;
      divider = step3 lapic_timer_div (omega arith) ∙ step2 lapic_timer_div (omega arith);
      timer = step3 lapic_lvt_timer (omega arith);
    }

write-mem : (off val : ℕ) (m : Machine) → (write off val m).mem ≡ m.mem
unfolding write write_volatile wrmsr emit
write-mem off val m = elim (mode-cases m.apic_mode) [
  | inl e ↦ ground (arith, e)
  | inr (inl e) ↦ ground (arith, e)
  | inr (inr e) ↦ ground (arith, e)
]

pub x2apic_on : x2apic ≢ unset
x2apic_on e = cc

pub xapic_on : xapic ≢ unset
xapic_on e = cc
