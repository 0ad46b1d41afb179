-- ===== src/X86/Apic/Init.antt =====
-- What `init` of arch/x86_64/src/apic.rs leaves of the local interrupt controller.
use mathlib.Core.Path.{subst}
use rincos.Prelude.{
  ℕ, ◌+◌, ◌*◌, ◌/◌, bit_and, bit_or, ◌%◌, ◌^◌, ◌<◌, ◌≡◌, ◌∙◌, arith, refl, sym, ap, ◌-◌, Bool, true,
  false, if◌then◌else◌,
}
use rincos.X86.Machine.{Machine, xapic, x2apic, emit}
use rincos.Prelude.Bits.{and_mask, and_shl, or_shr, or-zero, or-odd, or-even}
use rincos.X86.Msr.{wrmsr, rdmsr, ia32_apic_base}
use rincos.X86.Msr.Laws.{rdmsr_lem, wrmsr-msr}
use rincos.X86.Apic.{lapic_svr, lapic_lvt_timer, lapic_timer_div, write, set_up, init}
use rincos.X86.Apic.Laws.{IsReady, write-others, set_up-IsReady, x2apic_on, xapic_on}

-- The base register after `init`: the controller is enabled, in the mode with registers of its own if
-- the processor has it, and its address is as it was.
abbrev pub BaseEnabled : Bool → ℕ → ℕ → Type 0
BaseEnabled has_x2apic before after =
    (after / 2 ^ 11 % 2 ≡ 1)
    × (after / 2 ^ 10 % 2 ≡ (if has_x2apic then 1 else before / 2 ^ 10 % 2))
    × (after / 2 ^ 12 ≡ before % 2 ^ 64 / 2 ^ 12)

-- Where the registers are accessed, if they are in memory: 32 bits of the address, through the direct map.
abbrev pub IsBase : ℕ → ℕ → ℕ → Type 0
IsBase h base virt = virt ≡ (base / 2 ^ 12 % 2 ^ 20 * 2 ^ 12 + h) % 2 ^ 64

base_x2apic :
    (before : ℕ)
    → BaseEnabled true before (bit_or (bit_or (before % 2 ^ 64) (2 ^ 11)) (2 ^ 10) % 2 ^ 64)
base_x2apic before =
    let b = before % 2 ^ 64 in
    let one = or_shr 11 b (2 ^ 11) in
    let e11 = or_shr 11 (bit_or b (2 ^ 11)) (2 ^ 10) in
    let e10 = or_shr 10 (bit_or b (2 ^ 11)) (2 ^ 10) in
    let e12 = or_shr 12 (bit_or b (2 ^ 11)) (2 ^ 10) in
    let d12 = or_shr 12 b (2 ^ 11) in
    (
      omega (arith, one, e11, or-zero (bit_or b (2 ^ 11) / 2 ^ 11), or-odd (b / 2 ^ 11) 1 refl),
      omega (arith, e10, or-odd (bit_or b (2 ^ 11) / 2 ^ 10) 1 refl),
      omega (arith, e12, d12, or-zero (bit_or b (2 ^ 11) / 2 ^ 12), or-zero (b / 2 ^ 12)),
    )

base_xapic : (before : ℕ) → BaseEnabled false before (bit_or (before % 2 ^ 64) (2 ^ 11) % 2 ^ 64)
base_xapic before =
    let b = before % 2 ^ 64 in
    (
      omega (arith, or_shr 11 b (2 ^ 11), or-odd (b / 2 ^ 11) 1 refl),
      omega (arith, or_shr 10 b (2 ^ 11), or-even (b / 2 ^ 10) 2 refl),
      omega (arith, or_shr 12 b (2 ^ 11), or-zero (b / 2 ^ 12)),
    )

-- What the set-up of the registers leaves.
pub set_up-others :
    (m : Machine) (other : ℕ)
    → other < 0x800
    → ((set_up m).msr other ≡ m.msr other)
      × ((set_up m).lapic_base_virt ≡ m.lapic_base_virt)
      × ((set_up m).hhdm_offset ≡ m.hhdm_offset)
      × ((set_up m).tsc ≡ m.tsc)
      × ((set_up m).tsc_hz ≡ m.tsc_hz)
unfolding set_up
set_up-others m other low =
    let m1 = write lapic_svr 0x1ff m in
    let m2 = write lapic_timer_div 11 m1 in
    let (a, b, c, d, e) = write-others lapic_svr 0x1ff m other low in
    let (a1, b1, c1, d1, e1) = write-others lapic_timer_div 11 m1 other low in
    let (a2, b2, c2, d2, e2) = write-others lapic_lvt_timer 0x400e0 m2 other low in
    (a2 ∙ a1 ∙ a, b2 ∙ b1 ∙ b, c2 ∙ c1 ∙ c, d2 ∙ d1 ∙ d, e2 ∙ e1 ∙ e)

-- The controller as `init` leaves it.
abbrev pub Initialized : Bool → ℕ → Machine → Machine → Type 0
Initialized has_x2apic h m m' =
    IsReady m'
    × (m'.mem ≡ m.mem)
    × (m'.apic_mode ≡ (if has_x2apic then x2apic else xapic))
    × BaseEnabled has_x2apic (m.msr ia32_apic_base) (m'.msr ia32_apic_base)
    × (if has_x2apic
        then m'.lapic_base_virt ≡ m.lapic_base_virt
        else IsBase h (m.msr ia32_apic_base) m'.lapic_base_virt)

pub init-IsReady :
    (has_x2apic : Bool) (h : ℕ) (m : Machine)
    → ((init has_x2apic h m).0 ≡ true) × Initialized has_x2apic h m (init has_x2apic h m).1
unfolding init wrmsr emit
init-IsReady true h m =
    let new = bit_or (bit_or (rdmsr ia32_apic_base m) (2 ^ 11)) (2 ^ 10) in
    let others =
      set_up-others (record (wrmsr ia32_apic_base new m) { apic_mode = x2apic }) ia32_apic_base
        (omega arith) in
    let base =
      others.0
      ∙ wrmsr-msr ia32_apic_base new ia32_apic_base m
      ∙ ap (λ b. bit_or (bit_or b (2 ^ 11)) (2 ^ 10) % 2 ^ 64) (rdmsr_lem ia32_apic_base m) in
    (
      refl,
      (
        set_up-IsReady _ x2apic_on,
        refl,
        refl,
        subst (BaseEnabled true (m.msr ia32_apic_base)) (sym base)
            (base_x2apic (m.msr ia32_apic_base)),
        others.1,
      ),
    )
init-IsReady false h m =
    let new = bit_or (rdmsr ia32_apic_base m) (2 ^ 11) in
    let at = (bit_and (rdmsr ia32_apic_base m) 0xffff_f000 + h) % 2 ^ 64 in
    let others =
      set_up-others
        (record (wrmsr ia32_apic_base new m) { apic_mode = xapic; lapic_base_virt = at })
        ia32_apic_base (omega arith) in
    let base =
      others.0
      ∙ wrmsr-msr ia32_apic_base new ia32_apic_base m
      ∙ ap (λ b. bit_or b (2 ^ 11) % 2 ^ 64) (rdmsr_lem ia32_apic_base m) in
    (
      refl,
      (
        set_up-IsReady _ xapic_on,
        refl,
        refl,
        subst (BaseEnabled false (m.msr ia32_apic_base)) (sym base)
            (base_xapic (m.msr ia32_apic_base)),
        others.1
            ∙ ap (λ b. (bit_and b 0xffff_f000 + h) % 2 ^ 64) (rdmsr_lem ia32_apic_base m)
            ∙ masked (m.msr ia32_apic_base),
      ),
    )
  where
    masked :
        (b : ℕ)
        → (bit_and (b % 2 ^ 64) 0xffff_f000 + h) % 2 ^ 64
          ≡ (b / 2 ^ 12 % 2 ^ 20 * 2 ^ 12 + h) % 2 ^ 64
    masked b =
        omega (arith, and_shl 12 (b % 2 ^ 64) (2 ^ 20 - 1), and_mask 20 (b % 2 ^ 64 / 2 ^ 12))
