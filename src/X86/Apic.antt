-- ===== src/X86/Apic.antt =====
-- arch/x86_64/src/apic.rs: the local interrupt controller, by memory or by model-specific registers.
pub mod Laws
pub mod Init
pub mod Delivery
use rincos.Prelude.{
  ℕ, zero, suc, ◌+◌, ◌*◌, ◌^◌, Bool, true, false, not, ltb, ◌==◌, if◌then◌else◌, bit_and, bit_or,
  shr, as_u32, wrapping_add, Option, none, some,
}
use rincos.X86.Machine.{Machine, ApicMode, unset, xapic, x2apic, update, emit, write_mmio}
use rincos.X86.Msr.{wrmsr, rdmsr, ia32_apic_base}

abbrev pub apic_base_enable : ℕ
apic_base_enable = 2 ^ 11

abbrev pub apic_base_x2apic : ℕ
apic_base_x2apic = 2 ^ 10

abbrev pub lapic_id : ℕ
lapic_id = 0x020

abbrev pub lapic_eoi : ℕ
lapic_eoi = 0x0b0

abbrev pub lapic_svr : ℕ
lapic_svr = 0x0f0

abbrev pub lapic_lvt_timer : ℕ
lapic_lvt_timer = 0x320

abbrev pub lapic_timer_div : ℕ
lapic_timer_div = 0x3e0

abbrev pub lapic_icr_low : ℕ
lapic_icr_low = 0x300

abbrev pub lapic_icr_high : ℕ
lapic_icr_high = 0x310

abbrev pub svr_apic_enable : ℕ
svr_apic_enable = 2 ^ 8

abbrev pub lvt_mode_tsc_deadline : ℕ
lvt_mode_tsc_deadline = 2 * 2 ^ 17

abbrev pub timer_vec : ℕ
timer_vec = 0xe0

abbrev pub tlb_shootdown_vec : ℕ
tlb_shootdown_vec = 0xe1

unfoldable pub apic_msr : ℕ → ℕ
apic_msr off = 0x800 + shr off 4

-- Where the register at `off` is mapped.
unfoldable pub lapic_addr : ℕ → Machine → ℕ
lapic_addr off m = wrapping_add m.lapic_base_virt off

unfoldable pub read : ℕ → Machine → ℕ
unfolding lapic_addr
read off m = elim m.apic_mode [
  | x2apic ↦ as_u32 (rdmsr (apic_msr off) m)
  | xapic ↦ m.mmio (lapic_addr off m)
  | unset ↦ 0
]

-- A device register is read back as it was written, but for the bits that the device sets itself.
unfoldable pub write_volatile : ℕ → ℕ → Machine → Machine
write_volatile addr val m = record (emit (write_mmio addr val) m) { mmio = update m.mmio addr val }

unfoldable pub write : ℕ → ℕ → Machine → Machine
unfolding lapic_addr write_volatile
write off val m = elim m.apic_mode [
  | x2apic ↦ wrmsr (apic_msr off) val m
  | xapic ↦ write_volatile (lapic_addr off m) val m
  | unset ↦ m
]

-- The registers that both modes set: the spurious vector, the divider and the timer.
unfoldable pub set_up : Machine → Machine
unfolding write
set_up m =
    let svr = bit_or svr_apic_enable 0xff in
    let m = write lapic_svr svr m in
    let m = write lapic_timer_div 11 m in
    let lvt = bit_or timer_vec lvt_mode_tsc_deadline in write lapic_lvt_timer lvt m

unfoldable pub init : Bool → ℕ → Machine → Bool × Machine
unfolding set_up
init has_x2apic hhdm_offset m =
    let apic_base = rdmsr ia32_apic_base m in
    if has_x2apic
    then (let new_base = bit_or (bit_or apic_base apic_base_enable) apic_base_x2apic in
        let m = wrmsr ia32_apic_base new_base m in (true, set_up (record m { apic_mode = x2apic })))
    else (let apic_phys = bit_and apic_base 0xffff_f000 in
        let new_base = bit_or apic_base apic_base_enable in
        let m = wrmsr ia32_apic_base new_base m in
        (
          true,
          set_up (record m {
            apic_mode = xapic;
            lapic_base_virt = wrapping_add apic_phys hhdm_offset;
          }),
        ))

unfoldable pub cpu_id : Machine → ℕ
unfolding read
cpu_id m = elim m.apic_mode [
  | xapic ↦ shr (read lapic_id m) 24
  | x2apic ↦ read lapic_id m
  | unset ↦ 0
]

-- The loop on the delivery bit: the device answers `pending i` to the read number `i`. The result
-- is the number of reads, or none while the fuel does not suffice.
unfoldable pub wait_delivered : (ℕ → Bool) → ℕ → ℕ → Option ℕ
wait_delivered pending i zero = none
wait_delivered pending i (suc fuel) =
    let rest = wait_delivered pending (i + 1) fuel in if pending i then rest else some (i + 1)

-- An interrupt to all others; none is a wait that is not over.
unfoldable pub send_ipi_all_others : (ℕ → Bool) → ℕ → ℕ → Machine → Option Machine
unfolding write wait_delivered
send_ipi_all_others pending fuel vector m =
    let icr = bit_or vector (3 * 2 ^ 18) in
    elim m.apic_mode [
      | unset ↦ some m
      | xapic ↦
          let m = write lapic_icr_low icr (write lapic_icr_high 0 m) in
          elim (wait_delivered pending 0 fuel) [ none ↦ none | some _ ↦ some m ]
      | x2apic ↦ some (write lapic_icr_low icr m)
    ]

unfoldable pub eoi : Machine → Machine
unfolding write
eoi m = elim m.apic_mode [ unset ↦ m | _ ↦ write lapic_eoi 0 m ]
