-- ===== src/X86/Apic/Delivery.antt =====
-- `send_ipi_all_others` of arch/x86_64/src/apic.rs, and its wait for the device.
use rincos.Prelude.{
  ℕ, zero, suc, ◌+◌, ◌%◌, ◌^◌, ◌≤◌, ◌<◌, ◌≡◌, ◌≢◌, ◌∙◌, arith, refl, sym, ap, Bool, true, false,
  Option, none, some, List, [], ◌∷◌, ◌++◌, bit_or, shr, as_u32, inl, inr, ltb, Bool-cases,
}
use rincos.Prelude.Bits.{or_le_sum}
use rincos.X86.Machine.{Machine, Event, write_msr, write_mmio, unset, xapic, x2apic, emit}
use rincos.X86.Msr.{wrmsr, edx_eax}
use rincos.X86.Apic.{
  lapic_icr_low, lapic_icr_high, apic_msr, lapic_addr, read, write_volatile, write, wait_delivered,
  send_ipi_all_others,
}
use rincos.X86.Apic.Laws.{mode-cases, write-mode, read-write, x2apic_on, xapic_on}

wait_delivered_lem :
    (pending : ℕ → Bool) (i k fuel : ℕ)
    → ((j : ℕ) → i ≤ j → j < i + k → pending j ≡ true)
    → pending (i + k) ≡ false
    → k < fuel
    → wait_delivered pending i fuel ≡ some (i + k + 1)
unfolding wait_delivered
wait_delivered_lem pending i k zero busy free enough = absurd (omega (arith, enough))
wait_delivered_lem pending i zero (suc fuel) busy free enough =
    let here : i + 0 ≡ i = omega arith in rw (rw here at free) (ap some (omega arith))
wait_delivered_lem pending i (suc k) (suc fuel) busy free enough =
    let shift : i + suc k ≡ i + 1 + k = omega arith in
    rw (busy i (omega arith) (omega arith)) (
      wait_delivered_lem pending (i + 1) k fuel
        (λ j le lt. busy j (omega (arith, le)) (omega (arith, lt))) (rw shift at free)
        (omega (arith, enough))
      ∙ ap some (omega arith))

-- While the device says that the interrupt is pending, the loop is not over.
wait_delivered-pending :
    (pending : ℕ → Bool) (i fuel : ℕ)
    → ((j : ℕ) → i ≤ j → j < i + fuel → pending j ≡ true)
    → wait_delivered pending i fuel ≡ none
unfolding wait_delivered
wait_delivered-pending pending i zero busy = refl
wait_delivered-pending pending i (suc fuel) busy = rw (busy i (omega arith) (omega arith)) (
    wait_delivered-pending pending (i + 1) fuel
      (λ j le lt. busy j (omega (arith, le)) (omega (arith, lt))))

-- The command that is written: the vector, to all other processors.
abbrev pub to_others : ℕ → ℕ
to_others vector = bit_or vector 0xc0000

-- The writes that send an interrupt to the others, newest first: by memory first to the register of
-- the destination and then to the one of the command, or the whole command at once.
abbrev pub sending : ℕ → Machine → List Event
sending vector m = elim m.apic_mode [
  | unset ↦ []
  | xapic ↦
      write_mmio ((m.lapic_base_virt + 0x300) % 2 ^ 64) (to_others vector)
      ∷ write_mmio ((m.lapic_base_virt + 0x310) % 2 ^ 64) 0
      ∷ []
  | x2apic ↦ write_msr 0x830 (to_others vector) ∷ []
]

-- What has been sent, and what the command's register holds.
abbrev pub Sent : ℕ → Machine → Machine → Type 0
Sent vector m m' =
    (m'.apic_mode ≡ m.apic_mode)
    × (m.apic_mode ≡ unset → m' ≡ m)
    × (m.apic_mode ≢ unset → read lapic_icr_low m' ≡ to_others vector)
    × (m'.events ≡ sending vector m ++ m.events)

stored :
    (vector : ℕ) (m : Machine)
    → to_others vector < 2 ^ 32
    → m.apic_mode ≢ unset
    → read lapic_icr_low (write lapic_icr_low (to_others vector) m) ≡ to_others vector
stored vector m small on =
    read-write lapic_icr_low lapic_icr_low (to_others vector) m (omega arith) (omega arith) small on

-- Of the writes by memory.
events-xapic :
    (vector : ℕ) (m : Machine)
    → m.apic_mode ≡ xapic
    → (write lapic_icr_low (to_others vector) (write lapic_icr_high 0 m)).events
      ≡ sending vector m ++ m.events
unfolding write write_volatile lapic_addr emit
events-xapic vector m e = rw e refl

events-x2apic :
    (vector : ℕ) (m : Machine)
    → to_others vector < 2 ^ 32
    → m.apic_mode ≡ x2apic
    → (write lapic_icr_low (to_others vector) m).events ≡ sending vector m ++ m.events
unfolding write wrmsr emit apic_msr
events-x2apic vector m small e =
    let whole : edx_eax (as_u32 (shr (to_others vector) 32)) (as_u32 (to_others vector))
        ≡ to_others vector =
      omega (arith, small) in
    rw (e, whole) refl

module _ (pending : ℕ → Bool) (k fuel vector : ℕ) (m : Machine)
    (busy : (j : ℕ) → j < k → pending j ≡ true) (free : pending k ≡ false)
    (small : vector < 256) where
  icr_small : to_others vector < 2 ^ 32
  icr_small = omega (arith, or_le_sum vector 0xc0000)

  nothing : m.apic_mode ≡ unset → Sent vector m m
  nothing e = (refl, (λ _. refl), (λ on. absurd (on e)), rw e refl)

  by_memory :
      m.apic_mode ≡ xapic
      → Sent vector m (write lapic_icr_low (to_others vector) (write lapic_icr_high 0 m))
  by_memory e =
      let high = write lapic_icr_high 0 m in
      let mode : high.apic_mode ≡ m.apic_mode = write-mode lapic_icr_high 0 m in
      let on : high.apic_mode ≢ unset = λ off. xapic_on (sym e ∙ sym mode ∙ off) in
      (
        write-mode lapic_icr_low (to_others vector) high ∙ mode,
        (λ off. absurd (xapic_on (sym e ∙ off))),
        (λ _. stored vector high icr_small on),
        events-xapic vector m e,
      )

  by_register : m.apic_mode ≡ x2apic → Sent vector m (write lapic_icr_low (to_others vector) m)
  by_register e =
      let on : m.apic_mode ≢ unset = λ off. x2apic_on (sym e ∙ off) in
      (
        write-mode lapic_icr_low (to_others vector) m,
        (λ off. absurd (on off)),
        (λ _. stored vector m icr_small on),
        events-x2apic vector m icr_small e,
      )

  waited : k < fuel → wait_delivered pending 0 fuel ≡ some (0 + k + 1)
  waited enough =
      wait_delivered_lem pending 0 k fuel (λ j _ lt. busy j (omega (arith, lt)))
        (rw (zero_add k) at free) enough
    where
      zero_add : (k : ℕ) → k ≡ 0 + k
      zero_add k = omega arith

  -- What comes of it: without a result the device has not delivered in as many reads as the fuel.
  abbrev pub Delivered : Option Machine → Type 0
  Delivered none = (m.apic_mode ≡ xapic) × (fuel ≤ k)
  Delivered (some m') = (m.apic_mode ≡ xapic → k < fuel) × Sent vector m m'

  not_waited : fuel ≤ k → wait_delivered pending 0 fuel ≡ none
  not_waited few = wait_delivered-pending pending 0 fuel (λ j _ lt. busy j (omega (arith, lt, few)))

  -- If the device delivers the interrupt after `k` reads that find it pending, any fuel above `k`
  -- lets `send_ipi_all_others` return, with the writes of the mode done: by memory 0 to the register
  -- of the destination and then the command, by registers the command. By memory no fuel up to `k`
  -- is enough: it does not return before the device has delivered.
  pub send_ipi_all_others-Delivered : Delivered (send_ipi_all_others pending fuel vector m)
  unfolding send_ipi_all_others
  send_ipi_all_others-Delivered = elim (mode-cases m.apic_mode) [
    | inl e ↦ rw (e, Delivered) ((λ x. absurd (xapic_on (sym x ∙ e))), nothing e)
    | inr (inl e) ↦ elim (Bool-cases (ltb k fuel)) [
      | inl more ↦
          let enough : k < fuel = ground (arith, more) in
          rw (e, waited enough, Delivered) ((λ _. enough), by_memory e)
      | inr few ↦
          let short : fuel ≤ k = ground (arith, few) in
          rw (e, not_waited short, Delivered) (e, short)
    ]
    | inr (inr e) ↦ rw (e, Delivered) ((λ x. cc (x, e)), by_register e)
  ]
