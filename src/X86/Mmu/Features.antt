-- ===== src/X86/Mmu/Features.antt =====
-- arch/x86_64/src/mmu.rs: the processor features that paging uses, and the flushes of the TLB.
use rincos.Prelude.{
  ℕ, ◌^◌, ◌/◌, ◌%◌, ap, sym, ◌≡◌, Bool, true, false, not, ◌&&◌, refl, ◌∙◌, bit_and, bit_or, bit_not,
  ◌==◌, if◌then◌else◌, arith, Bool-cases, inl, inr,
}
use rincos.Prelude.Bits.{and_shl, and_mask}
use rincos.Hal.Mmu.{MapError}
use rincos.X86.Machine.{Machine, emit, mov_cr0, mov_cr3, mov_cr4}
use rincos.X86.Msr.{wrmsr, ia32_efer, rdmsr}
use rincos.X86.Msr.Laws.{rdmsr_lem, wrmsr-msr}
use rincos.X86.Run.{World, Run, ok, err, fault, Cmd}
use rincos.X86.Mmu.Entry.{has}

abbrev pub cr0_wp : ℕ
cr0_wp = 2 ^ 16

abbrev pub cr4_pge : ℕ
cr4_pge = 2 ^ 7

abbrev pub efer_lma : ℕ
efer_lma = 2 ^ 10

abbrev pub efer_nxe : ℕ
efer_nxe = 2 ^ 11

abbrev pub set_cr0 : ℕ → Machine → Machine
set_cr0 v m = record (emit (mov_cr0 v) m) { cr0 = v }

abbrev pub set_cr3 : ℕ → Machine → Machine
set_cr3 v m = record (emit (mov_cr3 v) m) { cr3 = v }

abbrev pub set_cr4 : ℕ → Machine → Machine
set_cr4 v m = record (emit (mov_cr4 v) m) { cr4 = v }

-- The EFER that is written: NXE set, and the read-only LMA cleared.
unfoldable pub efer_with_nxe : ℕ → ℕ
efer_with_nxe efer = bit_and (bit_or efer efer_nxe) (bit_not efer_lma)

-- `has_nx` is what CPUID answers.
unfoldable pub init_features : Bool → Bool → Machine → Machine
init_features has_nx enable_nx m =
    let m = set_cr4 (bit_or m.cr4 cr4_pge) (set_cr0 (bit_or m.cr0 cr0_wp) m) in
    if enable_nx && has_nx
    then (let efer = rdmsr ia32_efer m in
        if bit_and efer efer_nxe == 0
        then (let efer' = efer_with_nxe efer in
            record (wrmsr ia32_efer efer' m) { nxe_enabled = has efer' efer_nxe })
        else record m { nxe_enabled = has efer efer_nxe })
    else record m { nxe_enabled = false }

unfoldable pub flush_tlb_all : Machine → Machine
flush_tlb_all m = set_cr3 m.cr3 m

unfoldable pub flush_tlb_all_global : Machine → Machine
flush_tlb_all_global m =
    if has m.cr4 cr4_pge
    then set_cr4 m.cr4 (set_cr3 m.cr3 (set_cr4 (bit_and m.cr4 (bit_not cr4_pge)) m))
    else set_cr3 m.cr3 m

module _ {A : Type 0} where
  unfoldable pub enable_nx : Bool → Cmd A MapError (Unit {0})
  unfolding init_features flush_tlb_all_global
  enable_nx has_nx w =
      if w.machine.nxe_enabled
      then ok tt w
      else (if not has_nx
          then ok tt w
          else ok tt
              (record w { machine = flush_tlb_all_global (init_features has_nx true w.machine) }))

-- The kernel believes in the no-execute bit only while the processor has it switched on.
abbrev pub IsNxSound : Machine → Type 0
IsNxSound m = m.nxe_enabled ≡ true → has (m.msr ia32_efer) efer_nxe ≡ true

pub by_if :
    {X : Type 0} (P : X → Type 0) (b : Bool) {x y : X}
    → (b ≡ true → P x)
    → (b ≡ false → P y)
    → P (if b then x else y)
by_if P true t f = t refl
by_if P false t f = f refl

-- A register holds 64 bits, and the bit is one of them.
nxe_of_word : (v : ℕ) → has (v % 2 ^ 64) efer_nxe ≡ has v efer_nxe
unfolding has
nxe_of_word v =
    ap (λ x. not (x == 0))
      (omega (
        arith,
        and_shl 11 (v % 2 ^ 64) 1,
        and_shl 11 v 1,
        and_mask 1 (v % 2 ^ 64 / 2 ^ 11),
        and_mask 1 (v / 2 ^ 11),
      ))

nxe_written :
    (v : ℕ) (m : Machine)
    → has v efer_nxe ≡ true
    → has ((wrmsr ia32_efer v m).msr ia32_efer) efer_nxe ≡ true
nxe_written v m set = rw (wrmsr-msr ia32_efer v ia32_efer m) (nxe_of_word v ∙ set)

nxe_read :
    (m : Machine) → has (rdmsr ia32_efer m) efer_nxe ≡ true → has (m.msr ia32_efer) efer_nxe ≡ true
nxe_read m set =
    sym (nxe_of_word (m.msr ia32_efer))
    ∙ sym (ap (λ v. has v efer_nxe) (rdmsr_lem ia32_efer m))
    ∙ set

pub init_features-IsNxSound :
    (has_nx enable_nx : Bool) (m : Machine) → IsNxSound (init_features has_nx enable_nx m)
unfolding init_features emit
init_features-IsNxSound has_nx enable_nx m =
    let m2 = set_cr4 (bit_or m.cr4 cr4_pge) (set_cr0 (bit_or m.cr0 cr0_wp) m) in
    by_if IsNxSound (enable_nx && has_nx)
      (λ _.
        by_if IsNxSound (bit_and (rdmsr ia32_efer m2) efer_nxe == 0)
          (λ _. nxe_written (efer_with_nxe (rdmsr ia32_efer m2)) m2) (λ _. nxe_read m2))
      (λ _ nxe. ground arith)

module _ {A : Type 0} (has_nx : Bool) (w : World A) where
  abbrev pub Enabled : Run A MapError (Unit {0}) → Type 0
  Enabled (ok _ w') =
      IsNxSound w'.machine
      × (w'.machine.mem ≡ w.machine.mem)
      × (w'.machine.cr3 ≡ w.machine.cr3)
      × (w'.machine.kas ≡ w.machine.kas)
      × (has_nx ≡ false → w' ≡ w)
  Enabled (err e w') = ⊥
  Enabled fault = ⊥

  same_flush : (m : Machine) → IsNxSound m → IsNxSound (flush_tlb_all_global m)
  unfolding flush_tlb_all_global emit
  same_flush m sound = elim (Bool-cases (has m.cr4 cr4_pge)) [
    | inl global ↦ rw global sound
    | inr plain ↦ rw plain sound
  ]

  -- Memory, the root of the page tables and what is known of the address spaces are those of before.
  abbrev pub SameTables : Machine → Machine → Type 0
  SameTables m m' =
      (m'.mem ≡ m.mem)
      × (m'.cr3 ≡ m.cr3)
      × (m'.kas ≡ m.kas)
      × (m'.hhdm_offset ≡ m.hhdm_offset)
      × (m'.kas_handle ≡ m.kas_handle)
      × (m'.as_slots ≡ m.as_slots)

  flush-SameTables : (m : Machine) → SameTables m (flush_tlb_all_global m)
  unfolding flush_tlb_all_global emit
  flush-SameTables m = elim (Bool-cases (has m.cr4 cr4_pge)) [
    | inl global ↦ rw global (refl, refl, refl, refl, refl, refl)
    | inr plain ↦ rw plain (refl, refl, refl, refl, refl, refl)
  ]

  init-SameTables : (m : Machine) → SameTables m (init_features has_nx true m)
  unfolding init_features wrmsr emit
  init-SameTables m =
      let m2 = set_cr4 (bit_or m.cr4 cr4_pge) (set_cr0 (bit_or m.cr0 cr0_wp) m) in
      by_if (SameTables m) has_nx
        (λ _.
          by_if (SameTables m) (bit_and (rdmsr ia32_efer m2) efer_nxe == 0)
            (λ _. (refl, refl, refl, refl, refl, refl)) (λ _. (refl, refl, refl, refl, refl, refl)))
        (λ _. (refl, refl, refl, refl, refl, refl))

  enabled : Machine
  enabled = flush_tlb_all_global (init_features has_nx true w.machine)

  enabled-SameTables : SameTables w.machine enabled
  unfolding enabled
  enabled-SameTables =
      let m = init_features has_nx true w.machine in
      let (a, b, c, d, e, f) = flush-SameTables m in
      let (a', b', c', d', e', f') = init-SameTables w.machine in
      (a ∙ a', b ∙ b', c ∙ c', d ∙ d', e ∙ e', f ∙ f')

  -- `enable_nx` never fails. If the kernel believes in the no-execute bit only while the processor
  -- has it switched on, so it does afterwards; memory and the page tables in use stay, and on a
  -- processor without the bit nothing changes at all.
  pub enable_nx-Enabled : IsNxSound w.machine → Enabled (enable_nx has_nx w)
  unfolding enable_nx enabled
  enable_nx-Enabled sound =
      by_if Enabled w.machine.nxe_enabled (λ _. (sound, refl, refl, refl, λ _. refl))
        (λ _.
          by_if Enabled (not has_nx) (λ _. (sound, refl, refl, refl, λ _. refl))
            (λ there.
              let (mem, cr3, kas, _, _, _) = enabled-SameTables in
              (
                same_flush (init_features has_nx true w.machine)
                    (init_features-IsNxSound has_nx true w.machine),
                mem,
                cr3,
                kas,
                λ no_nx. ground arith,
              )))

  -- What `enable_nx` leaves, beside the bit.
  abbrev pub TablesKept : Run A MapError (Unit {0}) → Type 0
  TablesKept (ok _ w') = SameTables w.machine w'.machine × (w'.pt_alloc ≡ w.pt_alloc)
  TablesKept (err e w') = ⊥
  TablesKept fault = ⊥

  pub enable_nx-TablesKept : TablesKept (enable_nx has_nx w)
  unfolding enable_nx enabled
  enable_nx-TablesKept =
      by_if TablesKept w.machine.nxe_enabled (λ _. ((refl, refl, refl, refl, refl, refl), refl))
        (λ _.
          by_if TablesKept (not has_nx) (λ _. ((refl, refl, refl, refl, refl, refl), refl))
            (λ _. (enabled-SameTables, refl)))
