-- ===== src/Kernel/Main/Kept.antt =====
-- What the steps of kernel/src/kmain.rs leave of the processor's timer and interrupt controller.
use rincos.Prelude.{
  ℕ, ◌^◌, ◌≡◌, ◌∙◌, refl, Bool, true, false, not, ◌&&◌, ◌==◌, Option, none, some, inl, inr, bit_and,
  bit_or, Bool-cases, Option-cases, if◌then◌else◌,
}
use rincos.Bootabi.{BootInfo}
use rincos.Hal.Mmu.{MapError, AddressSpace}
use rincos.X86.Machine.{Machine, emit}
use rincos.X86.Run.{World, Run, ok, err, fault, and_then}
use rincos.X86.Msr.{wrmsr, rdmsr, ia32_apic_base, ia32_tsc_deadline, ia32_efer}
use rincos.X86.Cpuid.{CpuidCount, has_invariant_tsc, tsc_hz}
use rincos.X86.Tsc
use rincos.X86.Mmu.Entry.{has, addr_mask}
use rincos.X86.Mmu.Features.{
  by_if, init_features, flush_tlb_all_global, enable_nx, set_cr0, set_cr4, cr4_pge, efer_nxe,
}
use rincos.X86.Mmu.Spaces.{init_kernel, set_current}
use rincos.X86.Start.{init_mmu, init_time_source}
use rincos.Vm.{BootPtAlloc, new}
use rincos.Kernel.Vm
use rincos.Kernel.Vm.{expect, expect_run, set_alloc}

-- What the start of paging and of memory does not touch.
abbrev pub Kept : Machine → Machine → Type 0
Kept m m' =
    (m'.msr ia32_apic_base ≡ m.msr ia32_apic_base)
    × (m'.msr ia32_tsc_deadline ≡ m.msr ia32_tsc_deadline)
    × (m'.tsc ≡ m.tsc)
    × (m'.hhdm_offset ≡ m.hhdm_offset)

Kept-trans : (a b c : Machine) → Kept a b → Kept b c → Kept a c
Kept-trans a b c (base, deadline, tsc, hhdm) (base', deadline', tsc', hhdm') =
    (base' ∙ base, deadline' ∙ deadline, tsc' ∙ tsc, hhdm' ∙ hhdm)

features-Kept : (has_nx enable : Bool) (m : Machine) → Kept m (init_features has_nx enable m)
unfolding init_features wrmsr emit
features-Kept has_nx enable m = elim (Bool-cases (enable && has_nx)) [
  | inl there ↦
      elim (Bool-cases (
        bit_and
          (rdmsr ia32_efer (set_cr4 (bit_or m.cr4 cr4_pge) (set_cr0 (bit_or m.cr0 (2 ^ 16)) m)))
          efer_nxe
        == 0)) [
          | inl unset_bit ↦ rw (there, unset_bit) (refl, refl, refl, refl)
          | inr set_bit ↦ rw (there, set_bit) (refl, refl, refl, refl)
        ]
  | inr gone ↦ rw gone (refl, refl, refl, refl)
]

flush-Kept : (m : Machine) → Kept m (flush_tlb_all_global m)
unfolding flush_tlb_all_global emit
flush-Kept m = elim (Bool-cases (has m.cr4 cr4_pge)) [
  | inl on ↦ rw on (refl, refl, refl, refl)
  | inr off ↦ rw off (refl, refl, refl, refl)
]

-- What holds of the machine if there is a result without an error.
abbrev pub Returned : {A E X : Type 0} → (Machine → Type 0) → Run A E X → Type 0
Returned P (ok _ w) = P w.machine
Returned P _ = Unit {0}

module _ {A : Type 0} (m : Machine) where
  enable_nx-Kept :
      (has_nx : Bool) (w : World A) → Kept m w.machine → Returned (Kept m) (enable_nx has_nx w)
  unfolding enable_nx
  enable_nx-Kept has_nx w kept =
      by_if (Returned (Kept m)) w.machine.nxe_enabled (λ _. kept)
        λ _.
          by_if (Returned (Kept m)) (not has_nx) (λ _. kept)
            λ _.
              Kept-trans m w.machine (flush_tlb_all_global (init_features has_nx true w.machine))
                kept
                (Kept-trans w.machine (init_features has_nx true w.machine)
                  (flush_tlb_all_global (init_features has_nx true w.machine))
                  (features-Kept has_nx true w.machine)
                  (flush-Kept (init_features has_nx true w.machine)))

  init_kernel-Kept : (w : World A) → Kept m w.machine → Returned (Kept m) (init_kernel w)
  unfolding init_kernel set_current
  init_kernel-Kept w kept = elim (Option-cases w.machine.kas_handle) [
    | inr (h, known) ↦ rw known kept
    | inl fresh ↦ rw fresh (
        by_if (Returned {A = A} {E = MapError} {X = AddressSpace} (Kept m))
          (bit_and w.machine.cr3 addr_mask == 0) (λ _. tt) λ _. kept)
  ]

  known_then :
      (has_nx : Bool) (r : Run A MapError AddressSpace)
      → Returned (Kept m) r
      → Returned (Kept m) (and_then (expect_run r) (λ _ w1. expect_run (enable_nx has_nx w1)))
  known_then has_nx (ok h w1) kept = expected (enable_nx has_nx w1) (enable_nx-Kept has_nx w1 kept)
    where
      expected :
          {X : Type 0} (r : Run A MapError X)
          → Returned (Kept m) r
          → Returned (Kept m) (expect_run r)
      expected (ok x w) k = k
      expected (err e w) k = tt
      expected fault k = tt
  known_then has_nx (err e w) kept = tt
  known_then has_nx fault kept = tt

pub vm_init-Kept :
    (boot : BootInfo) (has_nx : Bool) (w : World (Option BootPtAlloc))
    → Returned (Kept w.machine) (Vm.init boot has_nx w)
unfolding Vm.init expect set_alloc
vm_init-Kept boot has_nx w = elim (Option-cases (new boot)) [
  | inl gone ↦ rw gone tt
  | inr (a, e) ↦
      let begun : World (Option BootPtAlloc) = record w { pt_alloc = some a } in
      rw e (
        known_then w.machine has_nx (init_kernel begun)
          (init_kernel-Kept w.machine begun (refl, refl, refl, refl)))
]

pub init_mmu-Kept :
    (boot : BootInfo) (has_nx : Bool) (m : Machine)
    → Kept (record m { hhdm_offset = boot.hhdm_offset }) (init_mmu boot has_nx m)
unfolding init_mmu
init_mmu-Kept boot has_nx m =
    features-Kept has_nx false (record m { hhdm_offset = boot.hhdm_offset })

-- The frequency that the kernel keeps, in hertz: 0 if it is unknown or the counter is not invariant.
abbrev pub counted_hz : CpuidCount → ℕ
counted_hz cpuid =
    if has_invariant_tsc cpuid then elim (tsc_hz cpuid) [ none ↦ 0 | some hz ↦ hz ] else 0

pub source-Kept :
    (cpuid : CpuidCount) (m : Machine)
    → Kept m (init_time_source cpuid m).1
      × ((init_time_source cpuid m).1.tsc_hz ≡ counted_hz cpuid)
      × ((init_time_source cpuid m).1.mem ≡ m.mem)
      × ((init_time_source cpuid m).0 ≡ has_invariant_tsc cpuid)
unfolding init_time_source Tsc.init
source-Kept cpuid m = elim (Bool-cases (has_invariant_tsc cpuid)) [
  | inl there ↦ rw there ((refl, refl, refl, refl), refl, refl, refl)
  | inr gone ↦ rw gone ((refl, refl, refl, refl), refl, refl, refl)
]
