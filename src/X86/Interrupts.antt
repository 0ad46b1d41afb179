-- ===== src/X86/Interrupts.antt =====
-- arch/x86_64/src/interrupts/mod.rs: from the saved context of an interrupt to the kernel's handler.
use rincos.Prelude.{
  ℕ, ◌-◌, ◌%◌, ◌^◌, Bool, true, false, Option, none, some, ◌&&◌, leb, ltb, ◌==◌, if◌then◌else◌,
}
use rincos.Hal.Interrupt.{
  fault, timer, external, FaultKind, no_fault, page_fault, general_protection, invalid_opcode,
  divide_by_zero, double_fault, unknown_fault, InterruptHandler, dispatch,
}
use rincos.X86.Machine.{Machine}
use rincos.X86.Mmu.Features.{flush_tlb_all}
use rincos.X86.Apic.{timer_vec, tlb_shootdown_vec, eoi}

-- The saved context: of its words only these two are read.
pub record ExceptionContext : Type 0 where
  pub vector : ℕ
  pub error_code : ℕ

unfoldable pub decode_fault_kind : ℕ → FaultKind
decode_fault_kind vec =
    if vec == 0
    then divide_by_zero
    else (if vec == 6
        then invalid_opcode
        else (if vec == 8
            then double_fault
            else (if vec == 13
                then general_protection
                else (if vec == 14 then page_fault else unknown_fault))))

-- `fault_kind == FaultKind::PageFault`.
abbrev pub is_page_fault : FaultKind → Bool
is_page_fault page_fault = true
is_page_fault _ = false

unfoldable pub irq_line : ℕ → ℕ
irq_line vec = if leb 32 vec && ltb vec 48 then vec - 32 else 0

unfoldable pub handle_tlb_shootdown : Machine → Machine
unfolding flush_tlb_all
handle_tlb_shootdown m = flush_tlb_all m

module _ (handler : Option (InterruptHandler Machine)) where
  unfoldable pub exception_dispatch : ExceptionContext → Machine → Option Machine
  unfolding dispatch decode_fault_kind
  exception_dispatch ctx m =
      let vec = ctx.vector % 2 ^ 8 in
      let fault_kind = decode_fault_kind vec in
      let fault_addr = if is_page_fault fault_kind then m.cr2 else 0 in
      dispatch handler
        (record {
          kind = fault;
          fault_kind = fault_kind;
          irq = 0;
          error_code = ctx.error_code;
          fault_addr = fault_addr;
        })
        m

  unfoldable pub irq_dispatch : ExceptionContext → Machine → Option Machine
  unfolding dispatch irq_line handle_tlb_shootdown eoi
  irq_dispatch ctx m =
      let vec = ctx.vector % 2 ^ 8 in
      if vec == tlb_shootdown_vec
      then some (eoi (handle_tlb_shootdown m))
      else (let kind = if vec == timer_vec then timer else external in
          let result =
            dispatch handler
              (record {
                kind = kind;
                fault_kind = no_fault;
                irq = irq_line vec;
                error_code = ctx.error_code;
                fault_addr = 0;
              })
              m in
          elim result [ none ↦ none | some m' ↦ some (eoi m') ])
