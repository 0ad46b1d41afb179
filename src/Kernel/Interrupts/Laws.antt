-- ===== src/Kernel/Interrupts/Laws.antt =====
-- The way of an interrupt through arch/x86_64/src/interrupts/mod.rs and kernel/src/interrupts.rs.
use rincos.Prelude.{
  ℕ, ◌%◌, ◌^◌, ◌≡◌, ◌≢◌, arith, refl, Option, none, some, ◌==◌, if◌then◌else◌, false, Bool-cases,
  inl, inr,
}
use rincos.Hal.Time.{TimerOps}
use rincos.Hal.Interrupt.{
  divide_by_zero, invalid_opcode, double_fault, general_protection, page_fault, unknown_fault,
  InterruptHandler, dispatch, register_handler, IrqFrame, fault,
}
use rincos.X86.Machine.{Machine}
use rincos.X86.Apic.{timer_vec, tlb_shootdown_vec, eoi}
use rincos.X86.Interrupts.{
  is_page_fault, decode_fault_kind, ExceptionContext, exception_dispatch, irq_dispatch,
  handle_tlb_shootdown,
}
use rincos.X86.Mmu.Features.{flush_tlb_all}
use rincos.Kernel.Time.{on_timer_tick}
use rincos.Kernel.Interrupts.{init, on_interrupt, kernel_interrupts, handle_fault}

-- What an interrupt's vector asks for.
abbrev pub work_of : Option (TimerOps Machine) → Machine → ℕ → Machine
work_of ops m vec =
    if vec == tlb_shootdown_vec
    then flush_tlb_all m
    else (if vec == timer_vec then on_timer_tick ops m else m)

module _ (ops : Option (TimerOps Machine)) (before : Option (InterruptHandler Machine))
    (ctx : ExceptionContext) (m : Machine) where
  -- With the kernel's handler registered, an interrupt does the work of its vector, which is the low
  -- byte of the context's, and ends with one end-of-interrupt, the last thing that it does.
  pub irq_dispatch_lem :
      irq_dispatch (init ops before) ctx m ≡ some (eoi (work_of ops m (ctx.vector % 2 ^ 8)))
  unfolding irq_dispatch init register_handler dispatch kernel_interrupts on_interrupt
      handle_tlb_shootdown
  irq_dispatch_lem = elim (Bool-cases ((ctx.vector % 2 ^ 8) == tlb_shootdown_vec)) [
    | inl shootdown ↦ rw shootdown refl
    | inr other ↦ elim (Bool-cases ((ctx.vector % 2 ^ 8) == timer_vec)) [
      | inl tick ↦ rw (other, tick) refl
      | inr device ↦ rw (other, device) refl
    ]
  ]

-- What an exception tells the handler: its kind by its vector, its error code, and the
-- address of a page fault.
abbrev pub Reported : ExceptionContext → Machine → IrqFrame → Type 0
Reported ctx m frame =
    let vec = ctx.vector % 2 ^ 8 in
    (frame.kind ≡ fault)
    × (frame.error_code ≡ ctx.error_code)
    × (vec ≡ 0 → frame.fault_kind ≡ divide_by_zero)
    × (vec ≡ 6 → frame.fault_kind ≡ invalid_opcode)
    × (vec ≡ 8 → frame.fault_kind ≡ double_fault)
    × (vec ≡ 13 → frame.fault_kind ≡ general_protection)
    × (vec ≡ 14 → (frame.fault_kind ≡ page_fault) × (frame.fault_addr ≡ m.cr2))
    × (vec ≢ 14 → frame.fault_addr ≡ 0)
    × (vec ≢ 0 → vec ≢ 6 → vec ≢ 8 → vec ≢ 13 → vec ≢ 14 → frame.fault_kind ≡ unknown_fault)

not_page_fault : (vec : ℕ) → vec ≢ 14 → is_page_fault (decode_fault_kind vec) ≡ false
unfolding decode_fault_kind
not_page_fault vec ne = ground (arith, ne)

other_kind :
    (vec : ℕ)
    → vec ≢ 0
    → vec ≢ 6
    → vec ≢ 8
    → vec ≢ 13
    → vec ≢ 14
    → decode_fault_kind vec ≡ unknown_fault
unfolding decode_fault_kind
other_kind vec n0 n6 n8 n13 n14 = ground (arith, n0, n6, n8, n13, n14)

-- An exception is reported to the handler, if there is one, with the kind that its vector has
-- (division, invalid opcode, double fault, general protection, page fault, or unknown), its error
-- code, and for a page fault only the address. The kernel's handler panics on each.
pub exception_dispatch-Reported :
    (handler : InterruptHandler Machine) (ctx : ExceptionContext) (m : Machine)
    → (frame : IrqFrame) × Reported ctx m frame
      × (exception_dispatch (some handler) ctx m ≡ handler.on_interrupt frame m)
      × (exception_dispatch none ctx m ≡ some m)
      × ((ops : Option (TimerOps Machine)) → on_interrupt ops frame m ≡ none)
unfolding exception_dispatch dispatch on_interrupt handle_fault
exception_dispatch-Reported handler ctx m = (
  record {
    kind = fault;
    fault_kind = decode_fault_kind (ctx.vector % 2 ^ 8);
    irq = 0;
    error_code = ctx.error_code;
    fault_addr = if is_page_fault (decode_fault_kind (ctx.vector % 2 ^ 8)) then m.cr2 else 0;
  },
  (
    refl,
    refl,
    (λ e. unfold decode_fault_kind in rw e refl),
    (λ e. unfold decode_fault_kind in rw e refl),
    (λ e. unfold decode_fault_kind in rw e refl),
    (λ e. unfold decode_fault_kind in rw e refl),
    (λ e. unfold decode_fault_kind in rw e (refl, refl)),
    (λ ne. rw (not_page_fault (ctx.vector % 2 ^ 8) ne) refl),
    other_kind (ctx.vector % 2 ^ 8),
  ),
  refl,
  refl,
  λ ops. refl,
)
