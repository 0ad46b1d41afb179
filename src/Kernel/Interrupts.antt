-- ===== src/Kernel/Interrupts.antt =====
-- kernel/src/interrupts.rs: what the kernel does on an interrupt.
pub mod Laws
pub mod Ticks
use rincos.Prelude.{Option, none, some}
use rincos.Hal.Time.{TimerOps}
use rincos.Hal.Interrupt.{
  IrqKind, fault, timer, external, spurious, unknown, IrqFrame, InterruptHandler, register_handler,
}
use rincos.Kernel.Time.{on_timer_tick}

module _ {S : Type 0} where
  -- It panics.
  unfoldable pub handle_fault : IrqFrame → S → Option S
  handle_fault frame s = none

  unfoldable pub on_interrupt : Option (TimerOps S) → IrqFrame → S → Option S
  unfolding handle_fault
  on_interrupt ops frame s = elim frame.kind [
    | timer ↦ some (on_timer_tick ops s)
    | fault ↦ handle_fault frame s
    | external ↦ some s
    | spurious ↦ some s
    | unknown ↦ some s
  ]

  -- `KernelInterrupts` as a handler.
  unfoldable pub kernel_interrupts : Option (TimerOps S) → InterruptHandler S
  unfolding on_interrupt
  kernel_interrupts ops = record { on_interrupt = on_interrupt ops }

  unfoldable pub init :
      Option (TimerOps S) → Option (InterruptHandler S) → Option (InterruptHandler S)
  unfolding register_handler kernel_interrupts
  init ops handler = register_handler (kernel_interrupts ops) handler
