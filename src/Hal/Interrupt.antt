-- ===== src/Hal/Interrupt.antt =====
-- crates/hal/src/interrupt.rs: the interrupt that the architecture hands to the kernel.
use rincos.Prelude.{ℕ, Option, none, some}

pub data IrqKind : Type 0 where
  fault timer external spurious unknown : IrqKind

pub data FaultKind : Type 0 where
  no_fault page_fault general_protection invalid_opcode divide_by_zero double_fault unknown_fault :
      FaultKind

pub record IrqFrame : Type 0 where
  pub kind : IrqKind
  pub fault_kind : FaultKind
  pub irq : ℕ
  pub error_code : ℕ
  pub fault_addr : ℕ

-- The trait, on a state that the handler changes; none is a panic.
pub record InterruptHandler (S : Type 0) : Type 0 where
  pub on_interrupt : IrqFrame → S → Option S

module _ {S : Type 0} where
  -- The statics that hold the handler, as one.
  unfoldable pub register_handler :
      InterruptHandler S → Option (InterruptHandler S) → Option (InterruptHandler S)
  register_handler h handler = some h

  unfoldable pub dispatch : Option (InterruptHandler S) → IrqFrame → S → Option S
  dispatch handler frame s = elim handler [ none ↦ some s | some h ↦ h.on_interrupt frame s ]
