-- ===== src/X86/Serial.antt =====
-- arch/x86_64/src/serial.rs: the first serial port, with what the device answers as a parameter.
pub mod Laws
use rincos.Prelude.{
  ℕ, zero, suc, ◌+◌, ◌%◌, Option, none, some, List, ◌∷◌, ◌==◌, if◌then◌else◌, bit_and,
}
use rincos.Hal.Serial.{SerialWriter}

abbrev pub com1 : ℕ
com1 = 0x3f8

-- `input port n` is the device's answer if the `n`-th read of all is of this port; `output` has the
-- port and the byte of every write, newest first.
pub record Ports : Type 0 where
  pub input : ℕ → ℕ → ℕ
  pub reads : ℕ
  pub output : List (ℕ × ℕ)

unfoldable pub outb : ℕ → ℕ → Ports → Ports
outb port val p = record p { output = (port, val) ∷ p.output }

unfoldable pub inb : ℕ → Ports → ℕ × Ports
inb port p = (p.input port p.reads % 256, record p { reads = p.reads + 1 })

-- The loop of `com1_write`; none if the fuel does not reach.
unfoldable pub await_empty : ℕ → Ports → Option Ports
unfolding inb
await_empty zero p = none
await_empty (suc fuel) p =
    let (status, p') = inb (com1 + 5) p in
    let rest = await_empty fuel p' in if bit_and status 0x20 == 0 then rest else some p'

unfoldable pub com1_write : ℕ → ℕ → Ports → Option Ports
unfolding await_empty outb
com1_write fuel b p = elim (await_empty fuel p) [ none ↦ none | some p' ↦ some (outb com1 b p') ]

-- `Com1Writer` of arch/x86_64/src/lib.rs.
abbrev pub com1_writer : ℕ → SerialWriter Ports
com1_writer fuel = record { write_byte = com1_write fuel }
