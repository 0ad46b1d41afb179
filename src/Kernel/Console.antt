-- ===== src/Kernel/Console.antt =====
-- What the kernel writes to the serial line: kernel/src/drivers/console, kernel/src/log/mod.rs and
-- kernel/src/debug/early_serial.rs. A text is the list of its bytes.
pub mod Laws
use rincos.Prelude.{ℕ, Option, none, some, List, [], ◌∷◌, ◌==◌, if◌then◌else◌}
use rincos.Hal.Serial.{SerialWriter}
use rincos.Hal.Serial

abbrev pub newline : ℕ
newline = 10

abbrev pub carriage_return : ℕ
carriage_return = 13

-- The device and the static that holds its writer.
pub record Output (M : Type 0) : Type 0 where
  pub serial : Option (SerialWriter M)
  pub device : M

-- The trait `LogSink`; none where the code does not return.
pub record LogSink (M : Type 0) : Type 0 where
  pub write_str : List ℕ → Output M → Option (Output M)

-- One call after the other.
abbrev pub bind : {A B : Type 0} → Option A → (A → Option B) → Option B
bind none f = none
bind (some a) f = f a

module _ {M : Type 0} where
  unfoldable pub write_raw : ℕ → Output M → Option (Output M)
  write_raw b o = elim (Serial.write_byte o.serial b o.device) [
    | none ↦ none
    | some d ↦ some (record o { device = d })
  ]

  -- `Serial::write_str`.
  unfoldable pub write_str : List ℕ → Output M → Option (Output M)
  unfolding write_raw
  write_str [] o = some o
  write_str (b ∷ s) o =
      bind (if b == newline then write_raw carriage_return o else some o)
        λ o1. bind (write_raw b o1) λ o2. write_str s o2

  -- `write_str` of early_serial.rs, which calls the interface itself.
  unfoldable pub early_write_str : List ℕ → Output M → Option (Output M)
  unfolding write_raw
  early_write_str [] o = some o
  early_write_str (b ∷ s) o =
      bind (if b == newline then write_raw carriage_return o else some o)
        λ o1. bind (write_raw b o1) λ o2. early_write_str s o2

  abbrev pub serial_sink : LogSink M
  serial_sink = record { write_str = write_str }

  -- The static `LOGGER` after `set_logger`.
  unfoldable pub set_logger : LogSink M → Option (LogSink M) → Option (LogSink M)
  set_logger l logger = some l

  -- `Adapter::write_str`, which always returns `Ok`.
  unfoldable pub adapter_write_str : Option (LogSink M) → List ℕ → Output M → Option (Output M)
  adapter_write_str none s o = some o
  adapter_write_str (some l) s o = l.write_str s o

  -- `_print`. The formatting gives the adapter the text in pieces, from the first to the last.
  unfoldable pub print : Option (LogSink M) → List (List ℕ) → Output M → Option (Output M)
  unfolding adapter_write_str
  print logger [] o = some o
  print logger (s ∷ pieces) o = bind (adapter_write_str logger s o) λ o1. print logger pieces o1

  -- `init`: the logger, and the output after "OK\n".
  unfoldable pub init : Option (LogSink M) → Output M → Option (Option (LogSink M) × Output M)
  unfolding set_logger write_raw
  init logger o =
      let logger' = set_logger serial_sink logger in
      bind (write_raw b'O' o)
        λ o1. bind (write_raw b'K' o1) λ o2. bind (write_raw newline o2) λ o3. some (logger', o3)
