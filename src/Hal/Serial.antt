-- ===== src/Hal/Serial.antt =====
-- crates/hal/src/serial.rs: the serial writer that the platform registers.
use rincos.Prelude.{ℕ, Option, none, some}

-- A writer on a device of type `M`. It gives none where the code does not return.
pub record SerialWriter (M : Type 0) : Type 0 where
  pub write_byte : ℕ → M → Option M

module _ {M : Type 0} where
  -- The static `SERIAL` after the registration.
  unfoldable pub register_serial_writer :
      SerialWriter M → Option (SerialWriter M) → Option (SerialWriter M)
  register_serial_writer w serial = some w

  unfoldable pub write_byte : Option (SerialWriter M) → ℕ → M → Option M
  write_byte none b m = some m
  write_byte (some w) b m = w.write_byte b m
