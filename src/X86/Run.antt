-- ===== src/X86/Run.antt =====
-- The commands of arch/x86_64: functions that change the machine and may fail.
use rincos.Prelude.{Bool, if◌then◌else◌}
use rincos.X86.Machine.{Machine}

-- The result of a function that changes the machine and the frame allocator. Both keep their
-- changes when it returns an error. `fault` is a read through a dangling pointer, or a panic.
pub record World (A : Type 0) : Type 0 where
  pub machine : Machine
  pub pt_alloc : A

pub data Run (A E X : Type 0) : Type 0 where
  ok : X → World A → Run A E X
  err : E → World A → Run A E X
  fault : Run A E X

abbrev pub Cmd : Type 0 → Type 0 → Type 0 → Type 0
Cmd A E X = World A → Run A E X

abbrev pub pure : {A E X : Type 0} → X → Cmd A E X
pure = ok

abbrev pub fail : {A E X : Type 0} → E → Cmd A E X
fail = err

module _ {A E X Y : Type 0} where
  abbrev pub and_then : Run A E X → (X → Cmd A E Y) → Run A E Y
  and_then (ok x w) k = k x w
  and_then (err e w) k = err e w
  and_then fault k = fault

  infixl 5 ◌>>=◌ ◌>>◌
  abbrev pub ◌>>=◌ : Cmd A E X → (X → Cmd A E Y) → Cmd A E Y
  m >>= k = λ w. and_then (m w) k

  abbrev pub ◌>>◌ : Cmd A E X → Cmd A E Y → Cmd A E Y
  m >> k = m >>= λ _. k

-- `if condition { return Err(e); }`.
abbrev pub fail_if : {A E : Type 0} → Bool → E → Cmd A E (Unit {0})
fail_if c e w = if c then err e w else ok tt w
