-- ===== src/Gdb/Session.antt =====
-- The attributes of class `GDBStub` in gdbstub.py, beside the emulator that it controls.
use riscv_python.Prelude.{ℕ, Bool, Option, none, some, ◌==◌, ◌||◌, if◌then◌else◌}
use riscv_python.Prelude.Int.{ℤ}
use riscv_python.State.{System, Exec, Result}
use riscv_python.Text.{Text, codes}

-- The set of breakpoints is its characteristic function: an address is any number that `int` reads.
pub record Session : Type 0 where
  pub system : System
  pub running : Bool
  pub single_step : Bool
  pub last_signal : ℕ
  pub sw_breakpoints : ℤ → Bool

-- Class `GDBSignals`
abbrev pub sigint : ℕ
sigint = 2

abbrev pub sigill : ℕ
sigill = 4

abbrev pub sigtrap : ℕ
sigtrap = 5

abbrev pub sigsegv : ℕ
sigsegv = 11

unfoldable pub from_trap_cause : ℕ → ℕ
from_trap_cause cause =
    if cause == 2
    then sigill
    else if cause == 3
    then sigtrap
    else if cause == 0 || cause == 1 || cause == 5 || cause == 7
    then sigsegv
    else sigtrap

-- A command with its response.
abbrev pub Command : Type 0
Command = Exec Session Text

-- `except ValueError: return 'E01'`, where a text may be no number.
abbrev pub or_e01 {ℓ} : {A : Type ℓ} → Option A → (A → Command) → Command
or_e01 none f s = (Result.ok (codes "E01"), s)
or_e01 (some a) f s = f a s

abbrev pub reply : Text → Command
reply text s = (Result.ok text, s)
