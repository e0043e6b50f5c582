-- ===== src/State/Monad.antt =====
-- Methods that mutate an object and may raise. What was written before an exception stays written,
-- so the state comes back beside the error too.

use riscv_python.Prelude.{ℕ}

-- The exceptions of machine.py and ram.py that the modelled methods raise, `debug_break` with its
-- signal, and Python's `IndexError`, `ValueError`,
-- `OSError` and `TypeError`.
pub data Fault : Type 0 where
  memory_access_error execution_terminated machine_error index_error value_error : Fault
  os_error type_error : Fault
  debug_break : ℕ → Fault

pub data Result {ℓ} (A : Type ℓ) : Type ℓ where
  ok : A → Result A
  err : Fault → Result A

abbrev pub Exec {ℓ κ} : Type ℓ → Type κ → Type (ℓ ⊔ κ)
Exec S A = S → Result A × S

module _ {ℓ κ} {S : Type ℓ} {A : Type κ} where
  abbrev pub pure : A → Exec S A
  pure a s = (ok a, s)

  abbrev pub raise : Fault → Exec S A
  raise e s = (err e, s)

-- `apply f` is a statement that mutates the state by `f`.
abbrev pub apply {ℓ} : {S : Type ℓ} → (S → S) → S → Result (Unit {0}) × S
apply f s = (ok tt, f s)

module _ {ℓ κ μ} {S : Type ℓ} {A : Type κ} {B : Type μ} where
  abbrev pub continue : Result A × S → (A → Exec S B) → Result B × S
  continue (ok a, s) f = f a s
  continue (err e, s) f = (err e, s)

  infixl 5 ◌>>=◌ ◌>>◌
  abbrev pub ◌>>=◌ : Exec S A → (A → Exec S B) → Exec S B
  ◌>>=◌ m f s = continue (m s) f

  abbrev pub ◌>>◌ : Exec S A → Exec S B → Exec S B
  m >> n = m >>= λ _. n
