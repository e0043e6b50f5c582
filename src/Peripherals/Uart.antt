-- ===== src/Peripherals/Uart.antt =====
-- Class `PtyUART` of peripherals.py over a pseudo-terminal of the host.
pub mod Order
use riscv_python.Prelude.{
  ℕ, ◌+◌, ◌%◌, ◌^◌, ◌==◌, Bool, true, false, Option, none, some, List, [], ◌∷◌, ◌++◌, if◌then◌else◌,
}
use riscv_python.State.{Result, ok, err, Exec, memory_access_error, ◌>>=◌, ◌>>◌}

-- The calls of the master side: whether the selector sees input, and `os.read` and `os.write`, which
-- do not wait. A read that finds nothing raises BlockingIOError, here `none`; so may a write, which
-- the source ignores.
pub record Pty (H : Type 0) : Type 0 where
  pub select : H → Bool × H
  pub read : ℕ → Exec H (Option (List ℕ))
  pub write : List ℕ → Exec H (Unit {0})

-- The attributes of the device, with the state of the host to which `master_fd` belongs.
pub record PtyUart (H : Type 0) : Type 0 where
  pub reg_base : ℕ
  pub rx_buf : List ℕ
  pub host : H

module _ {H : Type 0} where
  -- A call of the host.
  abbrev pub in_host : {A : Type 0} → Exec H A → Exec (PtyUart H) A
  in_host m u = let (r, h) = m u.host in (r, record u { host = h })

  -- `rx_buf.extend(data)`
  abbrev pub extend_rx : Option (List ℕ) → Exec (PtyUart H) (Unit {0})
  extend_rx none u = (ok tt, u)
  extend_rx (some bytes) u = (ok tt, record u { rx_buf = u.rx_buf ++ bytes })

  -- `rx_buf.pop(0)`, or the bit that says that the buffer is empty.
  abbrev pub pop_rx : List ℕ → Exec (PtyUart H) ℕ
  pop_rx [] u = (ok (2 ^ 31), u)
  pop_rx (b ∷ bs) u = (ok b, record u { rx_buf = bs })

module _ {H : Type 0} (pty : Pty H) where
  -- The selector has one file, so that its loop has one round at most.
  unfoldable pub run : Exec (PtyUart H) (Unit {0})
  run u =
      let (ready, h) = pty.select u.host in
      let polled = record u { host = h } in
      if ready
      then (do data_read ← in_host (pty.read 64); extend_rx data_read) polled
      else (ok tt, polled)

  unfoldable pub read32 : ℕ → Exec (PtyUart H) ℕ
  unfolding run
  read32 addr u =
      if addr == u.reg_base + 4
      then (do run; (λ u. pop_rx u.rx_buf u)) u
      else if addr == u.reg_base
      then (ok 0, u)
      else (err memory_access_error, u)

  unfoldable pub write32 : ℕ → ℕ → Exec (PtyUart H) (Unit {0})
  write32 addr value u =
      if addr == u.reg_base
      then in_host (pty.write (value % 2 ^ 8 ∷ [])) u
      else (err memory_access_error, u)
