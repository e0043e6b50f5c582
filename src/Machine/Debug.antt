-- ===== src/Machine/Debug.antt =====
-- `run_with_gdb` of class `Machine` in machine.py, and `check_for_interrupt` of class `GDBStub` in
-- gdbstub.py. The system call handler and the `run` methods of the devices are parameters.
pub mod Breakpoints
use riscv_python.Prelude.{
  ℕ, zero, suc, ◌+◌, ◌*◌, ◌%◌, ◌^◌, bit_or, Bool, true, false, List, [], ◌∷◌, ◌==◌, if◌then◌else◌,
}
use riscv_python.Prelude.Int.{pos_part}
use riscv_python.State.{System, ok, err, Exec, debug_break, ◌>>=◌, ◌>>◌, apply, raise}
use riscv_python.Ram.Access.{load_half}
use riscv_python.Cpu.System.{EcallHandler}
use riscv_python.Cpu.Execute.{execute_32, execute_16}
use riscv_python.Gdb.Session.{Session, sigint, sigtrap}
use riscv_python.Gdb.Receive.{Incoming, byte, pause, Link}
use riscv_python.Gdb.Control.{is_breakpoint}
use riscv_python.Machine.{Options, advance, update_if}

-- The stub and its connection, and the two counters of the loop.
pub record Debugger : Type 0 where
  pub session : Session
  pub link : Link
  pub cycle_count : ℕ
  pub div : ℕ

-- A pause is a moment at which nothing has arrived. Only the interrupt byte is consumed.
unfoldable pub poll : List Incoming → Bool × List Incoming
poll (byte c ∷ rest) = if c == 3 then (true, rest) else (false, byte c ∷ rest)
poll (pause ∷ rest) = (false, rest)
poll [] = (false, [])

unfoldable pub check_for_interrupt : Link → Bool × Link
unfolding poll
check_for_interrupt link =
    let (found, rest) = poll link.incoming in (found, record link { incoming = rest })

abbrev pub set_system : System → Debugger → Debugger
set_system sys d = record d { session = record d.session { system = sys } }

-- A method of the emulator, from the debugger.
abbrev pub on_system : {A : Type 0} → Exec System A → Exec Debugger A
on_system m d = let (r, sys) = m d.session.system in (r, set_system sys d)

-- The test of every 4096th cycle.
abbrev pub stop_if : Bool → Exec Debugger (Unit {0})
stop_if true d =
    (err (debug_break sigint), record d { session = record d.session { running = false } })
stop_if false d = (ok tt, d)

unfoldable pub count_cycle : Exec Debugger (Unit {0})
unfolding check_for_interrupt
count_cycle d =
    let counted = record d { cycle_count = d.cycle_count + 1 } in
    let (found, link) = check_for_interrupt d.link in
    if counted.cycle_count % 2 ^ 12 == 0
    then stop_if found (record counted { link = link })
    else (ok tt, counted)

module _ (handle_ecall : EcallHandler) (peripherals_run : Exec System (Unit {0})) where
  -- The second half of a 32-bit instruction is fetched before it is executed.
  unfoldable pub execute_halves : ℕ → ℕ → Exec System (Unit {0})
  execute_halves pc inst_low s =
      if inst_low % 2 ^ 2 == 0x3
      then (do
        inst_high ← load_half (pc + 2) false
        execute_32 handle_ecall (bit_or inst_low (pos_part inst_high * 2 ^ 16)))
          s
      else execute_16 handle_ecall inst_low s

  -- One instruction, which stands twice in `run_with_gdb`.
  unfoldable pub step_instruction : Bool → Exec System (Unit {0})
  unfolding execute_halves update_if advance
  step_instruction timer s =
      (do
        inst_low ← load_half s.cpu.pc false
        execute_halves s.cpu.pc (pos_part inst_low)
        update_if handle_ecall peripherals_run timer
        apply advance)
        s

  -- Single step mode.
  unfoldable pub single_step : Options → Exec Debugger Bool
  unfolding step_instruction
  single_step o = do
    on_system (step_instruction o.timer)
    on_system (λ s. if o.mmio then peripherals_run s else (ok tt, s))
    raise (debug_break sigtrap)

  -- The devices run in every 256th round, and the counter starts again.
  unfoldable pub count_device_round : Exec Debugger (Unit {0})
  count_device_round d =
      let next = record d { div = d.div + 1 } in
      if next.div % 2 ^ 8 == 0
      then (do on_system peripherals_run; apply (λ d. record d { div = 0 })) next
      else (ok tt, next)

  -- A round after the test for a breakpoint.
  unfoldable pub free_round : Options → Exec Debugger (Unit {0})
  unfolding count_cycle step_instruction count_device_round
  free_round o = do
    count_cycle
    on_system (step_instruction o.timer)
    (λ d. if o.mmio then count_device_round d else (ok tt, d))

  -- One round of the loop.
  unfoldable pub debug_round : Options → Exec Debugger (Unit {0})
  unfolding is_breakpoint free_round
  debug_round o d =
      if is_breakpoint d.session.system.cpu.pc d.session
      then (err (debug_break sigtrap), d)
      else free_round o d

  -- `while gdb_stub.running` for `n` rounds at most: whether the loop has ended.
  unfoldable pub debug_rounds : Options → ℕ → Exec Debugger Bool
  unfolding debug_round
  debug_rounds o zero d = (ok false, d)
  debug_rounds o (suc n) d =
      let rest : Exec Debugger Bool = (do debug_round o; debug_rounds o n) in
      if d.session.running then rest d else (ok true, d)

  unfoldable pub run_with_gdb : Options → ℕ → Exec Debugger Bool
  unfolding single_step debug_rounds
  run_with_gdb o n d =
      if d.session.single_step
      then single_step o d
      else debug_rounds o n (record d { cycle_count = 0; div = 0 })
