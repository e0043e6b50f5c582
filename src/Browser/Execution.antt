-- ===== src/Browser/Execution.antt =====
-- `run_chunk` of browser_entry.py.
use riscv_python.Prelude.{
  ℕ, zero, suc, ◌+◌, Bool, true, false, Option, none, some, List, if◌then◌else◌,
}
use riscv_python.State.{
  System, Result, ok, err, Fault, Exec, execution_terminated, machine_error, memory_access_error,
  ◌>>=◌, ◌>>◌, apply,
}
use riscv_python.Ram.Access.{load_word}
use riscv_python.Cpu.System.{EcallHandler}
use riscv_python.Cpu.Execute.{execute}
use riscv_python.Cpu.Trap.{timer_update}
use riscv_python.Machine.{advance}
use riscv_python.Machine.Checks.{CheckSettings, check_invariants}
use riscv_python.Machine.Loader.{Machine}
use riscv_python.Browser.{EmulatorState, ExitInfo, terminated, failed, unexpected}

-- What `check_invariants` reads of the machine.
abbrev text_of : Option ℕ → Option ℕ → Option (List ℕ) → Option (ℕ × ℕ × List ℕ)
text_of (some start) (some end) (some snapshot) = some (start, end, snapshot)
text_of _ _ _ = none

abbrev pub check_settings : Machine → CheckSettings
check_settings m = record {
  start_checks = m.start_checks;
  main_addr = m.main_addr;
  stack_top = m.stack_top;
  stack_bottom = m.stack_bottom;
  text = text_of m.text_start m.text_end m.text_snapshot;
}

-- What a chunk changes: the processor and the memory, `check_enable` and the count.
pub record Progress : Type 0 where
  pub system : System
  pub check_enable : Bool
  pub instruction_count : ℕ

-- A method of the emulator.
unfoldable pub in_progress : {A : Type 0} → Exec System A → Exec Progress A
in_progress f p = let (r, s) = f p.system in (r, record p { system = s })

module _ (handle_ecall : EcallHandler) (settings : CheckSettings) (check_inv timer : Bool) where
  unfoldable pub check_chunk : Exec Progress (Unit {0})
  unfolding check_invariants
  check_chunk p =
      let (r, (s, flag)) = check_invariants settings (p.system, p.check_enable) in
      if check_inv then (r, record p { system = s; check_enable = flag }) else (ok tt, p)

  -- One instruction; the logging of registers and functions is left out.
  unfoldable pub chunk_step : Exec Progress (Unit {0})
  unfolding check_chunk advance
  chunk_step p =
      (do
        check_chunk
        in_progress (do inst ← (λ s. load_word s.cpu.pc s); execute handle_ecall inst)
        in_progress (λ s. if timer then timer_update s else (ok tt, s))
        in_progress (apply advance)
        apply (λ p. record p { instruction_count = p.instruction_count + 1 }))
        p

  unfoldable pub chunk_loop : ℕ → Exec Progress (Unit {0})
  unfolding chunk_step
  chunk_loop zero p = (ok tt, p)
  chunk_loop (suc n) p = (chunk_step >> chunk_loop n) p

-- The three handlers of exceptions.
abbrev exit_of : Fault → ExitInfo
exit_of execution_terminated = terminated
exit_of machine_error = failed machine_error
exit_of memory_access_error = failed memory_access_error
exit_of f = unexpected f

abbrev pub with_progress : Machine → Progress → EmulatorState → EmulatorState
with_progress m p e = record e {
  machine = some (record m { system = p.system });
  check_enable = p.check_enable;
  instruction_count = p.instruction_count;
}

abbrev pub end_chunk : Machine → EmulatorState → Result (Unit {0}) × Progress → Bool × EmulatorState
end_chunk m e (ok _, p) = (true, with_progress m p e)
end_chunk m e (err f, p) = (
  false,
  record (with_progress m p e) {
    exit_info = some (exit_of f);
    running = false;
    should_reset_pc = true;
  },
)

abbrev pub progress_of : Machine → EmulatorState → Progress
progress_of m e = record {
  system = m.system;
  check_enable = e.check_enable;
  instruction_count = e.instruction_count;
}

-- Without a machine the first attribute of `None` raises out of `run_chunk`; a running emulator has
-- one, and the model leaves the state as it is.
abbrev pub run_machine : EcallHandler → ℕ → Option Machine → EmulatorState → Bool × EmulatorState
run_machine handle_ecall n none e = (false, e)
run_machine handle_ecall n (some m) e =
    if e.running
    then end_chunk m e
        (chunk_loop handle_ecall (check_settings m) e.check_inv e.options.timer n (progress_of m e))
    else (false, e)

unfoldable pub run_chunk : EcallHandler → ℕ → EmulatorState → Bool × EmulatorState
unfolding chunk_loop
run_chunk handle_ecall n e = run_machine handle_ecall n e.machine e
