-- ===== src/Machine/Stub/Termination.antt =====
-- The command loop of machine.py ends when the connection does.
use riscv_python.Prelude.{ℕ, zero, suc, ◌≤◌, ◌<◌, ◌≢◌, Option, none, some, Bool, true, false, arith}
use riscv_python.State.Leaves.{if-keeps}
use riscv_python.State.{
  System, Result, ok, err, Exec, debug_break, execution_terminated, machine_error,
  memory_access_error, index_error, value_error, os_error, type_error,
}
use riscv_python.Ram.Bytes.{length}
use riscv_python.Cpu.System.{EcallHandler}
use riscv_python.Text.{Text, codes, same_text}
use riscv_python.Gdb.Receive.{Link, recv_packet}
use riscv_python.Gdb.Session.{Session}
use riscv_python.Gdb.Dispatch.{handle_command}
use riscv_python.Machine.{Options}
use riscv_python.Machine.Debug.{Debugger, run_with_gdb}
use riscv_python.Machine.Stub.{
  Served, served, closed, still_running, report_stop, after_run, send_response, after_command,
  after_packet, serve_command, and_then, run_gdbstub,
}
use riscv_python.Machine.Stub.Input.{Takes, receive-Takes, run_with_gdb-Leaves}

-- Less than `n` pieces of input are left; of a round, where it was served.
abbrev Below : ℕ → Debugger → Type 0
Below n d = length d.link.incoming < n

abbrev Progress : ℕ → Result Served × Debugger → Type 0
Progress n (ok served, d) = Below n d
Progress n _ = Unit

Takes-more : (m n : ℕ) (x : Result (Option Text) × Link) → m ≤ n → Takes m x → Takes n x
Takes-more m n (ok (some cmd), link) h t = omega arith
Takes-more m n (ok none, link) h t = tt
Takes-more m n (err e, link) h t = tt

module _ (error_text : Text → Text) (message : System → Text) (handle_ecall : EcallHandler)
    (peripherals_run : Exec System (Unit {0})) (o : Options) (rounds : ℕ) where
  after_run-Progress :
      (n : ℕ) (r : Result Bool) (d : Debugger) → Below n d → Progress n (after_run message (r, d))
  unfolding after_run report_stop
  after_run-Progress n (ok true) d h = h
  after_run-Progress n (ok false) d h = tt
  after_run-Progress n (err (debug_break signal)) d h = h
  after_run-Progress n (err execution_terminated) d h = h
  after_run-Progress n (err machine_error) d h = h
  after_run-Progress n (err memory_access_error) d h = h
  after_run-Progress n (err index_error) d h = tt
  after_run-Progress n (err value_error) d h = tt
  after_run-Progress n (err os_error) d h = tt
  after_run-Progress n (err type_error) d h = tt

  ran-Progress :
      (n : ℕ) (d : Debugger)
      → Below n d
      → Progress n (after_run message (run_with_gdb handle_ecall peripherals_run o rounds d))
  ran-Progress n d h =
      let x = run_with_gdb handle_ecall peripherals_run o rounds d in
      let left =
        (run_with_gdb-Leaves handle_ecall peripherals_run o (length d.link.incoming) rounds d
          (omega arith)).state in
      after_run-Progress n x.0 x.1 (omega (arith, left))

  send_response-Below :
      (n : ℕ) (response : Option Text) (d : Debugger)
      → Below n d
      → Below n (send_response response d)
  unfolding send_response
  send_response-Below n none d h = h
  send_response-Below n (some t) d h = h

  after_command-Progress :
      (n : ℕ) (x : Result (Option Text) × Session) (d : Debugger)
      → Below n d
      → Progress n (after_command error_text message handle_ecall peripherals_run o rounds x d)
  unfolding after_command
  after_command-Progress n (err e, s) d h = tt
  after_command-Progress n (ok response, s) d h =
      if-keeps (Progress n) s.running _ _ (ran-Progress n (record d { session = s }) h)
        (send_response-Below n response (record d { session = s }) h)

  after_packet-Progress :
      (n : ℕ) (r : Result (Option Text)) (d : Debugger)
      → Takes n (r, d.link)
      → Progress n (after_packet error_text message handle_ecall peripherals_run o rounds r d)
  unfolding after_packet report_stop
  after_packet-Progress n (err e) d h = tt
  after_packet-Progress n (ok none) d h = tt
  after_packet-Progress n (ok (some cmd)) d h =
      let h' : Below n d = omega arith in
      if-keeps (Progress n) (same_text cmd (codes "interrupt")) _ _ h'
        (after_command-Progress n (handle_command error_text cmd d.session) d h')

  serve_command-Progress :
      (n : ℕ) (d : Debugger)
      → length d.link.incoming ≤ n
      → Progress n (serve_command error_text message handle_ecall peripherals_run o rounds d)
  unfolding serve_command recv_packet
  serve_command-Progress n d h =
      let x = recv_packet d.link in
      after_packet-Progress n x.0 (record d { link = x.1 })
        (Takes-more (length d.link.incoming) n x h (receive-Takes d.link.incoming d.link.outgoing))

  and_then-ends :
      (n : ℕ) (x : Result Served × Debugger) (next : Debugger → Result Served × Debugger)
      → Progress n x
      → ((d : Debugger) → Below n d → (next d).0 ≢ ok served)
      → (and_then error_text message handle_ecall peripherals_run o rounds x next).0 ≢ ok served
  and_then-ends n (ok served, d) next h hn = hn d h
  and_then-ends n (ok closed, d) next h hn = λ e. cc
  and_then-ends n (ok still_running, d) next h hn = λ e. cc
  and_then-ends n (err f, d) next h hn = λ e. cc

  -- With more rounds than there is input, the command loop never stops for want of rounds: the
  -- connection is closed, an exception leaves the loop, or a program that the debugger has started
  -- is still running in the rounds that it was given.
  pub run_gdbstub-ends :
      (fuel : ℕ) (d : Debugger)
      → length d.link.incoming < fuel
      → (run_gdbstub error_text message handle_ecall peripherals_run o rounds fuel d).0 ≢ ok served
  unfolding run_gdbstub
  run_gdbstub-ends zero d h = omega arith
  run_gdbstub-ends (suc n) d h =
      and_then-ends n (serve_command error_text message handle_ecall peripherals_run o rounds d) _
        (serve_command-Progress n d (omega arith)) λ d h. run_gdbstub-ends n d h
