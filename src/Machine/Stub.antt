-- ===== src/Machine/Stub.antt =====
-- `run_gdbstub` of class `Machine` in machine.py: the loop that serves the commands of a debugger.
-- `error_text` and `message` give texts of exceptions, which are Python's.
pub mod Input
pub mod Termination
use riscv_python.Prelude.{
  ℕ, zero, suc, ◌+◌, ◌++◌, Bool, true, false, ◌&&◌, Option, none, some, [], ◌∷◌, leb, ◌||◌,
  if◌then◌else◌,
}
use riscv_python.State.{
  System, Result, ok, err, Exec, debug_break, execution_terminated, machine_error,
  memory_access_error, index_error, value_error, os_error, type_error,
}
use riscv_python.Cpu.System.{EcallHandler}
use riscv_python.Text.{Text, codes, starts_with, same_text}
use riscv_python.Gdb.Packet.{encode}
use riscv_python.Gdb.Receive.{Link, recv_packet}
use riscv_python.Gdb.Session.{Session, sigint, sigill, sigtrap, sigsegv}
use riscv_python.Gdb.Control.{stop_reply}
use riscv_python.Gdb.Dispatch.{handle_command}
use riscv_python.Machine.{Options}
use riscv_python.Machine.Debug.{Debugger, run_with_gdb}

-- `c.lower()` of an ASCII character
unfoldable pub lower : ℕ → ℕ
lower c = if leb b'A' c && leb c b'Z' then c + 32 else c

-- `text.lower()`
abbrev lowered : Text → Text
lowered [] = []
lowered (c ∷ s) = lower c ∷ lowered s

-- `p in s`
unfoldable pub contains : Text → Text → Bool
contains p [] = starts_with [] p
contains p (c ∷ s) = starts_with (c ∷ s) p || contains p s

unfoldable pub error_signal : Text → ℕ
unfolding contains lower
error_signal text =
    if contains (codes "illegal") (lowered text)
    then sigill
    else if contains (codes "trap") (lowered text)
    then sigtrap
    else sigsegv

-- `gdb_stub.send_packet(payload)`
unfoldable pub send_packet : Text → Link → Link
unfolding encode
send_packet payload link = record link { outgoing = link.outgoing ++ encode payload }

-- `gdb_stub.running = False` and the packet that tells why.
unfoldable pub report_stop : ℕ → Debugger → Debugger
unfolding stop_reply send_packet
report_stop signal d =
    let (reply, s) = stop_reply signal (record d.session { running = false }) in
    record d { session = s; link = send_packet reply d.link }

-- How a round of the command loop ends; `still_running` is that the program has not stopped in the
-- rounds that were given.
pub data Served : Type 0 where
  served closed still_running : Served

module _ (message : System → Text) where
  -- The handlers of the exceptions that `run_with_gdb` raises.
  unfoldable pub after_run : Result Bool × Debugger → Result Served × Debugger
  unfolding report_stop error_signal
  after_run (ok true, d) = (ok served, report_stop sigtrap d)
  after_run (ok false, d) = (ok still_running, d)
  after_run (err (debug_break signal), d) = (
    ok served,
    report_stop signal (record d { session = record d.session { single_step = false } }),
  )
  after_run (err execution_terminated, d) = (ok served, report_stop sigtrap d)
  after_run (err machine_error, d) =
      (ok served, report_stop (error_signal (message d.session.system)) d)
  after_run (err memory_access_error, d) =
      (ok served, report_stop (error_signal (message d.session.system)) d)
  after_run (err index_error, d) = (err index_error, d)
  after_run (err value_error, d) = (err value_error, d)
  after_run (err os_error, d) = (err os_error, d)
  after_run (err type_error, d) = (err type_error, d)

unfoldable pub send_response : Option Text → Debugger → Debugger
unfolding send_packet
send_response none d = d
send_response (some response) d = record d { link = send_packet response d.link }

module _ (error_text : Text → Text) (message : System → Text) (handle_ecall : EcallHandler)
    (peripherals_run : Exec System (Unit {0})) (o : Options) (rounds : ℕ) where
  -- The program runs if the command has started it, else the response is sent.
  unfoldable pub after_command :
      Result (Option Text) × Session → Debugger → Result Served × Debugger
  unfolding after_run run_with_gdb send_response
  after_command (err e, s) d = (err e, record d { session = s })
  after_command (ok response, s) d =
      if s.running
      then after_run message
          (run_with_gdb handle_ecall peripherals_run o rounds (record d { session = s }))
      else (ok served, send_response response (record d { session = s }))

  unfoldable pub after_packet : Result (Option Text) → Debugger → Result Served × Debugger
  unfolding report_stop handle_command after_command
  after_packet (err e) d = (err e, d)
  after_packet (ok none) d = (ok closed, d)
  after_packet (ok (some cmd)) d =
      if same_text cmd (codes "interrupt")
      then (ok served, report_stop sigint d)
      else after_command (handle_command error_text cmd d.session) d

  -- One round of the command loop.
  unfoldable pub serve_command : Debugger → Result Served × Debugger
  unfolding recv_packet after_packet
  serve_command d = let (r, link) = recv_packet d.link in after_packet r (record d { link = link })

  abbrev pub and_then :
      Result Served × Debugger → (Debugger → Result Served × Debugger) → Result Served × Debugger
  and_then (ok served, d) next = next d
  and_then (r, d) next = (r, d)

  -- The command loop, for as many commands as there is fuel.
  unfoldable pub run_gdbstub : ℕ → Debugger → Result Served × Debugger
  unfolding serve_command
  run_gdbstub zero d = (ok served, d)
  run_gdbstub (suc fuel) d = and_then (serve_command d) (run_gdbstub fuel)
