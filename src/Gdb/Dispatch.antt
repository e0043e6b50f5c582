-- ===== src/Gdb/Dispatch.antt =====
-- `handle_command` of class `GDBStub` in gdbstub.py.
pub mod Breakpoints
use riscv_python.Prelude.{◌||◌, Option, none, some, if◌then◌else◌, [], ◌∷◌}
use riscv_python.State.{Result, ok, err, execution_terminated}
use riscv_python.Text.{Text, codes, drop, starts_with, same_text}
use riscv_python.Gdb.Session.{Session, Command, reply}
use riscv_python.Gdb.Registers.{
  cmd_read_registers, cmd_write_registers, cmd_read_register, cmd_write_register,
}
use riscv_python.Gdb.Memory.{cmd_read_memory, cmd_write_memory}
use riscv_python.Gdb.Control.{
  Starter, cmd_halt_reason, cmd_continue, cmd_step, cmd_insert_breakpoint, cmd_remove_breakpoint,
  cmd_supported,
}
use riscv_python.Gdb.Monitor.{cmd_monitor}

abbrev pub some_response : Result Text × Session → Result (Option Text) × Session
some_response (ok text, s) = (ok (some text), s)
some_response (err e, s) = (err e, s)

-- A command that always has a response.
abbrev pub respond : Command → Starter
respond m s = some_response (m s)

-- `cmd[1:] if len(cmd) > 1 else None`
unfoldable pub address_part : Text → Option Text
address_part (c ∷ d ∷ s) = some (d ∷ s)
address_part _ = none

-- The queries with a fixed answer.
unfoldable pub handle_query : (Text → Text) → Text → Starter
unfolding cmd_supported cmd_monitor cmd_continue cmd_step
handle_query error_text cmd s =
    if starts_with cmd (codes "qSupported")
    then respond cmd_supported s
    else if same_text cmd (codes "qAttached")
    then respond (reply (codes "1")) s
    else if same_text cmd (codes "qC")
    then respond (reply (codes "QC0")) s
    else if same_text cmd (codes "qfThreadInfo")
    then respond (reply (codes "m0")) s
    else if same_text cmd (codes "qsThreadInfo")
    then respond (reply (codes "l")) s
    else if same_text cmd (codes "qOffsets")
    then respond (reply (codes "Text=0;Data=0;Bss=0")) s
    else if starts_with cmd (codes "qRcmd,")
    then respond (cmd_monitor error_text (drop 6 cmd)) s
    else if same_text cmd (codes "vCont?")
    then respond (reply (codes "vCont;c;s")) s
    else if same_text cmd (codes "vCont;c") || same_text cmd (codes "vCont;c:0")
    then cmd_continue none s
    else if same_text cmd (codes "vCont;s") || same_text cmd (codes "vCont;s:0")
    then cmd_step none s
    else if same_text cmd (codes "k")
    then (err execution_terminated, s)
    else if same_text cmd (codes "D")
    then respond (reply (codes "OK")) s
    else respond (reply []) s

unfoldable pub handle_command : (Text → Text) → Text → Starter
unfolding cmd_halt_reason cmd_read_registers cmd_write_registers cmd_read_register
    cmd_write_register cmd_read_memory cmd_write_memory cmd_continue cmd_step address_part
    cmd_insert_breakpoint cmd_remove_breakpoint handle_query
handle_command error_text cmd s =
    if same_text cmd (codes "?")
    then respond cmd_halt_reason s
    else if same_text cmd (codes "g")
    then respond cmd_read_registers s
    else if starts_with cmd (codes "G")
    then respond (cmd_write_registers (drop 1 cmd)) s
    else if starts_with cmd (codes "p")
    then respond (cmd_read_register (drop 1 cmd)) s
    else if starts_with cmd (codes "P")
    then respond (cmd_write_register (drop 1 cmd)) s
    else if starts_with cmd (codes "m")
    then respond (cmd_read_memory (drop 1 cmd)) s
    else if starts_with cmd (codes "M")
    then respond (cmd_write_memory (drop 1 cmd)) s
    else if starts_with cmd (codes "c")
    then cmd_continue (address_part cmd) s
    else if starts_with cmd (codes "s")
    then cmd_step (address_part cmd) s
    else if starts_with cmd (codes "Z0,")
    then respond (cmd_insert_breakpoint (drop 3 cmd)) s
    else if starts_with cmd (codes "z0,")
    then respond (cmd_remove_breakpoint (drop 3 cmd)) s
    else handle_query error_text cmd s
