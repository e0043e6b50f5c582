-- ===== src/Gdb/Dispatch/Breakpoints.antt =====
-- The breakpoints that the commands Z0 and z0 leave.
use riscv_python.Prelude.{ℕ, ◌≡◌, refl, not, ◌&&◌, ◌||◌, some, ◌++◌, ◌==◌, arith}
use riscv_python.Prelude.Int.{pos}
use riscv_python.State.{ok}
use riscv_python.Text.{Text, codes, int_16, first_part}
use riscv_python.Gdb.Session.{Session}
use riscv_python.Gdb.Control.{is_breakpoint, cmd_insert_breakpoint, cmd_remove_breakpoint}
use riscv_python.Gdb.Dispatch.{handle_command}

-- When the first parameter is the number of an address, the command Z0 answers OK and makes just
-- this address a breakpoint beside those that there are, and z0 with the same parameters then
-- answers OK and takes just this address away.
pub handle_command-breakpoints :
    (error_text : Text → Text) (params : Text) (addr b : ℕ) (s : Session)
    → int_16 (first_part b',' params) ≡ some (pos addr)
    → (let inserted = handle_command error_text (codes "Z0," ++ params) s in
        let removed = handle_command error_text (codes "z0," ++ params) inserted.1 in
        (inserted.0 ≡ ok (some (codes "OK")))
        × (is_breakpoint b inserted.1 ≡ (b == addr || is_breakpoint b s))
        × (removed.0 ≡ ok (some (codes "OK")))
        × (is_breakpoint b removed.1 ≡ (not (b == addr) && is_breakpoint b s)))
unfolding handle_command cmd_insert_breakpoint cmd_remove_breakpoint is_breakpoint
handle_command-breakpoints error_text params addr b s h = rw h (refl, refl, refl, ground arith)
