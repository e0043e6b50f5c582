-- ===== src/Gdb/Control.antt =====
-- The commands of class `GDBStub` in gdbstub.py that start the program, set breakpoints and answer
-- queries.
use riscv_python.Prelude.{ℕ, Bool, true, false, not, ◌&&◌, ◌||◌, Option, none, some, [], ◌∷◌}
use riscv_python.Prelude.Int.{pos, to_u32, is_ℤ}
use riscv_python.State.{ok, Exec}
use riscv_python.Text.{Text, codes, hex_02, int_16, first_part}
use riscv_python.Gdb.Session.{Session, Command, or_e01, reply}
use riscv_python.Gdb.Registers.{set_pc}

-- A command whose response may be `None`.
abbrev pub Starter : Type 0
Starter = Exec Session (Option Text)

-- `if addr_str:` and the jump; none is `ValueError`.
unfoldable pub jump : Option Text → Session → Option Session
unfolding set_pc
jump none s = some s
jump (some []) s = some s
jump (some (c ∷ t)) s = elim (int_16 (c ∷ t)) [ none ↦ none | some z ↦ some (set_pc (to_u32 z) s) ]

abbrev pub start : Bool → Option Session → Starter
start single_step none s = (ok (some (codes "E01")), s)
start single_step (some s') s = (ok none, record s' { running = true; single_step = single_step })

unfoldable pub cmd_continue : Option Text → Starter
unfolding jump
cmd_continue addr_str s = start false (jump addr_str s) s

unfoldable pub cmd_step : Option Text → Starter
unfolding jump
cmd_step addr_str s = start true (jump addr_str s) s

unfoldable pub cmd_insert_breakpoint : Text → Command
unfolding first_part
cmd_insert_breakpoint params = or_e01 (int_16 (first_part b',' params)) λ addr.
    λ s. reply (codes "OK") (record s { sw_breakpoints = λ z. is_ℤ z addr || s.sw_breakpoints z })

unfoldable pub cmd_remove_breakpoint : Text → Command
unfolding first_part
cmd_remove_breakpoint params = or_e01 (int_16 (first_part b',' params)) λ addr. λ s.
    reply (codes "OK") (record s { sw_breakpoints = λ z. not (is_ℤ z addr) && s.sw_breakpoints z })

unfoldable pub is_breakpoint : ℕ → Session → Bool
is_breakpoint addr s = s.sw_breakpoints (pos addr)

-- `f"S{signal:02x}"`
unfoldable pub signal_text : ℕ → Text
unfolding hex_02
signal_text signal = b'S' ∷ hex_02 signal

unfoldable pub cmd_halt_reason : Command
unfolding signal_text
cmd_halt_reason s = reply (signal_text s.last_signal) s

-- The packet, and the session that remembers the signal.
unfoldable pub stop_reply : ℕ → Session → Text × Session
unfolding signal_text
stop_reply signal s = (signal_text signal, record s { last_signal = signal })

unfoldable pub cmd_supported : Command
cmd_supported = reply (codes "PacketSize=4096;swbreak+;hwbreak-;qRelocInsn-;vContSupported+")
