-- ===== src/Tests/Debugger.antt =====
-- The properties of the debugger's stub, at one state each.
use riscv_python.Prelude.{
  ◌≡◌, ◌≢◌, refl, ◌&&◌, ◌||◌, not, ◌==◌, true, false, inl, none, some, [], ◌∷◌, ◌++◌, arith,
}
use riscv_python.Prelude.Int.{pos, is_ℤ}
use riscv_python.State.{ok}
use riscv_python.Text.{Text, codes, hex_02, int_16, split_in_two, first_part}
use riscv_python.Gdb.Packet.{escape, encode, decode, checksum}
use riscv_python.Gdb.Packet.RoundTrip.{decode-encode}
use riscv_python.Gdb.Receive.{recv_packet, byte, pause}
use riscv_python.Gdb.Receive.Delivery.{
  sent, recv_packet-encode, recv_packet-resent, recv_packet-interrupt,
}
use riscv_python.Gdb.Session.{Session}
use riscv_python.Gdb.Registers.{
  word_text, cmd_read_registers, cmd_write_registers, cmd_read_register, cmd_write_register,
}
use riscv_python.Gdb.Registers.Restore.{restored, cmd_write_registers-cmd_read_registers}
use riscv_python.Gdb.Registers.ReadBack.{cmd_read_register-cmd_write_register}
use riscv_python.Gdb.Memory.{cmd_read_memory, cmd_write_memory}
use riscv_python.Gdb.Memory.Bytes.{hex_text}
use riscv_python.Gdb.Memory.ReadBack.{with_bytes, cmd_read_memory-cmd_write_memory}
use riscv_python.Gdb.Control.{is_breakpoint}
use riscv_python.Gdb.Dispatch.{handle_command}
use riscv_python.Gdb.Dispatch.Breakpoints.{handle_command-breakpoints}
use riscv_python.Invariant.Defs.{IsWf}
use riscv_python.Invariant.Debugger.{handle_command-IsWf}
use riscv_python.Machine.{Options}
use riscv_python.Machine.Debug.{Debugger, run_with_gdb}
use riscv_python.Machine.Debug.Breakpoints.{Stop, run_with_gdb-Stop}
use riscv_python.Machine.Stub.{served, run_gdbstub}
use riscv_python.Machine.Stub.Termination.{run_gdbstub-ends}
use riscv_python.Tests.{machine, machine-IsWf, no_devices}

decode-encode_example : decode (encode (codes "m10,4*")) ≡ some (codes "m10,4*")
decode-encode_example = decode-encode (codes "m10,4*")

recv_packet-encode_example :
    recv_packet
      (record { incoming = sent (codes "+-") (sent (encode (codes "g}")) []); outgoing = [] })
    ≡ (ok (some (codes "g}")), record { incoming = []; outgoing = b'+' ∷ [] })
recv_packet-encode_example =
    recv_packet-encode (codes "+-") (codes "g}") [] [] (omega arith) (omega arith)

-- The packet `$g#00` has a wrong checksum.
wrong : decode (codes "$g#00") ≡ none
unfolding decode
wrong = refl

recv_packet-resent_example :
    recv_packet (record {
      incoming =
          byte b'$'
          ∷ sent (codes "g") (byte b'#' ∷ byte b'0' ∷ byte b'0' ∷ sent (encode (codes "g")) []);
      outgoing = [];
    })
    ≡ (ok (some (codes "g")), record { incoming = []; outgoing = b'-' ∷ b'+' ∷ [] })
recv_packet-resent_example =
    recv_packet-resent (codes "g") (codes "g") [] b'0' b'0' [] (ground arith) (omega arith)
      (omega arith) wrong (omega arith)

recv_packet-interrupt_example :
    recv_packet (record { incoming = sent (encode (codes "a#b")) []; outgoing = [] }) ≡ (
      ok (some (codes "interrupt")),
      record {
        incoming = sent (escape (codes "b") ++ b'#' ∷ hex_02 (checksum (escape (codes "a#b")))) [];
        outgoing = [];
      },
    )
recv_packet-interrupt_example = recv_packet-interrupt (codes "a") (codes "b") [] [] (omega arith)

-- A stopped program with one breakpoint, at 4.
abbrev stopped : Session
stopped = record {
  system = machine;
  running = false;
  single_step = false;
  last_signal = 5;
  sw_breakpoints = λ z. is_ℤ z (pos 4);
}

cmd_write_registers-cmd_read_registers_example :
    (saved : Text) × ((cmd_read_registers stopped ≡ (ok saved, stopped))
      × (cmd_write_registers saved (record stopped { running = true })
          ≡ (ok (codes "OK"), restored stopped (record stopped { running = true }))))
cmd_write_registers-cmd_read_registers_example =
    cmd_write_registers-cmd_read_registers stopped (record stopped { running = true })

-- x10, with the word 0x12345678.
split_example : split_in_two b'=' (codes "a=78563412") ≡ some (codes "a", word_text 0x12345678)
unfolding split_in_two word_text hex_02
split_example = refl

int_16_a : int_16 (codes "a") ≡ some (pos 10)
unfolding int_16
int_16_a = refl

cmd_read_register-cmd_write_register_example :
    ((cmd_write_register (codes "a=78563412") stopped).0 ≡ ok (codes "OK"))
    × (cmd_read_register (codes "a") (cmd_write_register (codes "a=78563412") stopped).1
        ≡ (ok (word_text 0x12345678), (cmd_write_register (codes "a=78563412") stopped).1))
cmd_read_register-cmd_write_register_example =
    cmd_read_register-cmd_write_register (codes "a=78563412") (codes "a") 10 0x12345678 stopped
      split_example int_16_a (inl (omega arith)) (omega arith)

-- Two bytes at 16.
halves : split_in_two b':' (codes "10,2:ff07") ≡ some (codes "10,2", hex_text (255 ∷ 7 ∷ []))
unfolding split_in_two hex_text hex_02
halves = refl

parts : split_in_two b',' (codes "10,2") ≡ some (codes "10", codes "2")
unfolding split_in_two
parts = refl

int_16_10 : int_16 (codes "10") ≡ some (pos 16)
unfolding int_16
int_16_10 = refl

int_16_2 : int_16 (codes "2") ≡ some (pos 2)
unfolding int_16
int_16_2 = refl

cmd_read_memory-cmd_write_memory_example :
    (cmd_write_memory (codes "10,2:ff07") stopped
      ≡ (ok (codes "OK"), with_bytes 16 (255 ∷ 7 ∷ []) stopped))
    × (cmd_read_memory (codes "10,2") (with_bytes 16 (255 ∷ 7 ∷ []) stopped)
        ≡ (ok (hex_text (255 ∷ 7 ∷ [])), with_bytes 16 (255 ∷ 7 ∷ []) stopped))
cmd_read_memory-cmd_write_memory_example =
    cmd_read_memory-cmd_write_memory (codes "10,2:ff07") (codes "10,2") (codes "10") (codes "2")
      (255 ∷ 7 ∷ []) 16 stopped halves parts int_16_10 int_16_2 (omega arith) (refl, omega arith)
      (omega arith)

first_is_16 : int_16 (first_part b',' (codes "10,2")) ≡ some (pos 16)
unfolding int_16 first_part
first_is_16 = refl

handle_command-breakpoints_example :
    ((handle_command (λ t. t) (codes "Z0,10,2") stopped).0 ≡ ok (some (codes "OK")))
    × (is_breakpoint 16 (handle_command (λ t. t) (codes "Z0,10,2") stopped).1
        ≡ ((16 == 16) || is_breakpoint 16 stopped))
    × ((handle_command
          (λ t. t)
          (codes "z0,10,2")
          (handle_command (λ t. t) (codes "Z0,10,2") stopped).1).0
        ≡ ok (some (codes "OK")))
    × (is_breakpoint 16
          (handle_command
            (λ t. t)
            (codes "z0,10,2")
            (handle_command (λ t. t) (codes "Z0,10,2") stopped).1).1
        ≡ (not (16 == 16) && is_breakpoint 16 stopped))
handle_command-breakpoints_example =
    handle_command-breakpoints (λ t. t) (codes "10,2") 16 16 stopped first_is_16

handle_command-IsWf_example : IsWf (handle_command (λ t. t) (codes "P-1=ffffffff") stopped).1.system
handle_command-IsWf_example =
    handle_command-IsWf (λ t. t) (codes "P-1=ffffffff") stopped machine-IsWf

abbrev started : Debugger
started = record {
  session = record stopped { running = true };
  link = record { incoming = byte b'$' ∷ pause ∷ []; outgoing = [] };
  cycle_count = 0;
  div = 0;
}

abbrev options : Options
options = record { timer = false; mmio = false; rvc = true; checks = false; check_inv = none }

run_with_gdb-Stop_example :
    Stop none no_devices options 3 started (run_with_gdb none no_devices options 3 started)
run_with_gdb-Stop_example = run_with_gdb-Stop none no_devices options 3 started refl refl

run_gdbstub-ends_example :
    (run_gdbstub (λ t. t) (λ s. codes "illegal") none no_devices options 3 3 started).0 ≢ ok served
run_gdbstub-ends_example =
    run_gdbstub-ends (λ t. t) (λ s. codes "illegal") none no_devices options 3 3 started
      (omega arith)
