-- ===== src/Cpu/Memory.antt =====
-- `exec_loads` and `exec_stores` of cpu.py.
use riscv_python.Prelude.{ℕ, ◌*◌, ◌/◌, ◌%◌, ◌^◌, bit_or, true, false, leb, ◌==◌, if◌then◌else◌}
use riscv_python.Prelude.Int.{ℤ, pos, ◌+ℤ◌, ◌-ℤ◌, to_u32, low_bits}
use riscv_python.State.{System, Decoded, Exec, set_reg, set_reservation_valid, ◌>>=◌, ◌>>◌, apply}
use riscv_python.Ram.Access.{load_byte, load_half, load_word, store_byte, store_half, store_word}
use riscv_python.Cpu.Word.{imm_i}
use riscv_python.Cpu.Trap.{trap}

unfoldable pub exec_loads : ℕ → ℕ → Decoded → Exec System (Unit {0})
unfolding imm_i
exec_loads inst inst_size d s =
    let addr = to_u32 (pos (s.cpu.registers d.rs1) +ℤ imm_i inst) in
    if d.funct3 == 0x0
    then (do v ← load_byte addr true; apply (set_reg d.rd (to_u32 v))) s
    else if d.funct3 == 0x1
    then (do v ← load_half addr true; apply (set_reg d.rd (to_u32 v))) s
    else if d.funct3 == 0x2
    then (do v ← load_word addr; apply (set_reg d.rd (v % 2 ^ 32))) s
    else if d.funct3 == 0x4
    then (do v ← load_byte addr false; apply (set_reg d.rd (low_bits v 8))) s
    else if d.funct3 == 0x5
    then (do v ← load_half addr false; apply (set_reg d.rd (low_bits v 16))) s
    else trap 2 inst true s

-- `imm_s`, with its sign.
unfoldable pub imm_s : ℕ → ℤ
imm_s inst =
    let imm = bit_or (inst / 2 ^ 7 % 2 ^ 5) (inst / 2 ^ 25 * 2 ^ 5) in
    if leb 0x800 imm then pos imm -ℤ pos 0x1000 else pos imm

-- Every store clears an LR/SC reservation.
unfoldable pub exec_stores : ℕ → ℕ → Decoded → Exec System (Unit {0})
unfolding imm_s
exec_stores inst inst_size d s =
    let addr = to_u32 (pos (s.cpu.registers d.rs1) +ℤ imm_s inst) in
    let value = s.cpu.registers d.rs2 in
    if d.funct3 == 0x0
    then (do store_byte addr (value % 2 ^ 8); apply (set_reservation_valid false)) s
    else if d.funct3 == 0x1
    then (do store_half addr (value % 2 ^ 16); apply (set_reservation_valid false)) s
    else if d.funct3 == 0x2
    then (do store_word addr value; apply (set_reservation_valid false)) s
    else trap 2 inst true s
