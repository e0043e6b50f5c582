-- ===== src/Cpu/Control.antt =====
-- `exec_branches`, `exec_JAL`, `exec_JALR` and `exec_MISCMEM` of cpu.py.
use riscv_python.Prelude.{
  ℕ, ◌+◌, ◌*◌, ◌/◌, ◌%◌, ◌^◌, bit_and, bit_or, Bool, true, not, ◌&&◌, ◌||◌, ltb, leb, ◌==◌,
  if◌then◌else◌,
}
use riscv_python.Prelude.Int.{ℤ, pos, ◌+ℤ◌, ◌-ℤ◌, ltb_ℤ, to_u32}
use riscv_python.State.{System, Decoded, Exec, set_reg, set_next_pc, apply}
use riscv_python.Cpu.Word.{signed32, imm_i}
use riscv_python.Cpu.Trap.{trap}

-- `addr_target & cpu.alignment_mask`
unfoldable pub is_misaligned : System → ℕ → Bool
is_misaligned s addr = not (bit_and addr s.cpu.alignment_mask == 0)

unfoldable pub branch_taken : ℕ → ℕ → ℕ → Bool
unfolding signed32
branch_taken funct3 a b =
    (funct3 == 0x0 && a == b)
    || (funct3 == 0x1 && not (a == b))
    || (funct3 == 0x4 && ltb_ℤ (signed32 (pos a)) (signed32 (pos b)))
    || (funct3 == 0x5 && not (ltb_ℤ (signed32 (pos a)) (signed32 (pos b))))
    || (funct3 == 0x6 && ltb (a % 2 ^ 32) (b % 2 ^ 32))
    || (funct3 == 0x7 && leb (b % 2 ^ 32) (a % 2 ^ 32))

unfoldable pub imm_b : ℕ → ℤ
imm_b inst =
    let imm =
      bit_or
        (bit_or (bit_or (inst / 2 ^ 7 % 2 ^ 1 * 2 ^ 11) (inst / 2 ^ 8 % 2 ^ 4 * 2 ^ 1))
          (inst / 2 ^ 25 % 2 ^ 6 * 2 ^ 5))
        (inst / 2 ^ 31 * 2 ^ 12) in
    if leb 0x1000 imm then pos imm -ℤ pos 0x2000 else pos imm

unfoldable pub exec_branches : ℕ → ℕ → Decoded → Exec System (Unit {0})
unfolding is_misaligned
exec_branches inst inst_size d s =
    let target = to_u32 (pos s.cpu.pc +ℤ imm_b inst) in
    if branch_taken d.funct3 (s.cpu.registers d.rs1) (s.cpu.registers d.rs2)
    then (if is_misaligned s target then trap 0 target true s else apply (set_next_pc target) s)
    else if d.funct3 == 0x2 || d.funct3 == 0x3
    then trap 2 inst true s
    else apply (λ s. s) s

unfoldable pub imm_j : ℕ → ℤ
imm_j inst =
    let imm =
      bit_or
        (bit_or (bit_or (inst / 2 ^ 21 % 2 ^ 10 * 2 ^ 1) (inst / 2 ^ 20 % 2 ^ 1 * 2 ^ 11))
          (inst / 2 ^ 12 % 2 ^ 8 * 2 ^ 12))
        (inst / 2 ^ 31 * 2 ^ 20) in
    if leb 0x100000 imm then pos imm -ℤ pos 0x200000 else pos imm

-- The link register, unless it is `x0`, gets the address behind the instruction.
unfoldable pub link : ℕ → ℕ → System → System
link rd inst_size s = if rd == 0 then s else set_reg rd ((s.cpu.pc + inst_size) % 2 ^ 32) s

unfoldable pub jump : ℕ → ℕ → ℕ → Exec System (Unit {0})
unfolding is_misaligned link
jump target rd inst_size s =
    if is_misaligned s target
    then trap 0 target true s
    else apply (λ s. set_next_pc target (link rd inst_size s)) s

unfoldable pub exec_jal : ℕ → ℕ → Decoded → Exec System (Unit {0})
unfolding jump
exec_jal inst inst_size d s = jump (to_u32 (pos s.cpu.pc +ℤ imm_j inst)) d.rd inst_size s

-- `(cpu.registers[rs1] + imm_i) & 0xFFFFFFFE`
unfoldable pub jalr_target : ℕ → ℤ → ℕ
jalr_target a imm = bit_and (to_u32 (pos a +ℤ imm)) 0xFFFFFFFE

unfoldable pub exec_jalr : ℕ → ℕ → Decoded → Exec System (Unit {0})
unfolding jump jalr_target imm_i
exec_jalr inst inst_size d s =
    if not (d.funct3 == 0x0)
    then trap 2 inst true s
    else jump (jalr_target (s.cpu.registers d.rs1) (imm_i inst)) d.rd inst_size s

unfoldable pub exec_miscmem : ℕ → ℕ → Decoded → Exec System (Unit {0})
exec_miscmem inst inst_size d s =
    if d.funct3 == 0b000 || d.funct3 == 0b001 then apply (λ s. s) s else trap 2 inst true s
