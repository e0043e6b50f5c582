-- ===== src/Cpu/Alu.antt =====
-- `exec_Rtype`, `exec_Itype`, `exec_LUI` and `exec_AUIPC` of cpu.py. Each result is a function of
-- the operands, `none` where the source traps on an illegal instruction.
use riscv_python.Prelude.{
  ℕ, ◌+◌, ◌*◌, ◌/◌, ◌%◌, ◌^◌, bit_and, bit_or, bit_xor, true, ◌&&◌, Option, none, some, ltb, ◌==◌,
  if◌then◌else◌,
}
use riscv_python.Prelude.Int.{
  ℤ, pos, negsuc, ◌+ℤ◌, ◌-ℤ◌, ◌*ℤ◌, ltb_ℤ, is_ℤ, shr_ℤ, to_u32, low_bits,
}
use riscv_python.State.{System, Decoded, Exec, set_reg, apply}
use riscv_python.Cpu.Word.{signed32, int_of, int_of_quotient_ℤ, imm_i}
use riscv_python.Cpu.Trap.{trap}

unfoldable pub add_sub_mul : ℕ → ℕ → ℕ → Option ℕ
unfolding signed32
add_sub_mul funct7 a b =
    if funct7 == 0x00
    then some ((a + b) % 2 ^ 32)
    else if funct7 == 0x20
    then some (to_u32 (pos a -ℤ pos b))
    else if funct7 == 0x01
    then some (to_u32 (signed32 (pos a) *ℤ signed32 (pos b)))
    else none

unfoldable pub sll_mulh : ℕ → ℕ → ℕ → Option ℕ
unfolding signed32
sll_mulh funct7 a b =
    if funct7 == 0x00
    then some (a * 2 ^ (b % 2 ^ 5) % 2 ^ 32)
    else if funct7 == 0x01
    then some (to_u32 (shr_ℤ (signed32 (pos a) *ℤ signed32 (pos b)) 32))
    else none

unfoldable pub slt_mulhsu : ℕ → ℕ → ℕ → Option ℕ
unfolding signed32
slt_mulhsu funct7 a b =
    if funct7 == 0x00
    then some (int_of (ltb_ℤ (signed32 (pos a)) (signed32 (pos b))))
    else if funct7 == 0x01
    then some (to_u32 (shr_ℤ (signed32 (pos a) *ℤ pos (b % 2 ^ 32)) 32))
    else none

unfoldable pub sltu_mulhu : ℕ → ℕ → ℕ → Option ℕ
sltu_mulhu funct7 a b =
    if funct7 == 0x00
    then some (int_of (ltb (a % 2 ^ 32) (b % 2 ^ 32)))
    else if funct7 == 0x01
    then some ((a % 2 ^ 32) * (b % 2 ^ 32) / 2 ^ 32 % 2 ^ 32)
    else none

unfoldable pub signed_div : ℕ → ℕ → ℕ
unfolding signed32 int_of_quotient_ℤ
signed_div a b =
    let dividend = signed32 (pos a) in
    let divisor = signed32 (pos b) in
    if is_ℤ divisor (pos 0)
    then 0xFFFFFFFF
    else if is_ℤ dividend (negsuc 0x7FFFFFFF) && is_ℤ divisor (negsuc 0)
    then 0x80000000
    else to_u32 (int_of_quotient_ℤ dividend divisor)

unfoldable pub xor_div : ℕ → ℕ → ℕ → Option ℕ
unfolding signed_div
xor_div funct7 a b =
    if funct7 == 0x00
    then some (bit_xor a b)
    else if funct7 == 0x01
    then some (signed_div a b)
    else none

unfoldable pub srl_sra_divu : ℕ → ℕ → ℕ → Option ℕ
unfolding signed32
srl_sra_divu funct7 a b =
    let shamt = b % 2 ^ 5 in
    if funct7 == 0x00
    then some (a % 2 ^ 32 / 2 ^ shamt)
    else if funct7 == 0x20
    then some (to_u32 (shr_ℤ (signed32 (pos a)) shamt))
    else if funct7 == 0x01
    then some (if b % 2 ^ 32 == 0 then 0xFFFFFFFF else (a % 2 ^ 32) / (b % 2 ^ 32) % 2 ^ 32)
    else none

unfoldable pub signed_rem : ℕ → ℕ → ℕ
unfolding signed32 int_of_quotient_ℤ
signed_rem a b =
    let dividend = signed32 (pos a) in
    let divisor = signed32 (pos b) in
    if is_ℤ divisor (pos 0)
    then a % 2 ^ 32
    else if is_ℤ dividend (negsuc 0x7FFFFFFF) && is_ℤ divisor (negsuc 0)
    then 0
    else to_u32 (dividend -ℤ int_of_quotient_ℤ dividend divisor *ℤ divisor)

unfoldable pub or_rem : ℕ → ℕ → ℕ → Option ℕ
unfolding signed_rem
or_rem funct7 a b =
    if funct7 == 0x00
    then some (bit_or a b)
    else if funct7 == 0x01
    then some (signed_rem a b)
    else none

unfoldable pub and_remu : ℕ → ℕ → ℕ → Option ℕ
and_remu funct7 a b =
    if funct7 == 0x00
    then some (bit_and a b)
    else if funct7 == 0x01
    then some (if b % 2 ^ 32 == 0 then a % 2 ^ 32 else (a % 2 ^ 32) % (b % 2 ^ 32) % 2 ^ 32)
    else none

-- `cpu.registers[rd] = result`, or the trap on an illegal instruction.
unfoldable pub write_result : ℕ → ℕ → Option ℕ → Exec System (Unit {0})
write_result inst rd none = trap 2 inst true
write_result inst rd (some v) = apply (set_reg rd v)

unfoldable pub exec_rtype : ℕ → ℕ → Decoded → Exec System (Unit {0})
unfolding write_result
exec_rtype inst inst_size d s =
    let a = s.cpu.registers d.rs1 in
    let b = s.cpu.registers d.rs2 in
    let f = d.funct7 in
    if d.funct3 == 0x0
    then write_result inst d.rd (add_sub_mul f a b) s
    else if d.funct3 == 0x1
    then write_result inst d.rd (sll_mulh f a b) s
    else if d.funct3 == 0x2
    then write_result inst d.rd (slt_mulhsu f a b) s
    else if d.funct3 == 0x3
    then write_result inst d.rd (sltu_mulhu f a b) s
    else if d.funct3 == 0x4
    then write_result inst d.rd (xor_div f a b) s
    else if d.funct3 == 0x5
    then write_result inst d.rd (srl_sra_divu f a b) s
    else if d.funct3 == 0x6
    then write_result inst d.rd (or_rem f a b) s
    else if d.funct3 == 0x7
    then write_result inst d.rd (and_remu f a b) s
    else apply (λ s. s) s

-- The bits of a negative immediate that `& 0xFFFFFFFF` leaves are those of its residue, so the
-- bitwise operations are written on residues. `funct3` has three bits: what is left is ANDI.
unfoldable pub itype_result : ℕ → ℕ → ℕ → ℤ → Option ℕ
unfolding signed32
itype_result funct3 funct7 a imm =
    let shamt = low_bits imm 5 in
    if funct3 == 0x0
    then some (to_u32 (pos a +ℤ imm))
    else if funct3 == 0x1
    then (if funct7 == 0x00 then some (a * 2 ^ shamt % 2 ^ 32) else none)
    else if funct3 == 0x2
    then some (int_of (ltb_ℤ (signed32 (pos a)) (signed32 imm)))
    else if funct3 == 0x3
    then some (int_of (ltb (a % 2 ^ 32) (to_u32 imm)))
    else if funct3 == 0x4
    then some (bit_xor (a % 2 ^ 32) (to_u32 imm))
    else if funct3 == 0x5
    then (if funct7 == 0x00
        then some (a % 2 ^ 32 / 2 ^ shamt)
        else if funct7 == 0x20
        then some (to_u32 (shr_ℤ (signed32 (pos a)) shamt))
        else none)
    else if funct3 == 0x6
    then some (bit_or (a % 2 ^ 32) (to_u32 imm))
    else some (bit_and (a % 2 ^ 32) (to_u32 imm))

unfoldable pub exec_itype : ℕ → ℕ → Decoded → Exec System (Unit {0})
unfolding write_result itype_result imm_i
exec_itype inst inst_size d s =
    write_result inst d.rd (itype_result d.funct3 d.funct7 (s.cpu.registers d.rs1) (imm_i inst)) s

unfoldable pub exec_lui : ℕ → ℕ → Decoded → Exec System (Unit {0})
exec_lui inst inst_size d = apply (set_reg d.rd (inst / 2 ^ 12 * 2 ^ 12 % 2 ^ 32))

unfoldable pub exec_auipc : ℕ → ℕ → Decoded → Exec System (Unit {0})
exec_auipc inst inst_size d s =
    apply (set_reg d.rd ((s.cpu.pc + inst / 2 ^ 12 * 2 ^ 12) % 2 ^ 32)) s
