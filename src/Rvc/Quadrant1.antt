-- ===== src/Rvc/Quadrant1.antt =====
-- Quadrant 1 of `expand_compressed` in rvc.py. A sign-extended immediate appears under a mask
-- only, and stands here as its residue.
use riscv_python.Prelude.{
  ℕ, ◌+◌, ◌*◌, ◌/◌, ◌%◌, ◌^◌, bit_and, ◌||◌, Option, none, some, ◌==◌, if◌then◌else◌,
}
use riscv_python.Rvc.Fields.{right, left, ◌∣∣◌, extend, i_type, r_type}

-- The six bits of the immediates of C.ADDI, C.LI, C.LUI, C.ANDI and the shifts.
unfoldable pub imm6 : ℕ → ℕ
unfolding right
imm6 c = right c 7 0x20 ∣∣ right c 2 0x1F

-- C.NOP and C.ADDI
unfoldable pub c_addi : ℕ → ℕ
unfolding imm6 extend i_type
c_addi c = let rd = c / 2 ^ 7 % 2 ^ 5 in i_type (extend 0x20 12 (imm6 c)) rd 0 rd 0x13

-- The offset of C.JAL and C.J, modulo 2 ^ 21.
unfoldable pub jump_offset : ℕ → ℕ
unfolding right left extend
jump_offset c = extend 0x800 21 (
    right c 1 0x800
    ∣∣ left c 2 0x400
    ∣∣ right c 1 0x300
    ∣∣ left c 1 0x80
    ∣∣ right c 1 0x40
    ∣∣ left c 3 0x20
    ∣∣ right c 7 0x10
    ∣∣ right c 2 0xE)

-- C.JAL with `rd` 1 and C.J with `rd` 0
unfoldable pub c_jump : ℕ → ℕ → ℕ
unfolding jump_offset
c_jump rd c =
    let imm = jump_offset c in
    bit_and imm 0x100000 * 2 ^ 11
    ∣∣ bit_and imm 0x7FE * 2 ^ 20
    ∣∣ bit_and imm 0x800 * 2 ^ 9
    ∣∣ bit_and imm 0xFF000
    ∣∣ rd * 2 ^ 7
    ∣∣ 0x6F

-- C.LI
unfoldable pub c_li : ℕ → ℕ
unfolding imm6 extend i_type
c_li c = i_type (extend 0x20 12 (imm6 c)) 0 0 (c / 2 ^ 7 % 2 ^ 5) 0x13

-- C.ADDI16SP
unfoldable pub c_addi16sp : ℕ → Option ℕ
unfolding right left extend i_type
c_addi16sp c =
    let imm =
      extend 0x200 12
        (right c 3 0x200 ∣∣ right c 2 0x10 ∣∣ left c 1 0x40 ∣∣ left c 4 0x180 ∣∣ left c 3 0x20) in
    if imm == 0 then none else some (i_type imm 2 0 2 0x13)

-- C.LUI
unfoldable pub c_lui : ℕ → Option ℕ
unfolding imm6 extend
c_lui c =
    let rd = c / 2 ^ 7 % 2 ^ 5 in
    let imm = extend 0x20 20 (imm6 c) in
    if imm == 0 || rd == 0 then none else some (imm * 2 ^ 12 ∣∣ rd * 2 ^ 7 ∣∣ 0x37)

-- C.SRLI with `funct7` 0x00 and C.SRAI with 0x20
unfoldable pub c_shift_right : ℕ → ℕ → Option ℕ
unfolding imm6 r_type
c_shift_right funct7 c =
    let shamt = imm6 c in
    let rd = c / 2 ^ 7 % 2 ^ 3 + 8 in
    if shamt == 0 then none else some (r_type funct7 shamt rd 0x5 rd 0x13)

-- C.ANDI
unfoldable pub c_andi : ℕ → ℕ
unfolding imm6 extend i_type
c_andi c = let rd = c / 2 ^ 7 % 2 ^ 3 + 8 in i_type (extend 0x20 12 (imm6 c)) rd 0x7 rd 0x13

-- C.SUB, C.XOR, C.OR and C.AND
unfoldable pub c_register : ℕ → Option ℕ
unfolding r_type
c_register c =
    let low = c / 2 ^ 5 % 2 ^ 2 in
    let rd = c / 2 ^ 7 % 2 ^ 3 + 8 in
    let rs2 = c / 2 ^ 2 % 2 ^ 3 + 8 in
    if c / 2 ^ 12 % 2 ^ 1 == 0
    then (if low == 0b00
        then some (r_type 0x20 rs2 rd 0x0 rd 0x33)
        else if low == 0b01
        then some (r_type 0x00 rs2 rd 0x4 rd 0x33)
        else if low == 0b10
        then some (r_type 0x00 rs2 rd 0x6 rd 0x33)
        else some (r_type 0x00 rs2 rd 0x7 rd 0x33))
    else none

unfoldable pub c_arithmetic : ℕ → Option ℕ
unfolding c_shift_right c_andi c_register
c_arithmetic c =
    let funct2 = c / 2 ^ 10 % 2 ^ 2 in
    if funct2 == 0b00
    then c_shift_right 0x00 c
    else if funct2 == 0b01
    then c_shift_right 0x20 c
    else if funct2 == 0b10
    then some (c_andi c)
    else c_register c

-- C.BEQZ with `funct3` 0 and C.BNEZ with 1; the offset is modulo 2 ^ 13.
unfoldable pub c_branch : ℕ → ℕ → ℕ
unfolding right left extend
c_branch funct3 c =
    let imm =
      extend 0x100 13
        (right c 4 0x100 ∣∣ left c 1 0xC0 ∣∣ left c 3 0x20 ∣∣ right c 7 0x18 ∣∣ right c 2 0x6) in
    let rs1 = c / 2 ^ 7 % 2 ^ 3 + 8 in
    bit_and imm 0x1000 * 2 ^ 19
    ∣∣ bit_and imm 0x7E0 * 2 ^ 20
    ∣∣ bit_and imm 0x1E * 2 ^ 7
    ∣∣ bit_and imm 0x800 / 2 ^ 4
    ∣∣ rs1 * 2 ^ 15
    ∣∣ funct3 * 2 ^ 12
    ∣∣ 0x63

unfoldable pub quadrant1 : ℕ → ℕ → Option ℕ
unfolding c_addi c_jump c_li c_addi16sp c_lui c_arithmetic c_branch
quadrant1 funct3 c =
    if funct3 == 0b000
    then some (c_addi c)
    else if funct3 == 0b001
    then some (c_jump 1 c)
    else if funct3 == 0b010
    then some (c_li c)
    else if funct3 == 0b011
    then (if c / 2 ^ 7 % 2 ^ 5 == 2 then c_addi16sp c else c_lui c)
    else if funct3 == 0b100
    then c_arithmetic c
    else if funct3 == 0b101
    then some (c_jump 0 c)
    else if funct3 == 0b110
    then some (c_branch 0x0 c)
    else some (c_branch 0x1 c)
