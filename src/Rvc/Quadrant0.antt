-- ===== src/Rvc/Quadrant0.antt =====
-- Quadrant 0 of `expand_compressed` in rvc.py.
use riscv_python.Prelude.{ℕ, ◌+◌, ◌/◌, ◌%◌, ◌^◌, Option, none, some, ◌==◌, if◌then◌else◌}
use riscv_python.Rvc.Fields.{right, left, ◌∣∣◌, i_type, r_type}

-- C.ADDI4SPN
unfoldable pub c_addi4spn : ℕ → Option ℕ
unfolding right i_type
c_addi4spn c =
    let nzuimm = right c 7 0x30 ∣∣ right c 1 0x3C0 ∣∣ right c 4 0x4 ∣∣ right c 2 0x8 in
    let rd = c / 2 ^ 2 % 2 ^ 3 + 8 in if nzuimm == 0 then none else some (i_type nzuimm 2 0 rd 0x13)

-- The offset of C.LW and C.SW.
unfoldable pub word_offset : ℕ → ℕ
unfolding right left
word_offset c = right c 7 0x38 ∣∣ right c 4 0x4 ∣∣ left c 1 0x40

-- C.LW
unfoldable pub c_lw : ℕ → ℕ
unfolding word_offset i_type
c_lw c =
    let rs1 = c / 2 ^ 7 % 2 ^ 3 + 8 in
    let rd = c / 2 ^ 2 % 2 ^ 3 + 8 in i_type (word_offset c) rs1 0x2 rd 0x03

-- C.SW
unfoldable pub c_sw : ℕ → ℕ
unfolding word_offset r_type
c_sw c =
    let imm = word_offset c in
    let rs1 = c / 2 ^ 7 % 2 ^ 3 + 8 in
    let rs2 = c / 2 ^ 2 % 2 ^ 3 + 8 in r_type (imm / 2 ^ 5 % 2 ^ 7) rs2 rs1 0x2 (imm % 2 ^ 5) 0x23

unfoldable pub quadrant0 : ℕ → ℕ → Option ℕ
unfolding c_addi4spn c_lw c_sw
quadrant0 funct3 c =
    if funct3 == 0b000
    then c_addi4spn c
    else if funct3 == 0b010
    then some (c_lw c)
    else if funct3 == 0b110
    then some (c_sw c)
    else none
