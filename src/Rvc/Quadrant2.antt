-- ===== src/Rvc/Quadrant2.antt =====
-- Quadrant 2 of `expand_compressed` in rvc.py.
use riscv_python.Prelude.{
  ℕ, ◌*◌, ◌/◌, ◌%◌, ◌^◌, ◌&&◌, ◌||◌, Option, none, some, ◌==◌, if◌then◌else◌,
}
use riscv_python.Rvc.Fields.{right, ◌∣∣◌, i_type, r_type}

-- C.SLLI
unfoldable pub c_slli : ℕ → Option ℕ
unfolding right r_type
c_slli c =
    let shamt = right c 7 0x20 ∣∣ right c 2 0x1F in
    let rd = c / 2 ^ 7 % 2 ^ 5 in
    if shamt == 0 || rd == 0 then none else some (r_type 0x00 shamt rd 0x1 rd 0x13)

-- C.LWSP
unfoldable pub c_lwsp : ℕ → Option ℕ
unfolding i_type
c_lwsp c =
    let offset_5 = c / 2 ^ 12 % 2 ^ 1 in
    let offset_4_2 = c / 2 ^ 4 % 2 ^ 3 in
    let offset_7_6 = c / 2 ^ 2 % 2 ^ 2 in
    let imm = offset_7_6 * 2 ^ 6 ∣∣ offset_5 * 2 ^ 5 ∣∣ offset_4_2 * 2 ^ 2 in
    let rd = c / 2 ^ 7 % 2 ^ 5 in if rd == 0 then none else some (i_type imm 2 0x2 rd 0x03)

-- C.JR, C.MV, C.EBREAK, C.JALR and C.ADD
unfoldable pub c_jr_mv_add : ℕ → Option ℕ
unfolding i_type r_type
c_jr_mv_add c =
    let rs1 = c / 2 ^ 7 % 2 ^ 5 in
    let rs2 = c / 2 ^ 2 % 2 ^ 5 in
    if c / 2 ^ 12 % 2 ^ 1 == 0
    then (if rs2 == 0
        then (if rs1 == 0 then none else some (i_type 0 rs1 0 0 0x67))
        else if rs1 == 0
        then none
        else some (r_type 0x00 rs2 0 0x0 rs1 0x33))
    else if rs1 == 0 && rs2 == 0
    then some 0x00100073
    else if rs2 == 0
    then some (i_type 0 rs1 0 1 0x67)
    else some (r_type 0x00 rs2 rs1 0x0 rs1 0x33)

-- C.SWSP
unfoldable pub c_swsp : ℕ → ℕ
unfolding right r_type
c_swsp c =
    let imm = right c 7 0x3C ∣∣ right c 1 0xC0 in
    r_type (imm / 2 ^ 5 % 2 ^ 7) (c / 2 ^ 2 % 2 ^ 5) 2 0x2 (imm % 2 ^ 5) 0x23

unfoldable pub quadrant2 : ℕ → ℕ → Option ℕ
unfolding c_slli c_lwsp c_jr_mv_add c_swsp
quadrant2 funct3 c =
    if funct3 == 0b000
    then c_slli c
    else if funct3 == 0b010
    then c_lwsp c
    else if funct3 == 0b100
    then c_jr_mv_add c
    else if funct3 == 0b110
    then some (c_swsp c)
    else none
