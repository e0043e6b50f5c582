-- ===== src/Rvc/Manual.antt =====
-- The C extension as a manual lays it out: each compressed instruction names an instruction of the
-- base set and its operands, and the bits of an offset are listed from bit 12 or 6 downwards. The
-- forms without effect and the reserved forms that the emulator rejects are `none`.
use riscv_python.Prelude.{
  ℕ, ◌+◌, ◌-◌, ◌*◌, ◌/◌, ◌%◌, ◌^◌, ◌||◌, ◌&&◌, Option, none, some, List, [], ◌∷◌, leb, ◌==◌,
  if◌then◌else◌,
}
use riscv_python.Prelude.Int.{ℤ, pos, ◌-ℤ◌, low_bits}

-- The 32-bit formats, with signed immediates.
asm_r : ℕ → ℕ → ℕ → ℕ → ℕ → ℕ
asm_r funct7 rs2 rs1 funct3 rd =
    funct7 * 2 ^ 25 + rs2 * 2 ^ 20 + rs1 * 2 ^ 15 + funct3 * 2 ^ 12 + rd * 2 ^ 7 + 0x33

asm_i : ℕ → ℤ → ℕ → ℕ → ℕ → ℕ
asm_i opcode imm rs1 funct3 rd =
    low_bits imm 12 * 2 ^ 20 + rs1 * 2 ^ 15 + funct3 * 2 ^ 12 + rd * 2 ^ 7 + opcode

asm_sw : ℕ → ℕ → ℕ → ℕ
asm_sw rs2 offset rs1 =
    offset / 2 ^ 5 * 2 ^ 25
    + rs2 * 2 ^ 20
    + rs1 * 2 ^ 15
    + 2 * 2 ^ 12
    + offset % 2 ^ 5 * 2 ^ 7
    + 0x23

asm_branch : ℕ → ℕ → ℤ → ℕ
asm_branch funct3 rs1 offset =
    let u = low_bits offset 13 in
    u / 2 ^ 12 * 2 ^ 31
    + u / 2 ^ 5 % 2 ^ 6 * 2 ^ 25
    + rs1 * 2 ^ 15
    + funct3 * 2 ^ 12
    + u / 2 % 2 ^ 4 * 2 ^ 8
    + u / 2 ^ 11 % 2 * 2 ^ 7
    + 0x63

asm_jal : ℕ → ℤ → ℕ
asm_jal rd offset =
    let u = low_bits offset 21 in
    u / 2 ^ 20 * 2 ^ 31
    + u / 2 % 2 ^ 10 * 2 ^ 21
    + u / 2 ^ 11 % 2 * 2 ^ 20
    + u / 2 ^ 12 % 2 ^ 8 * 2 ^ 12
    + rd * 2 ^ 7
    + 0x6F

-- The bits of an immediate, the first one from bit `top` of the instruction.
gather : ℕ → ℕ → List ℕ → ℕ
gather c top [] = 0
gather c top (place ∷ rest) = c / 2 ^ top % 2 * 2 ^ place + gather c (top - 1) rest

-- A two's complement number of `width` bits.
signed : ℕ → ℕ → ℤ
signed width u = if leb (2 ^ (width - 1)) u then pos u -ℤ pos (2 ^ width) else pos u

-- Register fields: five bits, or three that name x8 to x15.
full : ℕ → ℕ → ℕ
full c low = c / 2 ^ low % 2 ^ 5

popular : ℕ → ℕ → ℕ
popular c low = c / 2 ^ low % 2 ^ 3 + 8

-- imm[5] at bit 12 and imm[4:0] at bits 6 to 2
six_bits : ℕ → ℕ
six_bits c = gather c 12 (5 ∷ []) + gather c 6 (4 ∷ 3 ∷ 2 ∷ 1 ∷ 0 ∷ [])

jump_target : ℕ → ℤ
jump_target c = signed 12 (gather c 12 (11 ∷ 4 ∷ 9 ∷ 8 ∷ 10 ∷ 6 ∷ 7 ∷ 3 ∷ 2 ∷ 1 ∷ 5 ∷ []))

branch_target : ℕ → ℤ
branch_target c = signed 9 (gather c 12 (8 ∷ 4 ∷ 3 ∷ []) + gather c 6 (7 ∷ 6 ∷ 2 ∷ 1 ∷ 5 ∷ []))

manual0 : ℕ → Option ℕ
unfolding asm_i asm_sw gather popular
manual0 c =
    let funct3 = c / 2 ^ 13 in
    let nzuimm = gather c 12 (5 ∷ 4 ∷ 9 ∷ 8 ∷ 7 ∷ 6 ∷ 2 ∷ 3 ∷ []) in
    let offset = gather c 12 (5 ∷ 4 ∷ 3 ∷ []) + gather c 6 (2 ∷ 6 ∷ []) in
    if funct3 == 0
    then (if nzuimm == 0 then none else some (asm_i 0x13 (pos nzuimm) 2 0 (popular c 2)))
    else if funct3 == 2
    then some (asm_i 0x03 (pos offset) (popular c 7) 2 (popular c 2))
    else if funct3 == 6
    then some (asm_sw (popular c 2) offset (popular c 7))
    else none

-- The arithmetic group of quadrant 1.
manual_arithmetic : ℕ → Option ℕ
unfolding asm_i asm_r popular six_bits gather signed
manual_arithmetic c =
    let rd = popular c 7 in
    let rs2 = popular c 2 in
    let group = c / 2 ^ 10 % 4 in
    let selector = c / 2 ^ 12 % 2 * 4 + c / 2 ^ 5 % 4 in
    if group == 0
    then (if six_bits c == 0 then none else some (asm_i 0x13 (pos (six_bits c)) rd 5 rd))
    else if group == 1
    then (if six_bits c == 0 then none else some (asm_i 0x13 (pos (0x400 + six_bits c)) rd 5 rd))
    else if group == 2
    then some (asm_i 0x13 (signed 6 (six_bits c)) rd 7 rd)
    else if selector == 0
    then some (asm_r 0x20 rs2 rd 0 rd)
    else if selector == 1
    then some (asm_r 0x00 rs2 rd 4 rd)
    else if selector == 2
    then some (asm_r 0x00 rs2 rd 6 rd)
    else if selector == 3
    then some (asm_r 0x00 rs2 rd 7 rd)
    else none

manual1 : ℕ → Option ℕ
unfolding asm_i asm_branch asm_jal full popular six_bits gather signed jump_target branch_target
    manual_arithmetic
manual1 c =
    let funct3 = c / 2 ^ 13 in
    let rd = full c 7 in
    let imm = signed 6 (six_bits c) in
    let adjust = signed 10 (gather c 12 (9 ∷ []) + gather c 6 (4 ∷ 6 ∷ 8 ∷ 7 ∷ 5 ∷ [])) in
    if funct3 == 0
    then some (asm_i 0x13 imm rd 0 rd)
    else if funct3 == 1
    then some (asm_jal 1 (jump_target c))
    else if funct3 == 2
    then some (asm_i 0x13 imm 0 0 rd)
    else if funct3 == 3 && rd == 2
    then (if low_bits adjust 10 == 0 then none else some (asm_i 0x13 adjust 2 0 2))
    else if funct3 == 3
    then (if six_bits c == 0 || rd == 0
        then none
        else some (low_bits imm 20 * 2 ^ 12 + rd * 2 ^ 7 + 0x37))
    else if funct3 == 4
    then manual_arithmetic c
    else if funct3 == 5
    then some (asm_jal 0 (jump_target c))
    else if funct3 == 6
    then some (asm_branch 0 (popular c 7) (branch_target c))
    else some (asm_branch 1 (popular c 7) (branch_target c))

manual2 : ℕ → Option ℕ
unfolding asm_i asm_r asm_sw full six_bits gather
manual2 c =
    let funct3 = c / 2 ^ 13 in
    let rd = full c 7 in
    let rs2 = full c 2 in
    let load = gather c 12 (5 ∷ []) + gather c 6 (4 ∷ 3 ∷ 2 ∷ 7 ∷ 6 ∷ []) in
    let store = gather c 12 (5 ∷ 4 ∷ 3 ∷ 2 ∷ 7 ∷ 6 ∷ []) in
    if funct3 == 0
    then (if six_bits c == 0 || rd == 0 then none else some (asm_i 0x13 (pos (six_bits c)) rd 1 rd))
    else if funct3 == 2
    then (if rd == 0 then none else some (asm_i 0x03 (pos load) 2 2 rd))
    else if funct3 == 4 && c / 2 ^ 12 % 2 == 0
    then (if rd == 0
        then none
        else if rs2 == 0
        then some (asm_i 0x67 (pos 0) rd 0 0)
        else some (asm_r 0 rs2 0 0 rd))
    else if funct3 == 4
    then (if rs2 == 0
        then (if rd == 0 then some (asm_i 0x73 (pos 1) 0 0 0) else some (asm_i 0x67 (pos 0) rd 0 1))
        else some (asm_r 0 rs2 rd 0 rd))
    else if funct3 == 6
    then some (asm_sw rs2 store 2)
    else none

unfoldable pub manual : ℕ → Option ℕ
unfolding manual0 manual1 manual2
manual c =
    if c % 4 == 0
    then manual0 c
    else if c % 4 == 1
    then manual1 c
    else if c % 4 == 2
    then manual2 c
    else none
