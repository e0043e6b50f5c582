-- ===== src/Rvc/Fields.antt =====
-- Masks, shifts and the assembly of 32-bit formats as rvc.py writes them.
use riscv_python.Prelude.{ℕ, ◌+◌, ◌-◌, ◌*◌, ◌/◌, ◌%◌, ◌^◌, bit_and, bit_or, ◌==◌, if◌then◌else◌}

-- `(c_inst >> k) & mask` and `(c_inst << k) & mask`
unfoldable pub right : ℕ → ℕ → ℕ → ℕ
right c k mask = bit_and (c / 2 ^ k) mask

unfoldable pub left : ℕ → ℕ → ℕ → ℕ
left c k mask = bit_and (c * 2 ^ k) mask

infixl 60 ◌∣∣◌
-- `a | b`
abbrev pub ◌∣∣◌ : ℕ → ℕ → ℕ
a ∣∣ b = bit_or a b

-- `if imm & sign: imm -= 2 * sign` and `imm & (2 ^ width - 1)`, for `sign < 2 ^ width`
unfoldable pub extend : ℕ → ℕ → ℕ → ℕ
extend sign width imm =
    if bit_and imm sign == 0 then imm % 2 ^ width else (imm + 2 ^ width - 2 * sign) % 2 ^ width

-- `(imm << 20) | (rs1 << 15) | (funct3 << 12) | (rd << 7) | opcode`
unfoldable pub i_type : ℕ → ℕ → ℕ → ℕ → ℕ → ℕ
i_type imm rs1 funct3 rd opcode =
    imm * 2 ^ 20 ∣∣ rs1 * 2 ^ 15 ∣∣ funct3 * 2 ^ 12 ∣∣ rd * 2 ^ 7 ∣∣ opcode

-- `(funct7 << 25) | (rs2 << 20) | (rs1 << 15) | (funct3 << 12) | (rd << 7) | opcode`, and the
-- S format, whose two parts of the immediate stand in the places of `funct7` and `rd`.
unfoldable pub r_type : ℕ → ℕ → ℕ → ℕ → ℕ → ℕ → ℕ
r_type funct7 rs2 rs1 funct3 rd opcode =
    funct7 * 2 ^ 25 ∣∣ rs2 * 2 ^ 20 ∣∣ rs1 * 2 ^ 15 ∣∣ funct3 * 2 ^ 12 ∣∣ rd * 2 ^ 7 ∣∣ opcode
