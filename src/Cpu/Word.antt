-- ===== src/Cpu/Word.antt =====
-- The numbers that the opcode handlers of cpu.py compute with. A register holds a number that is
-- not negative; what Python computes as a negative number is a ℤ here.
use riscv_python.Prelude.{
  ℕ, zero, suc, ◌+◌, ◌*◌, ◌/◌, ◌%◌, ◌^◌, Bool, true, false, leb, ltb, ◌==◌, if◌then◌else◌,
}
use riscv_python.Prelude.Int.{ℤ, pos, negsuc, ◌-ℤ◌, ltb_ℤ, sub_ℕ}

-- `signed32(val)`
unfoldable pub signed32 : ℤ → ℤ
signed32 val = if ltb_ℤ val (pos 0x80000000) then val else val -ℤ pos 0x100000000

-- `int(b)` of a test
abbrev pub int_of : Bool → ℕ
int_of true = 1
int_of false = 0

-- The least number of doublings of `n` that bring the quotient by `d` to 2 ^ 52 or more: the
-- exponent of a double. A quotient of two 32-bit numbers needs at most 84.
unfoldable pub scale : ℕ → ℕ → ℕ → ℕ
scale zero n d = 0
scale (suc fuel) n d = elim (leb (2 ^ 52 * d) n) [ true ↦ 0 | false ↦ suc (scale fuel (n * 2) d) ]

-- The nearest integer to `x / d`, and the even one of two.
unfoldable pub round_half_even : ℕ → ℕ → ℕ
round_half_even x d =
    if ltb (2 * (x % d)) d
    then x / d
    else if ltb d (2 * (x % d))
    then x / d + 1
    else x / d + x / d % 2

-- `int(n / d)` of Python: `/` rounds the quotient to a double, with a significand of 53 bits, and
-- `int` cuts off its fraction.
unfoldable pub int_of_quotient : ℕ → ℕ → ℕ
unfolding scale round_half_even
int_of_quotient n d =
    if n == 0 then 0 else let k = scale 84 n d in round_half_even (n * 2 ^ k) d / 2 ^ k

-- The same of signed numbers: the sign of a double is apart, and `int` cuts towards zero.
unfoldable pub int_of_quotient_ℤ : ℤ → ℤ → ℤ
unfolding int_of_quotient
int_of_quotient_ℤ (pos n) (pos d) = pos (int_of_quotient n d)
int_of_quotient_ℤ (pos n) (negsuc d) = sub_ℕ 0 (int_of_quotient n (suc d))
int_of_quotient_ℤ (negsuc n) (pos d) = sub_ℕ 0 (int_of_quotient (suc n) d)
int_of_quotient_ℤ (negsuc n) (negsuc d) = pos (int_of_quotient (suc n) (suc d))

-- `imm = inst >> 20`, and `if imm >= 0x800: imm -= 0x1000`.
unfoldable pub imm_i : ℕ → ℤ
imm_i inst = let imm = inst / 2 ^ 20 in if leb 0x800 imm then pos imm -ℤ pos 0x1000 else pos imm
