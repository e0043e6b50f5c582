-- ===== src/Invariant/Alu.antt =====
-- The results of the arithmetic instructions fit a register.
use riscv_python.Prelude.{
  ℕ, ◌+◌, ◌/◌, ◌%◌, ◌^◌, ◌<◌, ◌==◌, bit_and, Bool, true, false, Option, none, some, if◌then◌else◌,
  arith,
}
use riscv_python.Prelude.Int.{ℤ, to_u32-lt}
use riscv_python.State.{System, Decoded}
use riscv_python.State.Leaves.{Leaves, Leaves-if, Leaves-unit, Any}
use riscv_python.Bits.{bit_or-lt, bit_xor-lt, bit_and-le}
use riscv_python.Cpu.Word.{int_of}
use riscv_python.Cpu.Alu.{
  add_sub_mul, sll_mulh, slt_mulhsu, sltu_mulhu, signed_div, xor_div, srl_sra_divu, signed_rem,
  or_rem, and_remu, write_result, exec_rtype, itype_result, exec_itype, exec_lui, exec_auipc,
}
use riscv_python.Invariant.Defs.{IsWf, set_reg-IsWf}
use riscv_python.Invariant.Trap.{trap-Leaves}

-- A result, if there is one, fits a register.
abbrev pub ResultFits : Option ℕ → Type 0
ResultFits none = Unit
ResultFits (some v) = v < 2 ^ 32

ResultFits-if :
    (b : Bool) (x y : Option ℕ) → ResultFits x → ResultFits y → ResultFits (if b then x else y)
ResultFits-if true x y hx hy = hx
ResultFits-if false x y hx hy = hy

int_of-lt : (b : Bool) → int_of b < 2 ^ 32
int_of-lt true = omega arith
int_of-lt false = omega arith

mod-lt : (x : ℕ) → x % 2 ^ 32 < 2 ^ 32
mod-lt x = omega arith

shift-lt : (x k : ℕ) → x % 2 ^ 32 / 2 ^ k < 2 ^ 32
shift-lt x k = omega arith

if-lt : (b : Bool) (x y : ℕ) → x < 2 ^ 32 → y < 2 ^ 32 → (if b then x else y) < 2 ^ 32
if-lt true x y hx hy = hx
if-lt false x y hx hy = hy

bit_and-lt : (a b : ℕ) → a < 2 ^ 32 → bit_and a b < 2 ^ 32
bit_and-lt a b h = omega (arith, bit_and-le a b)

signed_div-lt : (a b : ℕ) → signed_div a b < 2 ^ 32
unfolding signed_div
signed_div-lt a b =
    if-lt _ 0xFFFFFFFF _ (omega arith) (if-lt _ 0x80000000 _ (omega arith) (to_u32-lt _))

signed_rem-lt : (a b : ℕ) → signed_rem a b < 2 ^ 32
unfolding signed_rem
signed_rem-lt a b = if-lt _ _ _ (mod-lt a) (if-lt _ 0 _ (omega arith) (to_u32-lt _))

module _ (f a b : ℕ) where
  add_sub_mul-ResultFits : ResultFits (add_sub_mul f a b)
  unfolding add_sub_mul
  add_sub_mul-ResultFits = ResultFits-if (f == 0x00) (some _) _ (mod-lt (a + b)) (
      ResultFits-if (f == 0x20) (some _) _ (to_u32-lt _)
        (ResultFits-if (f == 0x01) (some _) none (to_u32-lt _) tt))

  sll_mulh-ResultFits : ResultFits (sll_mulh f a b)
  unfolding sll_mulh
  sll_mulh-ResultFits =
      ResultFits-if (f == 0x00) (some _) _ (mod-lt _)
        (ResultFits-if (f == 0x01) (some _) none (to_u32-lt _) tt)

  slt_mulhsu-ResultFits : ResultFits (slt_mulhsu f a b)
  unfolding slt_mulhsu
  slt_mulhsu-ResultFits =
      ResultFits-if (f == 0x00) (some _) _ (int_of-lt _)
        (ResultFits-if (f == 0x01) (some _) none (to_u32-lt _) tt)

  sltu_mulhu-ResultFits : ResultFits (sltu_mulhu f a b)
  unfolding sltu_mulhu
  sltu_mulhu-ResultFits =
      ResultFits-if (f == 0x00) (some _) _ (int_of-lt _)
        (ResultFits-if (f == 0x01) (some _) none (mod-lt _) tt)

  srl_sra_divu-ResultFits : ResultFits (srl_sra_divu f a b)
  unfolding srl_sra_divu
  srl_sra_divu-ResultFits = ResultFits-if (f == 0x00) (some _) _ (shift-lt a _) (
      ResultFits-if (f == 0x20) (some _) _ (to_u32-lt _) (
        ResultFits-if (f == 0x01) (some _) none (if-lt _ 0xFFFFFFFF _ (omega arith) (mod-lt _)) tt))

module _ (f a b : ℕ) (ha : a < 2 ^ 32) (hb : b < 2 ^ 32) where
  xor_div-ResultFits : ResultFits (xor_div f a b)
  unfolding xor_div
  xor_div-ResultFits =
      ResultFits-if (f == 0x00) (some _) _ (bit_xor-lt 32 a b ha hb)
        (ResultFits-if (f == 0x01) (some _) none (signed_div-lt a b) tt)

  or_rem-ResultFits : ResultFits (or_rem f a b)
  unfolding or_rem
  or_rem-ResultFits =
      ResultFits-if (f == 0x00) (some _) _ (bit_or-lt 32 a b ha hb)
        (ResultFits-if (f == 0x01) (some _) none (signed_rem-lt a b) tt)

  and_remu-ResultFits : ResultFits (and_remu f a b)
  unfolding and_remu
  and_remu-ResultFits =
      ResultFits-if (f == 0x00) (some _) _ (bit_and-lt a b ha)
        (ResultFits-if (f == 0x01) (some _) none (if-lt _ _ _ (mod-lt a) (mod-lt _)) tt)

itype_result-ResultFits : (f3 f7 a : ℕ) (imm : ℤ) → ResultFits (itype_result f3 f7 a imm)
unfolding itype_result
itype_result-ResultFits f3 f7 a imm = ResultFits-if (f3 == 0x0) (some _) _ (to_u32-lt _) (
    ResultFits-if (f3 == 0x1) _ _ (ResultFits-if (f7 == 0x00) (some _) none (mod-lt _) tt) (
      ResultFits-if (f3 == 0x2) (some _) _ (int_of-lt _) (
        ResultFits-if (f3 == 0x3) (some _) _ (int_of-lt _) (
          ResultFits-if (f3 == 0x4) (some _) _ (bit_xor-lt 32 _ _ (mod-lt a) (to_u32-lt imm)) (
            ResultFits-if (f3 == 0x5) _ _
              (ResultFits-if (f7 == 0x00) (some _) _ (shift-lt a _)
                (ResultFits-if (f7 == 0x20) (some _) none (to_u32-lt _) tt))
              (ResultFits-if (f3 == 0x6) (some _) (some _)
                (bit_or-lt 32 _ _ (mod-lt a) (to_u32-lt imm)) (bit_and-lt _ _ (mod-lt a))))))))

module _ (inst size : ℕ) (d : Decoded) (s : System) (hi : inst < 2 ^ 32) (h : IsWf s) where
  write_result-Leaves :
      (rd : ℕ) (o : Option ℕ) → ResultFits o → Leaves IsWf Any (write_result inst rd o s)
  unfolding write_result
  write_result-Leaves rd none hv = trap-Leaves 2 inst true s (omega arith) hi h
  write_result-Leaves rd (some v) hv = Leaves-unit _ (set_reg-IsWf rd v s hv h)

  pub exec_rtype-Leaves : Leaves IsWf Any (exec_rtype inst size d s)
  unfolding exec_rtype
  exec_rtype-Leaves =
      let a = s.cpu.registers d.rs1 in
      let b = s.cpu.registers d.rs2 in
      let ha = h.registers d.rs1 in
      let hb = h.registers d.rs2 in
      let f = d.funct7 in
      let result = write_result-Leaves d.rd in
      Leaves-if (d.funct3 == 0x0) _ _ (result _ (add_sub_mul-ResultFits f a b)) (
        Leaves-if (d.funct3 == 0x1) _ _ (result _ (sll_mulh-ResultFits f a b)) (
          Leaves-if (d.funct3 == 0x2) _ _ (result _ (slt_mulhsu-ResultFits f a b)) (
            Leaves-if (d.funct3 == 0x3) _ _ (result _ (sltu_mulhu-ResultFits f a b)) (
              Leaves-if (d.funct3 == 0x4) _ _ (result _ (xor_div-ResultFits f a b ha hb)) (
                Leaves-if (d.funct3 == 0x5) _ _ (result _ (srl_sra_divu-ResultFits f a b)) (
                  Leaves-if (d.funct3 == 0x6) _ _ (result _ (or_rem-ResultFits f a b ha hb)) (
                    Leaves-if (d.funct3 == 0x7) _ _ (result _ (and_remu-ResultFits f a b ha hb))
                      (Leaves-unit s h))))))))

  pub exec_itype-Leaves : Leaves IsWf Any (exec_itype inst size d s)
  unfolding exec_itype
  exec_itype-Leaves = write_result-Leaves d.rd _ (itype_result-ResultFits d.funct3 d.funct7 _ _)

  pub exec_lui-Leaves : Leaves IsWf Any (exec_lui inst size d s)
  unfolding exec_lui
  exec_lui-Leaves = Leaves-unit _ (set_reg-IsWf d.rd _ s (mod-lt _) h)

  pub exec_auipc-Leaves : Leaves IsWf Any (exec_auipc inst size d s)
  unfolding exec_auipc
  exec_auipc-Leaves = Leaves-unit _ (set_reg-IsWf d.rd _ s (mod-lt _) h)
